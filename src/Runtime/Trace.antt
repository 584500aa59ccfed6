-- ===== src/Runtime/Trace.antt =====
-- What one call of libssh gives back, and the state that it leaves.
use libssh_ruby.Base.{◌∷◌}
use libssh_ruby.Libssh.{Call, Answer, Platform}
use libssh_ruby.Runtime.{World}

module _ (P : Platform) where
  abbrev pub reply : (c : Call) → World P.State → Answer c
  reply c w = (P.answer c w.ssh).0

  abbrev pub after : Call → World P.State → World P.State
  after c w = record w { ssh = (P.answer c w.ssh).1; calls = c ∷ w.calls }
