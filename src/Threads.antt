-- ===== src/Threads.antt =====
-- `rb_thread_call_without_gvl`, which all the `nogvl` functions of ext/libssh_ruby run under: other
-- threads are at work before libssh is called and behind the call, and Ruby looks for interrupts
-- at both ends.
pub mod Channels
pub mod Sessions
pub mod Scps
pub mod Methods
pub mod Alone
pub mod Requests
pub mod Openings
pub mod Races
pub mod Interrupts
use libssh_ruby.Value.{Value, ok}
use libssh_ruby.Libssh.{Call, Answer, Platform}
use libssh_ruby.Runtime.{Action, pure, ◌>>=◌, ◌>>◌, libssh}

-- A function of the extension that has come to its `nogvl` function: the call that this makes of
-- libssh, with the arguments that `args` holds, and what the function does with the answer.
abbrev pub Suspended : Platform → Type 0
Suspended P = (c : Call) × (Answer c → Action P.State Value)

-- What other threads do to the state, and the exception of an interrupt, if one is pending.
abbrev pub Others : Platform → Type 0
Others P = Action P.State (Unit {0})

-- No other thread, and no interrupt.
abbrev pub nobody : {S : Type 0} → Action S (Unit {0})
nobody w = (ok tt, w)

module _ (P : Platform) where
  unfoldable pub without_gvl : Others P → Others P → (c : Call) → Action P.State (Answer c)
  unfolding ◌>>=◌ libssh
  without_gvl before behind c = do before; answer ← libssh P c; behind; pure answer

  -- A function among other threads.
  unfoldable pub among : Others P → Others P → Action P.State (Suspended P) → Action P.State Value
  unfolding ◌>>=◌ without_gvl
  among before behind entered = do
    (c, resume) ← entered
    answer ← without_gvl before behind c
    resume answer
