-- ===== src/Tests/Soundness.antt =====
-- The theorems on undefined behaviour at concrete states.
use libssh_ruby.Base.{ℕ, ◌+◌, pos, ◌≡◌, ◌≢◌, refl, inl, inr, [], ◌∷◌, none, some, arith}
use libssh_ruby.Value.{object, fault}
use libssh_ruby.Libssh.{
  Call, Answer, Platform, ssh_channel_read_timeout, ssh_channel_read_nonblocking, ssh_scp_read,
}
use libssh_ruby.Runtime.{World, Heap, session, scp, update}
use libssh_ruby.Scp.{m_init, m_close}
use libssh_ruby.Gc.{sweep}
use libssh_ruby.Gc.Live.{In, Live}
use libssh_ruby.Gc.System.{Step}
use libssh_ruby.Sound.{Honest}
use libssh_ruby.Sound.NullScp.{null_scp_faults}
use libssh_ruby.Tests.{answers, machine, block}

-- A machine that never writes beyond a buffer, and cannot read an scp.
abbrev pub short_answers : (c : Call) → Answer c
short_answers (ssh_channel_read_timeout c n err t) = (pos 0, [])
short_answers (ssh_channel_read_nonblocking c n err) = (pos 0, [])
short_answers (ssh_scp_read p n) = (pos 0, [])
short_answers c = answers c

abbrev pub short_machine : Platform
short_machine = record machine { answer = λ c n. (short_answers c, n + 1) }

pub short_machine-Honest : Honest short_machine
short_machine-Honest = record {
  read_fits = λ c n err t s. ground arith;
  nonblocking_fits = λ c n err s. ground arith;
  scp_fits = λ p n s. ground arith;
  to_str_returns = λ v. ground arith;
  to_int_returns = λ v. ground arith;
  big2ulong_returns = λ v. ground arith;
  ary_join_returns = λ vs sep. ground arith;
}

-- An scp that is NULL, and its session.
abbrev null_heap : Heap
null_heap = update (update (λ a. none) 0 (some (session (some 1)))) 1 (some (scp none (object 0)))

abbrev null_world : World ℕ
null_world = record { heap = null_heap; next = 2; buffers = 0; ssh = 0; calls = [] }

-- A machine that refuses every scp.
abbrev refusing : Platform
refusing = record machine { ssh_error = pos 0 }

unrooted_session : (x : ℕ) → In (1 ∷ []) x → x ≢ 0
unrooted_session x (inl e) = λ is_session. omega (arith, e, is_session)
unrooted_session x (inr e) = elim e [ ]

null_scp_faults_example :
    Step refusing (1 ∷ []) null_world (1 ∷ []) (sweep refusing 0 null_world).1
    × Live (1 ∷ []) (sweep refusing 0 null_world).1.heap 1
    × ((m_init refusing block (object 1) (sweep refusing 0 null_world).1).0 ≡ fault)
    × ((m_close refusing (object 1) (sweep refusing 0 null_world).1).0 ≡ fault)
null_scp_faults_example =
    null_scp_faults refusing (1 ∷ []) 1 0 (some 1) block null_world (inl refl) refl refl
      unrooted_session (λ x other e. ground arith) refl refl
