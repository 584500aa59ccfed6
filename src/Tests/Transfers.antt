-- ===== src/Tests/Transfers.antt =====
-- The theorems on scps at concrete states.
use libssh_ruby.Base.{
  ℕ, zero, suc, ◌+◌, Bytes, String, pos, negsuc, ◌≡◌, ◌≢◌, ◌⊎◌, refl, codes, some, [], ◌∷◌, arith,
}
use libssh_ruby.Value.{Value, nil, fixnum, symbol, string, object, arg_error, ok, raised}
use libssh_ruby.Libssh.{
  Call, Answer, Platform, ScpMode, ssh_scp_pull_request, ssh_scp_accept_request,
  ssh_scp_request_get_size64, ssh_scp_init, ssh_scp_close, ssh_scp_push_file64, ssh_scp_read,
}
use libssh_ruby.Runtime.{World}
use libssh_ruby.Runtime.Trace.{after}
use libssh_ruby.Scp.{m_init, m_initialize}
use libssh_ruby.Scp.Transfer.{m_push_file, m_read}
use libssh_ruby.Scp.Guarded.{mode_name, newly, guarded_transfers, initialize_lem}
use libssh_ruby.Scp.Bracket.{init-closes}
use libssh_ruby.Scp.Buffers.{scp_read_lem}
use libssh_ruby.Scp.Script.{
  read, pull_request, accept_request, request_size, Script, finish, step, AllValid, perform, met,
  transfer,
}
use libssh_ruby.Scp.Sequence.{ReadFits, init-transfer}
use libssh_ruby.Tests.{answers, machine, world, block}

-- A size of -1 is announced as 2 ^ 64 - 1 bytes.
guarded_transfers_example :
    m_push_file machine (object 2) (string (codes "f")) (fixnum (negsuc 0)) (fixnum (pos 420)) world
    ≡ (
      ok nil,
      after machine
          (ssh_scp_push_file64 (some 20) (codes "f") 18446744073709551615 (pos 420))
          world,
    )
guarded_transfers_example =
    (guarded_transfers machine 2 0 (some 20) (some 1) world refl refl (codes "in") (codes "full")
      (codes "f") (negsuc 0) (pos 420) refl refl refl).6

initialize_lem_example :
    ((mode : ScpMode) × ("write" ≡ mode_name mode)
      × (m_initialize machine (object 2) (object 0) (symbol "write") (string (codes "f")) world
          ≡ newly machine 2 0 (some 20) (some 1) (object 0) world refl refl mode (codes "f")))
    ⊎ (((mode : ScpMode) → ◌≢◌ {A = String} "write" (mode_name mode))
        × (m_initialize machine (object 2) (object 0) (symbol "write") (string (codes "f")) world
            ≡ (raised arg_error, world)))
initialize_lem_example =
    initialize_lem machine 2 0 (some 20) (some 1) (object 0) world refl refl "write" (codes "f")
      refl

abbrev initialized : World ℕ
initialized = after machine (ssh_scp_init (some 20)) world

init-closes_example :
    m_init machine block (object 2) world
    ≡ (ok (fixnum (pos 5)), after machine (ssh_scp_close (some 20)) initialized)
init-closes_example =
    init-closes machine 2 block 0 (some 20) (some 20) (some 1) (object 0) world initialized
      (ok (fixnum (pos 5))) refl refl refl (ground arith) refl refl

scp_read_lem_example :
    m_read machine (object 2) (fixnum (pos 8)) world
    ≡ (ok (string (codes "in")), after machine (ssh_scp_read (some 20) 8) world)
scp_read_lem_example =
    scp_read_lem machine 2 0 (some 20) (some 1) world refl refl (pos 8) refl refl (omega arith)

-- A machine that reads as many bytes as it is asked for.
abbrev repeated : ℕ → Bytes
repeated zero = []
repeated (suc n) = 120 ∷ repeated n

abbrev full_answers : (c : Call) → Answer c
full_answers (ssh_scp_read p n) = (pos n, repeated n)
full_answers c = answers c

abbrev full_machine : Platform
full_machine = record machine { answer = λ c n. (full_answers c, n + 1) }

full_machine-ReadFits : ReadFits full_machine
full_machine-ReadFits = λ p n st. omega arith

-- example/scp_download.rb, for one file whose first three bytes are read.
abbrev accepted : Value → Script
accepted (fixnum size) = step accept_request (λ v. step (read (pos 3)) finish)
accepted v = finish nil

abbrev requested : Value → Script
requested (fixnum (pos zero)) = step request_size accepted
requested v = finish nil

abbrev download : Script
download = step pull_request requested

accepted-AllValid : (v : Value) → AllValid full_machine (accepted v)
accepted-AllValid (fixnum size) = (tt, λ v. ((refl, refl), λ x. tt))
accepted-AllValid v = tt

requested-AllValid : (v : Value) → AllValid full_machine (requested v)
requested-AllValid (fixnum (pos zero)) = (tt, accepted-AllValid)
requested-AllValid v = tt

init-transfer_example :
    m_init full_machine (perform full_machine download (object 2)) (object 2) world ≡ (
      ok (string (codes "xxx")),
      after full_machine (ssh_scp_close (some 20)) (
          after full_machine (ssh_scp_read (some 20) 3) (
            after full_machine (ssh_scp_accept_request (some 20)) (
              after full_machine (ssh_scp_request_get_size64 (some 20)) (
                after full_machine
                  (ssh_scp_pull_request (some 20))
                  (after full_machine (ssh_scp_init (some 20)) world))))),
    )
unfolding transfer met
init-transfer_example =
    init-transfer full_machine full_machine-ReadFits 2 0 (some 20) (some 1) download world refl refl
      (tt, requested-AllValid)
