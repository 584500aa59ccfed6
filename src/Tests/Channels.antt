-- ===== src/Tests/Channels.antt =====
-- The theorems on channels at concrete states.
use libssh_ruby.Base.{ℕ, pos, negsuc, ◌≡◌, refl, codes, false, some, none, [], ◌∷◌, arith}
use libssh_ruby.Value.{
  nil, fixnum, string, object, array, Values, empty, entry, type_error, ok, raised,
}
use libssh_ruby.Libssh.{
  ssh_channel_open_session, ssh_channel_open_forward, ssh_channel_read_timeout,
  ssh_channel_read_nonblocking, ssh_channel_poll_timeout, ssh_channel_select, ssh_channel_close,
}
use libssh_ruby.Runtime.{World}
use libssh_ruby.Runtime.Api.{get_kwargs, keyword, check_fixnum, fix2int, fix2uint}
use libssh_ruby.Runtime.Trace.{after}
use libssh_ruby.Channel.Requests.{m_open_session, m_open_forward, m_close}
use libssh_ruby.Channel.Guarded.{guarded_requests}
use libssh_ruby.Channel.Bracket.{connection_asked, open_session_lem, open_forward_lem}
use libssh_ruby.Channel.Stream.{m_read, m_read_nonblocking, m_poll}
use libssh_ruby.Channel.Stream.Buffers.{read_lem, read_nonblocking_lem, poll_lem}
use libssh_ruby.Channel.Select.{s_select}
use libssh_ruby.Channel.Select.Arrays.{select_lem, select-leaks}
use libssh_ruby.Tests.{machine, world, block}

abbrev opened : World ℕ
opened =
    after machine (ssh_channel_open_session (some 10)) (connection_asked machine (some 10) world)

open_session_lem_example :
    m_open_session machine (some block) (object 1) world
    ≡ (ok (fixnum (pos 5)), after machine (ssh_channel_close (some 10)) opened)
open_session_lem_example =
    open_session_lem machine 1 block (some 10) (some 10) (object 0) (object 0) world opened
      (ok (fixnum (pos 5))) refl refl (ground arith) refl

abbrev forwarded : World ℕ
forwarded =
    after machine
      (ssh_channel_open_forward (some 10) (codes "db") (pos 80) (codes "localhost") (pos 22)) world

open_forward_lem_example :
    m_open_forward machine (some block) (object 1) (string (codes "db")) (fixnum (pos 80)) world
    ≡ (ok (fixnum (pos 5)), after machine (ssh_channel_close (some 10)) forwarded)
open_forward_lem_example =
    open_forward_lem machine 1 block (some 10) (some 10) (object 0) (object 0) world forwarded
      (ok (fixnum (pos 5))) (codes "db") (pos 80) refl refl refl refl (ground arith) refl

guarded_requests_example :
    m_close machine (object 1) world ≡ (ok nil, after machine (ssh_channel_close (some 10)) world)
guarded_requests_example =
    (guarded_requests machine 1 (some 10) (object 0) world refl (codes "ls") (codes "in") refl).0

read_lem_example :
    m_read machine (fixnum (pos 8) ∷ []) (("timeout", fixnum (pos 3)) ∷ []) (object 1) world ≡ (
      ok (string (codes "ok")),
      after machine (ssh_channel_read_timeout (some 10) 8 false (pos 3)) world,
    )
unfolding get_kwargs check_fixnum fix2int fix2uint
read_lem_example =
    read_lem machine 1 (some 10) (object 0) world refl (pos 8) 8 refl refl
      (("timeout", fixnum (pos 3)) ∷ []) (keyword (("timeout", fixnum (pos 3)) ∷ [])) (pos 3) refl
      refl (omega arith)

-- A count of -1 asks for 2 ^ 32 - 1 bytes.
read_nonblocking_lem_example :
    m_read_nonblocking machine (fixnum (negsuc 0) ∷ nil ∷ []) (object 1) world ≡ (
      ok (string (codes "x")),
      after machine (ssh_channel_read_nonblocking (some 10) 4294967295 false) world,
    )
unfolding fix2uint
read_nonblocking_lem_example =
    read_nonblocking_lem machine 1 (some 10) (object 0) world refl (negsuc 0) 4294967295 refl refl
      nil (omega arith)

poll_lem_example : m_poll machine [] [] (object 1) world ≡ (
  ok (fixnum (pos 0)),
  after machine (ssh_channel_poll_timeout (some 10) (negsuc 0) false) world,
)
unfolding get_kwargs
poll_lem_example =
    poll_lem machine 1 (some 10) (object 0) world refl [] (keyword []) (negsuc 0) refl refl

abbrev one_channel : Values
one_channel = entry (object 1) empty

select_lem_example :
    s_select machine
      (array one_channel)
      (array empty)
      (array (entry (object 1) one_channel))
      nil
      world
    ≡ (
      ok nil,
      after machine
          (ssh_channel_select
            (some (some 10 ∷ none ∷ []))
            none
            (some (some 10 ∷ some 10 ∷ none ∷ []))
            none)
          world,
    )
select_lem_example =
    select_lem machine (λ n. refl) world one_channel empty (entry (object 1) one_channel)
      (some 10 ∷ []) [] (some 10 ∷ some 10 ∷ []) nil none refl refl refl refl

select-leaks_example :
    s_select machine (array one_channel) (array (entry (object 0) empty)) (array empty) nil world
    ≡ (raised type_error, record world { buffers = 1 })
select-leaks_example =
    select-leaks machine (λ n. refl) world one_channel (entry (object 0) empty) (array empty) nil
      (some 10) [] none refl refl refl refl
