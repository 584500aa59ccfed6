-- ===== src/Channel/Keeps.antt =====
-- The methods of a channel that write no holder keep every predicate that calls of libssh and the
-- use of buffers keep.
use libssh_ruby.Base.{ℕ, ℤ, List, Option, none, some, ◌≡◌, refl}
use libssh_ruby.Value.{Value, nil}
use libssh_ruby.Libssh.{Platform}
use libssh_ruby.Runtime.{World, Action}
use libssh_ruby.Runtime.Api.{Keywords, yield_ensure}
use libssh_ruby.Runtime.Keeps.{
  Keeps, Stable, Unbuffered, keeps_rules, Keeps-pure, Keeps-ensure, Keeps-alloc_n, Keeps-xfree,
}
use libssh_ruby.Session.Keeps.{libssh_ruby_raise-Keeps}
use libssh_ruby.Channel.{raise_if_error, m_eof_p, m_closed_p, m_open_p, m_get_exit_status}
use libssh_ruby.Channel.Requests.{
  m_close, m_open_session, m_open_forward, m_request_exec, m_request_pty, m_send_eof,
}
use libssh_ruby.Channel.Stream.{m_read, m_read_nonblocking, m_poll, m_write}

module _ (P : Platform) {I : World P.State → Type 0} (stable : Stable P I) where
  raise_if_error-Keeps : (a : ℕ) (rc : ℤ) → Keeps I (raise_if_error P a rc)
  unfolding raise_if_error
  raise_if_error-Keeps a rc = search (keeps_rules, libssh_ruby_raise-Keeps) depth 12

  pub m_eof_p-Keeps : (self : Value) → Keeps I (m_eof_p P self)
  unfolding m_eof_p
  m_eof_p-Keeps self = search keeps_rules depth 14

  pub m_closed_p-Keeps : (self : Value) → Keeps I (m_closed_p P self)
  unfolding m_closed_p
  m_closed_p-Keeps self = search keeps_rules depth 14

  pub m_open_p-Keeps : (self : Value) → Keeps I (m_open_p P self)
  unfolding m_open_p
  m_open_p-Keeps self = search keeps_rules depth 14

  pub m_get_exit_status-Keeps : (self : Value) → Keeps I (m_get_exit_status P self)
  unfolding m_get_exit_status
  m_get_exit_status-Keeps self = search keeps_rules depth 14

  pub m_close-Keeps : (self : Value) → Keeps I (m_close P self)
  unfolding m_close
  m_close-Keeps self = search (keeps_rules, raise_if_error-Keeps) depth 14

  pub m_request_pty-Keeps : (self : Value) → Keeps I (m_request_pty P self)
  unfolding m_request_pty
  m_request_pty-Keeps self = search (keeps_rules, raise_if_error-Keeps) depth 14

  pub m_send_eof-Keeps : (self : Value) → Keeps I (m_send_eof P self)
  unfolding m_send_eof
  m_send_eof-Keeps self = search (keeps_rules, raise_if_error-Keeps) depth 14

  pub m_request_exec-Keeps : (self : Value) (v : Value) → Keeps I (m_request_exec P self v)
  unfolding m_request_exec
  m_request_exec-Keeps self v = search (keeps_rules, raise_if_error-Keeps) depth 14

  pub m_write-Keeps : (self : Value) (v : Value) → Keeps I (m_write P self v)
  unfolding m_write
  m_write-Keeps self v = search (keeps_rules, raise_if_error-Keeps) depth 14

  pub m_poll-Keeps :
      (argv : List Value) (opts : Keywords) (self : Value) → Keeps I (m_poll P argv opts self)
  unfolding m_poll
  m_poll-Keeps argv opts self = search (keeps_rules, raise_if_error-Keeps) depth 14

  yield_ensure-Keeps :
      (block : Option (Action P.State Value)) (cleanup : Action P.State Value)
      → ((m : Action P.State Value) → block ≡ some m → Keeps I m)
      → Keeps I cleanup
      → Keeps I (yield_ensure block cleanup)
  unfolding yield_ensure
  yield_ensure-Keeps none cleanup kb kc = Keeps-pure nil
  yield_ensure-Keeps (some m) cleanup kb kc = Keeps-ensure m cleanup (kb m refl) kc

  pub m_open_session-Keeps :
      (block : Option (Action P.State Value)) (self : Value)
      → ((m : Action P.State Value) → block ≡ some m → Keeps I m)
      → Keeps I (m_open_session P block self)
  unfolding m_open_session
  m_open_session-Keeps block self kb =
      let ended = yield_ensure-Keeps block (m_close P self) kb (m_close-Keeps self) in
      search (keeps_rules, raise_if_error-Keeps) depth 18

  pub m_open_forward-Keeps :
      (block : Option (Action P.State Value)) (self host port : Value)
      → ((m : Action P.State Value) → block ≡ some m → Keeps I m)
      → Keeps I (m_open_forward P block self host port)
  unfolding m_open_forward
  m_open_forward-Keeps block self host port kb =
      let ended = yield_ensure-Keeps block (m_close P self) kb (m_close-Keeps self) in
      search (keeps_rules, raise_if_error-Keeps) depth 18

  module _ (unbuffered : Unbuffered I) where
    pub m_read-Keeps :
        (argv : List Value) (opts : Keywords) (self : Value) → Keeps I (m_read P argv opts self)
    unfolding m_read
    m_read-Keeps argv opts self = search (keeps_rules, Keeps-alloc_n, Keeps-xfree) depth 24

    pub m_read_nonblocking-Keeps :
        (argv : List Value) (self : Value) → Keeps I (m_read_nonblocking P argv self)
    unfolding m_read_nonblocking
    m_read_nonblocking-Keeps argv self = search (keeps_rules, Keeps-alloc_n, Keeps-xfree) depth 24
