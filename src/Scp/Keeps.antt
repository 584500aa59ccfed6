-- ===== src/Scp/Keeps.antt =====
-- The methods of an scp and of a key that write no holder keep every predicate that calls of
-- libssh and the use of buffers keep.
use libssh_ruby.Base.{ℕ, ℤ}
use libssh_ruby.Value.{Value}
use libssh_ruby.Libssh.{Platform}
use libssh_ruby.Runtime.{World, Action}
use libssh_ruby.Runtime.Keeps.{Keeps, Stable, Unbuffered, keeps_rules, Keeps-alloc_n, Keeps-xfree}
use libssh_ruby.Session.Keeps.{libssh_ruby_raise-Keeps}
use libssh_ruby.Key.{m_sha1, m_type, m_type_str, m_public_p, m_private_p}
use libssh_ruby.Scp.{raise_if_error, m_close, m_init}
use libssh_ruby.Scp.Transfer.{
  m_push_file, m_write, m_pull_request, m_request_size, m_request_filename, m_request_permissions,
  m_accept_request, m_deny_request, m_read, m_request_warning,
}

module _ (P : Platform) {I : World P.State → Type 0} (stable : Stable P I) where
  raise_if_error-Keeps : (a : ℕ) (rc : ℤ) → Keeps I (raise_if_error P a rc)
  unfolding raise_if_error
  raise_if_error-Keeps a rc = search (keeps_rules, libssh_ruby_raise-Keeps) depth 12

  pub m_sha1-Keeps : (self : Value) → Keeps I (m_sha1 P self)
  unfolding m_sha1
  m_sha1-Keeps self = search keeps_rules depth 14

  pub m_type-Keeps : (self : Value) → Keeps I (m_type P self)
  unfolding m_type
  m_type-Keeps self = search keeps_rules depth 14

  pub m_type_str-Keeps : (self : Value) → Keeps I (m_type_str P self)
  unfolding m_type_str
  m_type_str-Keeps self = search keeps_rules depth 14

  pub m_public_p-Keeps : (self : Value) → Keeps I (m_public_p P self)
  unfolding m_public_p
  m_public_p-Keeps self = search keeps_rules depth 14

  pub m_private_p-Keeps : (self : Value) → Keeps I (m_private_p P self)
  unfolding m_private_p
  m_private_p-Keeps self = search keeps_rules depth 14

  pub m_close-Keeps : (self : Value) → Keeps I (m_close P self)
  unfolding m_close
  m_close-Keeps self = search (keeps_rules, raise_if_error-Keeps) depth 14

  pub m_pull_request-Keeps : (self : Value) → Keeps I (m_pull_request P self)
  unfolding m_pull_request
  m_pull_request-Keeps self = search (keeps_rules, raise_if_error-Keeps) depth 14

  pub m_request_size-Keeps : (self : Value) → Keeps I (m_request_size P self)
  unfolding m_request_size
  m_request_size-Keeps self = search keeps_rules depth 14

  pub m_request_filename-Keeps : (self : Value) → Keeps I (m_request_filename P self)
  unfolding m_request_filename
  m_request_filename-Keeps self = search keeps_rules depth 14

  pub m_request_permissions-Keeps : (self : Value) → Keeps I (m_request_permissions P self)
  unfolding m_request_permissions
  m_request_permissions-Keeps self = search (keeps_rules, raise_if_error-Keeps) depth 14

  pub m_accept_request-Keeps : (self : Value) → Keeps I (m_accept_request P self)
  unfolding m_accept_request
  m_accept_request-Keeps self = search (keeps_rules, raise_if_error-Keeps) depth 14

  pub m_request_warning-Keeps : (self : Value) → Keeps I (m_request_warning P self)
  unfolding m_request_warning
  m_request_warning-Keeps self = search keeps_rules depth 14

  pub m_write-Keeps : (self : Value) (v : Value) → Keeps I (m_write P self v)
  unfolding m_write
  m_write-Keeps self v = search (keeps_rules, raise_if_error-Keeps) depth 14

  pub m_deny_request-Keeps : (self : Value) (v : Value) → Keeps I (m_deny_request P self v)
  unfolding m_deny_request
  m_deny_request-Keeps self v = search (keeps_rules, raise_if_error-Keeps) depth 14

  pub m_push_file-Keeps :
      (self : Value) (name : Value) (size : Value) (mode : Value)
      → Keeps I (m_push_file P self name size mode)
  unfolding m_push_file
  m_push_file-Keeps self name size mode = search (keeps_rules, raise_if_error-Keeps) depth 14

  pub m_init-Keeps :
      (block : Action P.State Value) (self : Value) → Keeps I block → Keeps I (m_init P block self)
  unfolding m_init
  m_init-Keeps block self kb = search (keeps_rules, raise_if_error-Keeps, m_close-Keeps) depth 14

  module _ (unbuffered : Unbuffered I) where
    pub m_read-Keeps : (self size : Value) → Keeps I (m_read P self size)
    unfolding m_read
    m_read-Keeps self size =
        search (keeps_rules, raise_if_error-Keeps, Keeps-alloc_n, Keeps-xfree) depth 24
