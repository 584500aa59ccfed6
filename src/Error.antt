-- ===== src/Error.antt =====
-- ext/libssh_ruby/error.c, and `LibSSH.version` of libssh_ruby.c.
pub mod Outcome
pub mod Version
use libssh_ruby.Base.{ℤ, pos, List}
use libssh_ruby.Value.{Value, nil, libssh_error, Result, ok, and_then}
use libssh_ruby.Libssh.{Handle, ssh_get_error_code, ssh_get_error, ssh_version, Platform}
use libssh_ruby.Runtime.{Action, raise, lift, ◌>>=◌, ◌>>◌, libssh, pure}
use libssh_ruby.Runtime.Api.{str_new_cstr, scan_args, check_fixnum, fix2int}

module _ (P : Platform) where
  -- `libssh_ruby_raise`: the session's last error as an exception.
  unfoldable pub libssh_ruby_raise : {A : Type 0} → Handle → Action P.State A
  unfolding ◌>>=◌ libssh str_new_cstr
  libssh_ruby_raise session = do
    code ← libssh P (ssh_get_error_code session)
    text ← libssh P (ssh_get_error session)
    message ← lift (str_new_cstr text)
    raise (libssh_error code message)

  abbrev requested : Value → Result ℤ
  requested nil = ok (pos 0)
  requested v = and_then (check_fixnum v) (λ _. fix2int P v)

  -- `LibSSH.version`
  unfoldable pub m_version : List Value → Action P.State Value
  unfolding ◌>>=◌ libssh scan_args check_fixnum fix2int str_new_cstr
  m_version argv = do
    arg ← lift (scan_args 0 1 argv)
    version ← lift (requested (arg 0))
    text ← libssh P (ssh_version version)
    lift (str_new_cstr text)
