-- ===== src/Session.antt =====
-- The holder of a session in ext/libssh_ruby/session.c: creation, release and errors.
pub mod Guarded
pub mod Keeps
pub mod Options
pub mod Connection
pub mod Auth
use libssh_ruby.Base.{ℕ, ℤ, ◌==ℤ◌, none, some, if◌then◌else◌}
use libssh_ruby.Value.{Value}
use libssh_ruby.Libssh.{Handle, Platform, ssh_new, ssh_free}
use libssh_ruby.Runtime.{session, Action, pure, ◌>>=◌, ◌>>◌, libssh}
use libssh_ruby.Runtime.Objects.{get_session, load_session, store, wrap_struct, free_holder}
use libssh_ruby.Error.{libssh_ruby_raise}

module _ (P : Platform) where
  unfoldable pub session_alloc : Action P.State Value
  unfolding wrap_struct
  session_alloc = wrap_struct (session none)

  abbrev free_session : Handle → Action P.State (Unit {0})
  free_session none = pure tt
  free_session (some s) = libssh P (ssh_free (some s))

  -- The argument is the holder.
  unfoldable pub session_free : ℕ → Action P.State (Unit {0})
  unfolding ◌>>=◌ libssh load_session free_holder
  session_free holder = do s ← load_session holder; free_session s; free_holder holder

  unfoldable pub m_initialize : Value → Action P.State Value
  unfolding ◌>>=◌ libssh get_session store
  m_initialize self = do
    holder ← get_session self
    s ← libssh P ssh_new
    store holder (session s)
    pure self

  -- The macro `RAISE_IF_ERROR` of session.c; the holder is read again.
  unfoldable pub raise_if_error : ℕ → ℤ → Action P.State (Unit {0})
  unfolding ◌>>=◌ load_session libssh_ruby_raise
  raise_if_error holder rc =
      if rc ==ℤ P.ssh_error then load_session holder >>= libssh_ruby_raise P else pure tt
