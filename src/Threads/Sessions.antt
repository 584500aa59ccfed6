-- ===== src/Threads/Sessions.antt =====
-- The functions of ext/libssh_ruby/session.c that release Ruby's lock.
use libssh_ruby.Value.{Value, nil, fixnum}
use libssh_ruby.Libssh.{Platform, ssh_connect, ssh_disconnect, ssh_userauth_publickey_auto}
use libssh_ruby.Runtime.{Action, pure, ◌>>=◌, ◌>>◌}
use libssh_ruby.Runtime.Objects.{get_session, load_session}
use libssh_ruby.Session.{raise_if_error}
use libssh_ruby.Threads.{Suspended}

module _ (P : Platform) where
  unfoldable pub enter_connect : Value → Action P.State (Suspended P)
  unfolding ◌>>=◌ get_session load_session raise_if_error
  enter_connect self = do
    holder ← get_session self
    s ← load_session holder
    pure (ssh_connect s, λ rc. raise_if_error P holder rc >> pure nil)

  unfoldable pub enter_disconnect : Value → Action P.State (Suspended P)
  unfolding ◌>>=◌ get_session load_session
  enter_disconnect self = do
    holder ← get_session self
    s ← load_session holder
    pure (ssh_disconnect s, λ done. pure nil)

  unfoldable pub enter_userauth_publickey_auto : Value → Action P.State (Suspended P)
  unfolding ◌>>=◌ get_session load_session raise_if_error
  enter_userauth_publickey_auto self = do
    holder ← get_session self
    s ← load_session holder
    pure (ssh_userauth_publickey_auto s, λ rc. raise_if_error P holder rc >> pure (fixnum rc))
