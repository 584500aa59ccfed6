-- ===== src/Session/Connection.antt =====
-- Connecting, and what a session knows of its server, in ext/libssh_ruby/session.c.
use libssh_ruby.Value.{Value, nil, fixnum}
use libssh_ruby.Libssh.{
  Platform, ssh_connect, ssh_disconnect, ssh_is_server_known, ssh_get_fd, ssh_get_publickey,
  ssh_write_knownhost,
}
use libssh_ruby.Runtime.{key, Action, pure, ◌>>=◌, ◌>>◌, libssh}
use libssh_ruby.Runtime.Objects.{get_session, load_session, get_key, store}
use libssh_ruby.Key.{key_alloc}
use libssh_ruby.Session.{raise_if_error}

module _ (P : Platform) where
  unfoldable pub m_connect : Value → Action P.State Value
  unfolding ◌>>=◌ libssh get_session load_session raise_if_error
  m_connect self = do
    holder ← get_session self
    s ← load_session holder
    rc ← libssh P (ssh_connect s)
    raise_if_error P holder rc
    pure nil

  unfoldable pub m_disconnect : Value → Action P.State Value
  unfolding ◌>>=◌ libssh get_session load_session
  m_disconnect self = do
    holder ← get_session self
    s ← load_session holder
    libssh P (ssh_disconnect s)
    pure nil

  unfoldable pub m_server_known : Value → Action P.State Value
  unfolding ◌>>=◌ libssh get_session load_session raise_if_error
  m_server_known self = do
    holder ← get_session self
    s ← load_session holder
    rc ← libssh P (ssh_is_server_known s)
    raise_if_error P holder rc
    pure (fixnum rc)

  unfoldable pub m_fd : Value → Action P.State Value
  unfolding ◌>>=◌ libssh get_session load_session
  m_fd self = do
    holder ← get_session self
    s ← load_session holder
    fd ← libssh P (ssh_get_fd s)
    pure (fixnum fd)

  unfoldable pub m_get_publickey : Value → Action P.State Value
  unfolding ◌>>=◌ libssh get_session load_session raise_if_error key_alloc get_key store
  m_get_publickey self = do
    holder ← get_session self
    k ← key_alloc P
    key_holder ← get_key k
    s ← load_session holder
    (rc, out) ← libssh P (ssh_get_publickey s)
    store key_holder (key out)
    raise_if_error P holder rc
    pure k

  unfoldable pub m_write_knownhost : Value → Action P.State Value
  unfolding ◌>>=◌ libssh get_session load_session raise_if_error
  m_write_knownhost self = do
    holder ← get_session self
    s ← load_session holder
    rc ← libssh P (ssh_write_knownhost s)
    raise_if_error P holder rc
    pure nil
