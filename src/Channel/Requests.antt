-- ===== src/Channel/Requests.antt =====
-- Opening, requests and closing in ext/libssh_ruby/channel.c.
use libssh_ruby.Base.{pos, ◌==ℤ◌, Option, codes, if◌then◌else◌}
use libssh_ruby.Value.{Value, nil, arg_error}
use libssh_ruby.Libssh.{
  Platform, ssh_channel_close, ssh_channel_get_session, ssh_is_connected, ssh_channel_open_session,
  ssh_channel_open_forward, ssh_channel_request_exec, ssh_channel_request_pty, ssh_channel_send_eof,
}
use libssh_ruby.Runtime.{Action, pure, raise, lift, ◌>>=◌, ◌>>◌, libssh}
use libssh_ruby.Runtime.Api.{check_fixnum, fix2int, string_value_cstr, yield_ensure}
use libssh_ruby.Runtime.Objects.{get_channel, load_channel}
use libssh_ruby.Channel.{raise_if_error}

module _ (P : Platform) where
  unfoldable pub m_close : Value → Action P.State Value
  unfolding ◌>>=◌ libssh get_channel load_channel raise_if_error
  m_close self = do
    holder ← get_channel self
    (c, _) ← load_channel holder
    rc ← libssh P (ssh_channel_close c)
    raise_if_error P holder rc
    pure nil

  -- The first argument is the block, if one is given.
  unfoldable pub m_open_session : Option (Action P.State Value) → Value → Action P.State Value
  unfolding ◌>>=◌ libssh get_channel load_channel raise_if_error yield_ensure m_close
  m_open_session block self = do
    holder ← get_channel self
    (c, _) ← load_channel holder
    s ← libssh P (ssh_channel_get_session c)
    connected ← libssh P (ssh_is_connected s)
    if connected ==ℤ pos 0 then raise arg_error else pure tt
    (c', _) ← load_channel holder
    rc ← libssh P (ssh_channel_open_session c')
    raise_if_error P holder rc
    yield_ensure block (m_close self)

  unfoldable pub m_open_forward :
      Option (Action P.State Value) → Value → Value → Value → Action P.State Value
  unfolding ◌>>=◌ libssh get_channel load_channel raise_if_error yield_ensure m_close check_fixnum
      fix2int string_value_cstr
  m_open_forward block self remote_host remote_port = do
    holder ← get_channel self
    host ← lift (string_value_cstr P remote_host)
    lift (check_fixnum remote_port)
    port ← lift (fix2int P remote_port)
    (c, _) ← load_channel holder
    rc ← libssh P (ssh_channel_open_forward c host port (codes "localhost") (pos 22))
    raise_if_error P holder rc
    yield_ensure block (m_close self)

  unfoldable pub m_request_exec : Value → Value → Action P.State Value
  unfolding ◌>>=◌ libssh get_channel load_channel raise_if_error string_value_cstr
  m_request_exec self cmd = do
    holder ← get_channel self
    (c, _) ← load_channel holder
    text ← lift (string_value_cstr P cmd)
    rc ← libssh P (ssh_channel_request_exec c text)
    raise_if_error P holder rc
    pure nil

  unfoldable pub m_request_pty : Value → Action P.State Value
  unfolding ◌>>=◌ libssh get_channel load_channel raise_if_error
  m_request_pty self = do
    holder ← get_channel self
    (c, _) ← load_channel holder
    rc ← libssh P (ssh_channel_request_pty c)
    raise_if_error P holder rc
    pure nil

  unfoldable pub m_send_eof : Value → Action P.State Value
  unfolding ◌>>=◌ libssh get_channel load_channel raise_if_error
  m_send_eof self = do
    holder ← get_channel self
    (c, _) ← load_channel holder
    rc ← libssh P (ssh_channel_send_eof c)
    raise_if_error P holder rc
    pure nil
