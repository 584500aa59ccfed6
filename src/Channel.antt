-- ===== src/Channel.antt =====
-- The holder of a channel in ext/libssh_ruby/channel.c: creation, release, errors and the
-- questions about its state.
pub mod Requests
pub mod Stream
pub mod Select
pub mod Guarded
pub mod Bracket
pub mod Keeps
use libssh_ruby.Base.{ℕ, ℤ, negsuc, ◌==ℤ◌, none, some, if◌then◌else◌}
use libssh_ruby.Value.{Value, undef, nil, fixnum}
use libssh_ruby.Libssh.{
  Handle, Platform, ssh_channel_new, ssh_channel_get_session, ssh_channel_is_eof,
  ssh_channel_is_closed, ssh_channel_is_open, ssh_channel_get_exit_status,
}
use libssh_ruby.Runtime.{channel, Action, pure, ◌>>=◌, ◌>>◌, libssh}
use libssh_ruby.Runtime.Objects.{
  get_session, load_session, get_channel, load_channel, store, wrap_struct, free_holder,
}
use libssh_ruby.Error.{libssh_ruby_raise}
use libssh_ruby.Key.{truth}

module _ (P : Platform) where
  unfoldable pub channel_alloc : Action P.State Value
  unfolding wrap_struct
  channel_alloc = wrap_struct (channel none undef)

  -- The channel itself is left to its session. The argument is the holder.
  unfoldable pub channel_free : ℕ → Action P.State (Unit {0})
  unfolding ◌>>=◌ load_channel free_holder
  channel_free holder = do load_channel holder; free_holder holder

  unfoldable pub m_initialize : Value → Value → Action P.State Value
  unfolding ◌>>=◌ libssh get_session load_session get_channel store
  m_initialize self session = do
    holder ← get_channel self
    session_holder ← get_session session
    s ← load_session session_holder
    c ← libssh P (ssh_channel_new s)
    store holder (channel c session)
    pure self

  -- The macro `RAISE_IF_ERROR` of channel.c: the session is asked of the channel.
  unfoldable pub raise_if_error : ℕ → ℤ → Action P.State (Unit {0})
  unfolding ◌>>=◌ libssh load_channel libssh_ruby_raise
  raise_if_error holder rc =
      if rc ==ℤ P.ssh_error
      then (do
        (c, _) ← load_channel holder
        s ← libssh P (ssh_channel_get_session c)
        libssh_ruby_raise P s)
      else pure tt

  unfoldable pub m_eof_p : Value → Action P.State Value
  unfolding ◌>>=◌ libssh get_channel load_channel
  m_eof_p self = do
    holder ← get_channel self
    (c, _) ← load_channel holder
    rc ← libssh P (ssh_channel_is_eof c)
    pure (truth rc)

  unfoldable pub m_closed_p : Value → Action P.State Value
  unfolding ◌>>=◌ libssh get_channel load_channel
  m_closed_p self = do
    holder ← get_channel self
    (c, _) ← load_channel holder
    rc ← libssh P (ssh_channel_is_closed c)
    pure (truth rc)

  unfoldable pub m_open_p : Value → Action P.State Value
  unfolding ◌>>=◌ libssh get_channel load_channel
  m_open_p self = do
    holder ← get_channel self
    (c, _) ← load_channel holder
    rc ← libssh P (ssh_channel_is_open c)
    pure (truth rc)

  unfoldable pub m_get_exit_status : Value → Action P.State Value
  unfolding ◌>>=◌ libssh get_channel load_channel
  m_get_exit_status self = do
    holder ← get_channel self
    (c, _) ← load_channel holder
    rc ← libssh P (ssh_channel_get_exit_status c)
    pure (if rc ==ℤ negsuc 0 then nil else fixnum rc)
