-- ===== src/Gc/Keeper.antt =====
-- Every method of the four classes keeps a predicate on the state that its parts keep.
use libssh_ruby.Base.{Option, some, ◌≡◌}
use libssh_ruby.Value.{Value}
use libssh_ruby.Libssh.{Platform, OptionType}
use libssh_ruby.Runtime.{World, Action}
use libssh_ruby.Runtime.Keeps.{Keeps, Stable, Unbuffered}
use libssh_ruby.Methods.{
  SessionMethod, ChannelMethod, ScpMethod, KeyMethod, Method, of_session, of_channel, of_scp,
  of_key, open_session, open_forward, init, run_session, run_channel, run_scp, run_key, run,
}
use libssh_ruby.Key
use libssh_ruby.Session
use libssh_ruby.Session.Connection.{m_get_publickey}
use libssh_ruby.Channel
use libssh_ruby.Scp
use libssh_ruby.Session.Options
use libssh_ruby.Session.Keeps as SessionKeeps
use libssh_ruby.Channel.Keeps as ChannelKeeps
use libssh_ruby.Scp.Keeps as ScpKeeps

-- What is to be shown of a predicate so that all methods keep it: calls of libssh and buffers leave
-- it, and so do the functions that write a holder, if `initialize` is given a session that is fit.
pub record Keeper (P : Platform) (I : World P.State → Type 0) (Fit : Value → Type 0) : Type 0 where
  pub stable : Stable P I
  pub unbuffered : Unbuffered I
  pub session_initialize : (self : Value) → Keeps I (Session.m_initialize P self)
  pub key_initialize : (self : Value) → Keeps I (Key.m_initialize P self)
  pub get_publickey : (self : Value) → Keeps I (m_get_publickey P self)
  pub channel_initialize : (self v : Value) → Fit v → Keeps I (Channel.m_initialize P self v)
  pub scp_initialize :
      (self v mode path : Value) → Fit v → Keeps I (Scp.m_initialize P self v mode path)

-- What a call may be given: fit sessions, and blocks that keep the predicate.
module _ (P : Platform) (I : World P.State → Type 0) (Fit : Value → Type 0) where
  -- The session that is given to `initialize` is fit.
  abbrev pub ChannelFit : ChannelMethod → Type 0
  ChannelFit (ChannelMethod.initialize v) = Fit v
  ChannelFit _ = Unit

  abbrev pub ScpFit : ScpMethod → Type 0
  ScpFit (ScpMethod.initialize v mode path) = Fit v
  ScpFit _ = Unit

  abbrev BlockKeeps : Option (Action P.State Value) → Type 0
  BlockKeeps block = (m : Action P.State Value) → block ≡ some m → Keeps I m

  abbrev pub MethodFit : Method P.State → Type 0
  MethodFit (of_channel m) = ChannelFit m
  MethodFit (of_scp m) = ScpFit m
  MethodFit (open_session block) = BlockKeeps block
  MethodFit (open_forward block host port) = BlockKeeps block
  MethodFit (init block) = Keeps I block
  MethodFit _ = Unit

module _ (P : Platform) (I : World P.State → Type 0) (Fit : Value → Type 0)
    (keeper : Keeper P I Fit) where
  session-Keeps : (m : SessionMethod) (self : Value) → Keeps I (run_session P m self)
  unfolding run_session Options.m_set_host Options.m_set_user Options.m_set_port
      Options.m_set_bindaddr Options.m_set_knownhosts Options.m_set_timeout
      Options.m_set_timeout_usec Options.m_set_key_exchange Options.m_set_hostkeys
      Options.m_set_compression_level Options.m_set_stricthostkeycheck Options.m_set_proxycommand
      Options.m_set_gssapi_client_identity Options.m_set_gssapi_server_identity
      Options.m_set_gssapi_delegate_credentials
  session-Keeps SessionMethod.initialize self = keeper.session_initialize self
  session-Keeps SessionMethod.get_publickey self = keeper.get_publickey self
  session-Keeps SessionMethod.connect self = SessionKeeps.m_connect-Keeps P keeper.stable self
  session-Keeps SessionMethod.disconnect self = SessionKeeps.m_disconnect-Keeps P keeper.stable self
  session-Keeps SessionMethod.server_known self =
      SessionKeeps.m_server_known-Keeps P keeper.stable self
  session-Keeps SessionMethod.fd self = SessionKeeps.m_fd-Keeps P keeper.stable self
  session-Keeps SessionMethod.write_knownhost self =
      SessionKeeps.m_write_knownhost-Keeps P keeper.stable self
  session-Keeps SessionMethod.userauth_none self =
      SessionKeeps.m_userauth_none-Keeps P keeper.stable self
  session-Keeps SessionMethod.userauth_list self =
      SessionKeeps.m_userauth_list-Keeps P keeper.stable self
  session-Keeps SessionMethod.userauth_publickey_auto self =
      SessionKeeps.m_userauth_publickey_auto-Keeps P keeper.stable self
  session-Keeps (SessionMethod.userauth_password v) self =
      SessionKeeps.m_userauth_password-Keeps P keeper.stable self v
  session-Keeps (SessionMethod.parse_config argv) self =
      SessionKeeps.m_parse_config-Keeps P keeper.stable argv self
  session-Keeps (SessionMethod.set_log_verbosity v) self =
      SessionKeeps.m_set_log_verbosity-Keeps P keeper.stable self v
  session-Keeps (SessionMethod.set_host v) self =
      SessionKeeps.set_string_option-Keeps P keeper.stable self _ v
  session-Keeps (SessionMethod.set_user v) self =
      SessionKeeps.set_string_option-Keeps P keeper.stable self _ v
  session-Keeps (SessionMethod.set_port v) self =
      SessionKeeps.set_int_option-Keeps P keeper.stable self OptionType.port v
  session-Keeps (SessionMethod.set_bindaddr v) self =
      SessionKeeps.set_string_option-Keeps P keeper.stable self _ v
  session-Keeps (SessionMethod.set_knownhosts v) self =
      SessionKeeps.set_string_option-Keeps P keeper.stable self _ v
  session-Keeps (SessionMethod.set_timeout v) self =
      SessionKeeps.set_long_option-Keeps P keeper.stable self _ v
  session-Keeps (SessionMethod.set_timeout_usec v) self =
      SessionKeeps.set_long_option-Keeps P keeper.stable self _ v
  session-Keeps (SessionMethod.set_protocol v) self =
      SessionKeeps.m_set_protocol-Keeps P keeper.stable self v
  session-Keeps (SessionMethod.set_key_exchange v) self =
      SessionKeeps.set_comma_separated_option-Keeps P keeper.stable self _ v
  session-Keeps (SessionMethod.set_hostkeys v) self =
      SessionKeeps.set_comma_separated_option-Keeps P keeper.stable self _ v
  session-Keeps (SessionMethod.set_compression v) self =
      SessionKeeps.m_set_compression-Keeps P keeper.stable self v
  session-Keeps (SessionMethod.set_compression_level v) self =
      SessionKeeps.set_int_option-Keeps P keeper.stable self OptionType.compression_level v
  session-Keeps (SessionMethod.set_stricthostkeycheck v) self =
      SessionKeeps.set_int_option-Keeps P keeper.stable self OptionType.stricthostkeycheck
        (Options.flag P v)
  session-Keeps (SessionMethod.set_proxycommand v) self =
      SessionKeeps.set_string_option-Keeps P keeper.stable self _ v
  session-Keeps (SessionMethod.set_gssapi_client_identity v) self =
      SessionKeeps.set_string_option-Keeps P keeper.stable self _ v
  session-Keeps (SessionMethod.set_gssapi_server_identity v) self =
      SessionKeeps.set_string_option-Keeps P keeper.stable self _ v
  session-Keeps (SessionMethod.set_gssapi_delegate_credentials v) self =
      SessionKeeps.set_int_option-Keeps P keeper.stable self OptionType.gssapi_delegate_credentials
        (Options.flag P v)
  session-Keeps (SessionMethod.add_identity v) self =
      SessionKeeps.m_add_identity-Keeps P keeper.stable self v

  channel-Keeps :
      (m : ChannelMethod) (self : Value) → ChannelFit P I Fit m → Keeps I (run_channel P m self)
  unfolding run_channel
  channel-Keeps (ChannelMethod.initialize v) self held = keeper.channel_initialize self v held
  channel-Keeps ChannelMethod.close self held = ChannelKeeps.m_close-Keeps P keeper.stable self
  channel-Keeps ChannelMethod.request_pty self held =
      ChannelKeeps.m_request_pty-Keeps P keeper.stable self
  channel-Keeps ChannelMethod.eof_p self held = ChannelKeeps.m_eof_p-Keeps P keeper.stable self
  channel-Keeps ChannelMethod.closed_p self held =
      ChannelKeeps.m_closed_p-Keeps P keeper.stable self
  channel-Keeps ChannelMethod.open_p self held = ChannelKeeps.m_open_p-Keeps P keeper.stable self
  channel-Keeps ChannelMethod.get_exit_status self held =
      ChannelKeeps.m_get_exit_status-Keeps P keeper.stable self
  channel-Keeps ChannelMethod.send_eof self held =
      ChannelKeeps.m_send_eof-Keeps P keeper.stable self
  channel-Keeps (ChannelMethod.request_exec v) self held =
      ChannelKeeps.m_request_exec-Keeps P keeper.stable self v
  channel-Keeps (ChannelMethod.write v) self held =
      ChannelKeeps.m_write-Keeps P keeper.stable self v
  channel-Keeps (ChannelMethod.poll argv opts) self held =
      ChannelKeeps.m_poll-Keeps P keeper.stable argv opts self
  channel-Keeps (ChannelMethod.read argv opts) self held =
      ChannelKeeps.m_read-Keeps P keeper.stable keeper.unbuffered argv opts self
  channel-Keeps (ChannelMethod.read_nonblocking argv) self held =
      ChannelKeeps.m_read_nonblocking-Keeps P keeper.stable keeper.unbuffered argv self

  scp-Keeps : (m : ScpMethod) (self : Value) → ScpFit P I Fit m → Keeps I (run_scp P m self)
  unfolding run_scp
  scp-Keeps (ScpMethod.initialize v mode path) self held =
      keeper.scp_initialize self v mode path held
  scp-Keeps (ScpMethod.push_file name size mode) self held =
      ScpKeeps.m_push_file-Keeps P keeper.stable self name size mode
  scp-Keeps (ScpMethod.read v) self held =
      ScpKeeps.m_read-Keeps P keeper.stable keeper.unbuffered self v
  scp-Keeps (ScpMethod.write v) self held = ScpKeeps.m_write-Keeps P keeper.stable self v
  scp-Keeps (ScpMethod.deny_request v) self held =
      ScpKeeps.m_deny_request-Keeps P keeper.stable self v
  scp-Keeps ScpMethod.close self held = ScpKeeps.m_close-Keeps P keeper.stable self
  scp-Keeps ScpMethod.pull_request self held = ScpKeeps.m_pull_request-Keeps P keeper.stable self
  scp-Keeps ScpMethod.request_size self held = ScpKeeps.m_request_size-Keeps P keeper.stable self
  scp-Keeps ScpMethod.request_filename self held =
      ScpKeeps.m_request_filename-Keeps P keeper.stable self
  scp-Keeps ScpMethod.request_permissions self held =
      ScpKeeps.m_request_permissions-Keeps P keeper.stable self
  scp-Keeps ScpMethod.accept_request self held =
      ScpKeeps.m_accept_request-Keeps P keeper.stable self
  scp-Keeps ScpMethod.request_warning self held =
      ScpKeeps.m_request_warning-Keeps P keeper.stable self

  key-Keeps : (m : KeyMethod) (self : Value) → Keeps I (run_key P m self)
  unfolding run_key
  key-Keeps KeyMethod.initialize self = keeper.key_initialize self
  key-Keeps KeyMethod.sha1 self = ScpKeeps.m_sha1-Keeps P keeper.stable self
  key-Keeps KeyMethod.type self = ScpKeeps.m_type-Keeps P keeper.stable self
  key-Keeps KeyMethod.type_str self = ScpKeeps.m_type_str-Keeps P keeper.stable self
  key-Keeps KeyMethod.public_p self = ScpKeeps.m_public_p-Keeps P keeper.stable self
  key-Keeps KeyMethod.private_p self = ScpKeeps.m_private_p-Keeps P keeper.stable self

  pub run-keeper :
      (m : Method P.State) (self : Value) → MethodFit P I Fit m → Keeps I (run P m self)
  unfolding run
  run-keeper (of_session m) self held = session-Keeps m self
  run-keeper (of_channel m) self held = channel-Keeps m self held
  run-keeper (of_scp m) self held = scp-Keeps m self held
  run-keeper (of_key m) self held = key-Keeps m self
  run-keeper (open_session block) self held =
      ChannelKeeps.m_open_session-Keeps P keeper.stable block self held
  run-keeper (open_forward block host port) self held =
      ChannelKeeps.m_open_forward-Keeps P keeper.stable block self host port held
  run-keeper (init block) self held = ScpKeeps.m_init-Keeps P keeper.stable block self held
