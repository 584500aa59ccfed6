-- ===== src/Methods.antt =====
-- The methods of the four classes, as `Init_libssh_session`, `Init_libssh_channel`,
-- `Init_libssh_scp` and `Init_libssh_key` of ext/libssh_ruby define them: a call of one with its
-- arguments, and what the call runs.
use libssh_ruby.Base.{List, Option}
use libssh_ruby.Value.{Value}
use libssh_ruby.Libssh.{Platform}
use libssh_ruby.Runtime.{Action}
use libssh_ruby.Runtime.Api.{Keywords}
use libssh_ruby.Key
use libssh_ruby.Session
use libssh_ruby.Session.Options
use libssh_ruby.Session.Connection
use libssh_ruby.Session.Auth
use libssh_ruby.Channel
use libssh_ruby.Channel.Requests
use libssh_ruby.Channel.Stream
use libssh_ruby.Scp
use libssh_ruby.Scp.Transfer

pub data SessionMethod : Type 0 where
  initialize connect disconnect server_known fd : SessionMethod
  userauth_none userauth_list userauth_publickey_auto : SessionMethod
  get_publickey write_knownhost : SessionMethod
  set_log_verbosity set_host set_user set_port : Value → SessionMethod
  set_bindaddr set_knownhosts set_timeout set_timeout_usec : Value → SessionMethod
  set_protocol set_key_exchange set_hostkeys set_compression : Value → SessionMethod
  set_compression_level set_stricthostkeycheck set_proxycommand set_gssapi_client_identity :
      Value → SessionMethod
  set_gssapi_server_identity set_gssapi_delegate_credentials add_identity : Value → SessionMethod
  parse_config : List Value → SessionMethod
  userauth_password : Value → SessionMethod

-- The method that makes a channel, and those that take no block.
pub data ChannelMethod : Type 0 where
  close request_pty eof_p closed_p open_p get_exit_status send_eof : ChannelMethod
  initialize request_exec write : Value → ChannelMethod
  read poll : List Value → Keywords → ChannelMethod
  read_nonblocking : List Value → ChannelMethod

pub data ScpMethod : Type 0 where
  close pull_request request_size request_filename request_permissions accept_request : ScpMethod
  request_warning : ScpMethod
  initialize push_file : Value → Value → Value → ScpMethod
  write deny_request read : Value → ScpMethod

pub data KeyMethod : Type 0 where
  initialize sha1 type type_str public_p private_p : KeyMethod

-- A call of a method, and the calls that take a block.
pub data Method (S : Type 0) : Type 0 where
  of_session : SessionMethod → Method S
  of_channel : ChannelMethod → Method S
  of_scp : ScpMethod → Method S
  of_key : KeyMethod → Method S
  open_session : Option (Action S Value) → Method S
  open_forward : Option (Action S Value) → Value → Value → Method S
  init : Action S Value → Method S

module _ (P : Platform) where
  unfoldable pub run_session : SessionMethod → Value → Action P.State Value
  run_session SessionMethod.initialize self = Session.m_initialize P self
  run_session SessionMethod.connect self = Connection.m_connect P self
  run_session SessionMethod.disconnect self = Connection.m_disconnect P self
  run_session SessionMethod.server_known self = Connection.m_server_known P self
  run_session SessionMethod.fd self = Connection.m_fd P self
  run_session SessionMethod.get_publickey self = Connection.m_get_publickey P self
  run_session SessionMethod.write_knownhost self = Connection.m_write_knownhost P self
  run_session SessionMethod.userauth_none self = Auth.m_userauth_none P self
  run_session SessionMethod.userauth_list self = Auth.m_userauth_list P self
  run_session SessionMethod.userauth_publickey_auto self = Auth.m_userauth_publickey_auto P self
  run_session (SessionMethod.userauth_password v) self = Auth.m_userauth_password P self v
  run_session (SessionMethod.parse_config argv) self = Options.m_parse_config P argv self
  run_session (SessionMethod.set_log_verbosity v) self = Options.m_set_log_verbosity P self v
  run_session (SessionMethod.set_host v) self = Options.m_set_host P self v
  run_session (SessionMethod.set_user v) self = Options.m_set_user P self v
  run_session (SessionMethod.set_port v) self = Options.m_set_port P self v
  run_session (SessionMethod.set_bindaddr v) self = Options.m_set_bindaddr P self v
  run_session (SessionMethod.set_knownhosts v) self = Options.m_set_knownhosts P self v
  run_session (SessionMethod.set_timeout v) self = Options.m_set_timeout P self v
  run_session (SessionMethod.set_timeout_usec v) self = Options.m_set_timeout_usec P self v
  run_session (SessionMethod.set_protocol v) self = Options.m_set_protocol P self v
  run_session (SessionMethod.set_key_exchange v) self = Options.m_set_key_exchange P self v
  run_session (SessionMethod.set_hostkeys v) self = Options.m_set_hostkeys P self v
  run_session (SessionMethod.set_compression v) self = Options.m_set_compression P self v
  run_session (SessionMethod.set_compression_level v) self =
      Options.m_set_compression_level P self v
  run_session (SessionMethod.set_stricthostkeycheck v) self =
      Options.m_set_stricthostkeycheck P self v
  run_session (SessionMethod.set_proxycommand v) self = Options.m_set_proxycommand P self v
  run_session (SessionMethod.set_gssapi_client_identity v) self =
      Options.m_set_gssapi_client_identity P self v
  run_session (SessionMethod.set_gssapi_server_identity v) self =
      Options.m_set_gssapi_server_identity P self v
  run_session (SessionMethod.set_gssapi_delegate_credentials v) self =
      Options.m_set_gssapi_delegate_credentials P self v
  run_session (SessionMethod.add_identity v) self = Options.m_add_identity P self v

  unfoldable pub run_channel : ChannelMethod → Value → Action P.State Value
  run_channel ChannelMethod.eof_p self = Channel.m_eof_p P self
  run_channel ChannelMethod.closed_p self = Channel.m_closed_p P self
  run_channel ChannelMethod.open_p self = Channel.m_open_p P self
  run_channel ChannelMethod.get_exit_status self = Channel.m_get_exit_status P self
  run_channel ChannelMethod.close self = Requests.m_close P self
  run_channel ChannelMethod.request_pty self = Requests.m_request_pty P self
  run_channel ChannelMethod.send_eof self = Requests.m_send_eof P self
  run_channel (ChannelMethod.initialize v) self = Channel.m_initialize P self v
  run_channel (ChannelMethod.request_exec v) self = Requests.m_request_exec P self v
  run_channel (ChannelMethod.write v) self = Stream.m_write P self v
  run_channel (ChannelMethod.read argv opts) self = Stream.m_read P argv opts self
  run_channel (ChannelMethod.poll argv opts) self = Stream.m_poll P argv opts self
  run_channel (ChannelMethod.read_nonblocking argv) self = Stream.m_read_nonblocking P argv self

  unfoldable pub run_scp : ScpMethod → Value → Action P.State Value
  run_scp ScpMethod.close self = Scp.m_close P self
  run_scp (ScpMethod.initialize v mode path) self = Scp.m_initialize P self v mode path
  run_scp (ScpMethod.push_file name size mode) self = Transfer.m_push_file P self name size mode
  run_scp (ScpMethod.write v) self = Transfer.m_write P self v
  run_scp (ScpMethod.deny_request v) self = Transfer.m_deny_request P self v
  run_scp (ScpMethod.read v) self = Transfer.m_read P self v
  run_scp ScpMethod.pull_request self = Transfer.m_pull_request P self
  run_scp ScpMethod.request_size self = Transfer.m_request_size P self
  run_scp ScpMethod.request_filename self = Transfer.m_request_filename P self
  run_scp ScpMethod.request_permissions self = Transfer.m_request_permissions P self
  run_scp ScpMethod.accept_request self = Transfer.m_accept_request P self
  run_scp ScpMethod.request_warning self = Transfer.m_request_warning P self

  unfoldable pub run_key : KeyMethod → Value → Action P.State Value
  run_key KeyMethod.initialize self = Key.m_initialize P self
  run_key KeyMethod.sha1 self = Key.m_sha1 P self
  run_key KeyMethod.type self = Key.m_type P self
  run_key KeyMethod.type_str self = Key.m_type_str P self
  run_key KeyMethod.public_p self = Key.m_public_p P self
  run_key KeyMethod.private_p self = Key.m_private_p P self

  unfoldable pub run : Method P.State → Value → Action P.State Value
  unfolding run_session run_channel run_scp run_key
  run (of_session m) self = run_session m self
  run (of_channel m) self = run_channel m self
  run (of_scp m) self = run_scp m self
  run (of_key m) self = run_key m self
  run (open_session block) self = Requests.m_open_session P block self
  run (open_forward block host port) self = Requests.m_open_forward P block self host port
  run (init block) self = Scp.m_init P block self
