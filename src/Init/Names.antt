-- ===== src/Init/Names.antt =====
-- The documented names of the methods of the four classes, and the arguments that a call gives.
use libssh_ruby.Base.{ℕ, String, List, [], ◌∷◌, Option, none, some, length}
use libssh_ruby.Value.{Value}
use libssh_ruby.Runtime.Api.{Keywords}
use libssh_ruby.Methods.{
  SessionMethod, ChannelMethod, ScpMethod, KeyMethod, Method, of_session, of_channel, of_scp,
  of_key, open_session, open_forward, init,
}
use libssh_ruby.Init.{Owner, Block, session_class, channel_class, scp_class, key_class}

abbrev pub session_name : SessionMethod → String
session_name SessionMethod.initialize = "initialize"
session_name (SessionMethod.set_log_verbosity v) = "log_verbosity="
session_name (SessionMethod.set_host v) = "host="
session_name (SessionMethod.set_user v) = "user="
session_name (SessionMethod.set_port v) = "port="
session_name (SessionMethod.set_bindaddr v) = "bindaddr="
session_name (SessionMethod.set_knownhosts v) = "knownhosts="
session_name (SessionMethod.set_timeout v) = "timeout="
session_name (SessionMethod.set_timeout_usec v) = "timeout_usec="
session_name (SessionMethod.set_protocol v) = "protocol="
session_name (SessionMethod.set_key_exchange v) = "key_exchange="
session_name (SessionMethod.set_hostkeys v) = "hostkeys="
session_name (SessionMethod.set_compression v) = "compression="
session_name (SessionMethod.set_compression_level v) = "compression_level="
session_name (SessionMethod.set_stricthostkeycheck v) = "stricthostkeycheck="
session_name (SessionMethod.set_proxycommand v) = "proxycommand="
session_name (SessionMethod.set_gssapi_client_identity v) = "gssapi_client_identity="
session_name (SessionMethod.set_gssapi_server_identity v) = "gssapi_server_identity="
session_name (SessionMethod.set_gssapi_delegate_credentials v) = "gssapi_delegate_credentials="
session_name (SessionMethod.parse_config argv) = "parse_config"
session_name (SessionMethod.add_identity v) = "add_identity"
session_name SessionMethod.connect = "connect"
session_name SessionMethod.disconnect = "disconnect"
session_name SessionMethod.server_known = "server_known"
session_name SessionMethod.fd = "fd"
session_name SessionMethod.userauth_none = "userauth_none"
session_name (SessionMethod.userauth_password v) = "userauth_password"
session_name SessionMethod.userauth_list = "userauth_list"
session_name SessionMethod.userauth_publickey_auto = "userauth_publickey_auto"
session_name SessionMethod.get_publickey = "get_publickey"
session_name SessionMethod.write_knownhost = "write_knownhost"

abbrev pub session_args : SessionMethod → List Value
session_args (SessionMethod.set_log_verbosity v) = v ∷ []
session_args (SessionMethod.set_host v) = v ∷ []
session_args (SessionMethod.set_user v) = v ∷ []
session_args (SessionMethod.set_port v) = v ∷ []
session_args (SessionMethod.set_bindaddr v) = v ∷ []
session_args (SessionMethod.set_knownhosts v) = v ∷ []
session_args (SessionMethod.set_timeout v) = v ∷ []
session_args (SessionMethod.set_timeout_usec v) = v ∷ []
session_args (SessionMethod.set_protocol v) = v ∷ []
session_args (SessionMethod.set_key_exchange v) = v ∷ []
session_args (SessionMethod.set_hostkeys v) = v ∷ []
session_args (SessionMethod.set_compression v) = v ∷ []
session_args (SessionMethod.set_compression_level v) = v ∷ []
session_args (SessionMethod.set_stricthostkeycheck v) = v ∷ []
session_args (SessionMethod.set_proxycommand v) = v ∷ []
session_args (SessionMethod.set_gssapi_client_identity v) = v ∷ []
session_args (SessionMethod.set_gssapi_server_identity v) = v ∷ []
session_args (SessionMethod.set_gssapi_delegate_credentials v) = v ∷ []
session_args (SessionMethod.parse_config argv) = argv
session_args (SessionMethod.add_identity v) = v ∷ []
session_args (SessionMethod.userauth_password v) = v ∷ []
session_args m = []

-- The number of arguments that a call must have, if that is fixed.
abbrev pub session_arity : SessionMethod → Option ℕ
session_arity (SessionMethod.parse_config argv) = none
session_arity m = some (length (session_args m))

abbrev pub channel_name : ChannelMethod → String
channel_name (ChannelMethod.initialize v) = "initialize"
channel_name ChannelMethod.close = "close"
channel_name (ChannelMethod.request_exec v) = "request_exec"
channel_name ChannelMethod.request_pty = "request_pty"
channel_name (ChannelMethod.read argv opts) = "read"
channel_name (ChannelMethod.read_nonblocking argv) = "read_nonblocking"
channel_name (ChannelMethod.poll argv opts) = "poll"
channel_name ChannelMethod.eof_p = "eof?"
channel_name ChannelMethod.closed_p = "closed?"
channel_name ChannelMethod.open_p = "open?"
channel_name ChannelMethod.get_exit_status = "get_exit_status"
channel_name (ChannelMethod.write v) = "write"
channel_name ChannelMethod.send_eof = "send_eof"

abbrev pub channel_args : ChannelMethod → List Value
channel_args (ChannelMethod.initialize v) = v ∷ []
channel_args (ChannelMethod.request_exec v) = v ∷ []
channel_args (ChannelMethod.read argv opts) = argv
channel_args (ChannelMethod.read_nonblocking argv) = argv
channel_args (ChannelMethod.poll argv opts) = argv
channel_args (ChannelMethod.write v) = v ∷ []
channel_args m = []

-- The number of arguments that a call must have, if that is fixed.
abbrev pub channel_arity : ChannelMethod → Option ℕ
channel_arity (ChannelMethod.read argv opts) = none
channel_arity (ChannelMethod.read_nonblocking argv) = none
channel_arity (ChannelMethod.poll argv opts) = none
channel_arity m = some (length (channel_args m))

abbrev pub scp_name : ScpMethod → String
scp_name (ScpMethod.initialize u v x) = "initialize"
scp_name ScpMethod.close = "close"
scp_name (ScpMethod.push_file u v x) = "push_file"
scp_name (ScpMethod.write v) = "write"
scp_name ScpMethod.pull_request = "pull_request"
scp_name ScpMethod.request_size = "request_size"
scp_name ScpMethod.request_filename = "request_filename"
scp_name ScpMethod.request_permissions = "request_permissions"
scp_name ScpMethod.accept_request = "accept_request"
scp_name (ScpMethod.deny_request v) = "deny_request"
scp_name (ScpMethod.read v) = "read"
scp_name ScpMethod.request_warning = "request_warning"

abbrev pub scp_args : ScpMethod → List Value
scp_args (ScpMethod.initialize u v x) = u ∷ v ∷ x ∷ []
scp_args (ScpMethod.push_file u v x) = u ∷ v ∷ x ∷ []
scp_args (ScpMethod.write v) = v ∷ []
scp_args (ScpMethod.deny_request v) = v ∷ []
scp_args (ScpMethod.read v) = v ∷ []
scp_args m = []

-- The number of arguments that a call must have, if that is fixed.
abbrev pub scp_arity : ScpMethod → Option ℕ
scp_arity m = some (length (scp_args m))

abbrev pub key_name : KeyMethod → String
key_name KeyMethod.initialize = "initialize"
key_name KeyMethod.sha1 = "sha1"
key_name KeyMethod.type = "type"
key_name KeyMethod.type_str = "type_str"
key_name KeyMethod.public_p = "public?"
key_name KeyMethod.private_p = "private?"

abbrev pub channel_opts : ChannelMethod → Keywords
channel_opts (ChannelMethod.read argv opts) = opts
channel_opts (ChannelMethod.poll argv opts) = opts
channel_opts m = []

module _ {S : Type 0} where
  abbrev pub method_owner : Method S → Owner
  method_owner (of_session m) = session_class
  method_owner (of_scp m) = scp_class
  method_owner (init block) = scp_class
  method_owner (of_key m) = key_class
  method_owner _ = channel_class

  abbrev pub method_name : Method S → String
  method_name (of_session m) = session_name m
  method_name (of_channel m) = channel_name m
  method_name (of_scp m) = scp_name m
  method_name (of_key m) = key_name m
  method_name (open_session block) = "open_session"
  method_name (open_forward block host port) = "open_forward"
  method_name (init block) = "init"

  abbrev pub method_args : Method S → List Value
  method_args (of_session m) = session_args m
  method_args (of_channel m) = channel_args m
  method_args (of_scp m) = scp_args m
  method_args (open_forward block host port) = host ∷ port ∷ []
  method_args _ = []

  abbrev pub method_opts : Method S → Keywords
  method_opts (of_channel m) = channel_opts m
  method_opts _ = []

  abbrev pub method_arity : Method S → Option ℕ
  method_arity (of_session m) = session_arity m
  method_arity (of_channel m) = channel_arity m
  method_arity (of_scp m) = scp_arity m
  method_arity m = some (length (method_args m))

  -- The block of a call; the methods that use none take any.
  abbrev pub method_block : Method S → Block S → Block S
  method_block (open_session block) other = block
  method_block (open_forward block host port) other = block
  method_block (init block) other = some block
  method_block m other = other
