-- ===== src/Libssh.antt =====
-- What ext/libssh_ruby calls in libssh and in Ruby's runtime and does not implement: a parameter.
use libssh_ruby.Base.{ℕ, ℤ, Bytes, Bool, Option, List}
use libssh_ruby.Value.{Value, Values, Result}

-- A pointer to a structure of libssh; `none` is NULL.
abbrev pub Handle : Type 0
Handle = Option ℕ

-- The members of `enum ssh_options_e` that session.c sets.
pub data OptionType : Type 0 where
  log_verbosity host user port bindaddr knownhosts timeout timeout_usec ssh1 ssh2 : OptionType
  key_exchange hostkeys compression compression_level stricthostkeycheck proxycommand : OptionType
  gssapi_client_identity gssapi_server_identity gssapi_delegate_credentials : OptionType
  add_identity : OptionType

-- What the `void *value` of `ssh_options_set` points to.
pub data OptionValue : Type 0 where
  int long : ℤ → OptionValue
  str : Bytes → OptionValue

pub data Verbosity : Type 0 where
  none_level warn info debug trace : Verbosity

pub data AuthMethod : Type 0 where
  none_method password publickey hostbased interactive gssapi_mic : AuthMethod

pub data ScpMode : Type 0 where
  read_mode write_mode : ScpMode

-- A call of a function of libssh, with its arguments.
pub data Call : Type 0 where
  ssh_threads_set_callbacks ssh_init : Call
  ssh_version : ℤ → Call
  ssh_new : Call
  ssh_free ssh_connect ssh_disconnect ssh_is_connected : Handle → Call
  ssh_is_server_known ssh_get_fd ssh_get_publickey ssh_write_knownhost : Handle → Call
  ssh_get_error_code ssh_get_error : Handle → Call
  ssh_userauth_none ssh_userauth_list ssh_userauth_publickey_auto : Handle → Call
  ssh_userauth_password : Handle → Bytes → Call
  ssh_options_set : Handle → OptionType → OptionValue → Call
  ssh_options_parse_config : Handle → Option Bytes → Call
  ssh_channel_new ssh_channel_get_session ssh_channel_close : Handle → Call
  ssh_channel_open_session ssh_channel_request_pty ssh_channel_send_eof : Handle → Call
  ssh_channel_is_eof ssh_channel_is_closed ssh_channel_is_open : Handle → Call
  ssh_channel_get_exit_status : Handle → Call
  ssh_channel_open_forward : Handle → Bytes → ℤ → Bytes → ℤ → Call
  ssh_channel_request_exec ssh_channel_write : Handle → Bytes → Call
  ssh_channel_read_timeout : Handle → ℕ → Bool → ℤ → Call
  ssh_channel_read_nonblocking : Handle → ℕ → Bool → Call
  ssh_channel_poll_timeout : Handle → ℤ → Bool → Call
  ssh_channel_select :
      Option (List Handle) → Option (List Handle) → Option (List Handle) → Option ℤ → Call
  ssh_scp_new : Handle → ScpMode → Bytes → Call
  ssh_scp_free ssh_scp_close ssh_scp_init ssh_scp_pull_request ssh_scp_accept_request :
      Handle → Call
  ssh_scp_request_get_size64 ssh_scp_request_get_filename : Handle → Call
  ssh_scp_request_get_permissions ssh_scp_request_get_warning : Handle → Call
  ssh_scp_push_file64 : Handle → Bytes → ℕ → ℤ → Call
  ssh_scp_write ssh_scp_deny_request : Handle → Bytes → Call
  ssh_scp_read : Handle → ℕ → Call
  ssh_key_new : Call
  ssh_key_free ssh_key_type ssh_key_is_public ssh_key_is_private : Handle → Call
  ssh_get_publickey_hash : Handle → Call
  ssh_clean_pubkey_hash : Bytes → Call
  ssh_key_type_to_char : ℤ → Call

-- What a call gives back: a return code, unless the function returns or fills in something else.
-- A `char *` that may be NULL is an option. For a read it is the code and the buffer's contents;
-- for an out parameter `none` says that it was not written.
abbrev pub Answer : Call → Type 0
Answer (ssh_version _) = Option Bytes
Answer ssh_new = Handle
Answer (ssh_free _) = Unit {0}
Answer (ssh_disconnect _) = Unit {0}
Answer (ssh_get_publickey _) = ℤ × Handle
Answer (ssh_get_error _) = Option Bytes
Answer (ssh_channel_new _) = Handle
Answer (ssh_channel_get_session _) = Handle
Answer (ssh_channel_read_timeout _ _ _ _) = ℤ × Bytes
Answer (ssh_channel_read_nonblocking _ _ _) = ℤ × Bytes
Answer (ssh_scp_new _ _ _) = Handle
Answer (ssh_scp_free _) = Unit {0}
Answer (ssh_scp_request_get_size64 _) = ℕ
Answer (ssh_scp_request_get_filename _) = Option Bytes
Answer (ssh_scp_request_get_warning _) = Option Bytes
Answer (ssh_scp_read _ _) = ℤ × Bytes
Answer ssh_key_new = Handle
Answer (ssh_key_free _) = Unit {0}
Answer (ssh_get_publickey_hash _) = ℤ × Option Bytes
Answer (ssh_clean_pubkey_hash _) = Unit {0}
Answer (ssh_key_type_to_char _) = Option Bytes
Answer _ = ℤ

-- libssh is a machine that answers calls. `to_str`, `to_int` and `big2ulong` are Ruby's
-- conversions of values that are no string or no fixnum, which may run methods of the value;
-- `ary_join` is `rb_ary_join`, and `can_alloc` says whether a buffer of some size can be had.
pub record Platform : Type 1 where
  pub State : Type 0
  pub answer : (c : Call) → State → Answer c × State
  pub ssh_error : ℤ
  pub ssh_eof : ℤ
  pub log_level : Verbosity → ℤ
  pub auth_method : AuthMethod → ℕ
  pub to_str : Value → Result Bytes
  pub to_int : Value → Result ℤ
  pub big2ulong : Value → Result ℕ
  pub ary_join : Values → Bytes → Result Value
  pub can_alloc : ℕ → Bool
