-- ===== src/Init/Tables.antt =====
-- `Init_libssh_channel`, `Init_libssh_scp`, `Init_libssh_key`, `Init_libssh_error` and
-- `Init_libssh_ruby` of ext/libssh_ruby, in their order.
use libssh_ruby.Base.{List, [], ◌∷◌, ◌++◌, Bool, true, false, none, some}
use libssh_ruby.Value.{Value, fixnum, string, local_jump_error}
use libssh_ruby.Libssh.{Platform, ssh_threads_set_callbacks, ssh_init}
use libssh_ruby.Runtime.{Action, raise}
use libssh_ruby.Error.{m_version}
use libssh_ruby.Key.{key_alloc}
use libssh_ruby.Channel.{channel_alloc}
use libssh_ruby.Channel.Select.{s_select}
use libssh_ruby.Scp.{scp_alloc}
use libssh_ruby.Methods.{
  ChannelMethod, ScpMethod, KeyMethod, of_channel, of_scp, of_key, open_session, open_forward, init,
}
use libssh_ruby.Init.{
  lib_module, channel_class, scp_class, key_class, error_class, nullary, unary, binary, ternary,
  variadic, quaternary, any_number, Block, Definition, Header, set_up, define_module,
  define_class_under, define_alloc_func, define_method, define_singleton_method, define_const,
  define_reader, intern, with_hash, id_stderr, id_timeout, id_read, id_write, id_code,
}
use libssh_ruby.Init.SessionTable.{init_libssh_session}

-- `rb_yield`, which raises where no block is given.
abbrev pub yield_to : {S : Type 0} → Block S → Action S Value
yield_to none = raise local_jump_error
yield_to (some block) = block

module _ (P : Platform) where
  unfoldable pub init_libssh_channel : List (Definition P.State)
  init_libssh_channel =
      define_class_under lib_module "Channel" channel_class
      ∷ define_alloc_func channel_class (channel_alloc P)
      ∷ define_method channel_class "initialize"
          (unary (λ v. of_channel (ChannelMethod.initialize v)))
      ∷ define_method channel_class "open_session" (nullary open_session)
      ∷ define_method channel_class "open_forward" (binary open_forward)
      ∷ define_method channel_class "close" (nullary (λ block. of_channel ChannelMethod.close))
      ∷ define_method channel_class "request_exec"
          (unary (λ v. of_channel (ChannelMethod.request_exec v)))
      ∷ define_method channel_class "request_pty"
          (nullary (λ block. of_channel ChannelMethod.request_pty))
      ∷ define_method channel_class "read"
          (variadic (λ argv opts. of_channel (ChannelMethod.read argv opts)))
      ∷ define_method channel_class "read_nonblocking" (
          variadic (λ argv opts. of_channel (ChannelMethod.read_nonblocking (with_hash argv opts))))
      ∷ define_method channel_class "poll"
          (variadic (λ argv opts. of_channel (ChannelMethod.poll argv opts)))
      ∷ define_method channel_class "eof?" (nullary (λ block. of_channel ChannelMethod.eof_p))
      ∷ define_method channel_class "closed?" (nullary (λ block. of_channel ChannelMethod.closed_p))
      ∷ define_method channel_class "open?" (nullary (λ block. of_channel ChannelMethod.open_p))
      ∷ define_method channel_class "get_exit_status"
          (nullary (λ block. of_channel ChannelMethod.get_exit_status))
      ∷ define_method channel_class "write" (unary (λ v. of_channel (ChannelMethod.write v)))
      ∷ define_method channel_class "send_eof"
          (nullary (λ block. of_channel ChannelMethod.send_eof))
      ∷ define_singleton_method channel_class "select" (quaternary (s_select P))
      ∷ intern id_stderr "stderr"
      ∷ intern id_timeout "timeout"
      ∷ []

  unfoldable pub init_libssh_error : List (Definition P.State)
  init_libssh_error =
      define_class_under lib_module "Error" error_class
      ∷ intern id_code "@code"
      ∷ define_reader error_class "code"
      ∷ []

module _ (P : Platform) (H : Header) where
  unfoldable pub init_libssh_scp : List (Definition P.State)
  init_libssh_scp =
      define_class_under lib_module "Scp" scp_class
      ∷ define_alloc_func scp_class (scp_alloc P)
      ∷ define_const scp_class "REQUEST_NEWFILE" (fixnum (H.constant "SSH_SCP_REQUEST_NEWFILE"))
      ∷ define_const scp_class "REQUEST_NEWDIR" (fixnum (H.constant "SSH_SCP_REQUEST_NEWDIR"))
      ∷ define_const scp_class "REQUEST_ENDDIR" (fixnum (H.constant "SSH_SCP_REQUEST_ENDDIR"))
      ∷ define_const scp_class "REQUEST_WARNING" (fixnum (H.constant "SSH_SCP_REQUEST_WARNING"))
      ∷ define_const scp_class "REQUEST_EOF" (fixnum (H.constant "SSH_SCP_REQUEST_EOF"))
      ∷ define_method scp_class "initialize"
          (ternary (λ u v x. of_scp (ScpMethod.initialize u v x)))
      ∷ define_method scp_class "init" (nullary (λ block. init (yield_to block)))
      ∷ define_method scp_class "close" (nullary (λ block. of_scp ScpMethod.close))
      ∷ define_method scp_class "push_file" (ternary (λ u v x. of_scp (ScpMethod.push_file u v x)))
      ∷ define_method scp_class "write" (unary (λ v. of_scp (ScpMethod.write v)))
      ∷ define_method scp_class "pull_request" (nullary (λ block. of_scp ScpMethod.pull_request))
      ∷ define_method scp_class "request_size" (nullary (λ block. of_scp ScpMethod.request_size))
      ∷ define_method scp_class "request_filename"
          (nullary (λ block. of_scp ScpMethod.request_filename))
      ∷ define_method scp_class "request_permissions"
          (nullary (λ block. of_scp ScpMethod.request_permissions))
      ∷ define_method scp_class "accept_request"
          (nullary (λ block. of_scp ScpMethod.accept_request))
      ∷ define_method scp_class "deny_request" (unary (λ v. of_scp (ScpMethod.deny_request v)))
      ∷ define_method scp_class "read" (unary (λ v. of_scp (ScpMethod.read v)))
      ∷ define_method scp_class "request_warning"
          (nullary (λ block. of_scp ScpMethod.request_warning))
      ∷ intern id_read "read"
      ∷ intern id_write "write"
      ∷ []

  -- The constant under `#ifdef HAVE_CONST_SSH_KEYTYPE_ED25519`.
  abbrev pub ed25519_type : Bool → List (Definition P.State)
  ed25519_type true =
      define_const key_class "KEYTYPE_ED25519" (fixnum (H.constant "SSH_KEYTYPE_ED25519")) ∷ []
  ed25519_type false = []

  unfoldable pub init_libssh_key : List (Definition P.State)
  init_libssh_key =
      (define_class_under lib_module "Key" key_class
        ∷ define_alloc_func key_class (key_alloc P)
        ∷ define_const key_class "KEYTYPE_UNKNOWN" (fixnum (H.constant "SSH_KEYTYPE_UNKNOWN"))
        ∷ define_const key_class "KEYTYPE_DSS" (fixnum (H.constant "SSH_KEYTYPE_DSS"))
        ∷ define_const key_class "KEYTYPE_RSA" (fixnum (H.constant "SSH_KEYTYPE_RSA"))
        ∷ define_const key_class "KEYTYPE_RSA1" (fixnum (H.constant "SSH_KEYTYPE_RSA1"))
        ∷ define_const key_class "KEYTYPE_ECDSA" (fixnum (H.constant "SSH_KEYTYPE_ECDSA"))
        ∷ [])
      ++ ed25519_type H.has_ed25519
      ++ define_method key_class "initialize" (nullary (λ block. of_key KeyMethod.initialize))
        ∷ define_method key_class "sha1" (nullary (λ block. of_key KeyMethod.sha1))
        ∷ define_method key_class "type" (nullary (λ block. of_key KeyMethod.type))
        ∷ define_method key_class "type_str" (nullary (λ block. of_key KeyMethod.type_str))
        ∷ define_method key_class "public?" (nullary (λ block. of_key KeyMethod.public_p))
        ∷ define_method key_class "private?" (nullary (λ block. of_key KeyMethod.private_p))
        ∷ []

  -- What `Init_libssh_ruby` does itself.
  unfoldable pub lib_definitions : List (Definition P.State)
  lib_definitions =
      set_up ssh_threads_set_callbacks
      ∷ set_up ssh_init
      ∷ define_module lib_module "LibSSH"
      ∷ define_const lib_module "SERVER_KNOWN_OK" (fixnum (H.constant "SSH_SERVER_KNOWN_OK"))
      ∷ define_const lib_module "SERVER_KNOWN_CHANGED"
          (fixnum (H.constant "SSH_SERVER_KNOWN_CHANGED"))
      ∷ define_const lib_module "SERVER_FOUND_OTHER" (fixnum (H.constant "SSH_SERVER_FOUND_OTHER"))
      ∷ define_const lib_module "SERVER_NOT_KNOWN" (fixnum (H.constant "SSH_SERVER_NOT_KNOWN"))
      ∷ define_const lib_module "SERVER_FILE_NOT_FOUND"
          (fixnum (H.constant "SSH_SERVER_FILE_NOT_FOUND"))
      ∷ define_const lib_module "AUTH_DENIED" (fixnum (H.constant "SSH_AUTH_DENIED"))
      ∷ define_const lib_module "AUTH_PARTIAL" (fixnum (H.constant "SSH_AUTH_PARTIAL"))
      ∷ define_const lib_module "AUTH_SUCCESS" (fixnum (H.constant "SSH_AUTH_SUCCESS"))
      ∷ define_const lib_module "AUTH_AGAIN" (fixnum (H.constant "SSH_AUTH_AGAIN"))
      ∷ define_const lib_module "LIBSSH_VERSION_MAJOR" (fixnum (H.constant "LIBSSH_VERSION_MAJOR"))
      ∷ define_const lib_module "LIBSSH_VERSION_MINOR" (fixnum (H.constant "LIBSSH_VERSION_MINOR"))
      ∷ define_const lib_module "LIBSSH_VERSION_MICRO" (fixnum (H.constant "LIBSSH_VERSION_MICRO"))
      ∷ define_const lib_module "LIBSSH_VERSION_INT" (fixnum (H.constant "LIBSSH_VERSION_INT"))
      ∷ define_const lib_module "LIBSSH_VERSION" (string H.version)
      ∷ define_singleton_method lib_module "version" (any_number (m_version P))
      ∷ []

  unfoldable pub init_libssh_ruby : List (Definition P.State)
  unfolding lib_definitions init_libssh_session init_libssh_channel init_libssh_error
      init_libssh_key init_libssh_scp
  init_libssh_ruby =
      lib_definitions
      ++ init_libssh_session P
      ++ init_libssh_channel P
      ++ init_libssh_error P
      ++ init_libssh_key
      ++ init_libssh_scp
