-- ===== src/Init/SessionTable.antt =====
-- `Init_libssh_session` of ext/libssh_ruby/session.c, in its order.
use libssh_ruby.Base.{List, [], ◌∷◌}
use libssh_ruby.Libssh.{Platform}
use libssh_ruby.Session.{session_alloc}
use libssh_ruby.Methods.{SessionMethod, of_session}
use libssh_ruby.Init.{
  lib_module, session_class, nullary, unary, variadic, Definition, define_class_under,
  define_alloc_func, define_method, intern, with_hash, id_none, id_warn, id_info, id_debug,
  id_trace, id_password, id_publickey, id_hostbased, id_interactive, id_gssapi_mic,
}

module _ (P : Platform) where
  -- `compression_level=` is defined twice, as in the source.
  unfoldable pub init_libssh_session : List (Definition P.State)
  init_libssh_session =
      define_class_under lib_module "Session" session_class
      ∷ define_alloc_func session_class (session_alloc P)
      ∷ intern id_none "none"
      ∷ intern id_warn "warn"
      ∷ intern id_info "info"
      ∷ intern id_debug "debug"
      ∷ intern id_trace "trace"
      ∷ intern id_password "password"
      ∷ intern id_publickey "publickey"
      ∷ intern id_hostbased "hostbased"
      ∷ intern id_interactive "interactive"
      ∷ intern id_gssapi_mic "gssapi_mic"
      ∷ define_method session_class "initialize"
          (nullary (λ block. of_session SessionMethod.initialize))
      ∷ define_method session_class "log_verbosity="
          (unary (λ v. of_session (SessionMethod.set_log_verbosity v)))
      ∷ define_method session_class "host=" (unary (λ v. of_session (SessionMethod.set_host v)))
      ∷ define_method session_class "user=" (unary (λ v. of_session (SessionMethod.set_user v)))
      ∷ define_method session_class "port=" (unary (λ v. of_session (SessionMethod.set_port v)))
      ∷ define_method session_class "bindaddr="
          (unary (λ v. of_session (SessionMethod.set_bindaddr v)))
      ∷ define_method session_class "knownhosts="
          (unary (λ v. of_session (SessionMethod.set_knownhosts v)))
      ∷ define_method session_class "timeout="
          (unary (λ v. of_session (SessionMethod.set_timeout v)))
      ∷ define_method session_class "timeout_usec="
          (unary (λ v. of_session (SessionMethod.set_timeout_usec v)))
      ∷ define_method session_class "protocol="
          (unary (λ v. of_session (SessionMethod.set_protocol v)))
      ∷ define_method session_class "key_exchange="
          (unary (λ v. of_session (SessionMethod.set_key_exchange v)))
      ∷ define_method session_class "hostkeys="
          (unary (λ v. of_session (SessionMethod.set_hostkeys v)))
      ∷ define_method session_class "compression="
          (unary (λ v. of_session (SessionMethod.set_compression v)))
      ∷ define_method session_class "compression_level="
          (unary (λ v. of_session (SessionMethod.set_compression_level v)))
      ∷ define_method session_class "compression_level="
          (unary (λ v. of_session (SessionMethod.set_compression_level v)))
      ∷ define_method session_class "stricthostkeycheck="
          (unary (λ v. of_session (SessionMethod.set_stricthostkeycheck v)))
      ∷ define_method session_class "proxycommand="
          (unary (λ v. of_session (SessionMethod.set_proxycommand v)))
      ∷ define_method session_class "gssapi_client_identity="
          (unary (λ v. of_session (SessionMethod.set_gssapi_client_identity v)))
      ∷ define_method session_class "gssapi_server_identity="
          (unary (λ v. of_session (SessionMethod.set_gssapi_server_identity v)))
      ∷ define_method session_class "gssapi_delegate_credentials="
          (unary (λ v. of_session (SessionMethod.set_gssapi_delegate_credentials v)))
      ∷ define_method session_class "parse_config"
          (variadic (λ argv opts. of_session (SessionMethod.parse_config (with_hash argv opts))))
      ∷ define_method session_class "add_identity"
          (unary (λ v. of_session (SessionMethod.add_identity v)))
      ∷ define_method session_class "connect" (nullary (λ block. of_session SessionMethod.connect))
      ∷ define_method session_class "disconnect"
          (nullary (λ block. of_session SessionMethod.disconnect))
      ∷ define_method session_class "server_known"
          (nullary (λ block. of_session SessionMethod.server_known))
      ∷ define_method session_class "fd" (nullary (λ block. of_session SessionMethod.fd))
      ∷ define_method session_class "userauth_none"
          (nullary (λ block. of_session SessionMethod.userauth_none))
      ∷ define_method session_class "userauth_password"
          (unary (λ v. of_session (SessionMethod.userauth_password v)))
      ∷ define_method session_class "userauth_list"
          (nullary (λ block. of_session SessionMethod.userauth_list))
      ∷ define_method session_class "userauth_publickey_auto"
          (nullary (λ block. of_session SessionMethod.userauth_publickey_auto))
      ∷ define_method session_class "get_publickey"
          (nullary (λ block. of_session SessionMethod.get_publickey))
      ∷ define_method session_class "write_knownhost"
          (nullary (λ block. of_session SessionMethod.write_knownhost))
      ∷ []
