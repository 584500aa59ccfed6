-- ===== src/Sound/Sessions.antt =====
-- The methods of a session.
use libssh_ruby.Base.{ℕ, ℤ, pos, codes, ◌≢◌, refl, List, [], ◌∷◌, none, arith}
use libssh_ruby.Value.{
  Value, Values, empty, entry, fixnum, object, array, Result, ok, raised, fault,
}
use libssh_ruby.Libssh.{Platform, OptionType}
use libssh_ruby.Runtime.{World, continue}
use libssh_ruby.Session.{m_initialize}
use libssh_ruby.Session.Connection.{
  m_connect, m_disconnect, m_server_known, m_fd, m_get_publickey, m_write_knownhost,
}
use libssh_ruby.Session.Auth.{
  m_userauth_none, m_userauth_list, m_userauth_publickey_auto, m_userauth_password,
}
use libssh_ruby.Session.Options.{
  protocol_flags, set_string_option, m_set_log_verbosity, m_set_host, m_set_user, m_set_port,
  m_set_bindaddr, m_set_knownhosts, m_set_timeout, m_set_timeout_usec, m_set_protocol,
  m_set_key_exchange, m_set_hostkeys, m_set_compression, m_set_compression_level,
  m_set_stricthostkeycheck, m_set_proxycommand, m_set_gssapi_client_identity,
  m_set_gssapi_server_identity, m_set_gssapi_delegate_credentials, m_add_identity, m_parse_config,
}
use libssh_ruby.Methods.{SessionMethod, run_session}
use libssh_ruby.Sound.{Honest}

protocol_flags_sound :
    (P : Platform) (vs : Values) (flags : ℤ × ℤ) → protocol_flags P vs flags ≢ fault
unfolding protocol_flags
protocol_flags_sound P empty flags = ground arith
protocol_flags_sound P (entry (fixnum i) vs) (ssh1, ssh2) =
    ground (arith, protocol_flags_sound P vs (pos 1, ssh2), protocol_flags_sound P vs (ssh1, pos 1))
protocol_flags_sound P (entry v vs) flags = ground arith

module _ (P : Platform) (honest : Honest P) (a : ℕ) (w : World P.State)
    (here : w.heap a ≢ none) where
  string_option_sound :
      (type : OptionType) (v : Value) → (set_string_option P (object a) type v w).0 ≢ fault
  unfolding set_string_option
  string_option_sound type v = ground (arith, honest.to_str_returns v)

  connect_sound : (m_connect P (object a) w).0 ≢ fault
  unfolding m_connect
  connect_sound = ground arith

  disconnect_sound : (m_disconnect P (object a) w).0 ≢ fault
  unfolding m_disconnect
  disconnect_sound = ground arith

  server_known_sound : (m_server_known P (object a) w).0 ≢ fault
  unfolding m_server_known
  server_known_sound = ground arith

  fd_sound : (m_fd P (object a) w).0 ≢ fault
  unfolding m_fd
  fd_sound = ground arith

  get_publickey_sound : a ≢ w.next → (m_get_publickey P (object a) w).0 ≢ fault
  unfolding m_get_publickey
  get_publickey_sound old = ground arith

  write_knownhost_sound : (m_write_knownhost P (object a) w).0 ≢ fault
  unfolding m_write_knownhost
  write_knownhost_sound = ground arith

  userauth_none_sound : (m_userauth_none P (object a) w).0 ≢ fault
  unfolding m_userauth_none
  userauth_none_sound = ground arith

  userauth_list_sound : (m_userauth_list P (object a) w).0 ≢ fault
  unfolding m_userauth_list
  userauth_list_sound = ground arith

  userauth_publickey_auto_sound : (m_userauth_publickey_auto P (object a) w).0 ≢ fault
  unfolding m_userauth_publickey_auto
  userauth_publickey_auto_sound = ground arith

  userauth_password_sound : (v : Value) → (m_userauth_password P (object a) v w).0 ≢ fault
  unfolding m_userauth_password
  userauth_password_sound v = ground (arith, honest.to_str_returns v)

  set_log_verbosity_sound : (v : Value) → (m_set_log_verbosity P (object a) v w).0 ≢ fault
  unfolding m_set_log_verbosity
  set_log_verbosity_sound v = ground arith

  set_host_sound : (v : Value) → (m_set_host P (object a) v w).0 ≢ fault
  unfolding m_set_host
  set_host_sound v = ground (arith, honest.to_str_returns v)

  set_user_sound : (v : Value) → (m_set_user P (object a) v w).0 ≢ fault
  unfolding m_set_user
  set_user_sound v = ground (arith, honest.to_str_returns v)

  set_port_sound : (v : Value) → (m_set_port P (object a) v w).0 ≢ fault
  unfolding m_set_port
  set_port_sound v = ground (arith, honest.to_int_returns v)

  set_bindaddr_sound : (v : Value) → (m_set_bindaddr P (object a) v w).0 ≢ fault
  unfolding m_set_bindaddr
  set_bindaddr_sound v = ground (arith, honest.to_str_returns v)

  set_knownhosts_sound : (v : Value) → (m_set_knownhosts P (object a) v w).0 ≢ fault
  unfolding m_set_knownhosts
  set_knownhosts_sound v = ground (arith, honest.to_str_returns v)

  set_timeout_sound : (v : Value) → (m_set_timeout P (object a) v w).0 ≢ fault
  unfolding m_set_timeout
  set_timeout_sound v = ground arith

  set_timeout_usec_sound : (v : Value) → (m_set_timeout_usec P (object a) v w).0 ≢ fault
  unfolding m_set_timeout_usec
  set_timeout_usec_sound v = ground arith

  set_compression_sound : (v : Value) → (m_set_compression P (object a) v w).0 ≢ fault
  unfolding m_set_compression
  set_compression_sound v = ground (arith, honest.to_str_returns v)

  set_compression_level_sound : (v : Value) → (m_set_compression_level P (object a) v w).0 ≢ fault
  unfolding m_set_compression_level
  set_compression_level_sound v = ground (arith, honest.to_int_returns v)

  set_stricthostkeycheck_sound : (v : Value) → (m_set_stricthostkeycheck P (object a) v w).0 ≢ fault
  unfolding m_set_stricthostkeycheck
  set_stricthostkeycheck_sound v = ground arith

  set_proxycommand_sound : (v : Value) → (m_set_proxycommand P (object a) v w).0 ≢ fault
  unfolding m_set_proxycommand
  set_proxycommand_sound v = ground (arith, honest.to_str_returns v)

  set_gssapi_client_identity_sound :
      (v : Value) → (m_set_gssapi_client_identity P (object a) v w).0 ≢ fault
  unfolding m_set_gssapi_client_identity
  set_gssapi_client_identity_sound v = ground (arith, honest.to_str_returns v)

  set_gssapi_server_identity_sound :
      (v : Value) → (m_set_gssapi_server_identity P (object a) v w).0 ≢ fault
  unfolding m_set_gssapi_server_identity
  set_gssapi_server_identity_sound v = ground (arith, honest.to_str_returns v)

  set_gssapi_delegate_credentials_sound :
      (v : Value) → (m_set_gssapi_delegate_credentials P (object a) v w).0 ≢ fault
  unfolding m_set_gssapi_delegate_credentials
  set_gssapi_delegate_credentials_sound v = ground arith

  add_identity_sound : (v : Value) → (m_add_identity P (object a) v w).0 ≢ fault
  unfolding m_add_identity
  add_identity_sound v = ground (arith, honest.to_str_returns v)

  set_protocol_sound : (v : Value) → (m_set_protocol P (object a) v w).0 ≢ fault
  unfolding m_set_protocol
  set_protocol_sound (array vs) = ground (arith, protocol_flags_sound P vs (pos 0, pos 0))
  set_protocol_sound v = ground arith

  joined_sound :
      (type : OptionType) (r : Result Value)
      → r ≢ fault
      → (continue r (set_string_option P (object a) type) w).0 ≢ fault
  joined_sound type (ok v) sound = string_option_sound type v
  joined_sound type (raised e) sound = ground arith
  joined_sound type fault sound = absurd (sound refl)

  set_key_exchange_sound : (v : Value) → (m_set_key_exchange P (object a) v w).0 ≢ fault
  unfolding m_set_key_exchange
  set_key_exchange_sound (array vs) =
      joined_sound OptionType.key_exchange (P.ary_join vs (codes ","))
        (honest.ary_join_returns vs (codes ","))
  set_key_exchange_sound v = ground arith

  set_hostkeys_sound : (v : Value) → (m_set_hostkeys P (object a) v w).0 ≢ fault
  unfolding m_set_hostkeys
  set_hostkeys_sound (array vs) =
      joined_sound OptionType.hostkeys (P.ary_join vs (codes ","))
        (honest.ary_join_returns vs (codes ","))
  set_hostkeys_sound v = ground arith

  parse_config_sound : (argv : List Value) → (m_parse_config P argv (object a) w).0 ≢ fault
  unfolding m_parse_config
  parse_config_sound [] = ground arith
  parse_config_sound (v ∷ []) = ground (arith, honest.to_str_returns v)
  parse_config_sound (u ∷ v ∷ vs) = ground arith

  initialize_sound : (m_initialize P (object a) w).0 ≢ fault
  unfolding m_initialize
  initialize_sound = ground arith

  pub run_session_sound :
      a ≢ w.next → (m : SessionMethod) → (run_session P m (object a) w).0 ≢ fault
  unfolding run_session
  run_session_sound old SessionMethod.initialize = initialize_sound
  run_session_sound old SessionMethod.connect = connect_sound
  run_session_sound old SessionMethod.disconnect = disconnect_sound
  run_session_sound old SessionMethod.server_known = server_known_sound
  run_session_sound old SessionMethod.fd = fd_sound
  run_session_sound old SessionMethod.get_publickey = get_publickey_sound old
  run_session_sound old SessionMethod.write_knownhost = write_knownhost_sound
  run_session_sound old SessionMethod.userauth_none = userauth_none_sound
  run_session_sound old SessionMethod.userauth_list = userauth_list_sound
  run_session_sound old SessionMethod.userauth_publickey_auto = userauth_publickey_auto_sound
  run_session_sound old (SessionMethod.userauth_password v) = userauth_password_sound v
  run_session_sound old (SessionMethod.set_log_verbosity v) = set_log_verbosity_sound v
  run_session_sound old (SessionMethod.set_host v) = set_host_sound v
  run_session_sound old (SessionMethod.set_user v) = set_user_sound v
  run_session_sound old (SessionMethod.set_port v) = set_port_sound v
  run_session_sound old (SessionMethod.set_bindaddr v) = set_bindaddr_sound v
  run_session_sound old (SessionMethod.set_knownhosts v) = set_knownhosts_sound v
  run_session_sound old (SessionMethod.set_timeout v) = set_timeout_sound v
  run_session_sound old (SessionMethod.set_timeout_usec v) = set_timeout_usec_sound v
  run_session_sound old (SessionMethod.set_protocol v) = set_protocol_sound v
  run_session_sound old (SessionMethod.set_key_exchange v) = set_key_exchange_sound v
  run_session_sound old (SessionMethod.set_hostkeys v) = set_hostkeys_sound v
  run_session_sound old (SessionMethod.set_compression v) = set_compression_sound v
  run_session_sound old (SessionMethod.set_compression_level v) = set_compression_level_sound v
  run_session_sound old (SessionMethod.set_stricthostkeycheck v) = set_stricthostkeycheck_sound v
  run_session_sound old (SessionMethod.set_proxycommand v) = set_proxycommand_sound v
  run_session_sound old (SessionMethod.set_gssapi_client_identity v) =
      set_gssapi_client_identity_sound v
  run_session_sound old (SessionMethod.set_gssapi_server_identity v) =
      set_gssapi_server_identity_sound v
  run_session_sound old (SessionMethod.set_gssapi_delegate_credentials v) =
      set_gssapi_delegate_credentials_sound v
  run_session_sound old (SessionMethod.add_identity v) = add_identity_sound v
  run_session_sound old (SessionMethod.parse_config argv) = parse_config_sound argv
