-- ===== src/Session/Keeps.antt =====
-- The methods of a session that write no holder keep every predicate that calls of libssh keep.
use libssh_ruby.Base.{ℕ, ℤ, String, List}
use libssh_ruby.Value.{Value, true_value, false_value}
use libssh_ruby.Libssh.{Platform, Handle, OptionType, OptionValue}
use libssh_ruby.Runtime.{World}
use libssh_ruby.Runtime.Keeps.{Keeps, Stable, keeps_rules}
use libssh_ruby.Error.{libssh_ruby_raise}
use libssh_ruby.Session.{raise_if_error}
use libssh_ruby.Session.Options.{
  set_option, set_string_option, set_int_option, set_long_option, set_comma_separated_option,
  set_compression_word, m_set_log_verbosity, m_set_protocol, m_set_compression, m_parse_config,
  m_add_identity,
}
use libssh_ruby.Session.Connection.{
  m_connect, m_disconnect, m_server_known, m_fd, m_write_knownhost,
}
use libssh_ruby.Session.Auth.{
  m_userauth_none, m_userauth_password, m_userauth_list, m_userauth_publickey_auto,
}

module _ (P : Platform) {I : World P.State → Type 0} (stable : Stable P I) where
  pub libssh_ruby_raise-Keeps : {A : Type 0} (s : Handle) → Keeps I (libssh_ruby_raise P {A = A} s)
  unfolding libssh_ruby_raise
  libssh_ruby_raise-Keeps s = search keeps_rules depth 9

  raise_if_error-Keeps : (a : ℕ) (rc : ℤ) → Keeps I (raise_if_error P a rc)
  unfolding raise_if_error
  raise_if_error-Keeps a rc = search (keeps_rules, libssh_ruby_raise-Keeps) depth 9

  set_option-Keeps :
      (holder : ℕ) (type : OptionType) (value : OptionValue)
      → Keeps I (set_option P holder type value)
  unfolding set_option
  set_option-Keeps holder type value = search (keeps_rules, raise_if_error-Keeps) depth 12

  pub set_string_option-Keeps :
      (self : Value) (type : OptionType) (v : Value) → Keeps I (set_string_option P self type v)
  unfolding set_string_option
  set_string_option-Keeps self type v = search (keeps_rules, set_option-Keeps) depth 14

  pub set_int_option-Keeps :
      (self : Value) (type : OptionType) (v : Value) → Keeps I (set_int_option P self type v)
  unfolding set_int_option
  set_int_option-Keeps self type v = search (keeps_rules, set_option-Keeps) depth 14

  pub set_long_option-Keeps :
      (self : Value) (type : OptionType) (v : Value) → Keeps I (set_long_option P self type v)
  unfolding set_long_option
  set_long_option-Keeps self type v = search (keeps_rules, set_option-Keeps) depth 14

  pub set_comma_separated_option-Keeps :
      (self : Value) (type : OptionType) (v : Value)
      → Keeps I (set_comma_separated_option P self type v)
  unfolding set_comma_separated_option
  set_comma_separated_option-Keeps self type v =
      search (keeps_rules, set_string_option-Keeps) depth 14

  set_compression_word-Keeps :
      (self : Value) (word : String) → Keeps I (set_compression_word P self word)
  unfolding set_compression_word
  set_compression_word-Keeps self word = search (keeps_rules, set_option-Keeps) depth 14

  pub m_set_compression-Keeps : (self v : Value) → Keeps I (m_set_compression P self v)
  unfolding m_set_compression
  m_set_compression-Keeps self true_value = set_compression_word-Keeps self "yes"
  m_set_compression-Keeps self false_value = set_compression_word-Keeps self "no"
  m_set_compression-Keeps self v = set_string_option-Keeps self OptionType.compression v

  pub m_set_log_verbosity-Keeps :
      (self : Value) (v : Value) → Keeps I (m_set_log_verbosity P self v)
  unfolding m_set_log_verbosity
  m_set_log_verbosity-Keeps self v = search (keeps_rules, set_option-Keeps) depth 14

  pub m_set_protocol-Keeps : (self : Value) (v : Value) → Keeps I (m_set_protocol P self v)
  unfolding m_set_protocol
  m_set_protocol-Keeps self v = search (keeps_rules, set_option-Keeps) depth 14

  pub m_parse_config-Keeps :
      (argv : List Value) (self : Value) → Keeps I (m_parse_config P argv self)
  unfolding m_parse_config
  m_parse_config-Keeps argv self = search keeps_rules depth 14

  pub m_add_identity-Keeps : (self : Value) (v : Value) → Keeps I (m_add_identity P self v)
  unfolding m_add_identity
  m_add_identity-Keeps self v = search (keeps_rules, set_option-Keeps) depth 14

  pub m_connect-Keeps : (self : Value) → Keeps I (m_connect P self)
  unfolding m_connect
  m_connect-Keeps self = search (keeps_rules, raise_if_error-Keeps) depth 14

  pub m_disconnect-Keeps : (self : Value) → Keeps I (m_disconnect P self)
  unfolding m_disconnect
  m_disconnect-Keeps self = search keeps_rules depth 14

  pub m_server_known-Keeps : (self : Value) → Keeps I (m_server_known P self)
  unfolding m_server_known
  m_server_known-Keeps self = search (keeps_rules, raise_if_error-Keeps) depth 14

  pub m_fd-Keeps : (self : Value) → Keeps I (m_fd P self)
  unfolding m_fd
  m_fd-Keeps self = search keeps_rules depth 14

  pub m_write_knownhost-Keeps : (self : Value) → Keeps I (m_write_knownhost P self)
  unfolding m_write_knownhost
  m_write_knownhost-Keeps self = search (keeps_rules, raise_if_error-Keeps) depth 14

  pub m_userauth_none-Keeps : (self : Value) → Keeps I (m_userauth_none P self)
  unfolding m_userauth_none
  m_userauth_none-Keeps self = search (keeps_rules, raise_if_error-Keeps) depth 14

  pub m_userauth_list-Keeps : (self : Value) → Keeps I (m_userauth_list P self)
  unfolding m_userauth_list
  m_userauth_list-Keeps self = search (keeps_rules, raise_if_error-Keeps) depth 14

  pub m_userauth_publickey_auto-Keeps : (self : Value) → Keeps I (m_userauth_publickey_auto P self)
  unfolding m_userauth_publickey_auto
  m_userauth_publickey_auto-Keeps self = search (keeps_rules, raise_if_error-Keeps) depth 14

  pub m_userauth_password-Keeps :
      (self : Value) (v : Value) → Keeps I (m_userauth_password P self v)
  unfolding m_userauth_password
  m_userauth_password-Keeps self v = search (keeps_rules, raise_if_error-Keeps) depth 14
