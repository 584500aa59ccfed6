-- ===== src/Session/Options.antt =====
-- The options of a session in ext/libssh_ruby/session.c.
pub mod Protocol
pub mod Ranges
pub mod Texts
use libssh_ruby.Base.{
  ℕ, String, ℤ, pos, ◌==ℤ◌, Bytes, codes, List, Option, none, some, str_eq, if◌then◌else◌,
}
use libssh_ruby.Value.{
  Value, nil, true_value, false_value, fixnum, rtest, of_bool, Values, empty, entry, Exception,
  arg_error, Result, ok, raised, and_then,
}
use libssh_ruby.Libssh.{
  Platform, OptionType, OptionValue, int, long, str, Verbosity, ssh_options_set,
  ssh_options_parse_config,
}
use libssh_ruby.Runtime.{Action, pure, lift, ◌>>=◌, ◌>>◌, libssh}
use libssh_ruby.Runtime.Api.{
  check_fixnum, check_symbol, check_array, fix2int, fix2long, string_value_cstr, scan_args,
}
use libssh_ruby.Runtime.Objects.{get_session, load_session}
use libssh_ruby.Session.{raise_if_error}

-- The chain of tests on the symbol's ID.
unfoldable pub verbosity_level : String → Result Verbosity
verbosity_level id =
    if str_eq id "none"
    then ok Verbosity.none_level
    else if str_eq id "warn"
    then ok Verbosity.warn
    else if str_eq id "info"
    then ok Verbosity.info
    else if str_eq id "debug"
    then ok Verbosity.debug
    else if str_eq id "trace"
    then ok Verbosity.trace
    else raised arg_error

-- One round of the loop of `protocol=`, on the variables `ssh1` and `ssh2`.
abbrev set_flag : ℤ → ℤ × ℤ → Result (ℤ × ℤ)
set_flag p (ssh1, ssh2) =
    if p ==ℤ pos 1
    then ok (pos 1, ssh2)
    else if p ==ℤ pos 2
    then ok (ssh1, pos 1)
    else raised arg_error

module _ (P : Platform) where
  -- The tail that the setters share: one call of `ssh_options_set` on the holder.
  unfoldable pub set_option : ℕ → OptionType → OptionValue → Action P.State (Unit {0})
  unfolding ◌>>=◌ libssh load_session raise_if_error
  set_option holder type value = do
    s ← load_session holder
    rc ← libssh P (ssh_options_set s type value)
    raise_if_error P holder rc

  unfoldable pub m_set_log_verbosity : Value → Value → Action P.State Value
  unfolding set_option ◌>>=◌ get_session check_symbol verbosity_level
  m_set_log_verbosity self verbosity = do
    id ← lift (check_symbol verbosity)
    level ← lift (verbosity_level id)
    holder ← get_session self
    set_option holder OptionType.log_verbosity (int (P.log_level level))
    pure nil

  unfoldable pub set_string_option : Value → OptionType → Value → Action P.State Value
  unfolding set_option ◌>>=◌ get_session string_value_cstr
  set_string_option self type v = do
    holder ← get_session self
    text ← lift (string_value_cstr P v)
    set_option holder type (str text)
    pure nil

  unfoldable pub set_int_option : Value → OptionType → Value → Action P.State Value
  unfolding set_option ◌>>=◌ get_session check_fixnum fix2int
  set_int_option self type i = do
    lift (check_fixnum i)
    j ← lift (fix2int P i)
    holder ← get_session self
    set_option holder type (int j)
    pure nil

  unfoldable pub set_long_option : Value → OptionType → Value → Action P.State Value
  unfolding set_option ◌>>=◌ get_session check_fixnum fix2long
  set_long_option self type i = do
    lift (check_fixnum i)
    j ← lift (fix2long i)
    holder ← get_session self
    set_option holder type (long j)
    pure nil

  -- The loop of `protocol=`.
  unfoldable pub protocol_flags : Values → ℤ × ℤ → Result (ℤ × ℤ)
  unfolding check_fixnum fix2int
  protocol_flags empty flags = ok flags
  protocol_flags (entry v vs) flags =
      and_then (check_fixnum v)
        λ _. and_then (fix2int P v) λ p. and_then (set_flag p flags) (protocol_flags vs)

  unfoldable pub m_set_protocol : Value → Value → Action P.State Value
  unfolding set_option ◌>>=◌ get_session check_array protocol_flags
  m_set_protocol self protocols = do
    vs ← lift (check_array protocols)
    (ssh1, ssh2) ← lift (protocol_flags vs (pos 0, pos 0))
    holder ← get_session self
    set_option holder OptionType.ssh1 (int ssh1)
    set_option holder OptionType.ssh2 (int ssh2)
    pure nil

  unfoldable pub set_comma_separated_option : Value → OptionType → Value → Action P.State Value
  unfolding set_string_option check_array
  set_comma_separated_option self type ary = do
    vs ← lift (check_array ary)
    joined ← lift (P.ary_join vs (codes ","))
    set_string_option self type joined

  unfoldable pub m_set_host : Value → Value → Action P.State Value
  unfolding set_string_option
  m_set_host self host = set_string_option self OptionType.host host

  unfoldable pub m_set_user : Value → Value → Action P.State Value
  unfolding set_string_option
  m_set_user self user = set_string_option self OptionType.user user

  unfoldable pub m_set_port : Value → Value → Action P.State Value
  unfolding set_int_option
  m_set_port self port = set_int_option self OptionType.port port

  unfoldable pub m_set_bindaddr : Value → Value → Action P.State Value
  unfolding set_string_option
  m_set_bindaddr self addr = set_string_option self OptionType.bindaddr addr

  unfoldable pub m_set_knownhosts : Value → Value → Action P.State Value
  unfolding set_string_option
  m_set_knownhosts self path = set_string_option self OptionType.knownhosts path

  unfoldable pub m_set_timeout : Value → Value → Action P.State Value
  unfolding set_long_option
  m_set_timeout self sec = set_long_option self OptionType.timeout sec

  unfoldable pub m_set_timeout_usec : Value → Value → Action P.State Value
  unfolding set_long_option
  m_set_timeout_usec self usec = set_long_option self OptionType.timeout_usec usec

  unfoldable pub m_set_key_exchange : Value → Value → Action P.State Value
  unfolding set_comma_separated_option
  m_set_key_exchange self kex = set_comma_separated_option self OptionType.key_exchange kex

  unfoldable pub m_set_hostkeys : Value → Value → Action P.State Value
  unfolding set_comma_separated_option
  m_set_hostkeys self hostkeys = set_comma_separated_option self OptionType.hostkeys hostkeys

  unfoldable pub set_compression_word : Value → String → Action P.State Value
  unfolding set_option ◌>>=◌ get_session
  set_compression_word self word = do
    holder ← get_session self
    set_option holder OptionType.compression (str (codes word))
    pure nil

  unfoldable pub m_set_compression : Value → Value → Action P.State Value
  unfolding set_compression_word set_string_option
  m_set_compression self true_value = set_compression_word self "yes"
  m_set_compression self false_value = set_compression_word self "no"
  m_set_compression self v = set_string_option self OptionType.compression v

  unfoldable pub m_set_compression_level : Value → Value → Action P.State Value
  unfolding set_int_option
  m_set_compression_level self level = set_int_option self OptionType.compression_level level

  -- `INT2FIX(RTEST(enable) ? 1 : 0)`
  abbrev pub flag : Value → Value
  flag enable = fixnum (if rtest enable then pos 1 else pos 0)

  unfoldable pub m_set_stricthostkeycheck : Value → Value → Action P.State Value
  unfolding set_int_option
  m_set_stricthostkeycheck self enable =
      set_int_option self OptionType.stricthostkeycheck (flag enable)

  unfoldable pub m_set_proxycommand : Value → Value → Action P.State Value
  unfolding set_string_option
  m_set_proxycommand self command = set_string_option self OptionType.proxycommand command

  unfoldable pub m_set_gssapi_client_identity : Value → Value → Action P.State Value
  unfolding set_string_option
  m_set_gssapi_client_identity self identity =
      set_string_option self OptionType.gssapi_client_identity identity

  unfoldable pub m_set_gssapi_server_identity : Value → Value → Action P.State Value
  unfolding set_string_option
  m_set_gssapi_server_identity self identity =
      set_string_option self OptionType.gssapi_server_identity identity

  unfoldable pub m_set_gssapi_delegate_credentials : Value → Value → Action P.State Value
  unfolding set_int_option
  m_set_gssapi_delegate_credentials self enable =
      set_int_option self OptionType.gssapi_delegate_credentials (flag enable)

  abbrev config_path : Value → Result (Option Bytes)
  config_path nil = ok none
  config_path v = and_then (string_value_cstr P v) (λ text. ok (some text))

  unfoldable pub m_parse_config : List Value → Value → Action P.State Value
  unfolding ◌>>=◌ libssh get_session load_session scan_args string_value_cstr
  m_parse_config argv self = do
    arg ← lift (scan_args 0 1 argv)
    path ← lift (config_path (arg 0))
    holder ← get_session self
    s ← load_session holder
    rc ← libssh P (ssh_options_parse_config s path)
    pure (of_bool (rc ==ℤ pos 0))

  unfoldable pub m_add_identity : Value → Value → Action P.State Value
  unfolding set_option ◌>>=◌ get_session string_value_cstr
  m_add_identity self path = do
    holder ← get_session self
    text ← lift (string_value_cstr P path)
    set_option holder OptionType.add_identity (str text)
    pure nil
