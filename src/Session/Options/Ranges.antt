-- ===== src/Session/Options/Ranges.antt =====
-- What the setters of single options accept, and what they hand to libssh.
use libssh_ruby.Base.{
  ℕ, String, fits_signed, ◌≡◌, ◌≢◌, ◌⊎◌, inl, inr, ap, pos, codes, refl, Bytes, contains, some,
  arith, eq_iff, if◌then◌else◌,
}
use libssh_ruby.Value.{
  Value, nil, true_value, false_value, rtest, fixnum, symbol, string, object, arg_error,
  range_error, type_error, Result, ok, raised, fault,
}
use libssh_ruby.Libssh.{
  Handle, Platform, OptionType, OptionValue, int, long, str, Verbosity, none_level, warn, info,
  debug, trace, ssh_options_set,
}
use libssh_ruby.Runtime.{World, session}
use libssh_ruby.Runtime.Trace.{reply, after}
use libssh_ruby.Error.Outcome.{outcome}
use libssh_ruby.Session.Options.{
  verbosity_level, m_set_log_verbosity, m_set_port, m_set_compression_level, m_set_timeout,
  m_set_timeout_usec, m_set_stricthostkeycheck, m_set_gssapi_delegate_credentials,
  m_set_compression, m_set_host, m_set_user, m_set_bindaddr, m_set_knownhosts, m_set_proxycommand,
  m_set_gssapi_client_identity, m_set_gssapi_server_identity, m_add_identity,
}

-- The names of the levels.
abbrev pub level_name : Verbosity → String
level_name none_level = "none"
level_name warn = "warn"
level_name info = "info"
level_name debug = "debug"
level_name trace = "trace"

pub verbosity_level-level_name : (l : Verbosity) → verbosity_level (level_name l) ≡ ok l
unfolding verbosity_level
verbosity_level-level_name none_level = refl
verbosity_level-level_name warn = refl
verbosity_level-level_name info = refl
verbosity_level-level_name debug = refl
verbosity_level-level_name trace = refl

pub verbosity_level-inverse :
    (id : String) (l : Verbosity) → verbosity_level id ≡ ok l → id ≡ level_name l
unfolding verbosity_level
verbosity_level-inverse id l h = ground (
  arith,
  eq_iff id "none",
  eq_iff id "warn",
  eq_iff id "info",
  eq_iff id "debug",
  eq_iff id "trace",
)

verbosity_level-rejected :
    (id : String) → ((l : Verbosity) → id ≢ level_name l) → verbosity_level id ≡ raised arg_error
unfolding verbosity_level
verbosity_level-rejected id other = ground (
  arith,
  eq_iff id "none",
  eq_iff id "warn",
  eq_iff id "info",
  eq_iff id "debug",
  eq_iff id "trace",
  other none_level,
  other warn,
  other info,
  other debug,
  other trace,
)

level_of :
    (id : String) (r : Result Verbosity)
    → verbosity_level id ≡ r
    → ((l : Verbosity) × (id ≡ level_name l)) ⊎ ((l : Verbosity) → id ≢ level_name l)
level_of id (ok l) e = inl (l, verbosity_level-inverse id l e)
level_of id (raised x) e =
    inr λ l named. ground (arith, e, ap verbosity_level named, verbosity_level-level_name l)
level_of id fault e =
    inr λ l named. ground (arith, e, ap verbosity_level named, verbosity_level-level_name l)

module _ (P : Platform) (a : ℕ) (s : Handle) (w : World P.State)
    (here : w.heap a ≡ some (session s)) where
  -- One call of `ssh_options_set` on the holder's session, and its outcome.
  abbrev pub set_to : OptionType → OptionValue → Result Value × World P.State
  set_to type value =
      let c = ssh_options_set s type value in outcome P s (reply P c w) nil (after P c w)

  -- What a setter of an `int` comes to for each value.
  abbrev pub int_setting : OptionType → Value → Result Value × World P.State
  int_setting type (fixnum i) =
      if fits_signed 31 i then set_to type (int i) else (raised range_error, w)
  int_setting type _ = (raised type_error, w)

  -- What a setter of a `long` comes to.
  abbrev pub long_setting : OptionType → Value → Result Value × World P.State
  long_setting type (fixnum i) = set_to type (long i)
  long_setting type _ = (raised type_error, w)

  -- What a setter of a text comes to for a string.
  abbrev pub string_setting : OptionType → Bytes → Result Value × World P.State
  string_setting type text =
      if contains text 0 then (raised arg_error, w) else set_to type (str text)

  set_log_verbosity-level_name :
      (l : Verbosity)
      → m_set_log_verbosity P (object a) (symbol (level_name l)) w
        ≡ set_to OptionType.log_verbosity (int (P.log_level l))
  unfolding m_set_log_verbosity
  set_log_verbosity-level_name l = ground (arith, verbosity_level-level_name l)

  set_log_verbosity-rejected :
      (id : String)
      → ((l : Verbosity) → id ≢ level_name l)
      → m_set_log_verbosity P (object a) (symbol id) w ≡ (raised arg_error, w)
  unfolding m_set_log_verbosity
  set_log_verbosity-rejected id other = rw (verbosity_level-rejected id other)

  -- `log_verbosity=` with a symbol that is the name of a level sets the option to that level on the
  -- holder's session: an SSH_ERROR is raised, and else the result is nil. With a symbol that names
  -- no level it raises an ArgumentError, and libssh is not called. There is no other symbol.
  pub set_log_verbosity_lem :
      (id : String)
      → ((l : Verbosity) × (id ≡ level_name l)
          × (m_set_log_verbosity P (object a) (symbol id) w
              ≡ set_to OptionType.log_verbosity (int (P.log_level l))))
        ⊎ (((l : Verbosity) → id ≢ level_name l)
            × (m_set_log_verbosity P (object a) (symbol id) w ≡ (raised arg_error, w)))
  set_log_verbosity_lem id = elim (level_of id (verbosity_level id) refl) [
    | inl (l, e) ↦ inl (l, e, rw e (set_log_verbosity-level_name l))
    | inr other ↦ inr (other, set_log_verbosity-rejected id other)
  ]

  number_settings :
      (v : Value)
      → (m_set_port P (object a) v w ≡ int_setting OptionType.port v)
        × (m_set_compression_level P (object a) v w ≡ int_setting OptionType.compression_level v)
        × (m_set_timeout P (object a) v w ≡ long_setting OptionType.timeout v)
        × (m_set_timeout_usec P (object a) v w ≡ long_setting OptionType.timeout_usec v)
  unfolding m_set_port m_set_compression_level m_set_timeout m_set_timeout_usec
  number_settings v = (ground arith, ground arith, ground arith, ground arith)

  -- The setters of texts, `add_identity` and `compression=` hand libssh a string as it is, and raise
  -- an ArgumentError, with no call of libssh, for a string with a NUL byte.
  pub string_options :
      (text : Bytes)
      → (m_set_host P (object a) (string text) w ≡ string_setting OptionType.host text)
        × (m_set_user P (object a) (string text) w ≡ string_setting OptionType.user text)
        × (m_set_bindaddr P (object a) (string text) w ≡ string_setting OptionType.bindaddr text)
        × (m_set_knownhosts P (object a) (string text) w
            ≡ string_setting OptionType.knownhosts text)
        × (m_set_proxycommand P (object a) (string text) w
            ≡ string_setting OptionType.proxycommand text)
        × (m_set_gssapi_client_identity P (object a) (string text) w
            ≡ string_setting OptionType.gssapi_client_identity text)
        × (m_set_gssapi_server_identity P (object a) (string text) w
            ≡ string_setting OptionType.gssapi_server_identity text)
        × (m_add_identity P (object a) (string text) w
            ≡ string_setting OptionType.add_identity text)
        × (m_set_compression P (object a) (string text) w
            ≡ string_setting OptionType.compression text)
  unfolding m_set_host m_set_user m_set_bindaddr m_set_knownhosts m_set_proxycommand
      m_set_gssapi_client_identity m_set_gssapi_server_identity m_add_identity m_set_compression
  string_options text = (
    ground arith,
    ground arith,
    ground arith,
    ground arith,
    ground arith,
    ground arith,
    ground arith,
    ground arith,
    ground arith,
  )

  switch_settings :
      (v : Value)
      → (m_set_stricthostkeycheck P (object a) v w
          ≡ set_to OptionType.stricthostkeycheck (int (if rtest v then pos 1 else pos 0)))
        × (m_set_gssapi_delegate_credentials P (object a) v w
            ≡ set_to OptionType.gssapi_delegate_credentials
                (int (if rtest v then pos 1 else pos 0)))
        × (m_set_compression P (object a) true_value w
            ≡ set_to OptionType.compression (str (codes "yes")))
        × (m_set_compression P (object a) false_value w
            ≡ set_to OptionType.compression (str (codes "no")))
  unfolding m_set_stricthostkeycheck m_set_gssapi_delegate_credentials m_set_compression
  switch_settings v = (ground arith, ground arith, ground arith, ground arith)

  -- `port=` and `compression_level=` hand libssh a fixnum within an `int` as it is, and raise a
  -- RangeError for any other fixnum. `timeout=` and `timeout_usec=` hand it every fixnum as it is.
  -- All four raise a TypeError for what is no fixnum; where they raise one of these, libssh is not
  -- called and nothing changes. `stricthostkeycheck=` and `gssapi_delegate_credentials=` hand libssh
  -- 0 for nil and false and 1 for any other value; `compression=` hands it "yes" for true and "no"
  -- for false.
  pub number_options :
      (v : Value)
      → (m_set_port P (object a) v w ≡ int_setting OptionType.port v)
        × (m_set_compression_level P (object a) v w ≡ int_setting OptionType.compression_level v)
        × (m_set_timeout P (object a) v w ≡ long_setting OptionType.timeout v)
        × (m_set_timeout_usec P (object a) v w ≡ long_setting OptionType.timeout_usec v)
        × (m_set_stricthostkeycheck P (object a) v w
            ≡ set_to OptionType.stricthostkeycheck (int (if rtest v then pos 1 else pos 0)))
        × (m_set_gssapi_delegate_credentials P (object a) v w
            ≡ set_to OptionType.gssapi_delegate_credentials
                (int (if rtest v then pos 1 else pos 0)))
        × (m_set_compression P (object a) true_value w
            ≡ set_to OptionType.compression (str (codes "yes")))
        × (m_set_compression P (object a) false_value w
            ≡ set_to OptionType.compression (str (codes "no")))
  number_options v =
      let (port, level, timeout, usec) = number_settings v in
      let (check, delegate, yes_word, no_word) = switch_settings v in
      (port, level, timeout, usec, check, delegate, yes_word, no_word)
