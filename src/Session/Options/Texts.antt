-- ===== src/Session/Options/Texts.antt =====
-- Lists of names that are handed over as one text, and the path of `parse_config`.
use libssh_ruby.Base.{
  ℕ, pos, ◌==ℤ◌, ◌≡◌, Bytes, codes, contains, false, List, [], ◌∷◌, ◌++◌, Option, none, some, arith,
  if◌then◌else◌,
}
use libssh_ruby.Value.{
  Value, nil, true_value, false_value, string, array, object, Values, empty, entry, Result, ok,
}
use libssh_ruby.Libssh.{Handle, Platform, OptionType, ssh_options_parse_config}
use libssh_ruby.Runtime.{World, session}
use libssh_ruby.Runtime.Trace.{reply, after}
use libssh_ruby.Session.Options.{m_set_key_exchange, m_set_hostkeys, m_parse_config}
use libssh_ruby.Session.Options.Ranges.{string_setting}

abbrev pub strings : List Bytes → Values
strings [] = empty
strings (b ∷ bs) = entry (string b) (strings bs)

abbrev pub behind_commas : List Bytes → Bytes
behind_commas [] = []
behind_commas (b ∷ bs) = codes "," ++ b ++ behind_commas bs

-- The texts with a comma between each and the next.
abbrev pub joined : List Bytes → Bytes
joined [] = []
joined (b ∷ bs) = b ++ behind_commas bs

module _ (P : Platform) (a : ℕ) (s : Handle) (w : World P.State)
    (here : w.heap a ≡ some (session s)) where
  -- One call of `ssh_options_parse_config`: true for the code 0, and false for any other.
  abbrev pub parsed : Option Bytes → Result Value × World P.State
  parsed path =
      let c = ssh_options_parse_config s path in
      (ok (if reply P c w ==ℤ pos 0 then true_value else false_value), after P c w)

  comma_separated-joined :
      (names : List Bytes)
      → ((bs : List Bytes) → P.ary_join (strings bs) (codes ",") ≡ ok (string (joined bs)))
      → (m_set_key_exchange P (object a) (array (strings names)) w
          ≡ string_setting P a s w here OptionType.key_exchange (joined names))
        × (m_set_hostkeys P (object a) (array (strings names)) w
            ≡ string_setting P a s w here OptionType.hostkeys (joined names))
  unfolding m_set_key_exchange m_set_hostkeys
  comma_separated-joined names joins = (ground (arith, joins names), ground (arith, joins names))

  parse_config-parsed :
      (text : Bytes)
      → contains text 0 ≡ false
      → (m_parse_config P [] (object a) w ≡ parsed none)
        × (m_parse_config P (nil ∷ []) (object a) w ≡ parsed none)
        × (m_parse_config P (string text ∷ []) (object a) w ≡ parsed (some text))
  unfolding m_parse_config
  parse_config-parsed text clean = (ground arith, ground arith, ground arith)

  -- Where `rb_ary_join` puts the separator between the strings of an array, `key_exchange=` and
  -- `hostkeys=` with an array of strings hand libssh one text, the strings with commas between
  -- them, for the option of their name; they raise an ArgumentError, with no call of libssh, for a
  -- text with a NUL byte. `parse_config` without an argument, or with nil, hands libssh NULL for
  -- the path, and with a string that has no NUL byte that string. It returns true for the code 0
  -- and false for any other, SSH_ERROR included, and raises nothing.
  pub text_options :
      (names : List Bytes) (text : Bytes)
      → ((bs : List Bytes) → P.ary_join (strings bs) (codes ",") ≡ ok (string (joined bs)))
      → contains text 0 ≡ false
      → (m_set_key_exchange P (object a) (array (strings names)) w
          ≡ string_setting P a s w here OptionType.key_exchange (joined names))
        × (m_set_hostkeys P (object a) (array (strings names)) w
            ≡ string_setting P a s w here OptionType.hostkeys (joined names))
        × (m_parse_config P [] (object a) w ≡ parsed none)
        × (m_parse_config P (nil ∷ []) (object a) w ≡ parsed none)
        × (m_parse_config P (string text ∷ []) (object a) w ≡ parsed (some text))
  text_options names text joins clean =
      let (exchange, hostkeys) = comma_separated-joined names joins in
      let (absent, null, given) = parse_config-parsed text clean in
      (exchange, hostkeys, absent, null, given)
