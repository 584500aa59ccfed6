-- ===== src/Session/Auth/Methods.antt =====
-- The bits of `ssh_userauth_list` against the symbols that `userauth_list` makes of them.
use libssh_ruby.Base.{
  List, [], ◌∷◌, ℕ, ◌+◌, ◌≤◌, String, ℤ, ◌≡◌, refl, false, ◌==◌, sym, to_unsigned, ◌*◌, ◌%◌, ap,
  inl, inr, arith, str_eq, if◌then◌else◌,
}
use libssh_ruby.Base.Bits.{
  digit, weight, bit_and-weight, masked_cases, digit_cases, weight_positive,
}
use libssh_ruby.Value.{symbol, Values, empty, entry}
use libssh_ruby.Libssh.{
  Platform, AuthMethod, none_method, password, publickey, hostbased, interactive, gssapi_mic,
}
use libssh_ruby.Session.Auth.{method_symbols, push_if}

-- The values of `SSH_AUTH_METHOD_*` in libssh's documentation.
abbrev pub documented_flag : AuthMethod → ℕ
documented_flag none_method = 0x01
documented_flag password = 0x02
documented_flag publickey = 0x04
documented_flag hostbased = 0x08
documented_flag interactive = 0x10
documented_flag gssapi_mic = 0x20

-- The flag that a symbol names.
abbrev pub flag_of : String → ℕ
flag_of id =
    if str_eq id "none"
    then 0x01
    else if str_eq id "password"
    then 0x02
    else if str_eq id "publickey"
    then 0x04
    else if str_eq id "hostbased"
    then 0x08
    else if str_eq id "interactive"
    then 0x10
    else if str_eq id "gssapi_mic"
    then 0x20
    else 0

abbrev pub flags_of : Values → ℕ
flags_of empty = 0
flags_of (entry (symbol id) vs) = flag_of id + flags_of vs
flags_of (entry v vs) = flags_of vs

differs : (n : ℕ) → 1 ≤ n → (n == 0) ≡ false
differs n positive = ground arith

-- A symbol stands for the digit that its flag masks.
push_if-flags :
    (list : ℤ) (k : ℕ) (id : String) (rest : Values)
    → flag_of id ≡ weight k
    → flags_of (push_if list (weight k) id rest)
      ≡ digit k (to_unsigned 32 list) * weight k + flags_of rest
push_if-flags list k id rest named = elim (masked_cases k (to_unsigned 32 list)) [
  | inl absent ↦ rw (sym (bit_and-weight k (to_unsigned 32 list)), absent) (omega arith)
  | inr (present, positive) ↦
      rw (sym (bit_and-weight k (to_unsigned 32 list)), present, differs (weight k) positive)
        (ap (λ x. x + flags_of rest) named)
]

-- The first six digits.
binary_digits :
    (a : ℕ)
    → digit 0 a * 1
        + (digit 1 a * 2
            + (digit 2 a * 4 + (digit 3 a * 8 + (digit 4 a * 16 + (digit 5 a * 32 + 0)))))
      ≡ a % 64
binary_digits a = omega arith

-- The symbol of a method, and the position of its flag.
abbrev pub symbol_of : AuthMethod → String
symbol_of none_method = "none"
symbol_of password = "password"
symbol_of publickey = "publickey"
symbol_of hostbased = "hostbased"
symbol_of interactive = "interactive"
symbol_of gssapi_mic = "gssapi_mic"

abbrev pub position : AuthMethod → ℕ
position none_method = 0
position password = 1
position publickey = 2
position hostbased = 3
position interactive = 4
position gssapi_mic = 5

-- The symbols of the methods whose digit is 1 in the answer, each once and in their order.
abbrev pub chosen : ℕ → List AuthMethod → Values
chosen answer [] = empty
chosen answer (m ∷ ms) =
    if digit (position m) answer == 1
    then entry (symbol (symbol_of m)) (chosen answer ms)
    else chosen answer ms

abbrev pub methods : List AuthMethod
methods = none_method ∷ password ∷ publickey ∷ hostbased ∷ interactive ∷ gssapi_mic ∷ []

push_if-digit :
    (list : ℤ) (k : ℕ) (name : String) (rest : Values)
    → push_if list (weight k) name rest
      ≡ (if digit k (to_unsigned 32 list) == 1 then entry (symbol name) rest else rest)
push_if-digit list k name rest = elim (digit_cases k (to_unsigned 32 list)) [
  | inl absent ↦ rw (bit_and-weight k (to_unsigned 32 list), absent) (ground arith)
  | inr present ↦
      rw
        (
          bit_and-weight k (to_unsigned 32 list),
          present,
          differs (1 * weight k) (omega (arith, weight_positive k)),
        )
        refl
]

module _ (P : Platform) where
  -- With the documented values of the flags, the symbols that `userauth_list` makes of any answer,
  -- taken as an unsigned number, are those of the methods whose flag is set in it, each once and in
  -- the order of the flags: their flags add up to the lowest six digits of the answer.
  pub flags_of-method_symbols :
      (list : ℤ)
      → ((m : AuthMethod) → P.auth_method m ≡ documented_flag m)
      → (method_symbols P list ≡ chosen (to_unsigned 32 list) methods)
        × (flags_of (method_symbols P list) ≡ to_unsigned 32 list % 64)
  unfolding method_symbols
  flags_of-method_symbols list values =
      rw
        (
          values none_method,
          values password,
          values publickey,
          values hostbased,
          values interactive,
          values gssapi_mic,
        )
        (
          rw
              (
                push_if-digit list 0 "none",
                push_if-digit list 1 "password",
                push_if-digit list 2 "publickey",
                push_if-digit list 3 "hostbased",
                push_if-digit list 4 "interactive",
                push_if-digit list 5 "gssapi_mic",
              )
              refl,
          rw
              (
                push_if-flags list 0 "none" _ refl,
                push_if-flags list 1 "password" _ refl,
                push_if-flags list 2 "publickey" _ refl,
                push_if-flags list 3 "hostbased" _ refl,
                push_if-flags list 4 "interactive" _ refl,
                push_if-flags list 5 "gssapi_mic" _ refl,
              )
              (binary_digits (to_unsigned 32 list)),
        )
