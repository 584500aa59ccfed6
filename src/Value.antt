-- ===== src/Value.antt =====
-- Ruby values, exceptions and results of the C functions of ext/libssh_ruby.
use libssh_ruby.Base.{ℕ, String, ℤ, Bytes, Bool, true, false, List, [], ◌∷◌}

-- A `VALUE`. `object` is a `T_DATA` object, by its address; `other` stands for a value of any
-- other type (a bignum, a float, a hash, an object of another class).
mutual
  pub data Value : Type 0 where
    undef nil true_value false_value : Value
    fixnum : ℤ → Value
    symbol : String → Value
    string : Bytes → Value
    array : Values → Value
    object : ℕ → Value
    other : ℕ → Value

  pub data Values : Type 0 where
    empty : Values
    entry : Value → Values → Values

abbrev pub to_list : Values → List Value
to_list empty = []
to_list (entry v vs) = v ∷ to_list vs

-- `RTEST`: all but `nil` and `false` are true.
abbrev pub rtest : Value → Bool
rtest nil = false
rtest false_value = false
rtest _ = true

-- `c ? Qtrue : Qfalse`
abbrev pub of_bool : Bool → Value
of_bool true = true_value
of_bool false = false_value

-- `libssh_error` is a `LibSSH::Error` with its `@code` and its message.
pub data Exception : Type 0 where
  type_error arg_error range_error no_memory no_method local_jump_error : Exception
  libssh_error : ℤ → Value → Exception
  user_error : Value → Exception

-- How a call ends. `fault` is undefined behaviour of C, such as the use of a variable that was
-- never set.
pub data Result {ℓ} (A : Type ℓ) : Type ℓ where
  ok : A → Result A
  raised : Exception → Result A
  fault : Result A

-- A chain of conversions that may raise.
abbrev pub and_then {ℓ κ} : {A : Type ℓ} {B : Type κ} → Result A → (A → Result B) → Result B
and_then (ok a) f = f a
and_then (raised e) f = raised e
and_then fault f = fault
