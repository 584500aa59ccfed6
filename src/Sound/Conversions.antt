-- ===== src/Sound/Conversions.antt =====
-- The conversions of arguments return or raise.
use libssh_ruby.Base.{ℕ, ℤ, pos, negsuc, ◌≡◌, Bytes, String, ◌≢◌, refl, List, arith}
use libssh_ruby.Value.{Value, undef, fixnum, string, Result, ok, raised, fault}
use libssh_ruby.Libssh.{Platform}
use libssh_ruby.Runtime.{World, Action, continue}
use libssh_ruby.Runtime.Api.{
  string_value_cstr, num2ulong, fix2int, fix2uint, check_fixnum, Keywords, get_kwargs, scan_args,
  utf8_str_new,
}
use libssh_ruby.Channel.Stream.{timeout_of}
use libssh_ruby.Channel.Stream.Buffers.{Fits}
use libssh_ruby.Channel.Stream.Buffers.{Fits}
use libssh_ruby.Sound.{Honest}

pub continue_sound :
    {S A B : Type 0} (r : Result A) (f : A → Action S B) (w : World S)
    → r ≢ fault
    → ((x : A) → (f x w).0 ≢ fault)
    → (continue r f w).0 ≢ fault
continue_sound (ok x) f w r_sound f_sound = f_sound x
continue_sound (raised e) f w r_sound f_sound = ground arith
continue_sound fault f w r_sound f_sound = absurd (r_sound refl)

module _ (P : Platform) (honest : Honest P) where
  pub cstr_returns : (v : Value) → string_value_cstr P v ≢ fault
  unfolding string_value_cstr
  cstr_returns (string b) = ground arith
  cstr_returns v = ground (arith, honest.to_str_returns v)

  pub num2ulong_returns : (v : Value) → num2ulong P v ≢ fault
  unfolding num2ulong
  num2ulong_returns (fixnum i) = ground arith
  num2ulong_returns v = honest.big2ulong_returns v

  pub fix2int_returns : (v : Value) → fix2int P v ≢ fault
  unfolding fix2int
  fix2int_returns (fixnum i) = ground arith
  fix2int_returns v = ground (arith, honest.to_int_returns v)

  pub timeout_returns : (v : Value) → timeout_of P v ≢ fault
  unfolding check_fixnum
  timeout_returns undef = ground arith
  timeout_returns (fixnum i) = fix2int_returns (fixnum i)
  timeout_returns v = ground arith

pub kwargs_returns : (table : List String) (ks : Keywords) → get_kwargs table ks ≢ fault
unfolding get_kwargs
kwargs_returns table ks = ground arith

pub fix2uint_returns : (v : Value) (i : ℤ) → v ≡ fixnum i → fix2uint v ≢ fault
unfolding fix2uint
fix2uint_returns (fixnum i) j is_fixnum = ground arith
fix2uint_returns v j is_fixnum = ground arith

pub scan_args_returns :
    (required optional : ℕ) (argv : List Value) → scan_args required optional argv ≢ fault
unfolding scan_args
scan_args_returns required optional argv = ground arith

pub fixnum_sound :
    {S B : Type 0} (v : Value) (f : Unit {0} → Action S B) (w : World S)
    → ((i : ℤ) → v ≡ fixnum i → (f tt w).0 ≢ fault)
    → (continue (check_fixnum v) f w).0 ≢ fault
unfolding check_fixnum
fixnum_sound (fixnum i) f w step = step i refl
fixnum_sound v f w step = ground arith

pub utf8_returns :
    (size : ℕ) (answer : ℤ × Bytes) → Fits size answer → utf8_str_new size answer.1 answer.0 ≢ fault
unfolding utf8_str_new
utf8_returns size (pos k, buffer) fits = ground arith
utf8_returns size (negsuc k, buffer) fits = ground arith
