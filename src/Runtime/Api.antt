-- ===== src/Runtime/Api.antt =====
-- The functions and macros of Ruby's C API that ext/libssh_ruby uses, on a 64-bit machine.
use libssh_ruby.Base.{
  ℕ, zero, suc, ◌+◌, String, ℤ, pos, negsuc, fits_signed, to_unsigned, Bytes, contains, length,
  take, Bool, true, false, ◌&&◌, ◌||◌, List, [], ◌∷◌, Option, none, some, leb, ltb, ◌^◌, str_eq,
  if◌then◌else◌,
}
use libssh_ruby.Value.{
  Value, undef, nil, fixnum, symbol, string, array, type_error, arg_error, range_error, no_memory,
  Values, Result, ok, raised, fault,
}
use libssh_ruby.Libssh.{Platform}
use libssh_ruby.Runtime.{Action, pure}

-- `Check_Type(v, T_FIXNUM)`
unfoldable pub check_fixnum : Value → Result (Unit {0})
check_fixnum (fixnum i) = ok tt
check_fixnum _ = raised type_error

-- `Check_Type(v, T_SYMBOL)`, and the symbol's name, which stands for its ID.
unfoldable pub check_symbol : Value → Result String
check_symbol (symbol s) = ok s
check_symbol _ = raised type_error

-- `Check_Type(v, T_STRING)`, and the string's bytes.
unfoldable pub check_string : Value → Result Bytes
check_string (string b) = ok b
check_string _ = raised type_error

-- `Check_Type(v, T_ARRAY)`, and the array's entries.
unfoldable pub check_array : Value → Result Values
check_array (array vs) = ok vs
check_array _ = raised type_error

abbrev int_range : ℤ → Result ℤ
int_range i = if fits_signed 31 i then ok i else raised range_error

abbrev int_range_of : Result ℤ → Result ℤ
int_range_of (ok i) = int_range i
int_range_of r = r

-- `FIX2INT` checks the range of an `int`, and converts what is no fixnum as `NUM2INT` does.
unfoldable pub fix2int : Platform → Value → Result ℤ
fix2int P (fixnum i) = int_range i
fix2int P v = int_range_of (P.to_int v)

-- `FIX2LONG` reads a fixnum and checks nothing.
unfoldable pub fix2long : Value → Result ℤ
fix2long (fixnum i) = ok i
fix2long _ = fault

-- `FIX2UINT` of a fixnum: a negative number down to the least `int` wraps.
unfoldable pub fix2uint : Value → Result ℕ
fix2uint (fixnum (pos n)) = if ltb n (2 ^ 32) then ok n else raised range_error
fix2uint (fixnum (negsuc n)) =
    if fits_signed 31 (negsuc n) then ok (to_unsigned 32 (negsuc n)) else raised range_error
fix2uint _ = fault

-- `NUM2ULONG`: a negative fixnum wraps.
unfoldable pub num2ulong : Platform → Value → Result ℕ
num2ulong P (fixnum i) = ok (to_unsigned 64 i)
num2ulong P v = P.big2ulong v

abbrev no_nul : Result Bytes → Result Bytes
no_nul (ok b) = if contains b 0 then raised arg_error else ok b
no_nul r = r

-- `StringValueCStr`: a string with a NUL byte is refused.
unfoldable pub string_value_cstr : Platform → Value → Result Bytes
string_value_cstr P (string b) = no_nul (ok b)
string_value_cstr P v = no_nul (P.to_str v)

-- `rb_str_new_cstr`, which refuses NULL.
unfoldable pub str_new_cstr : Option Bytes → Result Value
str_new_cstr none = raised arg_error
str_new_cstr (some b) = ok (string b)

-- `rb_utf8_str_new(buf, len)` for a buffer of `size` bytes: a negative length is refused, and a
-- length beyond the buffer reads out of bounds.
unfoldable pub utf8_str_new : ℕ → Bytes → ℤ → Result Value
utf8_str_new size buf (pos n) = if leb n size then ok (string (take n buf)) else fault
utf8_str_new size buf (negsuc n) = raised arg_error

-- The arguments that are given, and nil for those that are not.
abbrev pub slot : List Value → ℕ → Value
slot [] i = nil
slot (v ∷ vs) zero = v
slot (v ∷ vs) (suc i) = slot vs i

-- `rb_scan_args` for a number of required and a number of optional arguments.
unfoldable pub scan_args : ℕ → ℕ → List Value → Result (ℕ → Value)
scan_args required optional argv =
    if leb required (length argv) && leb (length argv) (required + optional)
    then ok (slot argv)
    else raised arg_error

abbrev pub Keywords : Type 0
Keywords = List (String × Value)

abbrev listed : String → List String → Bool
listed k [] = false
listed k (j ∷ js) = str_eq k j || listed k js

abbrev all_listed : Keywords → List String → Bool
all_listed [] table = true
all_listed ((k, v) ∷ ks) table = listed k table && all_listed ks table

abbrev pub keyword : Keywords → String → Value
keyword [] key = undef
keyword ((k, v) ∷ ks) key = if str_eq k key then v else keyword ks key

-- `rb_get_kwargs` with optional keywords only: an unknown one is refused, a missing one is Qundef.
unfoldable pub get_kwargs : List String → Keywords → Result (String → Value)
get_kwargs table ks = if all_listed ks table then ok (keyword ks) else raised arg_error

abbrev pub ended : Result Value → Result Value → Result Value
ended r (ok _) = r
ended r (raised e) = raised e
ended r fault = fault

module _ {S : Type 0} where
  -- `ALLOC_N(char, n)`
  unfoldable pub alloc_n : Bool → Action S (Unit {0})
  alloc_n true w = (ok tt, record w { buffers = suc w.buffers })
  alloc_n false w = (raised no_memory, w)

  abbrev pub release : ℕ → Action S (Unit {0})
  release zero w = (fault, w)
  release (suc n) w = (ok tt, record w { buffers = n })

  -- `ruby_xfree` of a buffer; with no buffer left it would be a double free.
  unfoldable pub xfree : Action S (Unit {0})
  xfree w = release w.buffers w

  abbrev pub cleaned : Result Value → Action S Value → Action S Value
  cleaned fault cleanup w = (fault, w)
  cleaned r cleanup w = let (c, w') = cleanup w in (ended r c, w')

  -- `rb_ensure`: the cleanup runs whether the body returns or raises, and what it raises wins.
  unfoldable pub ensure : Action S Value → Action S Value → Action S Value
  ensure body cleanup w = let (r, w') = body w in cleaned r cleanup w'

  -- `if (rb_block_given_p()) return rb_ensure(rb_yield, Qnil, cleanup, self); else return Qnil;`
  unfoldable pub yield_ensure : Option (Action S Value) → Action S Value → Action S Value
  unfolding ensure pure
  yield_ensure none cleanup = pure nil
  yield_ensure (some block) cleanup = ensure block cleanup
