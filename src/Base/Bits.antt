-- ===== src/Base/Bits.antt =====
-- `&` on numbers, one binary digit after another.
use Prim.Native.Nat.{digits, min, bit_and-bitwise}
use libssh_ruby.Base.{
  ℕ, zero, suc, ◌+◌, ◌*◌, ◌/◌, ◌%◌, ◌≤◌, bit_and, ◌≡◌, refl, sym, ap, ◌∙◌, ◌⊎◌, inl, inr,
  Bool-cases, ◌==◌, ==_iff, arith,
}

abbrev and_digits : ℕ → ℕ → ℕ → ℕ
and_digits n a b = digits (λ b. 0) min n a b

-- Any count of digits that is large enough gives the same.
and_digits_same : (n m a b : ℕ) → a ≤ n → a ≤ m → and_digits n a b ≡ and_digits m a b
and_digits_same zero zero a b le le' = refl
and_digits_same zero (suc m) zero b le le' = refl
and_digits_same zero (suc m) (suc a) b le le' = absurd (omega arith)
and_digits_same (suc n) zero zero b le le' = refl
and_digits_same (suc n) zero (suc a) b le le' = absurd (omega arith)
and_digits_same (suc n) (suc m) zero b le le' = refl
and_digits_same (suc n) (suc m) (suc a) b le le' =
    ap (λ x. x * 2 + min (suc a % 2) (b % 2))
      (and_digits_same n m (suc a / 2) (b / 2) (omega arith) (omega arith))

and_digits_zero : (n a : ℕ) → and_digits n a 0 ≡ 0
and_digits_zero zero a = refl
and_digits_zero (suc n) zero = refl
and_digits_zero (suc n) (suc a) = omega (arith, and_digits_zero n (suc a / 2))

bit_and_step : (a b : ℕ) → bit_and a b ≡ bit_and (a / 2) (b / 2) * 2 + min (a % 2) (b % 2)
bit_and_step zero b = omega (arith, bit_and-bitwise 0 b, bit_and-bitwise 0 (b / 2))
bit_and_step (suc a) b =
    bit_and-bitwise (suc a) b
    ∙ ap (λ x. x * 2 + min (suc a % 2) (b % 2))
        (and_digits_same a (suc a / 2) (suc a / 2) (b / 2) (omega arith) (omega arith)
          ∙ sym (bit_and-bitwise (suc a / 2) (b / 2)))

bit_and-zero : (a : ℕ) → bit_and a 0 ≡ 0
bit_and-zero a = bit_and-bitwise a 0 ∙ and_digits_zero a a

-- The lowest digit.
pub bit_and-one : (a : ℕ) → bit_and a 1 ≡ a % 2
bit_and-one a = omega (arith, bit_and_step a 1, bit_and-zero (a / 2))

half-double : (b : ℕ) → 2 * b / 2 ≡ b
half-double b = omega arith

even-double : (b : ℕ) → 2 * b % 2 ≡ 0
even-double b = omega arith

-- A digit further up.
pub bit_and-double : (a b : ℕ) → bit_and a (2 * b) ≡ bit_and (a / 2) b * 2
bit_and-double a b = bit_and_step a (2 * b) ∙ rw (half-double b, even-double b) (omega arith)

-- The digit at a position, and its weight.
abbrev pub digit : ℕ → ℕ → ℕ
digit zero a = a % 2
digit (suc k) a = digit k (a / 2)

abbrev pub weight : ℕ → ℕ
weight zero = 1
weight (suc k) = 2 * weight k

pub bit_and-weight : (k a : ℕ) → bit_and a (weight k) ≡ digit k a * weight k
bit_and-weight zero a = omega (arith, bit_and-one a)
bit_and-weight (suc k) a =
    bit_and-double a (weight k) ∙ ap (λ x. x * 2) (bit_and-weight k (a / 2)) ∙ omega arith

remainder_cases : (a : ℕ) → (a % 2 ≡ 0) ⊎ (a % 2 ≡ 1)
remainder_cases a = elim (Bool-cases (a % 2 == 0)) [
  | inl e ↦ inl ((==_iff (a % 2) 0).0 e)
  | inr e ↦ inr (ground arith)
]

pub digit_cases : (k a : ℕ) → (digit k a ≡ 0) ⊎ (digit k a ≡ 1)
digit_cases zero a = remainder_cases a
digit_cases (suc k) a = digit_cases k (a / 2)

pub weight_positive : (k : ℕ) → 1 ≤ weight k
weight_positive zero = omega arith
weight_positive (suc k) = omega (arith, weight_positive k)

-- A digit is 0, or 1 with its weight above 0.
pub masked_cases :
    (k a : ℕ) → (bit_and a (weight k) ≡ 0) ⊎ ((bit_and a (weight k) ≡ weight k) × (1 ≤ weight k))
masked_cases k a = elim (digit_cases k a) [
  | inl e ↦ inl (bit_and-weight k a ∙ rw e (omega arith))
  | inr e ↦ inr (bit_and-weight k a ∙ rw e (omega arith), weight_positive k)
]
