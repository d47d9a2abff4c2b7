-- ===== src/GoStrings/Decimal.antt =====
-- Decimal text determines its number, and has the form that SQL's `[1-9][0-9]*` asks for.
use mano_reck.Prelude.{
  ℕ, zero, suc, ◌+◌, ◌-◌, ◌*◌, ◌/◌, ◌%◌, ◌≤◌, ◌<◌, ◌≡◌, ◌≢◌, refl, sym, ◌∙◌, ap, inl, inr,
  Bool-cases, ltb, [], ◌∷◌, arith, All, Text, pos,
}
use mano_reck.GoStrings.{digits_onto, itoa}

unfoldable pub value_from : ℕ → Text → ℕ
value_from v [] = v
value_from v (c ∷ cs) = value_from (v * 10 + (c - b'0')) cs

value-digits_onto :
    (fuel n : ℕ) (rest : Text)
    → n < fuel
    → value_from 0 (digits_onto fuel n rest) ≡ value_from n rest
unfolding digits_onto value_from
value-digits_onto zero n rest h = elim h [ ]
value-digits_onto (suc fuel) n rest h = elim (Bool-cases (ltb n 10)) [
  | inl small ↦ rw small (ap (λ v. value_from v rest) (omega arith))
  | inr large ↦ rw large (
      value-digits_onto fuel (n / 10) ((b'0' + n % 10) ∷ rest) (ground arith)
      ∙ ap (λ v. value_from v rest) (omega arith))
]

pub value-itoa : (n : ℕ) → value_from 0 (itoa (pos n)) ≡ n
unfolding itoa value_from
value-itoa n = value-digits_onto (suc n) n [] (omega arith)

-- Two numbers with one decimal text are equal.
pub itoa-injective : (m n : ℕ) → itoa (pos m) ≡ itoa (pos n) → m ≡ n
itoa-injective m n e = sym (value-itoa m) ∙ ap (value_from 0) e ∙ value-itoa n

abbrev pub IsDigit : ℕ → Type 0
IsDigit c = (b'0' ≤ c) × (c ≤ b'9')

digits_onto-digits :
    (fuel n : ℕ) (rest : Text) → All IsDigit rest → All IsDigit (digits_onto fuel n rest)
unfolding digits_onto
digits_onto-digits zero n rest h = h
digits_onto-digits (suc fuel) n rest h = elim (Bool-cases (ltb n 10)) [
  | inl small ↦ rw small ((omega arith, ground arith), h)
  | inr large ↦
      rw large
        (digits_onto-digits fuel (n / 10) ((b'0' + n % 10) ∷ rest) ((omega arith, omega arith), h))
]

pub itoa-digits : (n : ℕ) → All IsDigit (itoa (pos n))
unfolding itoa
itoa-digits n = digits_onto-digits (suc n) n [] tt

-- A positive number's text begins with a digit that is not zero.
abbrev pub StartsNonzero : Text → Type 0
StartsNonzero s = (d : ℕ) × (ds : Text) × (s ≡ d ∷ ds) × (b'1' ≤ d) × (d ≤ b'9') × All IsDigit ds

digits_onto-first :
    (fuel n : ℕ) (rest : Text)
    → n < fuel
    → 0 < n
    → All IsDigit rest
    → StartsNonzero (digits_onto fuel n rest)
unfolding digits_onto
digits_onto-first zero n rest h p d = elim h [ ]
digits_onto-first (suc fuel) n rest h p d = elim (Bool-cases (ltb n 10)) [
  | inl small ↦ rw small (b'0' + n, rest, refl, omega arith, ground arith, d)
  | inr large ↦ rw large (
      digits_onto-first fuel (n / 10) ((b'0' + n % 10) ∷ rest) (ground arith) (ground arith)
        ((omega arith, omega arith), d))
]

pub itoa-first : (n : ℕ) → 0 < n → StartsNonzero (itoa (pos n))
unfolding itoa
itoa-first n p = digits_onto-first (suc n) n [] (omega arith) p tt

digits_onto_full : (fuel n : ℕ) (rest : Text) → n < fuel → digits_onto fuel n rest ≢ []
unfolding digits_onto
digits_onto_full zero n rest h = elim h [ ]
digits_onto_full (suc fuel) n rest h = elim (Bool-cases (ltb n 10)) [
  | inl small ↦ rw small (λ e. cc)
  | inr large ↦ rw large (digits_onto_full fuel (n / 10) ((b'0' + n % 10) ∷ rest) (ground arith))
]

pub itoa_full : (n : ℕ) → itoa (pos n) ≢ []
unfolding itoa
itoa_full n = digits_onto_full (suc n) n [] (omega arith)
