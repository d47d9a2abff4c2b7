-- ===== src/Config/Numbers.antt =====
-- The ranges of the numbers that config.go reads.
use mano_reck.Prelude.{
  ℕ, ◌*◌, ◌^◌, ◌≤◌, ◌<◌, ◌≡◌, ap, ◌∙◌, true, Option, none, some, Text, ℤ, pos, leb_ℤ, mul64,
  mul64_pos, between, arith, subst,
}
use mano_reck.GoError.{ok, bind_ok, ok_eq}
use mano_reck.GoStrings.Integer.{atoi-itoa}
use mano_reck.Config.Values.{LookupEnv, integer, integer_in, second, seconds}

-- A number from `lo` to `hi`, in units of `unit`.
abbrev pub Scaled : ℕ → ℕ → ℕ → ℤ → Type 0
Scaled unit lo hi v = (n : ℕ) × (v ≡ pos (n * unit)) × (lo ≤ n) × (n ≤ hi)

abbrev pub Within : ℕ → ℕ → ℤ → Type 0
Within lo hi v = (n : ℕ) × (v ≡ pos n) × (lo ≤ n) × (n ≤ hi)

integer_in-bounds :
    (name : Text) (lo hi : ℤ) (value : Text) (o : Option ℤ) (v : ℤ)
    → integer_in name lo hi value o ≡ ok v
    → (leb_ℤ lo v ≡ true) × (leb_ℤ v hi ≡ true)
unfolding integer_in
integer_in-bounds name lo hi value none v h = absurd (ground arith)
integer_in-bounds name lo hi value (some p) v h = ground arith

pub integer-Within :
    (lookup : LookupEnv) (name : Text) (fallback : ℤ) (lo hi : ℕ) (v : ℤ)
    → integer lookup name fallback (pos lo) (pos hi) ≡ ok v
    → Within lo hi v
unfolding integer
integer-Within lookup name fallback lo hi v h =
    let (a, b) = integer_in-bounds name (pos lo) (pos hi) _ _ v h in between lo hi v a b

pub mul64-Scaled :
    (unit lo hi : ℕ) (v : ℤ)
    → hi * unit < 2 ^ 63
    → Within lo hi v
    → Scaled unit lo hi (mul64 v unit)
mul64-Scaled unit lo hi v fits (n, e, a, b) =
    (n, ap (λ x. mul64 x unit) e ∙ mul64_pos n unit (grind arith), a, b)

-- With the variable unset, integer returns a fallback that lies in its range.
pub integer_unset :
    (lookup : LookupEnv) (name : Text) (fallback lo hi : ℕ)
    → lookup name ≡ none
    → fallback < 2 ^ 63
    → lo ≤ fallback
    → fallback ≤ hi
    → integer lookup name (pos fallback) (pos lo) (pos hi) ≡ ok (pos fallback)
unfolding integer integer_in
integer_unset lookup name fallback lo hi unset fits a b =
    rw (integer, unset) (rw (atoi-itoa fallback fits) (ground arith))

pub seconds-Scaled :
    (lookup : LookupEnv) (name : Text) (fallback v : ℤ)
    → seconds lookup name fallback ≡ ok v
    → Scaled second 1 60 v
unfolding seconds
seconds-Scaled lookup name fallback v h =
    let (p, e, k) = bind_ok (integer lookup name fallback (pos 1) (pos 60)) _ h in
    subst (Scaled second 1 60) (ok_eq k)
      (mul64-Scaled second 1 60 p (omega arith) (integer-Within lookup name fallback 1 60 p e))
