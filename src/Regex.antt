-- ===== src/Regex.antt =====
-- What src/ uses of Go's regexp: anchored patterns over ASCII classes, matched by derivatives.
pub mod Language
pub mod Decides
pub mod Laws
use mano_reck.Prelude.{
  ℕ, zero, suc, Bool, true, false, ◌&&◌, ◌||◌, leb, if◌then◌else◌, List, [], ◌∷◌, ◌≡◌, refl, Text,
}

-- `cls` is a class of characters by its ranges, `none_of` matches nothing.
pub data Regex : Type 0 where
  none_of eps : Regex
  cls : List (ℕ × ℕ) → Regex
  seq alt : Regex → Regex → Regex
  star : Regex → Regex

abbrev pub in_ranges : List (ℕ × ℕ) → ℕ → Bool
in_ranges [] c = false
in_ranges ((lo, hi) ∷ rs) c = (leb lo c && leb c hi) || in_ranges rs c

unfoldable pub nullable : Regex → Bool
nullable none_of = false
nullable eps = true
nullable (cls rs) = false
nullable (seq r q) = nullable r && nullable q
nullable (alt r q) = nullable r || nullable q
nullable (star r) = true

-- What may follow after the character `c`.
unfoldable pub deriv : ℕ → Regex → Regex
deriv c none_of = none_of
deriv c eps = none_of
deriv c (cls rs) = if in_ranges rs c then eps else none_of
deriv c (seq r q) =
    let left = seq (deriv c r) q in
    let right = deriv c q in if nullable r then alt left right else left
deriv c (alt r q) = alt (deriv c r) (deriv c q)
deriv c (star r) = seq (deriv c r) (star r)

-- `pattern.MatchString(s)` of a pattern between `^` and `$`.
unfoldable pub match_string : Regex → Text → Bool
unfolding nullable deriv
match_string r [] = nullable r
match_string r (c ∷ cs) = match_string (deriv c r) cs

-- `r+`, `r?`, and `r{m,n}` by its count of required and of optional copies.
abbrev pub plus : Regex → Regex
plus r = seq r (star r)

abbrev pub optional : Regex → Regex
optional r = alt r eps

abbrev pub repeat : ℕ → ℕ → Regex → Regex
repeat zero zero r = eps
repeat zero (suc n) r = optional (seq r (repeat zero n r))
repeat (suc m) n r = seq r (repeat m n r)

abbrev pub char : ℕ → Regex
char c = cls ((c, c) ∷ [])

abbrev pub literal : Text → Regex
literal [] = eps
literal (c ∷ cs) = seq (char c) (literal cs)
