-- ===== src/GoStrings/Integer.antt =====
-- strconv.Atoi, over int64.
use mano_reck.Prelude.{
  ℕ, zero, suc, ◌+◌, ◌-◌, ◌*◌, ◌^◌, ◌<◌, ◌≡◌, ◌≢◌, refl, ap, ◌∙◌, ◌&&◌, ltb, leb, ◌==◌,
  if◌then◌else◌, Option, none, some, [], ◌∷◌, All, Text, ℤ, pos, negsuc, arith, subst, sym,
}
use mano_reck.GoStrings.{itoa}
use mano_reck.GoStrings.Decimal.{IsDigit, itoa-digits, value_from, value-itoa, itoa_full}

unfoldable pub scan_digits : ℕ → Text → Option ℕ
scan_digits n [] = some n
scan_digits n (c ∷ cs) =
    let rest = scan_digits (n * 10 + (c - b'0')) cs in
    if leb b'0' c && leb c b'9' then rest else none

-- A sign needs a digit after it.
unfoldable pub unsigned : Text → Option ℕ
unfolding scan_digits
unsigned [] = none
unsigned (c ∷ cs) = scan_digits 0 (c ∷ cs)

abbrev pub positive : Option ℕ → Option ℤ
positive none = none
positive (some n) = if ltb n (2 ^ 63) then some (pos n) else none

abbrev pub negative : Option ℕ → Option ℤ
negative none = none
negative (some zero) = some (pos 0)
negative (some (suc n)) = if ltb n (2 ^ 63) then some (negsuc n) else none

unfoldable pub atoi : Text → Option ℤ
unfolding unsigned
atoi [] = none
atoi (c ∷ cs) =
    if c == b'-'
    then negative (unsigned cs)
    else if c == b'+'
    then positive (unsigned cs)
    else positive (unsigned (c ∷ cs))

scan_digits-value : (n : ℕ) (s : Text) → All IsDigit s → scan_digits n s ≡ some (value_from n s)
unfolding scan_digits value_from
scan_digits-value n [] d = refl
scan_digits-value n (c ∷ cs) d = ground (arith, scan_digits-value (n * 10 + (c - b'0')) cs d.1)

atoi-digits :
    (s : Text)
    → s ≢ []
    → All IsDigit s
    → value_from 0 s < 2 ^ 63
    → atoi s ≡ some (pos (value_from 0 s))
unfolding atoi unsigned
atoi-digits [] full d fits = absurd (full refl)
atoi-digits (c ∷ cs) full d fits = ground (arith, scan_digits-value 0 (c ∷ cs) d)

-- Atoi reads what Itoa writes.
pub atoi-itoa : (n : ℕ) → n < 2 ^ 63 → atoi (itoa (pos n)) ≡ some (pos n)
atoi-itoa n fits =
    let same = value-itoa n in
    atoi-digits (itoa (pos n)) (itoa_full n) (itoa-digits n)
      (subst (λ v. v < 2 ^ 63) (sym same) fits)
    ∙ ap (λ v. some (pos v)) same
