-- ===== src/GoStrings/Trim.antt =====
-- Texts of printable ASCII characters: trimming leaves them, and what they contain.
use mathlib.Core.List.{reverse, reverse-cons, reverse-reverse}
use mano_reck.Prelude.{
  ℕ, ◌≤◌, ◌<◌, ◌≡◌, ◌≢◌, refl, sym, ap, ◌∙◌, subst, false, [], ◌∷◌, All, All-append, Text, codes,
  arith,
}
use mano_reck.GoStrings.{trim_space, trim_with, space_start, space_end, contains, has_prefix}

-- Neither white space nor part of a longer encoding.
abbrev pub IsPrintable : ℕ → Type 0
IsPrintable c = (33 ≤ c) × (c < 127)

All-reverse : (P : ℕ → Type 0) (s : Text) → All P s → All P (reverse s)
All-reverse P [] h = tt
All-reverse P (c ∷ s) (p, h) =
    subst (All P) (sym (reverse-cons c s))
      (All-append P (reverse s) (c ∷ []) (All-reverse P s h) (p, tt))

trim_with-id :
    (size : Text → ℕ) (s : Text)
    → ((c : ℕ) (r : Text) → IsPrintable c → size (c ∷ r) ≡ 0)
    → All IsPrintable s
    → trim_with size 0 s ≡ s
unfolding trim_with
trim_with-id size [] none_at h = refl
trim_with-id size (c ∷ r) none_at (p, h) = rw (trim_with, none_at c r p) refl

space_start-printable : (c : ℕ) (r : Text) → IsPrintable c → space_start (c ∷ r) ≡ 0
unfolding space_start
space_start-printable c [] p = ground arith
space_start-printable c (d ∷ []) p = ground arith
space_start-printable c (d ∷ e ∷ r) p = ground arith

space_end-printable : (c : ℕ) (r : Text) → IsPrintable c → space_end (c ∷ r) ≡ 0
unfolding space_end
space_end-printable c [] p = ground arith
space_end-printable c (d ∷ []) p = ground arith
space_end-printable c (d ∷ e ∷ r) p = ground arith

-- A printable text has no white space to trim.
pub trim_space-printable : (s : Text) → All IsPrintable s → trim_space s ≡ s
unfolding trim_space
trim_space-printable s h =
    ap (λ x. reverse (trim_with space_end 0 (reverse x)))
      (trim_with-id space_start s space_start-printable h)
    ∙ ap reverse
        (trim_with-id space_end (reverse s) space_end-printable (All-reverse IsPrintable s h))
    ∙ reverse-reverse s

-- A text without colons.
pub contains-no_colon : (s : Text) → All (λ c. c ≢ b':') s → contains s (codes ":") ≡ false
unfolding contains has_prefix
contains-no_colon [] h = refl
contains-no_colon (c ∷ s) (p, h) = ground (arith, contains-no_colon s h)
