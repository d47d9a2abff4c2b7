-- ===== src/Event/Subject.antt =====
-- The subject of an event: what it determines, and that the outbox table accepts it.
use mano_reck.Prelude.{
  ℕ, ◌≡◌, ◌≢◌, refl, sym, arith, Option-cases, [], ◌∷◌, ◌++◌, All, All-map, Text, pos, inl, inr,
  codes, subst,
}
use mano_reck.GoError.{ok}
use mano_reck.GoStrings.{itoa}
use mano_reck.GoStrings.Decimal.{IsDigit, itoa-injective, itoa-digits}
use mano_reck.Event.{Envelope, validate, subject, subject_text}
use mano_reck.Event.Validate.{IsWellFormed, validate_sound, validate_complete}

-- Two texts that agree around a separator which the tails do not hold agree on both sides.
NotIn : ℕ → Text → Type 0
NotIn c s = All (λ d. d ≢ c) s

head-tail_eq : {x y : ℕ} {xs ys : Text} → x ∷ xs ≡ y ∷ ys → (x ≡ y) × (xs ≡ ys)
head-tail_eq e = (cc, cc)

NotIn-middle : (c : ℕ) (xs es : Text) → ¬ NotIn c (xs ++ c ∷ es)
unfolding NotIn
NotIn-middle c [] es h = h.0 refl
NotIn-middle c (x ∷ xs) es h = NotIn-middle c xs es h.1

split_last :
    (c : ℕ) (xs ys ds es : Text)
    → NotIn c ds
    → NotIn c es
    → xs ++ c ∷ ds ≡ ys ++ c ∷ es
    → (xs ≡ ys) × (ds ≡ es)
split_last c [] [] ds es hd he e = (refl, (head-tail_eq e).1)
split_last c [] (y ∷ ys) ds es hd he e =
    absurd (NotIn-middle c ys es (subst (NotIn c) (head-tail_eq e).1 hd))
split_last c (x ∷ xs) [] ds es hd he e =
    absurd (NotIn-middle c xs ds (subst (NotIn c) (sym (head-tail_eq e).1) he))
split_last c (x ∷ xs) (y ∷ ys) ds es hd he e =
    let (p, q) = head-tail_eq e in let (r, t) = split_last c xs ys ds es hd he q in (cc, t)

append_cancel : (p s t : Text) → p ++ s ≡ p ++ t → s ≡ t
append_cancel [] s t e = e
append_cancel (x ∷ p) s t e = append_cancel p s t (head-tail_eq e).1

version_part : Text → Text
version_part digits = b'v' ∷ digits

NotIn-version : (n : ℕ) → NotIn b'.' (b'v' ∷ itoa (pos n))
unfolding NotIn
NotIn-version n = (
  omega arith,
  All-map IsDigit (λ d. d ≢ b'.') (itoa (pos n)) (λ d h. omega arith) (itoa-digits n),
)

subject_text-injective :
    (s t : Text) (m n : ℕ) → subject_text s (pos m) ≡ subject_text t (pos n) → (s ≡ t) × (m ≡ n)
unfolding subject_text
subject_text-injective s t m n e =
    let (p, q) =
      split_last b'.' s t (b'v' ∷ itoa (pos m)) (b'v' ∷ itoa (pos n)) (NotIn-version m)
        (NotIn-version n)
        (append_cancel (codes "manoreck.events.") (s ++ (b'.' ∷ b'v' ∷ itoa (pos m)))
          (t ++ (b'.' ∷ b'v' ∷ itoa (pos n))) e) in
    (p, itoa-injective m n (head-tail_eq q).1)

-- A well-formed event has a subject.
pub subject_lem : (e : Envelope) → IsWellFormed e → subject e ≡ ok (subject_text e.type e.version)
unfolding subject
subject_lem e w = rw (validate_complete e w, subject)

-- What a subject that was returned is made of.
pub subject_parts :
    (e : Envelope) (s : Text)
    → subject e ≡ ok s
    → IsWellFormed e × (s ≡ subject_text e.type e.version)
unfolding subject
subject_parts e s h = elim (Option-cases (validate e)) [
  | inl p ↦ (validate_sound e p, ground arith)
  | inr (x, p) ↦ absurd (ground arith)
]

-- Two envelopes for which Subject returns the same text have the same event type and the same version.
pub subject-injective :
    (e f : Envelope) (s : Text)
    → subject e ≡ ok s
    → subject f ≡ ok s
    → (e.type ≡ f.type) × (e.version ≡ f.version)
subject-injective e f s h k =
    let (we, pe) = subject_parts e s h in
    let (wf, pf) = subject_parts f s k in
    let (m, em, _) = we.version in
    let (n, fn, _) = wf.version in
    let both_ways : subject_text e.type (pos m) ≡ subject_text f.type (pos n) = cc in
    let (same, number) = subject_text-injective e.type f.type m n both_ways in (same, cc)
