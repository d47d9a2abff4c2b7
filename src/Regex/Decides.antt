-- ===== src/Regex/Decides.antt =====
-- The matcher decides the language.
use mano_reck.Prelude.{
  ℕ, ◌≡◌, refl, sym, ap, ◌∙◌, ◌↔◌, ◌⊎◌, inl, inr, Bool, true, false, ◌||◌, &&_parts, List, [], ◌∷◌,
  ◌++◌, Text, if◌then◌else◌, arith,
}
use mano_reck.Regex.{
  Regex, none_of, eps, cls, seq, alt, star, in_ranges, nullable, deriv, match_string,
}
use mano_reck.Regex.Language.{Matches, Matches-seq, nothing, one, both, left, right, stop, again}

append-nil_parts : (s t : Text) → [] ≡ s ++ t → (s ≡ []) × (t ≡ [])
append-nil_parts [] t e = (refl, sym e)
append-nil_parts (x ∷ s) t e = cc

append-cons_cases :
    (s t : Text) {c : ℕ} {v : Text}
    → c ∷ v ≡ s ++ t
    → ((s ≡ []) × (t ≡ c ∷ v)) ⊎ ((r : Text) × (s ≡ c ∷ r) × (v ≡ r ++ t))
append-cons_cases [] t e = inl (refl, sym e)
append-cons_cases (x ∷ s) t e = inr (s, cc, cc)

||_cases : (a b : Bool) → (a || b) ≡ true → (a ≡ true) ⊎ (b ≡ true)
||_cases a b h = ground arith

nullable_sound : (r : Regex) → nullable r ≡ true → Matches r []
unfolding nullable
nullable_sound none_of h = cc
nullable_sound eps h = nothing refl
nullable_sound (cls rs) h = cc
nullable_sound (seq r q) h =
    let (a, b) = &&_parts (nullable r) (nullable q) h in
    both [] [] (nullable_sound r a) (nullable_sound q b) refl
nullable_sound (alt r q) h = elim (||_cases (nullable r) (nullable q) h) [
  | inl a ↦ left (nullable_sound r a)
  | inr b ↦ right (nullable_sound q b)
]
nullable_sound (star r) h = stop refl

nullable_complete : {r : Regex} {s : Text} → Matches r s → [] ≡ s → nullable r ≡ true
unfolding nullable
nullable_complete (nothing _) e = refl
nullable_complete (one c _ f) e = cc
nullable_complete (both s t a b f) e =
    let (p, q) = append-nil_parts s t (e ∙ f) in
    let x = nullable_complete a (sym p) in
    let y = nullable_complete b (sym q) in ground (arith, x, y)
nullable_complete (left a) e = ground (arith, nullable_complete a e)
nullable_complete (right b) e = ground (arith, nullable_complete b e)
nullable_complete (stop _) e = refl
nullable_complete (again s t a b f) e = refl

class_sound :
    (rs : List (ℕ × ℕ)) (c : ℕ) (s : Text) (b : Bool)
    → in_ranges rs c ≡ b
    → Matches (if b then eps else none_of) s
    → Matches (cls rs) (c ∷ s)
class_sound rs c s true h (nothing e) = one c h (ap (◌∷◌ c) e)
class_sound rs c s false h m = elim m [ ]

-- The derivative of a sequence, read as its two ways to go on.
seq_cases :
    (b : Bool) (x y : Regex) {s : Text}
    → Matches (if b then alt x y else x) s
    → Matches x s ⊎ ((b ≡ true) × Matches y s)
seq_cases true x y (left a) = inl a
seq_cases true x y (right b) = inr (refl, b)
seq_cases false x y m = inl m

seq_first : (b : Bool) (x y : Regex) {s : Text} → Matches x s → Matches (if b then alt x y else x) s
seq_first true x y m = left m
seq_first false x y m = m

deriv_sound : (c : ℕ) (r : Regex) {s : Text} → Matches (deriv c r) s → Matches r (c ∷ s)
unfolding deriv
deriv_sound c none_of m = elim m [ ]
deriv_sound c eps m = elim m [ ]
deriv_sound c (cls rs) {s} m = class_sound rs c s (in_ranges rs c) refl m
deriv_sound c (alt r q) (left a) = left (deriv_sound c r a)
deriv_sound c (alt r q) (right b) = right (deriv_sound c q b)
deriv_sound c (star r) (both s t a b e) = again (c ∷ s) t (deriv_sound c r a) b (ap (◌∷◌ c) e)
deriv_sound c (seq r q) {s} m = elim (seq_cases (nullable r) (seq (deriv c r) q) (deriv c q) m) [
  | inl first ↦
      let (u, t, a, b, e) = Matches-seq first in both (c ∷ u) t (deriv_sound c r a) b (ap (◌∷◌ c) e)
  | inr (empty, second) ↦ both [] (c ∷ s) (nullable_sound r empty) (deriv_sound c q second) refl
]

deriv_complete :
    (c : ℕ) (s : Text) {r : Regex} {u : Text} → Matches r u → c ∷ s ≡ u → Matches (deriv c r) s
unfolding deriv
deriv_complete c s (nothing f) e = cc
deriv_complete c s (one {rs} d h f) e =
    let head : c ≡ d = cc in let h' : in_ranges rs c ≡ true = rw head h in rw h' (nothing cc)
deriv_complete c s (left a) e = left (deriv_complete c s a e)
deriv_complete c s (right b) e = right (deriv_complete c s b e)
deriv_complete c s (stop f) e = cc
deriv_complete c s (again x t a b f) e = elim (append-cons_cases x t (e ∙ f)) [
  | inl (p, q) ↦ deriv_complete c s b (sym q)
  | inr (x', p, q) ↦ both x' t (deriv_complete c x' a (sym p)) b q
]
deriv_complete c s (both {r} {q} x t a b f) e = elim (append-cons_cases x t (e ∙ f)) [
  | inl (p, w) ↦ rw (nullable_complete a (sym p)) (right (deriv_complete c s b (sym w)))
  | inr (x', p, w) ↦
      seq_first (nullable r) (seq (deriv c r) q) (deriv c q)
        (both x' t (deriv_complete c x' a (sym p)) b w)
]

pub match_string_sound : (r : Regex) (s : Text) → match_string r s ≡ true → Matches r s
unfolding match_string
match_string_sound r [] h = nullable_sound r h
match_string_sound r (c ∷ cs) h = deriv_sound c r (match_string_sound (deriv c r) cs h)

pub match_string_complete : (r : Regex) (s : Text) → Matches r s → match_string r s ≡ true
unfolding match_string
match_string_complete r [] m = nullable_complete m refl
match_string_complete r (c ∷ cs) m =
    match_string_complete (deriv c r) cs (deriv_complete c cs m refl)

-- A pattern matches a text exactly if the text is in the pattern's language.
pub match_string_iff : (r : Regex) (s : Text) → (match_string r s ≡ true) ↔ Matches r s
match_string_iff r s = (match_string_sound r s, match_string_complete r s)
