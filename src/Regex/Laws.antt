-- ===== src/Regex/Laws.antt =====
-- Building and reading matches: literals, repeated classes, and what holds of every character.
use mano_reck.Prelude.{
  ℕ, zero, suc, ◌≡◌, refl, sym, subst, true, arith, List, [], ◌∷◌, Text, All, All-append,
}
use mano_reck.Regex.{Regex, cls, seq, star, in_ranges, literal, repeat}
use mano_reck.Regex.Language.{Matches, nothing, one, both, left, right, stop, again}

pub Matches-literal : (s : Text) → Matches (literal s) s
Matches-literal [] = nothing refl
Matches-literal (c ∷ cs) = both (c ∷ []) cs (one c (self c) refl) (Matches-literal cs) refl
  where
    self : (d : ℕ) → in_ranges ((d, d) ∷ []) d ≡ true
    self d = ground arith

-- Every character of a text lies in a class.
abbrev pub InClass : List (ℕ × ℕ) → Text → Type 0
InClass rs s = All (λ c. in_ranges rs c ≡ true) s

pub Matches-star_class : (rs : List (ℕ × ℕ)) (s : Text) → InClass rs s → Matches (star (cls rs)) s
Matches-star_class rs [] h = stop refl
Matches-star_class rs (c ∷ cs) h =
    again (c ∷ []) cs (one c h.0 refl) (Matches-star_class rs cs h.1) refl

-- What holds of every character of each text of `r` holds so of each text of `star r`.
pub All-star :
    {P : ℕ → Type 0} {r : Regex} {s : Text}
    → ((t : Text) → Matches r t → All P t)
    → Matches (star r) s
    → All P s
All-star {P} h (stop e) = subst (All P) (sym e) tt
All-star {P} h (again s t a b e) = subst (All P) (sym e) (All-append P s t (h s a) (All-star h b))

pub All-seq :
    {P : ℕ → Type 0} {r q : Regex} {s : Text}
    → ((t : Text) → Matches r t → All P t)
    → ((t : Text) → Matches q t → All P t)
    → Matches (seq r q) s
    → All P s
All-seq {P} h k (both s t a b e) = subst (All P) (sym e) (All-append P s t (h s a) (k t b))

pub All-class :
    {P : ℕ → Type 0} (rs : List (ℕ × ℕ)) {s : Text}
    → ((c : ℕ) → in_ranges rs c ≡ true → P c)
    → Matches (cls rs) s
    → All P s
All-class {P} rs h (one c m e) = subst (All P) (sym e) (h c m, tt)

pub All-repeat :
    {P : ℕ → Type 0} {r : Regex} (m n : ℕ) {s : Text}
    → ((t : Text) → Matches r t → All P t)
    → Matches (repeat m n r) s
    → All P s
All-repeat {P} zero zero h (nothing e) = subst (All P) (sym e) tt
All-repeat zero (suc n) h (left (both s t a b e)) =
    All-seq h (λ u k. All-repeat zero n h k) (both s t a b e)
All-repeat {P} zero (suc n) h (right (nothing e)) = subst (All P) (sym e) tt
All-repeat (suc m) n h (both s t a b e) = All-seq h (λ u k. All-repeat m n h k) (both s t a b e)
