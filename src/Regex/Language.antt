-- ===== src/Regex/Language.antt =====
-- The language of a pattern, as derivations: the meaning that the matcher has to decide.
use mano_reck.Prelude.{ℕ, ◌≡◌, true, List, [], ◌∷◌, ◌++◌, Text}
use mano_reck.Regex.{Regex, eps, cls, seq, alt, star, in_ranges}

pub data Matches : Regex → Text → Type 0 where
  nothing : {s : Text} → s ≡ [] → Matches eps s
  one :
      {rs : List (ℕ × ℕ)} {s : Text} (c : ℕ)
      → in_ranges rs c ≡ true
      → s ≡ c ∷ []
      → Matches (cls rs) s
  both :
      {r q : Regex} {u : Text} (s t : Text)
      → Matches r s
      → Matches q t
      → u ≡ s ++ t
      → Matches (seq r q) u
  left : {r q : Regex} {s : Text} → Matches r s → Matches (alt r q) s
  right : {r q : Regex} {s : Text} → Matches q s → Matches (alt r q) s
  stop : {r : Regex} {s : Text} → s ≡ [] → Matches (star r) s
  again :
      {r : Regex} {u : Text} (s t : Text)
      → Matches r s
      → Matches (star r) t
      → u ≡ s ++ t
      → Matches (star r) u

-- Inversion at each form, over a variable text.
pub Matches-seq :
    {r q : Regex} {u : Text}
    → Matches (seq r q) u
    → (s : Text) × (t : Text) × Matches r s × Matches q t × (u ≡ s ++ t)
Matches-seq (both s t a b e) = (s, t, a, b, e)

pub Matches-class :
    {rs : List (ℕ × ℕ)} {s : Text}
    → Matches (cls rs) s
    → (c : ℕ) × (in_ranges rs c ≡ true) × (s ≡ c ∷ [])
Matches-class (one c m e) = (c, m, e)
