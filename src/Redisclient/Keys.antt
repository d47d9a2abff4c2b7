-- ===== src/Redisclient/Keys.antt =====
-- Qualified keys determine their namespace and key.
use mano_reck.Prelude.{
  ◌≡◌, refl, ap₂, sym, ◌∙◌, false, inl, inr, Option, Option-cases, [], ◌∷◌, ◌++◌, Text, codes,
  arith,
}
use mano_reck.GoError.{Error, ok}
use mano_reck.GoStrings.{contains, has_prefix}
use mano_reck.Redisclient.{Config, Client, new, ready_key}

-- The prefix has no colon, which New makes sure of.
abbrev pub IsNamespaced : Client → Type 0
IsNamespaced client = contains client.key_prefix (codes ":") ≡ false

pub new-IsNamespaced :
    (parse : Text → Option Error) (configuration : Config) (client : Client)
    → new parse configuration ≡ ok client
    → IsNamespaced client
unfolding new
new-IsNamespaced parse configuration client h = elim (Option-cases (parse configuration.url)) [
  | inl p ↦ ground arith
  | inr (e, p) ↦ absurd (ground arith)
]

colon_splits :
    (p q k l : Text)
    → contains p (codes ":") ≡ false
    → contains q (codes ":") ≡ false
    → p ++ (codes ":" ++ k) ≡ q ++ (codes ":" ++ l)
    → (p ≡ q) × (k ≡ l)
unfolding contains has_prefix
colon_splits [] [] k l hp hq e = (refl, cc)
colon_splits [] (d ∷ q) k l hp hq e = absurd (ground arith)
colon_splits (c ∷ p) [] k l hp hq e = absurd (ground arith)
colon_splits (c ∷ p) (d ∷ q) k l hp hq e =
    let (same, keys) = colon_splits p q k l (ground arith) (ground arith) (cc) in
    let first : c ≡ d = cc in (ap₂ (λ x y. x ∷ y) first same, keys)

-- A qualified key is the namespace, a colon and the key.
pub ready_key-lem :
    (client : Client) (key qualified : Text)
    → ready_key client key ≡ ok qualified
    → qualified ≡ client.key_prefix ++ (codes ":" ++ key)
unfolding ready_key
ready_key-lem client key qualified h = ground arith

pub ready_key-injective :
    (a b : Client) (k l qualified : Text)
    → IsNamespaced a
    → IsNamespaced b
    → ready_key a k ≡ ok qualified
    → ready_key b l ≡ ok qualified
    → (a.key_prefix ≡ b.key_prefix) × (k ≡ l)
ready_key-injective a b k l qualified na nb h g =
    colon_splits a.key_prefix b.key_prefix k l na nb
      (sym (ready_key-lem a k qualified h) ∙ ready_key-lem b l qualified g)
