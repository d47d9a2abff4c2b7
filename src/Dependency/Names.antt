-- ===== src/Dependency/Names.antt =====
-- What NewSet accepts.
use mano_reck.Prelude.{
  ◌≡◌, ◌≢◌, inl, inr, refl, sym, ap, subst, false, Bool-cases, Option, none, some, List, [], ◌∷◌,
  map, All, Text, text_eq, text_eq_refl, ℤ, pos, leb_ℤ, arith,
}
use mano_reck.GoError.{Result-cases, ok}
use mano_reck.Dependency.{Component, Set, has_name, check_names, new_set}
use mano_reck.Dependency.Lifecycle.{IsIdle}

not_equal : (a b : Text) → text_eq a b ≡ false → a ≢ b
not_equal a b f e = absurd (ground (arith, text_eq_refl b, subst (λ x. text_eq x b ≡ false) e f))

module _ {ℓ} {W : Type ℓ} where
  -- The components that come later, named neither by the empty text nor by a name in `seen`.
  abbrev pub IsFresh : List Text → Component W → Type 0
  IsFresh seen c = (c.name ≢ []) × (has_name c.name seen ≡ false)

  -- No name is empty or stands twice.
  abbrev pub IsNamed : List (Component W) → Type ℓ
  IsNamed [] = Unit
  IsNamed (c ∷ components) =
      (c.name ≢ []) × All (λ (d : Component W). c.name ≢ d.name) components × IsNamed components

  weaker :
      (n : Text) (seen : List Text) (c : Component W)
      → IsFresh (n ∷ seen) c
      → IsFresh seen c × (n ≢ c.name)
  unfolding has_name
  weaker n seen c (given, new) = ((given, ground arith), not_equal n c.name (ground arith))

  All-weaker :
      (n : Text) (seen : List Text) (components : List (Component W))
      → All (IsFresh (n ∷ seen)) components
      → All (IsFresh seen) components × All (λ (d : Component W). n ≢ d.name) components
  All-weaker n seen [] h = (tt, tt)
  All-weaker n seen (c ∷ components) (h, rest) =
      let (a, b) = weaker n seen c h in
      let (as_, bs) = All-weaker n seen components rest in ((a, as_), (b, bs))

  check_names_parts :
      (c : Component W) (components : List (Option (Component W))) (seen : List Text)
      (cs : List (Component W))
      → check_names (some c ∷ components) seen ≡ ok cs
      → (text_eq c.name [] ≡ false)
        × (has_name c.name seen ≡ false)
        × (ds : List (Component W)) × (check_names components (c.name ∷ seen) ≡ ok ds)
        × (cs ≡ c ∷ ds)
  unfolding check_names
  check_names_parts c components seen cs h = elim (Bool-cases (text_eq c.name [])) [
    | inl t ↦ absurd (ground arith)
    | inr f ↦ elim (Bool-cases (has_name c.name seen)) [
      | inl t ↦ absurd (ground arith)
      | inr g ↦ elim (Result-cases (check_names components (c.name ∷ seen))) [
        | inl (ds, p) ↦ (f, g, ds, p, ground arith)
        | inr (e, p) ↦ absurd (ground arith)
      ]
    ]
  ]

  check_names-IsNamed :
      (components : List (Option (Component W))) (seen : List Text) (cs : List (Component W))
      → check_names components seen ≡ ok cs
      → (map some cs ≡ components) × All (IsFresh seen) cs × IsNamed cs
  unfolding check_names
  check_names-IsNamed [] seen [] h = (refl, tt, tt)
  check_names-IsNamed [] seen (c ∷ cs) h = absurd (ground arith)
  check_names-IsNamed (none ∷ components) seen cs h = absurd (ground arith)
  check_names-IsNamed (some c ∷ components) seen cs h =
      let (f, g, ds, p, e) = check_names_parts c components seen cs h in
      let (same, fresh, named) = check_names-IsNamed components (c.name ∷ seen) ds p in
      let (older, others) = All-weaker c.name seen ds fresh in
      let given = not_equal c.name [] f in
      subst (λ xs. (map some xs ≡ some c ∷ components) × All (IsFresh seen) xs × IsNamed xs) (sym e)
        (ap (λ l. some c ∷ l) same, ((given, g), older), (given, others, named))

  -- A set that NewSet accepts has a positive timeout, holds the given components in their order, with
  -- no empty name and no name twice, and is idle.
  pub new_set-IsNamed :
      (timeout : ℤ) (components : List (Option (Component W))) (set : Set W)
      → new_set timeout components ≡ ok set
      → (leb_ℤ timeout (pos 0) ≡ false)
        × (map some set.components ≡ components)
        × IsNamed set.components
        × IsIdle set
  unfolding new_set
  new_set-IsNamed timeout components set h = elim (Bool-cases (leb_ℤ timeout (pos 0))) [
    | inl t ↦ absurd (ground arith)
    | inr f ↦ elim (Result-cases (check_names components [])) [
      | inl (cs, p) ↦
          let e : record { components = cs; timeout = timeout; active = false; started = 0 } ≡ set =
            ground arith in
          let (same, fresh, named) = check_names-IsNamed components [] cs p in
          subst
            (λ (x : Set W).
              (leb_ℤ timeout (pos 0) ≡ false)
              × (map some x.components ≡ components)
              × IsNamed x.components
              × IsIdle x)
            e (f, same, named, (refl, refl))
      | inr (e, p) ↦ absurd (ground arith)
    ]
  ]
