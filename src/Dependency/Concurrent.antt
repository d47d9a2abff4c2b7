-- ===== src/Dependency/Concurrent.antt =====
-- The concurrent checks of Readiness in backend/internal/platform/dependency/set.go: one goroutine per
-- component, each of which writes its own element of the report.
use mano_reck.Prelude.{
  ℕ, zero, suc, ◌<◌, ◌≡◌, ◌⊎◌, inl, inr, refl, ap₂, true, false, List, [], ◌∷◌, length, arith,
}
use mano_reck.Dependency.{Component, CheckResult, Set, is_nil, run_checks, readiness}

-- The goroutine of an index has come to its write.
abbrev pub Listed : ℕ → List ℕ → Type 0
Listed j [] = ⊥
Listed j (i ∷ order) = (j ≡ i) ⊎ Listed j order

module _ {ℓ} {W : Type ℓ} where
  -- make([]CheckResult, len(components))
  abbrev pub blank_checks : List (Component W) → List CheckResult
  blank_checks [] = []
  blank_checks (c ∷ components) = record { name = []; ready = false } ∷ blank_checks components

  -- The goroutine of `index`: the check of its component, and `report.Checks[index] = …`. The
  -- indexes are those of the components, so that none is out of range.
  unfoldable pub write_check : ℕ → List (Component W) → W → List CheckResult → List CheckResult
  write_check index [] w checks = checks
  write_check index (c ∷ components) w [] = []
  write_check zero (c ∷ components) w (x ∷ checks) =
      record { name = c.name; ready = is_nil (c.check w) } ∷ checks
  write_check (suc index) (c ∷ components) w (x ∷ checks) =
      x ∷ write_check index components w checks

  -- The writes in the order in which the goroutines come to them.
  unfoldable pub write_checks :
      List ℕ → List (Component W) → W → List CheckResult → List CheckResult
  unfolding write_check
  write_checks [] components w checks = checks
  write_checks (index ∷ order) components w checks =
      write_checks order components w (write_check index components w checks)

  -- The elements at the indexes of `P` hold the result of their component.
  abbrev Holds : (ℕ → Type 0) → List (Component W) → W → List CheckResult → Type 0
  Holds P [] w [] = Unit
  Holds P [] w (x ∷ checks) = ⊥
  Holds P (c ∷ components) w [] = ⊥
  Holds P (c ∷ components) w (x ∷ checks) =
      (P 0 → x ≡ record { name = c.name; ready = is_nil (c.check w) })
      × Holds (λ j. P (suc j)) components w checks

  Holds-weaken :
      (P Q : ℕ → Type 0) (components : List (Component W)) (w : W) (checks : List CheckResult)
      → ((j : ℕ) → Q j → P j)
      → Holds P components w checks
      → Holds Q components w checks
  Holds-weaken P Q [] w [] f h = tt
  Holds-weaken P Q [] w (x ∷ checks) f h = absurd h
  Holds-weaken P Q (c ∷ components) w [] f h = absurd h
  Holds-weaken P Q (c ∷ components) w (x ∷ checks) f h = (
    λ q. h.0 (f 0 q),
    Holds-weaken (λ j. P (suc j)) (λ j. Q (suc j)) components w checks (λ j. f (suc j)) h.1,
  )

  write_check-Holds :
      (P : ℕ → Type 0) (index : ℕ) (components : List (Component W)) (w : W)
      (checks : List CheckResult)
      → Holds P components w checks
      → Holds (λ j. (j ≡ index) ⊎ P j) components w (write_check index components w checks)
  unfolding write_check
  write_check-Holds P index [] w [] h = tt
  write_check-Holds P index [] w (x ∷ checks) h = absurd h
  write_check-Holds P index (c ∷ components) w [] h = absurd h
  write_check-Holds P zero (c ∷ components) w (x ∷ checks) h = (
    λ q. refl,
    Holds-weaken (λ j. P (suc j)) (λ j. (suc j ≡ 0) ⊎ P (suc j)) components w checks
        (λ j q. elim q [ inl e ↦ absurd (omega (arith, e)) | inr p ↦ p ]) h.1,
  )
  write_check-Holds P (suc index) (c ∷ components) w (x ∷ checks) h = (
    λ q. elim q [ inl e ↦ absurd (omega (arith, e)) | inr p ↦ h.0 p ],
    Holds-weaken (λ j. (j ≡ index) ⊎ P (suc j)) (λ j. (suc j ≡ suc index) ⊎ P (suc j)) components w
        (write_check index components w checks)
        (λ j q. elim q [ inl e ↦ inl (omega (arith, e)) | inr p ↦ inr p ])
        (write_check-Holds (λ j. P (suc j)) index components w checks h.1),
  )

  write_checks-Holds :
      (P : ℕ → Type 0) (order : List ℕ) (components : List (Component W)) (w : W)
      (checks : List CheckResult)
      → Holds P components w checks
      → Holds (λ j. Listed j order ⊎ P j) components w (write_checks order components w checks)
  unfolding write_checks
  write_checks-Holds P [] components w checks h =
      Holds-weaken P (λ j. ⊥ ⊎ P j) components w checks
        (λ j q. elim q [ inl e ↦ absurd e | inr p ↦ p ]) h
  write_checks-Holds P (i ∷ order) components w checks h =
      Holds-weaken (λ j. Listed j order ⊎ ((j ≡ i) ⊎ P j)) (λ j. ((j ≡ i) ⊎ Listed j order) ⊎ P j)
        components w (write_checks order components w (write_check i components w checks))
        (λ j q. elim q [ inl (inl e) ↦ inr (inl e) | inl (inr m) ↦ inl m | inr p ↦ inr (inr p) ])
        (write_checks-Holds (λ j. (j ≡ i) ⊎ P j) order components w
          (write_check i components w checks) (write_check-Holds P i components w checks h))

  blank_checks-Holds :
      (components : List (Component W)) (w : W)
      → Holds (λ j. ⊥) components w (blank_checks components)
  blank_checks-Holds [] w = tt
  blank_checks-Holds (c ∷ components) w = (λ q. absurd q, blank_checks-Holds components w)

  complete :
      (P : ℕ → Type 0) (components : List (Component W)) (w : W) (checks : List CheckResult)
      → ((j : ℕ) → j < length components → P j)
      → Holds P components w checks
      → checks ≡ run_checks components w
  unfolding run_checks
  complete P [] w [] all h = refl
  complete P [] w (x ∷ checks) all h = absurd h
  complete P (c ∷ components) w [] all h = absurd h
  complete P (c ∷ components) w (x ∷ checks) all h =
      ap₂ (λ a l. a ∷ l) (h.0 (all 0 (omega arith)))
        (complete (λ j. P (suc j)) components w checks (λ j b. all (suc j) (omega (arith, b))) h.1)

  write_checks-run_checks :
      (order : List ℕ) (components : List (Component W)) (w : W)
      → ((j : ℕ) → j < length components → Listed j order)
      → write_checks order components w (blank_checks components) ≡ run_checks components w
  write_checks-run_checks order components w all =
      complete (λ j. Listed j order ⊎ ⊥) components w
        (write_checks order components w (blank_checks components)) (λ j b. inl (all j b))
        (write_checks-Holds (λ j. ⊥) order components w (blank_checks components)
          (blank_checks-Holds components w))

  -- Of a set that is active and started in full, the report holds what the goroutines write, each check
  -- at the index of its component, in whatever order they come to their writes, once every one has.
  pub readiness-write_checks :
      (set : Set W) (w : W) (order : List ℕ)
      → set.active ≡ true
      → set.started ≡ length set.components
      → ((j : ℕ) → j < length set.components → Listed j order)
      → (readiness set w).checks ≡ write_checks order set.components w (blank_checks set.components)
  unfolding readiness
  readiness-write_checks set w order active full all =
      let writes = write_checks-run_checks order set.components w all in ground (arith, writes)
