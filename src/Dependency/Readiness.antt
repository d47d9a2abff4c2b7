-- ===== src/Dependency/Readiness.antt =====
-- What a readiness report says.
use mano_reck.Prelude.{
  ◌≡◌, ◌↔◌, inl, inr, refl, true, none, Option-cases, List, [], ◌∷◌, All, length, arith,
}
use mano_reck.Dependency.{Component, Set, all_ready, run_checks, readiness}

module _ {ℓ} {W : Type ℓ} where
  -- The check of a component reports no error.
  abbrev pub IsHealthy : W → Component W → Type 0
  IsHealthy w c = c.check w ≡ none

  IsHealthy-if_ready :
      (w : W) (components : List (Component W))
      → all_ready (run_checks components w) ≡ true
      → All (IsHealthy w) components
  unfolding all_ready run_checks
  IsHealthy-if_ready w [] h = tt
  IsHealthy-if_ready w (c ∷ components) h = elim (Option-cases (c.check w)) [
    | inl p ↦ (p, IsHealthy-if_ready w components (ground arith))
    | inr (e, p) ↦ absurd (ground arith)
  ]

  ready_if_healthy :
      (w : W) (components : List (Component W))
      → All (IsHealthy w) components
      → all_ready (run_checks components w) ≡ true
  unfolding all_ready run_checks
  ready_if_healthy w [] good = refl
  ready_if_healthy w (c ∷ components) (p, good) = rw (p) (ready_if_healthy w components good)

  -- The report is ready exactly when the set is active, has started all its components, and every
  -- check passes.
  pub readiness_iff :
      (set : Set W) (w : W)
      → (readiness set w).ready ≡ true
        ↔ (set.active ≡ true)
          × (set.started ≡ length set.components)
          × All (IsHealthy w) set.components
  unfolding readiness
  readiness_iff set w = (
    λ h. (ground arith, ground arith, IsHealthy-if_ready w set.components (ground arith)),
    λ (a, s, good). ground (arith, ready_if_healthy w set.components good),
  )
