-- ===== src/Appruntime.antt =====
-- backend/internal/platform/appruntime/run.go: the process starts its dependencies, serves, and closes
-- both, for the dependency set that cmd/api passes.
use mano_reck.Prelude.{
  if◌then◌else◌, ◌≡◌, refl, inl, inr, Option, none, some, Option-cases, [], ◌∷◌, All, All-map, Text,
}
use mano_reck.GoError.{Error, Sentinel, wrapf, errors_is, errors_join}
use mano_reck.Dependency.{Set, start, close}
use mano_reck.Dependency.Lifecycle.{
  IsIdle, IsUndone, IsUndoneUnder, IsUndone-under, close-start_under,
}

-- What Run's select receives.
pub data Wake : Type 0 where
  shutdown_requested : Wake
  served : Option Error → Wake

abbrev pub run_error : Wake → Option Error
run_error shutdown_requested = none
run_error (served none) = none
run_error (served (some e)) =
    if errors_is e Sentinel.server_closed then none else some (wrapf "serve HTTP: %w" [] e)

abbrev pub shutdown_error : Option Error → Option Error
shutdown_error none = none
shutdown_error (some e) = some (wrapf "shutdown HTTP server: %w" [] e)

module _ {ℓ} {W : Type ℓ} where
  unfoldable pub close_after_startup_failure : Set W → W → Error → Set W × W × Option Error
  unfolding close
  close_after_startup_failure set w startup_error =
      let (set', w', failure) = close set w in
      (set', w', errors_join (some startup_error ∷ failure ∷ []))

  -- appruntime.Run, for the Set that cmd/api passes: the address, what Listen, the select and
  -- Shutdown come to, and what serving does to the world.
  unfoldable pub run :
      Text → Option Error → Wake → Option Error → (W → W) → Set W → W → Set W × W × Option Error
  unfolding start close close_after_startup_failure
  run address listen wake shutdown serving set w =
      let (set', w', failure) = start set w in
      elim failure [
        | some e ↦ close_after_startup_failure set' w' e
        | none ↦ elim listen [
          | some e ↦ close_after_startup_failure set' w' (wrapf "listen on %s: %w" (address ∷ []) e)
          | none ↦
              let (set'', w'', dependency_error) = close set' (serving w') in
              (
                set'',
                w'',
                errors_join (run_error wake ∷ shutdown_error shutdown ∷ dependency_error ∷ []),
              )
        ]
      ]

  -- A view of the world that each close restores and that serving leaves alone is restored by the process.
  pub run-restores_under {κ} :
      {F : Type κ} (f : W → F) (address : Text) (listen : Option Error) (wake : Wake)
      (shutdown : Option Error) (serving : W → W) (set : Set W) (w : W)
      → IsIdle set
      → All (IsUndoneUnder f) set.components
      → ((x : W) → f (serving x) ≡ f x)
      → f (run address listen wake shutdown serving set w).1 ≡ f w
  unfolding run close_after_startup_failure
  run-restores_under f address listen wake shutdown serving set w idle good same =
      elim (Option-cases (start set w).2) [
        | inr (e, p) ↦ rw (run, p) (close-start_under f set w (λ x. x) idle good (λ x. refl))
        | inl p ↦ elim (Option-cases listen) [
          | inr (e, q) ↦ rw (run, p, q) (close-start_under f set w (λ x. x) idle good (λ x. refl))
          | inl q ↦ rw (run, p, q) (close-start_under f set w serving idle good same)
        ]
      ]

  -- Where each close undoes its start and serving leaves the world alone, a process started on an idle
  -- set leaves the world as it was, whichever step fails.
  pub run-restores :
      (address : Text) (listen : Option Error) (wake : Wake) (shutdown : Option Error)
      (serving : W → W) (set : Set W) (w : W)
      → IsIdle set
      → All IsUndone set.components
      → ((x : W) → serving x ≡ x)
      → (run address listen wake shutdown serving set w).1 ≡ w
  run-restores address listen wake shutdown serving set w idle good same =
      run-restores_under (λ x. x) address listen wake shutdown serving set w idle
        (All-map IsUndone (IsUndoneUnder (λ x. x)) set.components IsUndone-under good) same
