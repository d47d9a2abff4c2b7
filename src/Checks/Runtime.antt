-- ===== src/Checks/Runtime.antt =====
-- The dependency set and the process at concrete inputs.
use mano_reck.Prelude.{
  ℕ, zero, suc, ◌<◌, inl, inr, ◌≡◌, ◌↔◌, refl, true, false, none, some, List, [], ◌∷◌, map, All,
  Text, codes, length, pos, arith, Option, text_eq, leb_ℤ,
}
use mano_reck.GoError.{ok}
use mano_reck.Dependency.{new_set, check_names, has_name, Component, Set, start, close, readiness}
use mano_reck.Dependency.Lifecycle.{IsIdle, close-start, IsUndone}
use mano_reck.Dependency.Readiness.{IsHealthy, readiness_iff}
use mano_reck.Dependency.Concurrent.{Listed, write_checks, blank_checks, readiness-write_checks}
use mano_reck.Appruntime.{run, shutdown_requested, run-restores}
use mano_reck.Dependency.Names.{IsNamed, new_set-IsNamed}
use mano_reck.Checks.Fixtures.{failure}

-- The names of the components that are up, the last first.
abbrev Up : Type 0
Up = List Text

abbrev tail : Up → Up
tail [] = []
tail (x ∷ up) = up

abbrev healthy : Text → Component Up
healthy name = record {
  name = name;
  start = λ up. (name ∷ up, none);
  check = λ up. none;
  close = λ up. (tail up, none);
}

abbrev broken : Text → Component Up
broken name = record {
  name = name;
  start = λ up. (up, some failure);
  check = λ up. some failure;
  close = λ up. (up, none);
}

abbrev set : Set Up
set = record {
  components = healthy (codes "postgres") ∷ healthy (codes "nats") ∷ broken (codes "redis") ∷ [];
  timeout = pos 5;
  active = false;
  started = 0;
}

healthy-IsUndone : (name : Text) → IsUndone (healthy name)
healthy-IsUndone name up = ((λ h. refl), λ e h. absurd (ground arith))

broken-IsUndone : (name : Text) → IsUndone (broken name)
broken-IsUndone name up = ((λ h. refl), λ e h. refl)

set-IsUndone : All IsUndone set.components
set-IsUndone = (
  healthy-IsUndone (codes "postgres"),
  (healthy-IsUndone (codes "nats"), (broken-IsUndone (codes "redis"), tt)),
)

close-start_example : (close (start set []).0 (start set []).1).1 ≡ []
close-start_example = close-start set [] (refl, refl) set-IsUndone

run-restores_example : (run (codes ":8080") none shutdown_requested none (λ up. up) set []).1 ≡ []
run-restores_example =
    run-restores (codes ":8080") none shutdown_requested none (λ up. up) set [] (refl, refl)
      set-IsUndone (λ up. refl)

readiness_iff_example :
    (readiness set []).ready ≡ true
    ↔ (set.active ≡ true)
      × (set.started ≡ length set.components)
      × All (IsHealthy []) set.components
readiness_iff_example = readiness_iff set []

abbrev ready_set : Set Up
ready_set = record set { active = true; started = 3 }

-- The third goroutine writes first, the first last.
covered : (j : ℕ) → j < 3 → Listed j (2 ∷ 1 ∷ 0 ∷ [])
covered zero b = inr (inr (inl refl))
covered (suc zero) b = inr (inl refl)
covered (suc (suc zero)) b = inl refl
covered (suc (suc (suc j))) b = absurd (omega (arith, b))

readiness-write_checks_example :
    (readiness ready_set []).checks
    ≡ write_checks (2 ∷ 1 ∷ 0 ∷ []) ready_set.components [] (blank_checks ready_set.components)
readiness-write_checks_example =
    readiness-write_checks ready_set [] (2 ∷ 1 ∷ 0 ∷ []) refl refl covered

abbrev given : List (Option (Component Up))
given = some (healthy (codes "postgres")) ∷ some (healthy (codes "nats")) ∷ []

abbrev accepted : Set Up
accepted = record {
  components = healthy (codes "postgres") ∷ healthy (codes "nats") ∷ [];
  timeout = pos 5;
  active = false;
  started = 0;
}

is_accepted : new_set (pos 5) given ≡ ok accepted
unfolding new_set check_names has_name text_eq
is_accepted = refl

new_set-IsNamed_example :
    (leb_ℤ (pos 5) (pos 0) ≡ false)
    × (map some accepted.components ≡ given)
    × IsNamed accepted.components
    × IsIdle accepted
new_set-IsNamed_example = new_set-IsNamed (pos 5) given accepted is_accepted
