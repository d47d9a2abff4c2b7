-- ===== src/Dependency.antt =====
-- backend/internal/platform/dependency/set.go: the ordered lifecycle of the required components, over
-- any state `W` of the world they act on.
pub mod Lifecycle
pub mod Readiness
pub mod Workers
pub mod Names
pub mod Concurrent
use mano_reck.Prelude.{
  ℕ, zero, suc, Bool, true, false, not, ◌&&◌, ◌||◌, ◌==◌, ltb, leb, if◌then◌else◌, Option, none,
  some, List, [], ◌∷◌, Text, text_eq, ℤ, pos, leb_ℤ, length, get_elem?, String,
}
use mano_reck.GoError.{Error, Sentinel, Result, ok, err, errorf, wrapf, errors_join, errors_is}

-- The interface that a component implements; Check only reads.
pub record Component {ℓ} (W : Type ℓ) : Type ℓ where
  pub name : Text
  pub start : W → W × Option Error
  pub check : W → Option Error
  pub close : W → W × Option Error

pub record CheckResult : Type 0 where
  pub name : Text
  pub ready : Bool

pub record ReadinessReport : Type 0 where
  pub ready : Bool
  pub checks : List CheckResult

pub record Set {ℓ} (W : Type ℓ) : Type ℓ where
  pub components : List (Component W)
  pub timeout : ℤ
  pub active : Bool
  pub started : ℕ

unfoldable pub has_name : Text → List Text → Bool
has_name name [] = false
has_name name (n ∷ names) = text_eq n name || has_name name names

abbrev pub is_nil : Option Error → Bool
is_nil none = true
is_nil (some e) = false

-- The last loop of Readiness.
unfoldable pub all_ready : List CheckResult → Bool
all_ready [] = true
all_ready (r ∷ checks) = let rest = all_ready checks in if not r.ready then false else rest

module _ {ℓ} {W : Type ℓ} where
  -- The loop of NewSet over the components that are left; a nil component is `none`.
  unfoldable pub check_names : List (Option (Component W)) → List Text → Result (List (Component W))
  unfolding has_name
  check_names [] seen = ok []
  check_names (none ∷ components) seen = err (errorf "dependency component must not be nil" [])
  check_names (some c ∷ components) seen =
      let rest = check_names components (c.name ∷ seen) in
      if text_eq c.name []
      then err (errorf "dependency component name must not be empty" [])
      else if has_name c.name seen
      then err (errorf "dependency component name %q is duplicated" (c.name ∷ []))
      else elim rest [ ok cs ↦ ok (c ∷ cs) | err e ↦ err e ]

  unfoldable pub new_set : ℤ → List (Option (Component W)) → Result (Set W)
  unfolding check_names
  new_set timeout components =
      if leb_ℤ timeout (pos 0)
      then err (errorf "dependency readiness timeout must be positive" [])
      else elim (check_names components []) [
        | ok cs ↦ ok (record { components = cs; timeout = timeout; active = false; started = 0 })
        | err e ↦ err e
      ]

  -- The loop of Start from `index`: the world, `started`, and the error.
  unfoldable pub start_loop : ℕ → ℕ → List (Component W) → W → W × ℕ × Option Error
  start_loop index started [] w = (w, started, none)
  start_loop index started (c ∷ components) w =
      let (w', failure) = c.start w in
      let rest = start_loop (suc index) (suc index) components w' in
      elim failure [
        | some e ↦ (w', started, some (wrapf "start dependency %s: %w" (c.name ∷ []) e))
        | none ↦ rest
      ]

  unfoldable pub start : Set W → W → Set W × W × Option Error
  unfolding start_loop
  start set w =
      if set.active
      then (set, w, some (errorf "dependencies have already started" []))
      else let (w', started, failure) = start_loop 0 set.started set.components w in
        (record set { active = true; started = started }, w', failure)

  abbrev pub close_error : Component W → Option Error → Option Error
  close_error c none = none
  close_error c (some e) = some (wrapf "close dependency %s: %w" (c.name ∷ []) e)

  -- The loop of Close over the indexes below its first argument, from the highest; `started` never
  -- exceeds the number of components, so that every index is in range.
  unfoldable pub close_loop : ℕ → List (Component W) → W → W × List (Option Error)
  close_loop zero components w = (w, [])
  close_loop (suc index) components w = elim (get_elem? components index) [
    | none ↦ close_loop index components w
    | some c ↦
        let (w', failure) = c.close w in
        let (w'', errors) = close_loop index components w' in (w'', close_error c failure ∷ errors)
  ]

  unfoldable pub close : Set W → W → Set W × W × Option Error
  unfolding close_loop
  close set w =
      let (w', errors) = close_loop set.started set.components w in
      (record set { active = false; started = 0 }, w', errors_join errors)

  -- The report while the set is not started in full.
  unfoldable pub partial_checks : ℕ → ℕ → List (Component W) → List CheckResult
  partial_checks index started [] = []
  partial_checks index started (c ∷ components) =
      record { name = c.name; ready = ltb index started }
      ∷ partial_checks (suc index) started components

  -- What the concurrent checks leave once all have ended; Dependency/Concurrent has their writes.
  unfoldable pub run_checks : List (Component W) → W → List CheckResult
  run_checks [] w = []
  run_checks (c ∷ components) w =
      record { name = c.name; ready = is_nil (c.check w) } ∷ run_checks components w

  unfoldable pub readiness : Set W → W → ReadinessReport
  unfolding partial_checks run_checks all_ready
  readiness set w =
      if not set.active || not (set.started == length set.components)
      then record {
        ready = set.active && (set.started == length set.components);
        checks = partial_checks 0 set.started set.components;
      }
      else let checks = run_checks set.components w in
        record { ready = all_ready checks; checks = checks }
