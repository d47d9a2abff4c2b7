-- ===== src/Dependency/Lifecycle.antt =====
-- Start and Close undo each other, whatever fails in between.
use mathlib.Core.Option.{some-injective}
use mano_reck.Prelude.{
  ℕ, suc, ◌+◌, ◌≡◌, inl, inr, refl, ap, ◌∙◌, false, none, some, Option-cases, List, [], ◌∷◌, All,
  All-map, zero, get_elem?, arith, subst,
}
use mano_reck.GoError.{Error}
use mano_reck.Dependency.{Component, Set, start_loop, start, close_loop, close}

module _ {ℓ} {W : Type ℓ} where
  -- Closing a component right after its start takes the world back, and a failed start leaves the
  -- world as it was.
  abbrev pub IsUndone : Component W → Type ℓ
  IsUndone c =
      (w : W)
      → (((c.start w).1 ≡ none → (c.close (c.start w).0).0 ≡ w)
          × ((e : Error) → (c.start w).1 ≡ some e → (c.start w).0 ≡ w))

  -- The same of a view `f` of the world, for a close of which `f` sees only what `f` shows it.
  pub record IsUndoneUnder {κ} {F : Type κ} (f : W → F) (c : Component W) : Type (ℓ ⊔ κ) where
    pub respects : (x y : W) → f x ≡ f y → f (c.close x).0 ≡ f (c.close y).0
    pub undone : (w : W) → (c.start w).1 ≡ none → f (c.close (c.start w).0).0 ≡ f w
    pub failed : (w : W) (e : Error) → (c.start w).1 ≡ some e → f (c.start w).0 ≡ f w

  module _ {κ} {F : Type κ} (f : W → F) where
    -- `rest` are the components from `index` on, each undone by its close.
    abbrev pub IsRest : List (Component W) → ℕ → List (Component W) → Type (ℓ ⊔ κ)
    IsRest components index [] = Unit
    IsRest components index (c ∷ rest) =
        (get_elem? components index ≡ some c)
        × IsUndoneUnder f c
        × IsRest components (suc index) rest

    IsUndoneUnder-get_elem? :
        (components : List (Component W)) (index : ℕ) (c : Component W)
        → All (IsUndoneUnder f) components
        → get_elem? components index ≡ some c
        → IsUndoneUnder f c
    IsUndoneUnder-get_elem? (d ∷ components) zero c (h, good) e =
        subst (IsUndoneUnder f) (some-injective d c e) h
    IsUndoneUnder-get_elem? (d ∷ components) (suc index) c (h, good) e =
        IsUndoneUnder-get_elem? components index c good e
    IsUndoneUnder-get_elem? [] index c good e = absurd (ground arith)

    close_loop-respects :
        (components : List (Component W)) (index : ℕ) (x y : W)
        → All (IsUndoneUnder f) components
        → f x ≡ f y
        → f (close_loop index components x).0 ≡ f (close_loop index components y).0
    unfolding close_loop
    close_loop-respects components zero x y good e = e
    close_loop-respects components (suc index) x y good e =
        elim (Option-cases (get_elem? components index)) [
          | inl p ↦ rw (close_loop, p) (close_loop-respects components index x y good e)
          | inr (c, p) ↦
              rw (close_loop, p)
                (close_loop-respects components index (c.close x).0 (c.close y).0 good
                  ((IsUndoneUnder-get_elem? components index c good p).respects x y e))
        ]

    start_loop-undone :
        (components : List (Component W)) (index : ℕ) (rest : List (Component W)) (w : W) (w0 : F)
        → All (IsUndoneUnder f) components
        → IsRest components index rest
        → f (close_loop index components w).0 ≡ w0
        → f
            (close_loop
              (start_loop index index rest w).1
              components
              (start_loop index index rest w).0).0
          ≡ w0
    unfolding start_loop close_loop
    start_loop-undone components index [] w w0 all good back = back
    start_loop-undone components index (c ∷ rest) w w0 all (here, undone, good) back =
        elim (Option-cases (c.start w).1) [
          | inl p ↦
              rw (start_loop, p)
                (start_loop-undone components (suc index) rest (c.start w).0 w0 all good (
                  rw (close_loop, here)
                    (close_loop-respects components index (c.close (c.start w).0).0 w all
                        (undone.undone w p)
                      ∙ back)))
          | inr (e, p) ↦
              rw (start_loop, p)
                (close_loop-respects components index (c.start w).0 w all (undone.failed w e p)
                  ∙ back)
        ]

    IsRest-from :
        (components : List (Component W)) (index : ℕ) (rest : List (Component W))
        → ((j : ℕ) → get_elem? components (index + j) ≡ get_elem? rest j)
        → All (IsUndoneUnder f) rest
        → IsRest components index rest
    IsRest-from components index [] at good = tt
    IsRest-from components index (c ∷ rest) at (h, good) = (
      subst (λ i. get_elem? components i ≡ some c) (omega arith) (at 0),
      h,
      IsRest-from components (suc index) rest
          (λ j. ap (get_elem? components) (omega arith) ∙ at (suc j)) good,
    )

  -- A set that is not active and has nothing started.
  abbrev pub IsIdle : Set W → Type 0
  IsIdle set = (set.active ≡ false) × (set.started ≡ 0)

  -- What the view shows is as before also when the world in between changes only where it does not show.
  pub close-start_under {κ} :
      {F : Type κ} (f : W → F) (set : Set W) (w : W) (between : W → W)
      → IsIdle set
      → All (IsUndoneUnder f) set.components
      → ((x : W) → f (between x) ≡ f x)
      → f (close (start set w).0 (between (start set w).1)).1 ≡ f w
  unfolding start close
  close-start_under f set w between (idle, zero_started) good same =
      rw (start, idle, zero_started)
        (close_loop-respects f set.components _ _ _ good (same _)
          ∙ start_loop-undone f set.components 0 set.components w (f w) good
              (IsRest-from f set.components 0 set.components
                (λ j. ap (get_elem? set.components) (omega arith)) good)
              refl)

  pub IsUndone-under : (c : Component W) → IsUndone c → IsUndoneUnder (λ (w : W). w) c
  IsUndone-under c h = record {
    respects = λ x y e. ap (λ w. (c.close w).0) e;
    undone = λ w p. (h w).0 p;
    failed = λ w e p. (h w).1 e p;
  }

  -- Where each close undoes its start, starting an idle set and closing it leaves the world as it was:
  -- also when a start fails part of the way, exactly what was started is closed, in reverse order.
  pub close-start :
      (set : Set W) (w : W)
      → IsIdle set
      → All IsUndone set.components
      → (close (start set w).0 (start set w).1).1 ≡ w
  close-start set w idle good =
      close-start_under (λ w. w) set w (λ w. w) idle
        (All-map IsUndone (IsUndoneUnder (λ w. w)) set.components IsUndone-under good) (λ x. refl)
