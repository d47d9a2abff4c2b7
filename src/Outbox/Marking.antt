-- ===== src/Outbox/Marking.antt =====
-- MarkPublished and MarkFailed: they succeed exactly for the worker that owns the lease.
use mano_reck.Prelude.{
  ℕ, ◌≤◌, ◌<◌, ◌≡◌, ◌⊎◌, inl, inr, refl, sym, ap, ◌∙◌, Bool, true, false, not, ◌&&◌, ◌||◌,
  Bool-cases, if◌then◌else◌, Option, none, some, [], ◌∷◌, String, Text, text_eq, text_eq→eq, ℤ, pos,
  ltb_ℤ, arith, subst,
}
use mano_reck.GoError.{Error, errorf}
use mano_reck.Database.{Database, applied, pool}
use mano_reck.Outbox.Row.{Row, Table, pending, dead_letter, update_where, count_where, has_id}
use mano_reck.Outbox.Rows.{In, UniqueIds, has_id-In, update_where-In}
use mano_reck.Outbox.Repository.{
  exec_update, owns, publish_row, fail_row, is_final, mark_published, mark_failed,
  failure_transient, failure_permanent,
}

-- No row is affected.
abbrev pub NoneOf : (Row → Bool) → Table → Type 0
NoneOf test table = (r : Row) → In r table → test r ≡ false

pub none_updated :
    (test : Row → Bool) (change : Row → Row) (rows : Table)
    → NoneOf test rows
    → (update_where test change rows ≡ rows) × (count_where test rows ≡ 0)
unfolding update_where count_where
none_updated test change [] h = (refl, refl)
none_updated test change (r ∷ rows) h =
    let (same, zero_rows) = none_updated test change rows (λ q m. h q (inr m)) in
    let no_hit = h r (inl refl) in (rw (no_hit, same), rw (no_hit, zero_rows))

owns-id : (id worker : Text) (r : Row) → owns id worker r ≡ true → r.id ≡ id
unfolding owns
owns-id id worker r h = text_eq→eq r.id id (ground arith)

-- With unique keys one row at most is owned under a key.
pub owned_count :
    (id worker : Text) (rows : Table)
    → UniqueIds rows
    → ((r : Row) × In r rows × (owns id worker r ≡ true) × (count_where (owns id worker) rows ≡ 1))
      ⊎ NoneOf (owns id worker) rows
unfolding count_where
owned_count id worker [] u = inr (λ r m. absurd m)
owned_count id worker (q ∷ rows) u = elim (Bool-cases (owns id worker q)) [
  | inl mine ↦
      let others : NoneOf (owns id worker) rows = λ r m. elim (Bool-cases (owns id worker r)) [
        | inr f ↦ f
        | inl t ↦
            let same : r.id ≡ q.id = owns-id id worker r t ∙ sym (owns-id id worker q mine) in
            cc (u.0, has_id-In r rows m, ap (λ i. has_id i rows) same)
      ] in
      inl (q, inl refl, mine, rw (mine, (none_updated (owns id worker) (λ r. r) rows others).1))
  | inr other ↦ elim (owned_count id worker rows u.1) [
    | inl (r, m, t, one) ↦ inl (r, inr m, t, rw (other, one))
    | inr nobody ↦
        inr (λ r m. elim m [ inl e ↦ ap (owns id worker) e ∙ other | inr n ↦ nobody r n ])
  ]
]

-- An update by key and owner succeeds and changes the owned row, or reports a lost lease and changes
-- nothing.
abbrev pub ByOwner : Text → Text → (Row → Row) → String → Table → Table × Option Error → Type 0
ByOwner id worker change lost table (table', failure) =
    ((r : Row) × In r table × (owns id worker r ≡ true) × In (change r) table' × (failure ≡ none))
    ⊎ (NoneOf (owns id worker) table × (table' ≡ table) × (failure ≡ some (errorf lost [])))

exec_update-ByOwner :
    (id worker : Text) (change : Row → Row) (failure lost : String) (table : Table)
    → UniqueIds table
    → ByOwner id worker change lost table
        (exec_update none applied failure lost (owns id worker) change table)
unfolding exec_update
exec_update-ByOwner id worker change failure lost table u = elim (owned_count id worker table u) [
  | inl (r, m, t, one) ↦ inl (
    r,
    m,
    t,
    subst (λ b. In (if b then change r else r) (update_where (owns id worker) change table)) t
        (update_where-In (owns id worker) change table r m),
    rw one refl,
  )
  | inr nobody ↦
      let (same, zero_rows) = none_updated (owns id worker) change table nobody in
      inr (nobody, same, rw zero_rows refl)
]

module _ (database : Database) (now : ℕ) (id worker : Text) (table : Table) where
  -- On an open pool, with unique keys and a statement that is applied: either the worker owns the
  -- event's lease, its row is published and MarkPublished returns nil; or no row is owned so, the lost
  -- lease is reported, and the table is as it was.
  pub mark_published-ByOwner :
      pool database ≡ none
      → UniqueIds table
      → ByOwner id worker
          (publish_row now)
          "outbox publication lease is no longer owned"
          table
          (mark_published database applied now id worker table)
  unfolding mark_published
  mark_published-ByOwner opened u = rw opened (
      exec_update-ByOwner id worker (publish_row now) "mark outbox event published: %w"
        "outbox publication lease is no longer owned" table u)

  -- On an open pool, with unique keys, a statement that is applied, one of the two failure classes, a
  -- positive bound and a code: either the worker owns the event's lease, its row is released as the
  -- failure asks and MarkFailed returns nil; or no row is owned so, the lost lease is reported, and the
  -- table is as it was.
  pub mark_failed-ByOwner :
      (class : Text) (max_attempts : ℤ) (next : ℕ) (code : Text)
      → pool database ≡ none
      → UniqueIds table
      → (text_eq class failure_transient || text_eq class failure_permanent) ≡ true
      → ltb_ℤ max_attempts (pos 1) ≡ false
      → text_eq code [] ≡ false
      → ByOwner id worker
          (fail_row now class max_attempts next code)
          "outbox failure lease is no longer owned"
          table
          (mark_failed database applied now id worker class max_attempts next code table)
  unfolding mark_failed
  mark_failed-ByOwner class max_attempts next code opened u known positive given =
      let known' : (not (text_eq class failure_transient) && not (text_eq class failure_permanent))
          ≡ false =
        ground arith in
      rw (known', positive, given, opened)
        (exec_update-ByOwner id worker (fail_row now class max_attempts next code)
          "record outbox publication failure: %w" "outbox failure lease is no longer owned" table u)

||_first : {a b : Bool} → (a || b) ≡ true → b ≡ false → a ≡ true
||_first {a} {b} h e = ground arith

is_final-cases :
    (class : Text) (max_attempts : ℕ) (r : Row)
    → (text_eq class failure_transient || text_eq class failure_permanent) ≡ true
    → ((is_final class (pos max_attempts) r ≡ true)
        × ((class ≡ failure_permanent) ⊎ (max_attempts ≤ r.attempt_count)))
      ⊎ ((is_final class (pos max_attempts) r ≡ false)
          × (class ≡ failure_transient)
          × (r.attempt_count < max_attempts))
unfolding is_final
is_final-cases class max_attempts r known = elim (Bool-cases (text_eq class failure_permanent)) [
  | inl perm ↦ inl (rw perm refl, inl (text_eq→eq class failure_permanent perm))
  | inr other ↦ elim (Bool-cases (ltb_ℤ (pos r.attempt_count) (pos max_attempts))) [
    | inr spent ↦ inl (rw (other, spent) refl, inr (ground arith))
    | inl left ↦ inr (
      rw (other, left) refl,
      text_eq→eq class failure_transient (||_first known other),
      ground arith,
    )
  ]
]

-- A transient failure is retried at the given time while attempts remain; any other is final.
abbrev pub Decided : Text → ℕ → ℕ → Row → Row → Type 0
Decided class max_attempts next r r' =
    ((r'.status ≡ pending)
      × (class ≡ failure_transient)
      × (r.attempt_count < max_attempts)
      × (r'.next_attempt_at ≡ next)
      × (r'.dead_lettered_at ≡ none))
    ⊎ ((r'.status ≡ dead_letter) × ((class ≡ failure_permanent) ⊎ (max_attempts ≤ r.attempt_count)))

-- For the two classes of failure MarkFailed's update makes a row pending again, at the given time,
-- only after a transient failure below the bound on attempts, and otherwise dead-letters it, after a
-- permanent failure or with the bound reached.
pub fail_row-Decided :
    (now : ℕ) (class : Text) (max_attempts next : ℕ) (code : Text) (r : Row)
    → (text_eq class failure_transient || text_eq class failure_permanent) ≡ true
    → Decided class max_attempts next r (fail_row now class (pos max_attempts) next code r)
unfolding fail_row
fail_row-Decided now class max_attempts next code r known =
    elim (is_final-cases class max_attempts r known) [
      | inl (final, why) ↦ rw final (inr (refl, why))
      | inr (more, transient, left) ↦ rw more (inl (refl, transient, left, refl, refl))
    ]
