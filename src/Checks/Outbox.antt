-- ===== src/Checks/Outbox.antt =====
-- The repository and the database at concrete inputs.
use mano_reck.Prelude.{
  ℕ, ◌+◌, ◌≤◌, length, ◌≡◌, ◌≢◌, inl, refl, true, false, none, some, List, [], ◌∷◌, Text, text_eq,
  text_eq_refl, subst, codes, pos, arith,
}
use mano_reck.GoError.{Error, Sentinel, Result, ok, err, errors_is, sentinel}
use mano_reck.Identifier.{is_uuidv7, is_lower_hex}
use mano_reck.Regex.{match_string}
use mano_reck.GoStrings.{trim_space}
use mano_reck.Json.{valid}
use mano_reck.Event.{validate, is_json_object}
use mano_reck.Database.{applied, in_transaction, pool, after_pool, after_begin, finish}
use mano_reck.Database.Transaction.{Atomic, in_transaction-Atomic, in_transaction_reports}
use mano_reck.Outbox.Row.{Row, has_id, where_rows, update_where, sort_by_age, insert_by_age}
use mano_reck.Outbox.Rows.{In, UniqueIds}
use mano_reck.Outbox.Schema.{row_checks, fits_integer, payload_checks}
use mano_reck.Outbox.Transitions.{IsConsistent, SameEvent}
use mano_reck.Outbox.Repository.{
  answered, claim_rows, candidates, read_rows, read_answer, claimable, new_row, insert, claim,
  publish_row, fail_row, lease_row, mark_published, mark_failed, failure_transient,
}
use mano_reck.Outbox.Operations.{Op, insert_op, claim_op, published_op, failed_op, run_ops}
use mano_reck.Outbox.Inserting.{insert_accepts}
use mano_reck.Outbox.Histories.{run_ops-IsConsistent, run_ops-terminal, run_ops-SameEvent}
use mano_reck.Outbox.Claiming.{chosen}
use mano_reck.Outbox.Leases.{claim_takes_oldest, Taken}
use mano_reck.Outbox.Exclusive.{run_ops-exclusive}
use mano_reck.Outbox.Marking.{
  ByOwner, mark_published-ByOwner, mark_failed-ByOwner, Decided, fail_row-Decided,
}
use mano_reck.Checks.Fixtures.{
  first_id, envelope, codec, database, outcomes, worker, rival, fresh_row, leased_row,
  published_row,
}
use mano_reck.Checks.Runs.{envelope-IsWellFormed, leased-IsConsistent, published-IsConsistent}

abbrev increment : ℕ → ℕ × Result ℕ
increment n = (n + 1, ok n)

abbrev cancelled : ℕ → ℕ × Result ℕ
cancelled n = (n + 1, err (sentinel Sentinel.canceled))

in_transaction-Atomic_example :
    Atomic outcomes 3 (increment 3) (in_transaction database outcomes (some increment) 3)
in_transaction-Atomic_example = in_transaction-Atomic database outcomes increment 3

opened : pool database ≡ none
unfolding pool
opened = refl

cancelled_inside : errors_is (sentinel Sentinel.canceled) Sentinel.canceled ≡ true
unfolding errors_is
cancelled_inside = refl

in_transaction_reports_example :
    (x : Error) × (in_transaction database outcomes (some cancelled) 3 ≡ (3, err x))
    × (errors_is x Sentinel.canceled ≡ true)
in_transaction_reports_example =
    in_transaction_reports database outcomes cancelled 3 Sentinel.canceled opened refl refl
      cancelled_inside

not_there : has_id envelope.id [] ≡ false
unfolding has_id
not_there = refl

insert_accepts_example :
    (insert codec applied 2000 envelope [] ≡ (fresh_row ∷ [], none))
    × (row_checks codec.operators fresh_row ≡ true)
unfolding fits_integer payload_checks text_eq
insert_accepts_example =
    insert_accepts codec 2000 envelope [] envelope.body envelope-IsWellFormed not_there refl refl
      refl

-- The rival claims before the lease expires and marks the event on both paths.
abbrev rival_calls : List Op
rival_calls =
    claim_op database outcomes (answered none) 3000 (λ r. false) rival (pos 10) (pos 30_000)
    ∷ published_op database applied 3500 first_id rival
    ∷ failed_op database applied 3600 first_id rival failure_transient (pos 3) 4000 (codes "late")
    ∷ insert_op applied 3700 envelope
    ∷ []

run_ops-IsConsistent_example :
    IsConsistent codec.operators (run_ops codec rival_calls (leased_row ∷ []))
run_ops-IsConsistent_example =
    run_ops-IsConsistent codec rival_calls (leased_row ∷ []) leased-IsConsistent

run_ops-terminal_example : In published_row (run_ops codec rival_calls (published_row ∷ []))
run_ops-terminal_example =
    run_ops-terminal codec rival_calls (published_row ∷ []) published_row published-IsConsistent.1
      (inl refl) refl

run_ops-SameEvent_example :
    (r' : Row) × In r' (run_ops codec rival_calls (leased_row ∷ [])) × SameEvent leased_row r'
run_ops-SameEvent_example =
    run_ops-SameEvent codec rival_calls (leased_row ∷ []) leased_row leased-IsConsistent.1
      (inl refl)

different : (a b : Text) → text_eq a b ≡ false → a ≢ b
different a b f e = absurd (ground (arith, text_eq_refl b, subst (λ x. text_eq x b ≡ false) e f))

other_name : rival ≢ worker
unfolding text_eq
other_name = different rival worker refl

run_ops-exclusive_example : In leased_row (run_ops codec rival_calls (leased_row ∷ []))
run_ops-exclusive_example =
    run_ops-exclusive codec rival_calls (leased_row ∷ []) worker 9000 leased_row
      leased-IsConsistent.1 (inl refl) (record { status = refl; owner = refl; expires = refl })
      (omega arith, (other_name, (other_name, (tt, tt))))

mark_published-ByOwner_example :
    ByOwner first_id worker
      (publish_row 5000)
      "outbox publication lease is no longer owned"
      (leased_row ∷ [])
      (mark_published database applied 5000 first_id worker (leased_row ∷ []))
mark_published-ByOwner_example =
    mark_published-ByOwner database 5000 first_id worker (leased_row ∷ []) opened
      leased-IsConsistent.1

mark_failed-ByOwner_example :
    ByOwner first_id worker
      (fail_row 5000 failure_transient (pos 3) 9000 (codes "late"))
      "outbox failure lease is no longer owned"
      (leased_row ∷ [])
      (mark_failed database applied 5000 first_id worker failure_transient
        (pos 3)
        9000
        (codes "late")
        (leased_row ∷ []))
unfolding text_eq
mark_failed-ByOwner_example =
    mark_failed-ByOwner database 5000 first_id worker (leased_row ∷ []) failure_transient (pos 3)
      9000 (codes "late") opened leased-IsConsistent.1 refl refl refl

fail_row-Decided_example :
    Decided failure_transient 3 9000 leased_row
      (fail_row 5000 failure_transient (pos 3) 9000 (codes "late") leased_row)
unfolding text_eq
fail_row-Decided_example =
    fail_row-Decided 5000 failure_transient 3 9000 (codes "late") leased_row refl

unique : UniqueIds (fresh_row ∷ [])
unfolding has_id
unique = (refl, tt)

claimed :
    claim codec database outcomes
      (answered none)
      3000
      (λ r. false)
      worker
      (pos 10)
      (pos 30_000)
      (fresh_row ∷ [])
    ≡ (
      lease_row 3000 worker (pos 30_000) fresh_row ∷ [],
      ok (record { envelope = envelope; subject = fresh_row.subject; attempt = 1 } ∷ []),
    )
unfolding claim claim_rows candidates lease_row read_answer read_rows claimable where_rows
    update_where has_id sort_by_age insert_by_age in_transaction after_pool after_begin finish pool
    new_row validate is_uuidv7 is_lower_hex match_string is_json_object trim_space valid text_eq
claimed = refl

claim_takes_oldest_example :
    (1 ≤ 10)
    × (length (chosen 3000 (λ r. false) 10 (fresh_row ∷ [])) ≤ 10)
    × ((r : Row)
        → In r (fresh_row ∷ [])
        → Taken 3000
            (λ r. false)
            worker
            10
            (pos 30_000)
            (fresh_row ∷ [])
            (lease_row 3000 worker (pos 30_000) fresh_row ∷ [])
            r)
claim_takes_oldest_example =
    claim_takes_oldest codec database outcomes (answered none) 3000 (λ r. false) worker (pos 10)
      (pos 30_000) (fresh_row ∷ []) unique claimed
