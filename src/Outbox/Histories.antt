-- ===== src/Outbox/Histories.antt =====
-- What holds of the outbox after any sequence of calls.
use mano_reck.Prelude.{◌≡◌, inl, inr, refl, sym, ◌∙◌, true, List, [], ◌∷◌, All, arith, subst}
use mano_reck.Outbox.Row.{Row, Table}
use mano_reck.Outbox.Rows.{In, UniqueIds}
use mano_reck.Outbox.Schema.{row_checks}
use mano_reck.Outbox.Repository.{Codec}
use mano_reck.Outbox.Transitions.{
  Transition, unchanged, Evolves-In, Evolves-UniqueIds, Evolves-checks, IsConsistent, is_terminal,
  Transition-terminal, SameEvent, Transition-SameEvent,
}
use mano_reck.Outbox.Operations.{Op, run_op, run_ops, run_op-cases}

pub run_op-UniqueIds :
    (codec : Codec) (op : Op) (table : Table) → UniqueIds table → UniqueIds (run_op codec op table)
run_op-UniqueIds codec op table u = elim (run_op-cases codec op table u) [
  | inl e ↦ Evolves-UniqueIds table (run_op codec op table) e u
  | inr (inl e) ↦ subst UniqueIds (sym e) u
  | inr (inr (r, e, fresh, good)) ↦ subst UniqueIds (sym e) (fresh, u)
]

run_op-checks :
    (codec : Codec) (op : Op) (table : Table)
    → IsConsistent codec.operators table
    → All (λ r. row_checks codec.operators r ≡ true) (run_op codec op table)
run_op-checks codec op table (k, u) = elim (run_op-cases codec op table u) [
  | inl e ↦ Evolves-checks codec.operators table (run_op codec op table) e k
  | inr (inl e) ↦ subst (All (λ r. row_checks codec.operators r ≡ true)) (sym e) k
  | inr (inr (r, e, fresh, good)) ↦
      subst (All (λ r. row_checks codec.operators r ≡ true)) (sym e) (good, k)
]

-- Whatever calls are made on a table of unique keys whose rows pass every CHECK constraint, in whatever
-- order and with whatever outcomes of the database: keys stay unique, and every row passes them all,
-- outbox_payload_identity included.
pub run_ops-IsConsistent :
    (codec : Codec) (ops : List Op) (table : Table)
    → IsConsistent codec.operators table
    → IsConsistent codec.operators (run_ops codec ops table)
unfolding run_ops
run_ops-IsConsistent codec [] table c = c
run_ops-IsConsistent codec (op ∷ ops) table c =
    run_ops-IsConsistent codec ops (run_op codec op table)
      (run_op-checks codec op table c, run_op-UniqueIds codec op table c.1)

-- A row is found again after a call, a transition further.
run_op-In :
    (codec : Codec) (op : Op) (table : Table) (r : Row)
    → UniqueIds table
    → In r table
    → (r' : Row) × In r' (run_op codec op table) × Transition r r'
run_op-In codec op table r u m = elim (run_op-cases codec op table u) [
  | inl e ↦ Evolves-In table (run_op codec op table) r e m
  | inr (inl e) ↦ (r, subst (In r) (sym e) m, unchanged refl)
  | inr (inr (q, e, fresh, good)) ↦ (r, subst (In r) (sym e) (inr m), unchanged refl)
]

-- A published or dead-lettered row of a table with unique keys stays in it, with every column as it is,
-- through any sequence of calls.
pub run_ops-terminal :
    (codec : Codec) (ops : List Op) (table : Table) (r : Row)
    → UniqueIds table
    → In r table
    → is_terminal r.status ≡ true
    → In r (run_ops codec ops table)
unfolding run_ops
run_ops-terminal codec [] table r c m t = m
run_ops-terminal codec (op ∷ ops) table r c m t =
    let (r', n, step) = run_op-In codec op table r c m in
    let same = Transition-terminal step t in
    run_ops-terminal codec ops (run_op codec op table) r (run_op-UniqueIds codec op table c)
      (subst (λ x. In x (run_op codec op table)) same n) t

-- A row of a table with unique keys is not lost: after any sequence of calls there is a row of the same
-- identifier, subject, payload and creation time, whose attempts have not gone down.
pub run_ops-SameEvent :
    (codec : Codec) (ops : List Op) (table : Table) (r : Row)
    → UniqueIds table
    → In r table
    → (r' : Row) × In r' (run_ops codec ops table) × SameEvent r r'
unfolding run_ops
run_ops-SameEvent codec [] table r c m = (r, m, (refl, refl, refl, refl, omega arith))
run_ops-SameEvent codec (op ∷ ops) table r c m =
    let (q, n, step) = run_op-In codec op table r c m in
    let (r', k, rest) =
      run_ops-SameEvent codec ops (run_op codec op table) q (run_op-UniqueIds codec op table c) n in
    let first = Transition-SameEvent step in
    (r', k, (rest.0 ∙ first.0, rest.1 ∙ first.1, rest.2 ∙ first.2, rest.3 ∙ first.3, omega arith))
