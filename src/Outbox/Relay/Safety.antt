-- ===== src/Outbox/Relay/Safety.antt =====
-- Only what JetStream has stored is marked as published.
use mano_reck.Prelude.{
  ℕ, ◌≡◌, ◌≢◌, ◌⊎◌, inl, inr, sym, ap, ◌∙◌, Bool, true, Bool-cases, List, [], ◌∷◌, Text, text_eq→eq,
  ℤ, pos_part, arith, subst,
}
use mano_reck.Database.{Database, TxOutcomes, Outcome}
use mano_reck.Outbox.Guards.{claim_keeps, mark_published_keeps, mark_failed_keeps}
use mano_reck.Outbox.Row.{Row, Table, published, update_where, has_id}
use mano_reck.Outbox.Rows.{In, In-update_where}
use mano_reck.Outbox.Repository.{
  Codec, Query, query_failed, answered, candidates, lease_row, claim_rows, claim, owns, publish_row,
  fail_row, is_final, mark_published, mark_failed,
}

abbrev pub InText : Text → List Text → Type 0
InText id [] = ⊥
InText id (x ∷ xs) = (id ≡ x) ⊎ InText id xs

-- Every published row's event is in the stream.
abbrev pub IsBacked : List Text → Table → Type 0
IsBacked stream table = (r : Row) → In r table → r.status ≡ published → InText r.id stream

update_where-IsBacked :
    (test : Row → Bool) (change : Row → Row) (stream : List Text) (table : Table)
    → ((r : Row) → test r ≡ true → (change r).status ≡ published → InText (change r).id stream)
    → IsBacked stream table
    → IsBacked stream (update_where test change table)
update_where-IsBacked test change stream table h b r' m p =
    let (r, n, how) = In-update_where test change table r' m in
    elim how [
      | inl (t, e) ↦
          subst (λ (x : Row). InText x.id stream) (sym e)
            (h r t (sym (ap (λ (x : Row). x.status) e) ∙ p))
      | inr (f, e) ↦
          subst (λ (x : Row). InText x.id stream) (sym e)
            (b r n (sym (ap (λ (x : Row). x.status) e) ∙ p))
    ]

lease_row_status :
    (now : ℕ) (worker : Text) (lease : ℤ) (r : Row)
    → (lease_row now worker lease r).status ≢ published
unfolding lease_row
lease_row_status now worker lease r e = cc

fail_row_status :
    (now : ℕ) (class : Text) (max_attempts : ℤ) (next : ℕ) (code : Text) (r : Row)
    → (fail_row now class max_attempts next code r).status ≢ published
unfolding fail_row
fail_row_status now class max_attempts next code r e =
    elim (Bool-cases (is_final class max_attempts r)) [
      | inl t ↦ cc (rw t at e)
      | inr f ↦ cc (rw f at e)
    ]

claim_rows-IsBacked :
    (codec : Codec) (query : Query) (now : ℕ) (locked : Row → Bool) (worker : Text) (limit : ℕ)
    (lease : ℤ) (stream : List Text) (table : Table)
    → IsBacked stream table
    → IsBacked stream (claim_rows codec query now locked worker limit lease table).0
unfolding claim_rows
claim_rows-IsBacked codec (query_failed x) now locked worker limit lease stream table k = k
claim_rows-IsBacked codec (answered broken) now locked worker limit lease stream table k =
    update_where-IsBacked (λ r. has_id r.id (candidates now locked limit table))
      (lease_row now worker lease) stream table
      (λ r t e. absurd (lease_row_status now worker lease r e)) k

pub claim-IsBacked :
    (codec : Codec) (database : Database) (outcomes : TxOutcomes) (query : Query) (now : ℕ)
    (locked : Row → Bool) (worker : Text) (limit lease : ℤ) (stream : List Text) (table : Table)
    → IsBacked stream table
    → IsBacked stream (claim codec database outcomes query now locked worker limit lease table).0
claim-IsBacked codec database outcomes query now locked worker limit lease stream table k =
    claim_keeps (IsBacked stream) table k codec database outcomes query now locked worker limit
      lease
      (claim_rows-IsBacked codec query now locked worker (pos_part limit) lease stream table k)

pub mark_failed-IsBacked :
    (database : Database) (outcome : Outcome) (now : ℕ) (id worker class : Text) (max_attempts : ℤ)
    (next : ℕ) (code : Text) (stream : List Text) (table : Table)
    → IsBacked stream table
    → IsBacked stream
        (mark_failed database outcome now id worker class max_attempts next code table).0
mark_failed-IsBacked database outcome now id worker class max_attempts next code stream table k =
    mark_failed_keeps (IsBacked stream) table k database outcome now id worker class max_attempts
      next code
      (update_where-IsBacked (owns id worker) (fail_row now class max_attempts next code) stream
        table (λ r t e. absurd (fail_row_status now class max_attempts next code r e)) k)

publish_row-id :
    (now : ℕ) (id worker : Text) (r : Row) → owns id worker r ≡ true → (publish_row now r).id ≡ id
unfolding owns publish_row
publish_row-id now id worker r h = text_eq→eq r.id id (ground arith)

pub mark_published-IsBacked :
    (database : Database) (outcome : Outcome) (now : ℕ) (id worker : Text) (stream : List Text)
    (table : Table)
    → InText id stream
    → IsBacked stream table
    → IsBacked stream (mark_published database outcome now id worker table).0
mark_published-IsBacked database outcome now id worker stream table stored k =
    mark_published_keeps (IsBacked stream) table k database outcome now id worker (
      update_where-IsBacked (owns id worker) (publish_row now) stream table
        (λ r t e. subst (λ i. InText i stream) (sym (publish_row-id now id worker r t)) stored) k)
