-- ===== src/Outbox/Repository.antt =====
-- backend/internal/platform/outbox/repository.go. A statement runs at an instant `now` of the
-- database's clock and ends in an outcome; encoding/json over envelopes and PostgreSQL's jsonb are
-- the operations of a Codec.
pub mod Records
pub mod Insert
pub mod Claim
pub mod Mark
pub use Records.{failure_transient, failure_permanent, Codec, Record}
pub use Records.{Interruption, scan_failed, rows_failed, Query, query_failed, answered}
unfoldable pub use Insert.{
  add_row, new_row, insert_row, insert_marshalled, insert_subject, insert_valid, insert,
}
pub use Claim.{whole_microseconds}
unfoldable pub use Claim.{
  claimable, candidates, lease_row, read_rows, read_answer, claim_rows, claim,
}
unfoldable pub use Mark.{
  owns, exec_statement, exec_update, publish_row, mark_published, is_final, fail_row, mark_failed,
}
