-- ===== src/Database.antt =====
-- backend/internal/platform/database/database.go and transaction.go: the pool's lifecycle and the
-- transaction boundary.
pub mod Transaction
use mano_reck.Prelude.{
  ℕ, ◌||◌, Bool, true, false, not, if◌then◌else◌, Option, none, some, [], ◌∷◌, Text, ℤ, pos, negsuc,
  ltb_ℤ,
}
use mano_reck.GoError.{Error, Sentinel, errorf, wrapf, errors_is, errors_join, Result, ok, err}

pub record Config : Type 0 where
  pub connection_string : Text
  pub max_connections : ℤ
  pub min_connections : ℤ

-- The pool is nil until Start.
pub record Database : Type 0 where
  pub config : Config
  pub pool_open : Bool

-- New; `parse` is the error of pgxpool.ParseConfig on a connection string.
unfoldable pub new : (Text → Option Error) → Config → Result Database
new parse configuration =
    if ltb_ℤ configuration.max_connections (pos 1)
    then err (errorf "database maximum connections must be positive" [])
    else if ltb_ℤ configuration.min_connections (pos 0)
        || ltb_ℤ configuration.max_connections configuration.min_connections
    then err (errorf "database minimum connections must be between zero and the maximum" [])
    else elim (parse configuration.connection_string) [
      | some e ↦ err (errorf "parse database connection configuration" [])
      | none ↦ ok (record { config = configuration; pool_open = false })
    ]

-- Start; `create` is the error of pgxpool.NewWithConfig.
unfoldable pub start : (Text → Option Error) → Option Error → Database → Database × Option Error
start parse create database =
    if database.pool_open
    then (database, some (errorf "database pool has already started" []))
    else elim (parse database.config.connection_string) [
      | some e ↦ (database, some (errorf "parse database connection configuration" []))
      | none ↦ elim create [
        | some e ↦ (database, some (wrapf "create database pool: %w" [] e))
        | none ↦ (record database { pool_open = true }, none)
      ]
    ]

-- Pool, of which only the error matters.
unfoldable pub pool : Database → Option Error
pool database = if database.pool_open then none else some (errorf "database pool is not started" [])

-- Check; `ping` is the error of pool.Ping.
unfoldable pub check : Option Error → Database → Option Error
unfolding pool
check ping database = elim (pool database) [
  | some e ↦ some e
  | none ↦ elim ping [ some e ↦ some (wrapf "ping database: %w" [] e) | none ↦ none ]
]

-- Close always succeeds.
unfoldable pub close : Database → Database × Option Error
close database = (record database { pool_open = false }, none)

-- What a statement or a commit came to: it took effect and was confirmed, it had no effect, or it
-- took effect and the confirmation was lost.
pub data Outcome : Type 0 where
  applied : Outcome
  refused unacknowledged : Error → Outcome

pub record TxOutcomes : Type 0 where
  pub begin : Option Error
  pub rollback : Option Error
  pub commit : Outcome

-- The second branch of InTransaction: the operation asked for a rollback by its error.
unfoldable pub roll_back {ℓ} : {A : Type ℓ} → Option Error → Error → Result A
roll_back none e = err e
roll_back (some r) e =
    if not (errors_is r Sentinel.tx_closed)
    then elim (errors_join (some e ∷ some (wrapf "rollback database transaction: %w" [] r) ∷ [])) [
      | some both ↦ err both
      | none ↦ err e
    ]
    else err e

-- The end of InTransaction: `s` is the store at its start, `s'` the store that the operation left.
unfoldable pub finish {ℓ κ} :
    {S : Type ℓ} {A : Type κ} → TxOutcomes → S → S → Result A → S × Result A
unfolding roll_back
finish outcomes s s' (err e) = (s, roll_back outcomes.rollback e)
finish outcomes s s' (ok a) = elim outcomes.commit [
  | applied ↦ (s', ok a)
  | refused e ↦ (s, err (wrapf "commit database transaction: %w" [] e))
  | unacknowledged e ↦ (s', err (wrapf "commit database transaction: %w" [] e))
]

-- InTransaction after BeginTx, and after Pool.
unfoldable pub after_begin {ℓ κ} :
    {S : Type ℓ} {A : Type κ} → TxOutcomes → (S → S × Result A) → S → Option Error → S × Result A
unfolding finish
after_begin outcomes operation s (some e) = (s, err (wrapf "begin database transaction: %w" [] e))
after_begin outcomes operation s none = let (s', r) = operation s in finish outcomes s s' r

unfoldable pub after_pool {ℓ κ} :
    {S : Type ℓ} {A : Type κ} → TxOutcomes → (S → S × Result A) → S → Option Error → S × Result A
unfolding after_begin
after_pool outcomes operation s (some e) = (s, err e)
after_pool outcomes operation s none = after_begin outcomes operation s outcomes.begin

-- InTransaction; a nil operation is `none`, and what the operation's closure assigns is its result.
unfoldable pub in_transaction {ℓ κ} :
    {S : Type ℓ} {A : Type κ} → Database → TxOutcomes → Option (S → S × Result A) → S → S × Result A
unfolding pool after_pool
in_transaction database outcomes none s =
    (s, err (errorf "database transaction operation must not be nil" []))
in_transaction database outcomes (some operation) s =
    after_pool outcomes operation s (pool database)
