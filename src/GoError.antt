-- ===== src/GoError.antt =====
-- Go error values. An error made by fmt.Errorf or errors.New keeps its format and the arguments put
-- into it; `%w` and errors.Join keep the errors inside; a nil error is `none`. What other packages
-- return is `foreign`: a number that tells it apart, and the sentinels that errors.Is finds in it.
use mano_reck.Prelude.{
  ℕ, String, Text, Bool, true, false, ◌||◌, ◌==◌, ◌≡◌, ◌⊎◌, inl, inr, refl, Option, none, some,
  List, [], ◌∷◌,
}

-- The error values of src/ and of its libraries that the code compares by errors.Is.
pub data Sentinel : Type 0 where
  canceled deadline_exceeded nats_timeout consumer_not_found stream_not_found : Sentinel
  connection_closed tx_closed server_closed redis_nil : Sentinel
  ephemeral_not_found object_not_found : Sentinel
  eof unexpected_eof : Sentinel

abbrev sentinel_code : Sentinel → ℕ
sentinel_code Sentinel.canceled = 0
sentinel_code Sentinel.deadline_exceeded = 1
sentinel_code Sentinel.nats_timeout = 2
sentinel_code Sentinel.consumer_not_found = 3
sentinel_code Sentinel.stream_not_found = 4
sentinel_code Sentinel.connection_closed = 5
sentinel_code Sentinel.tx_closed = 6
sentinel_code Sentinel.server_closed = 7
sentinel_code Sentinel.redis_nil = 8
sentinel_code Sentinel.ephemeral_not_found = 9
sentinel_code Sentinel.object_not_found = 10
sentinel_code Sentinel.eof = 11
sentinel_code Sentinel.unexpected_eof = 12

abbrev pub same_sentinel : Sentinel → Sentinel → Bool
same_sentinel a b = sentinel_code a == sentinel_code b

abbrev pub has_sentinel : List Sentinel → Sentinel → Bool
has_sentinel [] s = false
has_sentinel (a ∷ l) s = same_sentinel a s || has_sentinel l s

mutual
  pub data Error : Type 0 where
    errorf : String → List Text → Error
    wrapf : String → List Text → Error → Error
    joined : Errors → Error
    sentinel : Sentinel → Error
    foreign : ℕ → List Sentinel → Error

  pub data Errors : Type 0 where
    nil : Errors
    cons : Error → Errors → Errors

-- errors.Is
unfoldable mutual
  pub errors_is : Error → Sentinel → Bool
  errors_is (errorf f args) s = false
  errors_is (wrapf f args e) s = errors_is e s
  errors_is (joined es) s = any_is es s
  errors_is (sentinel a) s = same_sentinel a s
  errors_is (foreign n chain) s = has_sentinel chain s

  pub any_is : Errors → Sentinel → Bool
  any_is nil s = false
  any_is (cons e es) s = errors_is e s || any_is es s

-- errors.Join drops the nil errors, and is nil when nothing is left.
abbrev pub non_nil : List (Option Error) → Errors
non_nil [] = nil
non_nil (none ∷ l) = non_nil l
non_nil (some e ∷ l) = cons e (non_nil l)

abbrev pub join_errors : Errors → Option Error
join_errors nil = none
join_errors (cons e es) = some (joined (cons e es))

abbrev pub errors_join : List (Option Error) → Option Error
errors_join l = join_errors (non_nil l)

-- The pair of a value and an error, of which the callers read the value only if the error is nil.
pub data Result {ℓ} (A : Type ℓ) : Type ℓ where
  ok : A → Result A
  err : Error → Result A

pub Result-cases {ℓ} :
    {A : Type ℓ} (r : Result A) → ((a : A) × (r ≡ ok a)) ⊎ ((e : Error) × (r ≡ err e))
Result-cases (ok a) = inl (a, refl)
Result-cases (err e) = inr (e, refl)

-- An early return of an error unless the test succeeds.
abbrev pub require : Bool → Error → Result (Unit {0})
require true e = ok tt
require false e = err e

-- `e == io.EOF`, the identity of the value and not errors.Is.
abbrev pub is_eof : Error → Bool
is_eof (sentinel s) = same_sentinel s Sentinel.eof
is_eof e = false

-- A step that failed, with its error wrapped.
abbrev pub checked : Option Error → (Error → Error) → Result (Unit {0})
checked none wrap = ok tt
checked (some e) wrap = err (wrap e)

-- `value, err := step; if err != nil { return err }`, and the same of a step without a value.
infixl 5 ◌>>=◌ ◌>>◌
abbrev pub ◌>>=◌ {ℓ κ} : {A : Type ℓ} {B : Type κ} → Result A → (A → Result B) → Result B
ok value >>= next = next value
err e >>= next = err e

-- What precedes a success succeeded.
pub bind_ok {ℓ κ} :
    {A : Type ℓ} {B : Type κ} (step : Result A) (next : A → Result B) {b : B}
    → step >>= next ≡ ok b
    → (a : A) × (step ≡ ok a) × (next a ≡ ok b)
bind_ok (ok value) next done = (value, refl, done)
bind_ok (err e) next done = cc

abbrev pub ◌>>◌ {ℓ} : {B : Type ℓ} → Result (Unit {0}) → Result B → Result B
step >> rest = step >>= λ _. rest

pub require_ok : (t : Bool) (e : Error) {u : Unit {0}} → require t e ≡ ok u → t ≡ true
require_ok true e h = refl
require_ok false e h = cc

pub checked_ok :
    (o : Option Error) (wrap : Error → Error) {u : Unit {0}} → checked o wrap ≡ ok u → o ≡ none
checked_ok none wrap h = refl
checked_ok (some e) wrap h = cc

pub ok_eq {ℓ} : {A : Type ℓ} {a b : A} → ok a ≡ ok b → a ≡ b
ok_eq h = cc
