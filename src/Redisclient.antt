-- ===== src/Redisclient.antt =====
-- backend/internal/platform/redisclient/client.go: expiring values in a namespace of keys. Redis is a
-- parameter; each call has an outcome. Durations are nanoseconds.
pub mod Keys
pub mod Isolation
pub mod Expiry
use mano_reck.Prelude.{
  ℕ, ◌+◌, ◌≤◌, ◌≡◌, ◌≢◌, Bool, true, false, not, ◌||◌, ltb, if◌then◌else◌, Option, none, some, List,
  [], ◌∷◌, ◌++◌, Text, text_eq, codes, ℤ, pos, leb_ℤ, length, String,
}
use mano_reck.GoError.{Error, Sentinel, errorf, wrapf, sentinel, errors_is, Result, ok, err, ◌>>=◌}
use mano_reck.GoStrings.{trim_space, contains}
use mano_reck.Database.{Outcome, applied, refused, unacknowledged}

pub record Config : Type 0 where
  pub url : Text
  pub key_prefix : Text

-- `started` tells whether the field client is set; the options are those of the URL.
pub record Client : Type 0 where
  pub url : Text
  pub key_prefix : Text
  pub started : Bool

-- The keys of the server: SET with an expiry, DEL, what GET finds, and time passing.
pub record Keyspace {ℓ} (S : Type ℓ) : Type ℓ where
  pub set : Text → Text → ℤ → S → S
  pub del : Text → S → S
  pub value : Text → S → Option Text
  pub after : ℕ → S → S

abbrev pub millisecond : ℕ
millisecond = 1_000_000

-- What Redis documents of them; it keeps expiries in milliseconds.
pub record Laws {ℓ} {S : Type ℓ} (keys : Keyspace S) : Type ℓ where
  pub value-set :
      (k v : Text) (d t : ℕ) (s : S)
      → t + millisecond ≤ d
      → keys.value k (keys.after t (keys.set k v (pos d) s)) ≡ some v
  pub value-set_expired :
      (k v : Text) (d t : ℕ) (s : S)
      → d + millisecond ≤ t
      → keys.value k (keys.after t (keys.set k v (pos d) s)) ≡ none
  pub value-set_other :
      (k j v : Text) (d : ℤ) (s : S) → k ≢ j → keys.value j (keys.set k v d s) ≡ keys.value j s
  pub value-del : (k : Text) (s : S) → keys.value k (keys.del k s) ≡ none
  pub value-del_other : (k j : Text) (s : S) → k ≢ j → keys.value j (keys.del k s) ≡ keys.value j s

-- New; `parse` is the error of redis.ParseURL.
unfoldable pub new : (Text → Option Error) → Config → Result Client
new parse configuration = elim (parse configuration.url) [
  | some e ↦ err (errorf "parse Redis connection configuration" [])
  | none ↦
      let prefix = trim_space configuration.key_prefix in
      if text_eq prefix []
        || not (text_eq prefix configuration.key_prefix)
        || contains prefix (codes ":")
      then err
          (errorf "Redis key prefix must be non-empty and must not contain whitespace or colons" [])
      else ok (record { url = configuration.url; key_prefix = prefix; started = false })
]

unfoldable pub start : Client → Client × Option Error
start client =
    if client.started
    then (client, some (errorf "Redis client has already started" []))
    else (record client { started = true }, none)

-- startedClient, of which only the error matters.
unfoldable pub started_client : Client → Option Error
started_client client =
    if client.started then none else some (errorf "Redis client is not started" [])

-- Check; `ping` is the error of Ping.
unfoldable pub check : Option Error → Client → Option Error
unfolding started_client
check ping client = elim (started_client client) [
  | some e ↦ some e
  | none ↦ elim ping [ none ↦ none | some e ↦ some (wrapf "ping Redis: %w" [] e) ]
]

-- Close; `failure` is the error of the pool's Close.
unfoldable pub close : Option Error → Client → Client × Option Error
close failure client =
    if client.started
    then (
      record client { started = false },
      elim failure [ none ↦ none | some e ↦ some (wrapf "close Redis client: %w" [] e) ],
    )
    else (client, none)

unfoldable pub qualified_key : Client → Text → Result Text
qualified_key client key =
    let trimmed = trim_space key in
    if text_eq trimmed [] || not (text_eq trimmed key) || ltb 128 (length key)
    then err (errorf "ephemeral key must be 1-128 characters without surrounding whitespace" [])
    else ok (client.key_prefix ++ (codes ":" ++ key))

-- The qualified key of a started client.
unfoldable pub ready_key : Client → Text → Result Text
unfolding qualified_key started_client
ready_key client key = do
  qualified ← qualified_key client key
  elim (started_client client) [ none ↦ ok qualified | some e ↦ err e ]

-- A write with its outcome.
abbrev pub write {ℓ} : {S : Type ℓ} → Outcome → String → (S → S) → S → S × Option Error
write applied failure change s = (change s, none)
write (refused e) failure change s = (s, some (wrapf failure [] e))
write (unacknowledged e) failure change s = (change s, some (wrapf failure [] e))

abbrev pub with_key {ℓ} :
    {S : Type ℓ} → Result Text → (Text → S → S × Option Error) → S → S × Option Error
with_key (err e) k s = (s, some e)
with_key (ok qualified) k s = k qualified s

-- The reply to GET.
abbrev pub reply : Option Error → Option Text → Result Text
reply (some e) v = err e
reply none none = err (sentinel Sentinel.redis_nil)
reply none (some v) = ok v

abbrev pub after_get : Result Text → Result Text
after_get (ok v) = ok v
after_get (err e) =
    if errors_is e Sentinel.redis_nil
    then err (sentinel Sentinel.ephemeral_not_found)
    else err (wrapf "get ephemeral value: %w" [] e)

module _ {ℓ} {S : Type ℓ} (keys : Keyspace S) where
  unfoldable pub put : Outcome → Client → Text → Text → ℤ → S → S × Option Error
  unfolding ready_key
  put outcome client key content expiry s =
      let writing =
        with_key (ready_key client key)
          (λ qualified. write outcome "put ephemeral value: %w" (keys.set qualified content expiry))
          s in
      if leb_ℤ expiry (pos 0)
      then (s, some (errorf "ephemeral value expiry must be positive" []))
      else writing

  unfoldable pub get : Option Error → Client → Text → S → Result Text
  unfolding ready_key errors_is
  get failure client key s = do
    qualified ← ready_key client key
    after_get (reply failure (keys.value qualified s))

  unfoldable pub delete : Outcome → Client → Text → S → S × Option Error
  unfolding ready_key
  delete outcome client key s =
      with_key (ready_key client key)
        (λ qualified. write outcome "delete ephemeral value: %w" (keys.del qualified)) s
