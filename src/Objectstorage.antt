-- ===== src/Objectstorage.antt =====
-- backend/internal/platform/objectstorage/store.go: objects under opaque keys in one bucket. The S3
-- service and minio's client are parameters; each call has an outcome.
pub mod Contents
use mano_reck.Prelude.{
  ℕ, ◌≡◌, ◌≢◌, Bool, true, false, not, ◌&&◌, ◌||◌, if◌then◌else◌, Option, none, some, List, [], ◌∷◌,
  Text, text_eq, codes, ℤ, pos, ltb_ℤ, length,
}
use mano_reck.GoError.{
  Error, Sentinel, errorf, wrapf, sentinel, Result, ok, err, ◌>>=◌, ◌>>◌, require,
}
use mano_reck.GoStrings.{trim_space}
use mano_reck.Identifier.{Reader, is_uuidv7, new_uuidv7}
use mano_reck.Database.{Outcome, applied, refused, unacknowledged}
use mano_reck.Config.Address.{Url, Net}
use mano_reck.Config.Values.{is_empty, is_bare}

pub record Config : Type 0 where
  pub endpoint : Text
  pub bucket : Text
  pub access_key : Text
  pub secret_key : Text

-- What Get returns, its body read to the end.
pub record Object : Type 0 where
  pub body : Text
  pub size : ℤ
  pub content_type : Text
  pub etag : Text

-- `started` tells whether the field client is set.
pub record Store : Type 0 where
  pub configuration : Config
  pub endpoint : Text
  pub secure : Bool
  pub started : Bool

abbrev pub bad_scheme : Url → Bool
bad_scheme url =
    (not (text_eq url.scheme (codes "http")) && not (text_eq url.scheme (codes "https")))
    || is_empty url.host

-- New; `check_bucket` is the error of s3utils.CheckValidBucketNameStrict.
unfoldable pub new_at : (Text → Option Error) → Config → Result Url → Result Store
new_at check_bucket configuration (err e) =
    err (errorf "object-storage endpoint must be an HTTP URL" [])
new_at check_bucket configuration (ok url) =
    if bad_scheme url
    then err (errorf "object-storage endpoint must be an HTTP URL" [])
    else if not (is_bare url)
    then err (
        errorf "object-storage endpoint must not contain credentials, a path, query, or fragment"
          [])
    else elim (check_bucket configuration.bucket) [
      | some e ↦ err (wrapf "object-storage bucket is invalid: %w" [] e)
      | none ↦
          if is_empty configuration.access_key || is_empty configuration.secret_key
          then err (errorf "object-storage credentials are required" [])
          else ok (record {
            configuration = configuration;
            endpoint = url.host;
            secure = text_eq url.scheme (codes "https");
            started = false;
          })
    ]

unfoldable pub new : Net → (Text → Option Error) → Config → Result Store
unfolding new_at
new net check_bucket configuration =
    new_at check_bucket configuration (net.parse_url configuration.endpoint)

-- Start: what minio.New, BucketExists and MakeBucket come to.
unfoldable pub prepare_bucket : Result Bool → Option Error → Option Error
prepare_bucket (err e) make = some (wrapf "inspect object-storage bucket: %w" [] e)
prepare_bucket (ok true) make = none
prepare_bucket (ok false) make = elim make [
  | none ↦ none
  | some e ↦ some (wrapf "create object-storage bucket: %w" [] e)
]

unfoldable pub start : Option Error → Result Bool → Option Error → Store → Store × Option Error
unfolding prepare_bucket
start construct exists make store =
    if store.started
    then (store, some (errorf "object storage has already started" []))
    else elim construct [
      | some e ↦ (store, some (wrapf "construct object-storage client: %w" [] e))
      | none ↦ elim (prepare_bucket exists make) [
        | some e ↦ (store, some e)
        | none ↦ (record store { started = true }, none)
      ]
    ]

-- startedClient, of which only the error matters.
unfoldable pub started_client : Store → Option Error
started_client store =
    if store.started then none else some (errorf "object storage is not started" [])

abbrev pub bucket_error : Result Bool → Option Error
bucket_error (err e) = some (wrapf "inspect object-storage bucket: %w" [] e)
bucket_error (ok true) = none
bucket_error (ok false) = some (errorf "object-storage bucket is missing" [])

unfoldable pub check : Result Bool → Store → Option Error
unfolding started_client
check exists store = elim (started_client store) [ some e ↦ some e | none ↦ bucket_error exists ]

unfoldable pub close : Store → Store × Option Error
close store = (record store { started = false }, none)

unfoldable pub new_key : ℤ → Reader → Result Text
new_key unix_milli randomness = elim (new_uuidv7 unix_milli randomness) [
  | ok key ↦ ok key
  | err e ↦ err (wrapf "create opaque object key: %w" [] e)
]

-- A nil body is `none`.
unfoldable pub validate_object_input : Text → Option Text → ℤ → Text → Result Text
validate_object_input key none size content_type = do
  require (is_uuidv7 key) (errorf "object key must be a UUIDv7" [])
  err (errorf "object body is required" [])
validate_object_input key (some body) size content_type = do
  require (is_uuidv7 key) (errorf "object key must be a UUIDv7" [])
  require (not (ltb_ℤ size (pos 0))) (errorf "object size must not be negative" [])
  require (not (is_empty (trim_space content_type))) (errorf "object content type is required" [])
  ok body

-- The buckets: PUT with the declared size, DELETE, and what HEAD and GET find. `code` is the code that
-- minio.ToErrorResponse reads of an error, and `missing` the error for an absent object.
pub record Service {ℓ} (S : Type ℓ) : Type ℓ where
  pub put : Text → Text → Text → ℤ → Text → S → S
  pub remove : Text → Text → S → S
  pub find : Text → Text → S → Option Object
  pub code : Error → Text
  pub missing : Error

-- What S3 documents of them.
pub record Laws {ℓ} {S : Type ℓ} (service : Service S) : Type ℓ where
  pub find-put :
      (b k body content_type : Text) (s : S)
      → (o : Object) × (service.find b k (service.put b k body (pos (length body)) content_type s)
          ≡ some o)
        × (o.body ≡ body)
        × (o.size ≡ pos (length body))
        × (o.content_type ≡ content_type)
  pub find-put_other :
      (b k j body : Text) (size : ℤ) (content_type : Text) (s : S)
      → k ≢ j
      → service.find b j (service.put b k body size content_type s) ≡ service.find b j s
  pub find-remove : (b k : Text) (s : S) → service.find b k (service.remove b k s) ≡ none
  pub find-remove_other :
      (b k j : Text) (s : S) → k ≢ j → service.find b j (service.remove b k s) ≡ service.find b j s
  pub code-missing : service.code service.missing ≡ codes "NoSuchKey"

abbrev pub is_not_found : Text → Bool
is_not_found code =
    text_eq code (codes "NoSuchKey")
    || text_eq code (codes "NoSuchObject")
    || text_eq code (codes "NoSuchBucket")
    || text_eq code (codes "NotFound")

module _ {ℓ} {S : Type ℓ} (service : Service S) where
  unfoldable pub normalize_error : Error → Error
  normalize_error e =
      if is_not_found (service.code e)
      then sentinel Sentinel.object_not_found
      else wrapf "object-storage operation: %w" [] e

  abbrev pub ready : Store → Result (Unit {0})
  ready store = elim (started_client store) [ none ↦ ok tt | some e ↦ err e ]

  abbrev pub put_body : Outcome → Store → Text → ℤ → Text → Result Text → S → S × Option Error
  put_body outcome store key size content_type (err e) s = (s, some e)
  put_body applied store key size content_type (ok body) s =
      (service.put store.configuration.bucket key body size content_type s, none)
  put_body (refused e) store key size content_type (ok body) s =
      (s, some (wrapf "put object: %w" [] e))
  put_body (unacknowledged e) store key size content_type (ok body) s = (
    service.put store.configuration.bucket key body size content_type s,
    some (wrapf "put object: %w" [] e),
  )

  unfoldable pub put : Outcome → Store → Text → Option Text → ℤ → Text → S → S × Option Error
  unfolding validate_object_input started_client
  put outcome store key body size content_type s =
      put_body outcome store key size content_type
        (do content ← validate_object_input key body size content_type; ready store; ok content) s

  -- The reply to StatObject and to GetObject, of which only the error matters here.
  abbrev pub reply : Option Error → Option Object → Result Object
  reply (some e) found = err e
  reply none none = err service.missing
  reply none (some o) = ok o

  abbrev pub normalized : Result Object → Result Object
  normalized (ok o) = ok o
  normalized (err e) = err (normalize_error e)

  -- Get; `stat` and `open` are the failures of the two calls, which find the same object.
  unfoldable pub get : Option Error → Option Error → Store → Text → S → Result Object
  unfolding started_client normalize_error
  get stat opening store key s = do
    require (is_uuidv7 key) (errorf "object key must be a UUIDv7" [])
    ready store
    found ← normalized (reply stat (service.find store.configuration.bucket key s))
    normalized (reply opening (some found))

  abbrev pub remove_key : Outcome → Store → Text → Result (Unit {0}) → S → S × Option Error
  remove_key outcome store key (err e) s = (s, some e)
  remove_key applied store key (ok x) s = (service.remove store.configuration.bucket key s, none)
  remove_key (refused e) store key (ok x) s = (s, some (normalize_error e))
  remove_key (unacknowledged e) store key (ok x) s =
      (service.remove store.configuration.bucket key s, some (normalize_error e))

  unfoldable pub delete : Outcome → Store → Text → S → S × Option Error
  unfolding started_client normalize_error
  delete outcome store key s =
      remove_key outcome store key
        (do require (is_uuidv7 key) (errorf "object key must be a UUIDv7" []); ready store) s
