-- ===== src/Config/Values.antt =====
-- The readers and validators of config.go.
use mano_reck.Prelude.{
  ℕ, Bool, true, false, not, ◌&&◌, ◌||◌, leb, if◌then◌else◌, Option, none, some, List, [], ◌∷◌,
  Text, text_eq, codes, ℤ, pos, leb_ℤ, ltb_ℤ, mul64, String, length,
}
use mano_reck.GoError.{Error, errorf, wrapf, Result, ok, err, ◌>>=◌}
use mano_reck.GoStrings.{trim_space, contains, itoa}
use mano_reck.GoStrings.Integer.{atoi}
use mano_reck.Regex.{Regex, cls, seq, star, repeat, match_string}
use mano_reck.Config.Address.{Url, Net, is_dotted_ip}

abbrev pub LookupEnv : Type 0
LookupEnv = Text → Option Text

abbrev pub lower_digit : List (ℕ × ℕ)
lower_digit = (b'a', b'z') ∷ (b'0', b'9') ∷ []

-- ^[a-z][a-z0-9_-]{1,62}$
abbrev pub redis_key_prefix_pattern : Regex
redis_key_prefix_pattern =
    seq (cls ((b'a', b'z') ∷ []))
      (repeat 1 61 (cls ((b'a', b'z') ∷ (b'0', b'9') ∷ (b'_', b'_') ∷ (b'-', b'-') ∷ [])))

-- ^[a-z0-9][a-z0-9.-]*[a-z0-9]$
abbrev pub bucket_name_pattern : Regex
bucket_name_pattern = seq (cls lower_digit) (
    seq (star (cls ((b'a', b'z') ∷ (b'0', b'9') ∷ (b'.', b'.') ∷ (b'-', b'-') ∷ [])))
      (cls lower_digit))

unfoldable pub value_or_default : LookupEnv → Text → Text → Text
value_or_default lookup name fallback = elim (lookup name) [
  | none ↦ fallback
  | some value ↦ trim_space value
]

-- The range test of integer, on the text that it reads.
unfoldable pub integer_in : Text → ℤ → ℤ → Text → Option ℤ → Result ℤ
integer_in name minimum maximum value none = err (
    errorf "%s must be an integer from %d to %d, got %q"
      (name ∷ itoa minimum ∷ itoa maximum ∷ value ∷ []))
integer_in name minimum maximum value (some parsed) =
    if ltb_ℤ parsed minimum || ltb_ℤ maximum parsed
    then err (
        errorf "%s must be an integer from %d to %d, got %q"
          (name ∷ itoa minimum ∷ itoa maximum ∷ value ∷ []))
    else ok parsed

unfoldable pub integer : LookupEnv → Text → ℤ → ℤ → ℤ → Result ℤ
unfolding integer_in
integer lookup name fallback minimum maximum =
    let value : Text = elim (lookup name) [
      | none ↦ itoa fallback
      | some configured ↦ trim_space configured
    ] in
    integer_in name minimum maximum value (atoi value)

abbrev pub second : ℕ
second = 1_000_000_000

abbrev pub millisecond : ℕ
millisecond = 1_000_000

unfoldable pub seconds : LookupEnv → Text → ℤ → Result ℤ
unfolding integer
seconds lookup name fallback = do
  parsed ← integer lookup name fallback (pos 1) (pos 60)
  ok (mul64 parsed second)

-- The port that validateAddress accepts.
abbrev pub port_in_range : Option ℤ → Bool
port_in_range none = false
port_in_range (some port) = leb_ℤ (pos 1) port && leb_ℤ port (pos 65535)

unfoldable pub validate_port : Result Text → Option Error
validate_port (err e) = some (wrapf "must be a host:port value: %w" [] e)
validate_port (ok port) =
    if port_in_range (atoi port)
    then none
    else some (errorf "port must be an integer from 1 to 65535" [])

-- A parsed URL, or the message of the validator for one that does not parse.
abbrev pub validated : Result Url → String → (Url → Option Error) → Option Error
validated (err e) message test = some (errorf message [])
validated (ok url) message test = test url

abbrev pub is_empty : Text → Bool
is_empty [] = true
is_empty (c ∷ s) = false

-- The scheme is one of two, and there is a host.
abbrev pub scheme_and_host : Text → Text → String → Url → Option Error
scheme_and_host a b message url =
    if not (text_eq url.scheme a) && not (text_eq url.scheme b)
    then some (errorf message [])
    else if is_empty url.host
    then some (errorf "host is required" [])
    else none

unfoldable pub valid_bucket_name : Text → Bool
valid_bucket_name name =
    leb 3 (length name)
    && leb (length name) 63
    && match_string bucket_name_pattern name
    && not (contains name (codes ".."))
    && not (contains name (codes ".-"))
    && not (contains name (codes "-."))
    && not (is_dotted_ip name)

-- The tests of validateObjectStorageEndpoint after the host's.
abbrev pub is_bare : Url → Bool
is_bare url = not (
    url.has_user
    || (not (is_empty url.path) && not (text_eq url.path (codes "/")))
    || not (is_empty url.raw_query)
    || not (is_empty url.fragment))

module _ (net : Net) where
  unfoldable pub validate_address : Text → Option Error
  unfolding validate_port
  validate_address address =
      if not (text_eq (trim_space address) address) || is_empty address
      then some (errorf "must be a non-empty host:port value without surrounding whitespace" [])
      else validate_port (net.split_host_port address)

  unfoldable pub validate_database_url : Text → Option Error
  validate_database_url database_url =
      validated (net.parse_url database_url) "must be a PostgreSQL URL" λ url.
        if not (text_eq url.scheme (codes "postgres"))
          && not (text_eq url.scheme (codes "postgresql"))
        then some (errorf "scheme must be postgres or postgresql" [])
        else if is_empty url.host || is_empty url.path || text_eq url.path (codes "/")
        then some (errorf "host and database name are required" [])
        else none

  unfoldable pub validate_nats_url : Text → Option Error
  validate_nats_url nats_url =
      validated (net.parse_url nats_url) "must be a NATS URL"
        (scheme_and_host (codes "nats") (codes "tls") "scheme must be nats or tls")

  unfoldable pub validate_redis_url : Text → Option Error
  validate_redis_url redis_url =
      validated (net.parse_url redis_url) "must be a Redis URL"
        (scheme_and_host (codes "redis") (codes "rediss") "scheme must be redis or rediss")

  unfoldable pub validate_object_storage_endpoint : Text → Option Error
  validate_object_storage_endpoint endpoint =
      validated (net.parse_url endpoint) "must be an HTTP URL" λ url.
        elim (scheme_and_host (codes "http") (codes "https") "scheme must be http or https" url) [
          | some e ↦ some e
          | none ↦
              if is_bare url
              then none
              else some (errorf "credentials, paths, queries, and fragments are not allowed" [])
        ]
