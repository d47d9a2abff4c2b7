-- ===== src/Process/Accepting.antt =====
-- The constructors accept the parts of a valid configuration.
use mano_reck.Prelude.{
  ℕ, ◌≡◌, ◌≢◌, refl, true, false, Bool-cases, inl, inr, Option, none, List, [], ◌∷◌, All, All-map,
  Text, text_eq, text_eq→eq, text_eq_refl, codes, arith, subst,
}
use mano_reck.GoError.{Error, Result, Result-cases, ok, err}
use mano_reck.GoStrings.{trim_space}
use mano_reck.GoStrings.Trim.{IsPrintable, trim_space-printable, contains-no_colon}
use mano_reck.Regex.{match_string}
use mano_reck.Regex.Laws.{All-seq, All-class, All-repeat}
use mano_reck.Regex.Decides.{match_string_sound}
use mano_reck.Config.Address.{Url, Net}
use mano_reck.Config.Values.{
  redis_key_prefix_pattern, validate_nats_url, validate_object_storage_endpoint, is_empty, is_bare,
  validated, scheme_and_host,
}
use mano_reck.Config.Load.{DatabaseConfig, OutboxConfig, RedisConfig, ObjectStorageConfig, is_given}
use mano_reck.Config.Ranges.{IsDatabase, IsOutbox, IsRedis, IsObjectStorage}
use mano_reck.Database
use mano_reck.Natsclient
use mano_reck.Redisclient
use mano_reck.Objectstorage
use mano_reck.Outbox.Relay
use mano_reck.Process.{database_config, redis_config, objects_config, relay_config}

-- A character of a key prefix after the first.
abbrev pub prefix_rest : List (ℕ × ℕ)
prefix_rest = (b'a', b'z') ∷ (b'0', b'9') ∷ (b'_', b'_') ∷ (b'-', b'-') ∷ []

abbrev pub IsPlain : ℕ → Type 0
IsPlain c = IsPrintable c × (c ≢ b':')

prefix-IsPlain : (s : Text) → match_string redis_key_prefix_pattern s ≡ true → All IsPlain s
prefix-IsPlain s h =
    All-seq (λ t m. All-class ((b'a', b'z') ∷ []) (λ c i. (ground arith, ground arith)) m)
      (λ t m.
        All-repeat 1 61 (λ u k. All-class prefix_rest (λ c i. (ground arith, ground arith)) k) m)
      (match_string_sound redis_key_prefix_pattern s h)

prefix_given : (s : Text) → match_string redis_key_prefix_pattern s ≡ true → text_eq s [] ≡ false
unfolding match_string text_eq
prefix_given [] h = absurd (ground arith)
prefix_given (c ∷ s) h = refl

given_not_empty : (s : Text) → is_given s ≡ true → is_empty s ≡ false
unfolding is_given
given_not_empty [] h = absurd (ground arith)
given_not_empty (c ∷ s) h = refl

module _ (net : Net) where
  pub Database-accepts :
      (parse : Text → Option Error) (c : DatabaseConfig)
      → IsDatabase net c
      → parse c.url.reveal ≡ none
      → (d : Database.Database) × (Database.new parse (database_config c) ≡ ok d)
  unfolding Database.new
  Database-accepts parse c v p =
      let (m, em, a, b, (n, en, d, e)) = v.sizes in
      (
        record { config = database_config c; pool_open = false },
        rw (Database.new, em, en, p) (ground arith),
      )

  pub Natsclient-accepts :
      (url : Text)
      → validate_nats_url net url ≡ none
      → ((u : Url) → net.parse_url [] ≡ ok u → u.host ≡ [])
      → (n : Natsclient.Client) × (Natsclient.new url ≡ ok n)
  unfolding Natsclient.new validate_nats_url
  Natsclient-accepts url v empty = elim (Bool-cases (text_eq url [])) [
    | inr f ↦ (
      record { url = url; connected = false; jet_stream = false; connections = 0 },
      rw (Natsclient.new, f) refl,
    )
    | inl t ↦ absurd (
        empty_refused (net.parse_url []) refl
          (subst (λ u. validate_nats_url net u ≡ none) (text_eq→eq url [] t) v))
  ]
    where
      empty_refused :
          (r : Result Url)
          → net.parse_url [] ≡ r
          → validated r "must be a NATS URL"
              (scheme_and_host (codes "nats") (codes "tls") "scheme must be nats or tls")
            ≡ none
          → ⊥
      empty_refused (err e) p h = absurd (ground arith)
      empty_refused (ok u) p h = let host = empty u p in absurd (ground arith)

  pub Redisclient-accepts :
      (parse : Text → Option Error) (c : RedisConfig)
      → IsRedis net c
      → parse c.url.reveal ≡ none
      → (r : Redisclient.Client) × (Redisclient.new parse (redis_config c) ≡ ok r)
  unfolding Redisclient.new
  Redisclient-accepts parse c v p =
      let plain = prefix-IsPlain c.key_prefix v.prefix in
      let same =
        trim_space-printable c.key_prefix
          (All-map IsPlain IsPrintable c.key_prefix (λ x h. h.0) plain) in
      let colon =
        contains-no_colon c.key_prefix
          (All-map IsPlain (λ x. x ≢ b':') c.key_prefix (λ x h. h.1) plain) in
      let given = prefix_given c.key_prefix v.prefix in
      (
        record { url = c.url.reveal; key_prefix = trim_space c.key_prefix; started = false },
        rw (Redisclient.new, p, same, given, text_eq_refl c.key_prefix, colon) refl,
      )

  endpoint_parts :
      (endpoint : Text)
      → validate_object_storage_endpoint net endpoint ≡ none
      → (u : Url) × (net.parse_url endpoint ≡ ok u)
        × (Objectstorage.bad_scheme u ≡ false)
        × (is_bare u ≡ true)
  unfolding validate_object_storage_endpoint
  endpoint_parts endpoint h = elim (Result-cases (net.parse_url endpoint)) [
    | inl (u, q) ↦ (u, q, ground arith, ground arith)
    | inr (e, q) ↦ absurd (ground arith)
  ]

  pub Objectstorage-accepts :
      (check_bucket : Text → Option Error) (c : ObjectStorageConfig)
      → IsObjectStorage net c
      → check_bucket c.bucket ≡ none
      → (s : Objectstorage.Store) × (Objectstorage.new net check_bucket (objects_config c) ≡ ok s)
  unfolding Objectstorage.new
  Objectstorage-accepts check_bucket c v p =
      let (u, q, scheme, bare) = endpoint_parts c.endpoint v.endpoint in
      let access = given_not_empty c.access_key.reveal v.access_key in
      let hidden = given_not_empty c.secret_key.reveal v.secret_key in
      (
        record {
          configuration = objects_config c;
          endpoint = u.host;
          secure = text_eq u.scheme (codes "https");
          started = false;
        },
        rw (Objectstorage.new, Objectstorage.new_at, q, scheme, bare, p, access, hidden) refl,
      )

  pub Relay-accepts :
      (c : OutboxConfig) (id : Text)
      → IsOutbox net c
      → (r : Relay.Relay) × (Relay.new_relay false (relay_config c) (ok id) ≡ ok r)
  unfolding Relay.new_relay
  Relay-accepts c id v =
      let (poll, ep, p1, p2) = v.poll in
      let (lease, el, l1, l2) = v.lease in
      let (batch, eb, b1, b2) = v.batch in
      let (attempts, ea, a1, a2) = v.attempts in
      let (base, ebase, c1, c2, (maximum, em, m1, m2)) = v.backoffs in
      (
        record {
          config = relay_config c;
          worker_id = id;
          started = false;
          last_error = none;
          running = 0;
          stopping = 0;
        },
        rw (Relay.new_relay, ep, el, eb, ea, ebase, em) (ground arith),
      )
