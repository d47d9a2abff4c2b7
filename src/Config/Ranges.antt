-- ===== src/Config/Ranges.antt =====
-- What a configuration that Load returns satisfies.
use mano_reck.Prelude.{
  ℕ, ◌*◌, ◌≤◌, ◌≡◌, ap, ◌∙◌, true, none, codes, pos, mul64, mul64_pos, int32, int32_pos, arith,
  subst,
}
use mano_reck.GoError.{ok, bind_ok, require_ok, checked_ok, ok_eq}
use mano_reck.Regex.{match_string}
use mano_reck.Config.Address.{Net}
use mano_reck.Config.Values.{
  LookupEnv, redis_key_prefix_pattern, integer, second, millisecond, valid_bucket_name,
  validate_address, validate_database_url, validate_nats_url, validate_redis_url,
  validate_object_storage_endpoint,
}
use mano_reck.Config.Load.{
  Secret, HttpConfig, DatabaseConfig, OutboxConfig, RedisConfig, ObjectStorageConfig, Config,
  is_given, is_environment, level_or_error, load_http, load_database, load_nats, load_outbox,
  load_redis, load_object_storage, load,
}
use mano_reck.Config.Numbers.{Scaled, Within, integer-Within, mul64-Scaled, seconds-Scaled}

module _ (net : Net) where
  pub record IsHttp (c : HttpConfig) : Type 0 where
    pub environment : is_environment c.environment ≡ true
    pub address : validate_address net c.http_address ≡ none
    pub shutdown : Scaled second 1 60 c.shutdown_timeout
    pub readiness : Scaled second 1 60 c.readiness_timeout

  pub record IsDatabase (c : DatabaseConfig) : Type 0 where
    pub url : validate_database_url net c.url.reveal ≡ none
    pub sizes :
        (m : ℕ) × (c.max_connections ≡ pos m) × (1 ≤ m) × (m ≤ 100) × Within 0 m c.min_connections

  pub record IsOutbox (c : OutboxConfig) : Type 0 where
    pub poll : Scaled millisecond 10 60_000 c.poll_interval
    pub lease : Scaled second 1 3_600 c.lease_duration
    pub batch : Within 1 1_000 c.batch_size
    pub attempts : Within 1 100 c.max_attempts
    pub backoffs :
        (b : ℕ) × (c.base_backoff ≡ pos (b * second))
        × (1 ≤ b)
        × (b ≤ 3_600)
        × Scaled second b 86_400 c.max_backoff

  pub record IsRedis (c : RedisConfig) : Type 0 where
    pub url : validate_redis_url net c.url.reveal ≡ none
    pub prefix : match_string redis_key_prefix_pattern c.key_prefix ≡ true

  pub record IsObjectStorage (c : ObjectStorageConfig) : Type 0 where
    pub endpoint : validate_object_storage_endpoint net c.endpoint ≡ none
    pub bucket : valid_bucket_name c.bucket ≡ true
    pub access_key : is_given c.access_key.reveal ≡ true
    pub secret_key : is_given c.secret_key.reveal ≡ true

  -- What config.go promises of a configuration.
  pub record IsValid (c : Config) : Type 0 where
    pub http : IsHttp c.http
    pub database : IsDatabase c.database
    pub nats : validate_nats_url net c.nats.reveal ≡ none
    pub outbox : IsOutbox c.outbox
    pub redis : IsRedis c.redis
    pub object_storage : IsObjectStorage c.object_storage

  module _ (lookup : LookupEnv) where
    load_http-IsHttp : (c : HttpConfig) → load_http net lookup ≡ ok c → IsHttp c
    unfolding load_http
    load_http-IsHttp c h =
        let (_, environment, h1) = bind_ok _ _ h in
        let (level, _, h2) = bind_ok (level_or_error _ _) _ h1 in
        let (_, address, h3) = bind_ok _ _ h2 in
        let (shutdown, s, h4) = bind_ok _ _ h3 in
        let (readiness, r, h5) = bind_ok _ _ h4 in
        subst IsHttp (ok_eq h5) (record {
          environment = require_ok _ _ environment;
          address = checked_ok _ _ address;
          shutdown = seconds-Scaled lookup _ _ shutdown s;
          readiness = seconds-Scaled lookup _ _ readiness r;
        })

    load_database-IsDatabase : (c : DatabaseConfig) → load_database net lookup ≡ ok c → IsDatabase c
    unfolding load_database
    load_database-IsDatabase c h =
        let (_, url, h1) = bind_ok _ _ h in
        let (maximum, p, h2) = bind_ok _ _ h1 in
        let (minimum, q, h3) = bind_ok _ _ h2 in
        let (m, em, a, b) = integer-Within lookup _ _ 1 100 maximum p in
        let (n, en, d, e) = integer-Within lookup _ _ 0 m minimum (
          subst
            (λ x.
              integer lookup (codes "MANORECK_DATABASE_MIN_CONNECTIONS") (pos 1) (pos 0) x
              ≡ ok minimum)
            em q) in
        subst IsDatabase (ok_eq h3) (record {
          url = checked_ok _ _ url;
          sizes = (
            m,
            ap int32 em ∙ int32_pos m (omega arith),
            a,
            b,
            (n, ap int32 en ∙ int32_pos n (omega arith), d, e),
          );
        })

    load_outbox-IsOutbox : (c : OutboxConfig) → load_outbox net lookup ≡ ok c → IsOutbox c
    unfolding load_outbox
    load_outbox-IsOutbox c h =
        let (poll, p1, h1) = bind_ok _ _ h in
        let (lease, p2, h2) = bind_ok _ _ h1 in
        let (batch, p3, h3) = bind_ok _ _ h2 in
        let (attempts, p4, h4) = bind_ok _ _ h3 in
        let (base, p5, h5) = bind_ok _ _ h4 in
        let (maximum, p6, h6) = bind_ok _ _ h5 in
        let (b, eb, b1, b2) = integer-Within lookup _ _ 1 3_600 base p5 in
        subst IsOutbox (ok_eq h6) (record {
          poll =
              mul64-Scaled millisecond 10 60_000 poll (omega arith)
                (integer-Within lookup _ _ 10 60_000 poll p1);
          lease =
              mul64-Scaled second 1 3_600 lease (omega arith)
                (integer-Within lookup _ _ 1 3_600 lease p2);
          batch = integer-Within lookup _ _ 1 1_000 batch p3;
          attempts = integer-Within lookup _ _ 1 100 attempts p4;
          backoffs = (
            b,
            ap (λ x. mul64 x second) eb ∙ mul64_pos b second (omega arith),
            b1,
            b2,
            mul64-Scaled second b 86_400 maximum (omega arith) (
                integer-Within lookup _ _ b 86_400 maximum (
                  subst
                    (λ x.
                      integer lookup (codes "MANORECK_OUTBOX_MAX_BACKOFF_SECONDS") (pos 300) x
                        (pos 86400)
                      ≡ ok maximum)
                    eb p6)),
          );
        })

    load_redis-IsRedis : (c : RedisConfig) → load_redis net lookup ≡ ok c → IsRedis c
    unfolding load_redis
    load_redis-IsRedis c h =
        let (_, url, h1) = bind_ok _ _ h in
        let (_, prefix, h2) = bind_ok _ _ h1 in
        subst IsRedis (ok_eq h2)
          (record { url = checked_ok _ _ url; prefix = require_ok _ _ prefix })

    load_object_storage-IsObjectStorage :
        (c : ObjectStorageConfig) → load_object_storage net lookup ≡ ok c → IsObjectStorage c
    unfolding load_object_storage
    load_object_storage-IsObjectStorage c h =
        let (_, endpoint, h1) = bind_ok _ _ h in
        let (_, bucket, h2) = bind_ok _ _ h1 in
        let (_, access, h3) = bind_ok _ _ h2 in
        let (_, hidden, h4) = bind_ok _ _ h3 in
        subst IsObjectStorage (ok_eq h4) (record {
          endpoint = checked_ok _ _ endpoint;
          bucket = require_ok _ _ bucket;
          access_key = require_ok _ _ access;
          secret_key = require_ok _ _ hidden;
        })

    load_nats-lem :
        (c : Secret) → load_nats net lookup ≡ ok c → validate_nats_url net c.reveal ≡ none
    unfolding load_nats
    load_nats-lem c h =
        let (_, url, h1) = bind_ok _ _ h in
        subst (λ (x : Secret). validate_nats_url net x.reveal ≡ none) (ok_eq h1)
          (checked_ok _ _ url)

    -- Whatever the environment holds, a configuration that Load returns is valid: the addresses, the
    -- bucket and the prefix passed their validators, the credentials are given, and each number lies in
    -- its documented range, in its unit, also relative to the others.
    pub load-IsValid : (c : Config) → load net lookup ≡ ok c → IsValid c
    unfolding load
    load-IsValid c h =
        let (http, p1, h1) = bind_ok _ _ h in
        let (database, p2, h2) = bind_ok _ _ h1 in
        let (nats, p3, h3) = bind_ok _ _ h2 in
        let (outbox, p4, h4) = bind_ok _ _ h3 in
        let (redis, p5, h5) = bind_ok _ _ h4 in
        let (object_storage, p6, h6) = bind_ok _ _ h5 in
        subst IsValid (ok_eq h6) (record {
          http = load_http-IsHttp http p1;
          database = load_database-IsDatabase database p2;
          nats = load_nats-lem nats p3;
          outbox = load_outbox-IsOutbox outbox p4;
          redis = load_redis-IsRedis redis p5;
          object_storage = load_object_storage-IsObjectStorage object_storage p6;
        })
