-- ===== src/Objectstorage/Contents.antt =====
-- The store as a map from keys to objects.
use mano_reck.Prelude.{
  ◌≡◌, ◌≢◌, refl, sym, ap, ◌∙◌, true, Option, none, some, Text, text_eq, ℤ, pos, ltb_ℤ, length,
  arith, not,
}
use mano_reck.GoError.{
  Error, Sentinel, sentinel, Result, ok, err, ◌>>=◌, require, bind_ok, require_ok, ok_eq,
}
use mano_reck.Identifier.{is_uuidv7}
use mano_reck.Database.{Outcome, applied, refused, unacknowledged}
use mano_reck.Objectstorage.{
  Object, Store, Service, Laws, validate_object_input, ready, put_body, put, reply, normalized,
  normalize_error, get, remove_key, delete,
}

module _ {ℓ} {S : Type ℓ} (service : Service S) where
  put_body_ok :
      (outcome : Outcome) (store : Store) (key : Text) (size : ℤ) (content_type : Text)
      (r : Result Text) (s s' : S)
      → put_body service outcome store key size content_type r s ≡ (s', none)
      → (body : Text) × (r ≡ ok body)
        × (s' ≡ service.put store.configuration.bucket key body size content_type s)
  put_body_ok applied store key size content_type (ok body) s s' h = (body, refl, ground arith)
  put_body_ok (refused e) store key size content_type (ok body) s s' h = absurd (ground arith)
  put_body_ok (unacknowledged e) store key size content_type (ok body) s s' h =
      absurd (ground arith)
  put_body_ok outcome store key size content_type (err e) s s' h = absurd (ground arith)

  remove_key_ok :
      (outcome : Outcome) (store : Store) (key : Text) (r : Result (Unit {0})) (s s' : S)
      → remove_key service outcome store key r s ≡ (s', none)
      → (r ≡ ok tt) × (s' ≡ service.remove store.configuration.bucket key s)
  remove_key_ok applied store key (ok tt) s s' h = (refl, ground arith)
  remove_key_ok (refused e) store key (ok tt) s s' h = absurd (ground arith)
  remove_key_ok (unacknowledged e) store key (ok tt) s s' h = absurd (ground arith)
  remove_key_ok outcome store key (err e) s s' h = absurd (ground arith)

  -- An input that passes gives its body, under a key that Get accepts too.
  input_ok :
      (key body : Text) (size : ℤ) (content_type content : Text)
      → validate_object_input key (some body) size content_type ≡ ok content
      → (is_uuidv7 key ≡ true) × (content ≡ body)
  unfolding validate_object_input
  input_ok key body size content_type content h =
      let (_, id, h1) = bind_ok _ _ h in
      let (_, _, h2) = bind_ok (require (not (ltb_ℤ size (pos 0))) _) _ h1 in
      (require_ok _ _ id, ground arith)

  settled :
      (r : Result Object)
      → (normalized service r >>= λ found. normalized service (reply service none (some found)))
        ≡ normalized service r
  settled (ok o) = refl
  settled (err e) = refl

  -- Get, where the key and the store are in order and the calls succeed.
  get_lem :
      (store : Store) (key : Text) (s : S)
      → is_uuidv7 key ≡ true
      → ready service store ≡ ok tt
      → get service none none store key s
        ≡ normalized service (reply service none (service.find store.configuration.bucket key s))
  unfolding get
  get_lem store key s id up =
      rw (get, id, up)
        (settled (reply service none (service.find store.configuration.bucket key s)))

  -- Get reads no more of the service than what it finds under its key.
  get_same :
      (stat opening : Option Error) (store : Store) (key : Text) (s s' : S)
      → service.find store.configuration.bucket key s'
        ≡ service.find store.configuration.bucket key s
      → get service stat opening store key s' ≡ get service stat opening store key s
  unfolding get
  get_same stat opening store key s s' e = rw (get, e) refl

  -- What a store answers to Get after a Put: the object under the key, the same as before elsewhere.
  abbrev pub Stored : Store → Text → Text → Text → S → S → Type 0
  Stored store key body content_type s s' =
      ((o : Object) × (get service none none store key s' ≡ ok o)
        × (o.body ≡ body)
        × (o.size ≡ pos (length body))
        × (o.content_type ≡ content_type))
      × ((stat opening : Option Error) (j : Text)
          → key ≢ j
          → get service stat opening store j s' ≡ get service stat opening store j s)

  abbrev pub Removed : Store → Text → S → S → Type 0
  Removed store key s s' =
      (get service none none store key s' ≡ err (sentinel Sentinel.object_not_found))
      × ((stat opening : Option Error) (j : Text)
          → key ≢ j
          → get service stat opening store j s' ≡ get service stat opening store j s)

  -- Over an S3 service that keeps its documented laws: after a Put that reports no error, of a body of the
  -- declared size, a Get whose calls succeed answers under the key with that body, its size and its content
  -- type, and every Get under another key answers as before.
  pub put-Stored :
      (laws : Laws service) (outcome : Outcome) (store : Store) (key body content_type : Text)
      (s s' : S)
      → put service outcome store key (some body) (pos (length body)) content_type s ≡ (s', none)
      → Stored store key body content_type s s'
  unfolding put
  put-Stored laws outcome store key body content_type s s' h =
      let (content, p, e) =
        put_body_ok outcome store key (pos (length body)) content_type _ s s' h in
      let (given, q, p1) = bind_ok _ _ p in
      let (_, up, p2) = bind_ok (ready service store) _ p1 in
      let (id, same) = input_ok key body (pos (length body)) content_type given q in
      let b = store.configuration.bucket in
      let e' : s' ≡ service.put b key body (pos (length body)) content_type s =
        e
        ∙ ap (λ x. service.put b key x (pos (length body)) content_type s)
            (sym (ok_eq p2) ∙ same) in
      let (o, found, b1, b2, b3) = laws.find-put b key body content_type s in
      let here : service.find b key s' ≡ some o = ap (service.find b key) e' ∙ found in
      (
        (
          o,
          get_lem store key s' id up ∙ ap (λ x. normalized service (reply service none x)) here,
          b1,
          b2,
          b3,
        ),
        λ stat opening j ne. get_same stat opening store j s s' (
            ap (service.find b j) e'
            ∙ laws.find-put_other b key j body (pos (length body)) content_type s ne),
      )

  missing_lem :
      Laws service → normalize_error service service.missing ≡ sentinel Sentinel.object_not_found
  unfolding normalize_error text_eq
  missing_lem laws = rw (laws.code-missing) refl

  -- After a Delete that reports no error Get reports under the key that the object is not found, and
  -- answers under every other key as before.
  pub delete-Removed :
      (laws : Laws service) (outcome : Outcome) (store : Store) (key : Text) (s s' : S)
      → delete service outcome store key s ≡ (s', none)
      → Removed store key s s'
  unfolding delete
  delete-Removed laws outcome store key s s' h =
      let (p, e) = remove_key_ok outcome store key _ s s' h in
      let (_, id, up) = bind_ok (require (is_uuidv7 key) _) _ p in
      let b = store.configuration.bucket in
      let here : service.find b key s' ≡ none =
        ap (service.find b key) e ∙ laws.find-remove b key s in
      (
        get_lem store key s' (require_ok _ _ id) up
            ∙ ap (λ x. normalized service (reply service none x)) here
            ∙ ap err (missing_lem laws),
        λ stat opening j ne.
            get_same stat opening store j s s'
              (ap (service.find b j) e ∙ laws.find-remove_other b key j s ne),
      )
