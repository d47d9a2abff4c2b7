-- ===== src/Checks/Storing.antt =====
-- Redis and the object storage at concrete inputs, over servers that keep the documented laws.
use mano_reck.Prelude.{
  ℕ, ◌+◌, ◌≤◌, ◌≡◌, ◌≢◌, refl, true, false, ◌&&◌, Bool-cases, inl, inr, ltb, if◌then◌else◌, Option,
  none, some, List, [], ◌∷◌, Text, text_eq, text_eq→eq, text_eq_refl, codes, length, ℤ, pos, negsuc,
  arith,
}
use mano_reck.GoError.{Error, foreign, sentinel, Sentinel, ok, err}
use mano_reck.Database.{applied, refused}
use mano_reck.Redisclient.{Client, Keyspace, millisecond, put, get}
use mano_reck.Redisclient
use mano_reck.GoStrings.{trim_space, contains}
use mano_reck.Identifier.{is_uuidv7, is_lower_hex}
use mano_reck.Redisclient.Keys.{IsNamespaced}
use mano_reck.Redisclient.Expiry.{get-put}
use mano_reck.Redisclient.Isolation.{Call, put_call, delete_call, run_calls, get-run_calls}
use mano_reck.Objectstorage.{Object, Store, Service}
use mano_reck.Objectstorage
use mano_reck.Objectstorage.Contents.{Stored, put-Stored}
use mano_reck.Checks.Fixtures.{first_id, failure}

-- The time, and the values with their deadlines.
abbrev Cells : Type 0
Cells = ℕ × (Text → Option (Text × ℕ))

abbrev set_cell : Text → Text → ℤ → Cells → Cells
set_cell k v (pos d) (now, cells) = (now, λ j. if text_eq k j then some (v, now + d) else cells j)
set_cell k v (negsuc d) (now, cells) = (now, λ j. if text_eq k j then none else cells j)

abbrev alive : ℕ → Option (Text × ℕ) → Option Text
alive now none = none
alive now (some (v, deadline)) = if ltb now deadline then some v else none

abbrev cells : Keyspace Cells
cells = record {
  set = set_cell;
  del = λ k (now, values). (now, λ j. if text_eq k j then none else values j);
  value = λ k (now, values). alive now (values k);
  after = λ t (now, values). (now + t, values);
}

different : (k j : Text) → k ≢ j → text_eq k j ≡ false
different k j ne = elim (Bool-cases (text_eq k j)) [
  | inl t ↦ absurd (ne (text_eq→eq k j t))
  | inr f ↦ f
]

value-set_other_cell :
    (k j v : Text) (d : ℤ) (s : Cells) → k ≢ j → cells.value j (cells.set k v d s) ≡ cells.value j s
value-set_other_cell k j v (pos d) s ne = rw (different k j ne) refl
value-set_other_cell k j v (negsuc d) s ne = rw (different k j ne) refl

cells-Laws : Redisclient.Laws cells
cells-Laws = record {
  value-set = λ k v d t s h. ground (arith, text_eq_refl k);
  value-set_expired = λ k v d t s h. ground (arith, text_eq_refl k);
  value-set_other = value-set_other_cell;
  value-del = λ k s. rw (text_eq_refl k) refl;
  value-del_other = λ k j s ne. rw (different k j ne) refl;
}

abbrev client : Client
client = record {
  url = codes "redis://redis:6379/0";
  key_prefix = codes "manoreck";
  started = true;
}

abbrev neighbour : Client
neighbour = record client { key_prefix = codes "sandbox" }

abbrev vacant : Cells
vacant = (0, λ k. none)

abbrev session : Text
session = codes "session"

abbrev written : Cells
written = (
  0,
  λ j. if text_eq (codes "manoreck:session") j then some (codes "payload", 5_000_000) else none,
)

session_put :
    put cells applied client session (codes "payload") (pos 5_000_000) vacant ≡ (written, none)
unfolding put text_eq trim_space
session_put = refl

get-put_example :
    (2_000_000 + millisecond ≤ 5_000_000
      → get cells none client session (cells.after 2_000_000 written) ≡ ok (codes "payload"))
    × (5_000_000 + millisecond ≤ 2_000_000
        → get cells none client session (cells.after 2_000_000 written)
          ≡ err (sentinel Sentinel.ephemeral_not_found))
get-put_example =
    get-put cells cells-Laws applied client session (codes "payload") 5_000_000 2_000_000 vacant
      written session_put

abbrev calls : List Call
calls =
    put_call applied neighbour session (codes "other") (pos 9_000_000)
    ∷ delete_call applied neighbour session
    ∷ delete_call (refused failure) client (codes "draft")
    ∷ []

namespaced : IsNamespaced client × IsNamespaced neighbour
unfolding contains
namespaced = (refl, refl)

get-run_calls_example :
    get cells none client session (run_calls cells calls written)
    ≡ get cells none client session written
get-run_calls_example =
    get-run_calls cells cells-Laws none client session calls written namespaced.0 (
      (namespaced.1, inl (λ e. cc)),
      ((namespaced.1, inl (λ e. cc)), ((namespaced.0, inr (λ e. cc)), tt)),
    )

-- The objects of each bucket.
abbrev Buckets : Type 0
Buckets = Text → Text → Option Object

abbrev error_code : Error → Text
error_code (foreign n chain) = codes "NoSuchKey"
error_code e = codes "InternalError"

abbrev buckets : Service Buckets
buckets = record {
  put = λ b k body size content_type s. (λ c j.
      if text_eq b c && text_eq k j
      then some (record { body = body; size = size; content_type = content_type; etag = [] })
      else s c j);
  remove = λ b k s. (λ c j. if text_eq b c && text_eq k j then none else s c j);
  find = λ b k s. s b k;
  code = error_code;
  missing = foreign 0 [];
}

buckets-Laws : Objectstorage.Laws buckets
buckets-Laws = record {
  find-put = λ b k body content_type s. (
    record { body = body; size = pos (length body); content_type = content_type; etag = [] },
    rw (text_eq_refl b, text_eq_refl k) refl,
    refl,
    refl,
    refl,
  );
  find-put_other = λ b k j body size content_type s ne. rw (text_eq_refl b, different k j ne) refl;
  find-remove = λ b k s. rw (text_eq_refl b, text_eq_refl k) refl;
  find-remove_other = λ b k j s ne. rw (text_eq_refl b, different k j ne) refl;
  code-missing = refl;
}

abbrev store : Store
store = record {
  configuration = record {
    endpoint = codes "http://objects:8333";
    bucket = codes "manoreck-local";
    access_key = codes "a";
    secret_key = codes "b";
  };
  endpoint = codes "objects:8333";
  secure = false;
  started = true;
}

abbrev no_objects : Buckets
no_objects b k = none

abbrev kept : Buckets
kept =
    buckets.put (codes "manoreck-local") first_id (codes "scan") (pos 4) (codes "text/plain")
      no_objects

scan_put :
    Objectstorage.put buckets applied store first_id
      (some (codes "scan"))
      (pos 4)
      (codes "text/plain")
      no_objects
    ≡ (kept, none)
unfolding Objectstorage.put is_uuidv7 is_lower_hex trim_space
scan_put = refl

put-Stored_example :
    Stored buckets store first_id (codes "scan") (codes "text/plain") no_objects kept
put-Stored_example =
    put-Stored buckets buckets-Laws applied store first_id (codes "scan") (codes "text/plain")
      no_objects kept scan_put
