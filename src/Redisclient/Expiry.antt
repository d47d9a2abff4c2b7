-- ===== src/Redisclient/Expiry.antt =====
-- A value that was put is read until it expires, and then no more.
use mano_reck.Prelude.{
  ℕ, ◌+◌, ◌≤◌, ◌≡◌, refl, ap, ◌∙◌, Bool-cases, inl, inr, none, Text, ℤ, pos, leb_ℤ, arith,
}
use mano_reck.GoError.{Sentinel, sentinel, errors_is, Result, ok, err}
use mano_reck.Database.{Outcome, applied, refused, unacknowledged}
use mano_reck.Redisclient.{
  Client, Keyspace, Laws, millisecond, ready_key, put, get, reply, after_get, write, with_key,
}

module _ {ℓ} {S : Type ℓ} (keys : Keyspace S) where
  write_applied :
      (outcome : Outcome) (client : Client) (r : Result Text) (content : Text) (expiry : ℤ)
      (s s' : S)
      → with_key r (λ q. write outcome "put ephemeral value: %w" (keys.set q content expiry)) s
        ≡ (s', none)
      → (q : Text) × (r ≡ ok q) × (s' ≡ keys.set q content expiry s)
  write_applied applied client (ok q) content expiry s s' h = (q, refl, ground arith)
  write_applied (refused e) client (ok q) content expiry s s' h = absurd (ground arith)
  write_applied (unacknowledged e) client (ok q) content expiry s s' h = absurd (ground arith)
  write_applied outcome client (err e) content expiry s s' h = absurd (ground arith)

  -- A put that reports no error was applied under its qualified key.
  put_applied :
      (outcome : Outcome) (client : Client) (key content : Text) (expiry : ℤ) (s s' : S)
      → put keys outcome client key content expiry s ≡ (s', none)
      → (q : Text) × (ready_key client key ≡ ok q) × (s' ≡ keys.set q content expiry s)
  unfolding put
  put_applied outcome client key content expiry s s' h = elim (Bool-cases (leb_ℤ expiry (pos 0))) [
    | inl t ↦ absurd (ground arith)
    | inr f ↦ write_applied outcome client (ready_key client key) content expiry s s' (ground arith)
  ]

  get_lem :
      (client : Client) (key q : Text) (s : S)
      → ready_key client key ≡ ok q
      → get keys none client key s ≡ after_get (reply none (keys.value q s))
  unfolding get
  get_lem client key q s e = rw e refl

  get_missing : after_get (reply none none) ≡ err (sentinel Sentinel.ephemeral_not_found)
  unfolding errors_is
  get_missing = refl

  -- Over a Redis that keeps its documented laws: after a Put that reports no error, and as time passes with
  -- no other call, Get answers with the value until a millisecond before the expiry, and from a millisecond
  -- after the expiry on it reports that the value is not found.
  pub get-put :
      (laws : Laws keys) (outcome : Outcome) (client : Client) (key content : Text) (expiry t : ℕ)
      (s s' : S)
      → put keys outcome client key content (pos expiry) s ≡ (s', none)
      → (t + millisecond ≤ expiry → get keys none client key (keys.after t s') ≡ ok content)
        × (expiry + millisecond ≤ t
            → get keys none client key (keys.after t s')
              ≡ err (sentinel Sentinel.ephemeral_not_found))
  get-put laws outcome client key content expiry t s s' h =
      let (q, ready, e) = put_applied outcome client key content (pos expiry) s s' h in
      let read =
        get_lem client key q (keys.after t s') ready
        ∙ ap (λ x. after_get (reply none (keys.value q (keys.after t x)))) e in
      (
        λ early.
            read ∙ ap (λ v. after_get (reply none v)) (laws.value-set q content expiry t s early),
        λ late.
            read
            ∙ ap (λ v. after_get (reply none v)) (laws.value-set_expired q content expiry t s late)
            ∙ get_missing,
      )
