-- ===== src/Redisclient/Isolation.antt =====
-- Clients of other namespaces, and other keys, never touch a value.
use mano_reck.Prelude.{
  ◌≡◌, ◌≢◌, ◌⊎◌, refl, ap, ◌∙◌, inl, inr, Option, List, [], ◌∷◌, All, Text, ℤ, arith, String,
}
use mano_reck.GoError.{Error, Result, Result-cases, ok, err}
use mano_reck.Database.{Outcome, applied, refused, unacknowledged}
use mano_reck.Redisclient.{
  Client, Keyspace, Laws, ready_key, put, get, delete, write, with_key, after_get, reply,
}
use mano_reck.Redisclient.Keys.{IsNamespaced, ready_key-injective}

-- One call that writes, with its outcome.
pub data Call : Type 0 where
  put_call : Outcome → Client → Text → Text → ℤ → Call
  delete_call : Outcome → Client → Text → Call

abbrev pub target : Call → Client × Text
target (put_call outcome client key content expiry) = (client, key)
target (delete_call outcome client key) = (client, key)

-- The call is on another key, or by a client of another namespace.
abbrev pub Elsewhere : Client → Text → Call → Type 0
Elsewhere client key call =
    IsNamespaced (target call).0
    × (((target call).0.key_prefix ≢ client.key_prefix) ⊎ ((target call).1 ≢ key))

module _ {ℓ} {S : Type ℓ} (keys : Keyspace S) where
  unfoldable pub run_call : Call → S → S
  unfolding put delete
  run_call (put_call outcome client key content expiry) s =
      (put keys outcome client key content expiry s).0
  run_call (delete_call outcome client key) s = (delete keys outcome client key s).0

  unfoldable pub run_calls : List Call → S → S
  unfolding run_call
  run_calls [] s = s
  run_calls (call ∷ calls) s = run_calls calls (run_call call s)

  module _ (laws : Laws keys) (client : Client) (key q : Text) (named : IsNamespaced client)
      (ready : ready_key client key ≡ ok q) where
    other_key :
        (d : Client) (k p : Text)
        → IsNamespaced d
        → (d.key_prefix ≢ client.key_prefix) ⊎ (k ≢ key)
        → ready_key d k ≡ ok p
        → p ≢ q
    other_key d k p other apart h e =
        let (same, keys_) = ready_key-injective d client k key q other named (h ∙ ap ok e) ready in
        elim apart [ inl ne ↦ ne same | inr ne ↦ ne keys_ ]

    write_elsewhere :
        (outcome : Outcome) (r : Result Text) (f : String) (change : Text → S → S) (s : S)
        → ((p : Text) → r ≡ ok p → keys.value q (change p s) ≡ keys.value q s)
        → keys.value q (with_key r (λ p. write outcome f (change p)) s).0 ≡ keys.value q s
    write_elsewhere outcome (err e) f change s h = refl
    write_elsewhere applied (ok p) f change s h = h p refl
    write_elsewhere (refused e) (ok p) f change s h = refl
    write_elsewhere (unacknowledged e) (ok p) f change s h = h p refl

    run_call-Elsewhere :
        (call : Call) (s : S)
        → Elsewhere client key call
        → keys.value q (run_call call s) ≡ keys.value q s
    unfolding run_call put delete
    run_call-Elsewhere (put_call outcome d k content expiry) s (other, apart) =
        let kept =
          write_elsewhere outcome (ready_key d k) "put ephemeral value: %w"
            (λ p. keys.set p content expiry) s
            (λ p h. laws.value-set_other p q content expiry s (other_key d k p other apart h)) in
        ground arith
    run_call-Elsewhere (delete_call outcome d k) s (other, apart) =
        write_elsewhere outcome (ready_key d k) "delete ephemeral value: %w" keys.del s
          (λ p h. laws.value-del_other p q s (other_key d k p other apart h))

    run_calls-value :
        (calls : List Call) (s : S)
        → All (Elsewhere client key) calls
        → keys.value q (run_calls calls s) ≡ keys.value q s
    unfolding run_calls
    run_calls-value [] s h = refl
    run_calls-value (call ∷ calls) s (h, rest) =
        run_calls-value calls (run_call call s) rest ∙ run_call-Elsewhere call s h

  -- Over a Redis that keeps its documented laws: whatever a client of a colon-free prefix reads of a key
  -- is not changed by any calls on other keys or by clients of other colon-free prefixes, in any number
  -- and order and with any outcomes.
  pub get-run_calls :
      (laws : Laws keys) (failure : Option Error) (client : Client) (key : Text) (calls : List Call)
      (s : S)
      → IsNamespaced client
      → All (Elsewhere client key) calls
      → get keys failure client key (run_calls calls s) ≡ get keys failure client key s
  unfolding get
  get-run_calls laws failure client key calls s named elsewhere =
      elim (Result-cases (ready_key client key)) [
        | inr (e, p) ↦ rw p refl
        | inl (q, p) ↦ rw p (
            ap (λ v. after_get (reply failure v))
              (run_calls-value laws client key q named p calls s elsewhere))
      ]
