-- ===== src/EventConsumer/Backoff.antt =====
-- The delay before a redelivery.
use Prim.Native.Nat.{min}
use mano_reck.Prelude.{
  ℕ, zero, suc, ◌-◌, ◌*◌, ◌^◌, ◌≤◌, ◌<◌, ◌≡◌, ap, ◌∙◌, inl, inr, Bool-cases, ltb_ℤ, pos,
  double64_pos, arith, if◌then◌else◌,
}
use mano_reck.Outbox.Relay.Backoff.{regroup, doubled-le}
use mano_reck.EventConsumer.{second, minute, redelivery_loop, redelivery_backoff}

cap_minute :
    (b : ℕ) → (if ltb_ℤ (pos minute) (pos b) then pos minute else pos b) ≡ pos (min minute b)
cap_minute b = ground arith

redelivery_loop-pos :
    (rounds b : ℕ) → 0 < b → redelivery_loop rounds (pos b) ≡ pos (min minute (b * 2 ^ rounds))
unfolding redelivery_loop
redelivery_loop-pos zero b p = cap_minute b ∙ ap (λ x. pos (min minute x)) (omega arith)
redelivery_loop-pos (suc k) b p = elim (Bool-cases (ltb_ℤ (pos b) (pos minute))) [
  | inl below ↦
      let small : b < minute = ground arith in
      rw (below, double64_pos b (omega arith))
        (redelivery_loop-pos k (b * 2) (omega arith) ∙ ap (λ x. pos (min minute x)) (regroup b k))
  | inr above ↦
      let large : minute ≤ b = ground arith in
      rw above (cap_minute b ∙ ap pos (omega (arith, doubled-le b k)))
]

-- The delay after the n-th delivery is one second doubled n - 1 times, or a minute where that is less.
pub redelivery_backoff-eq-min :
    (delivery : ℕ) → redelivery_backoff delivery ≡ pos (min minute (second * 2 ^ (delivery - 1)))
unfolding redelivery_backoff
redelivery_backoff-eq-min delivery = redelivery_loop-pos (delivery - 1) second (omega arith)
