-- ===== src/Outbox/Relay/Backoff.antt =====
-- The delay before a retry: doubling from the base, capped, and never overflowing.
use Prim.Native.Nat.{min}
use native.Mathlib.Nat.{pow-suc}
use mano_reck.Prelude.{
  ℕ, zero, suc, ◌-◌, ◌*◌, ◌^◌, ◌≤◌, ◌<◌, ◌≡◌, sym, ap, ◌∙◌, inl, inr, true, false, Bool-cases,
  ltb_ℤ, pos, half64, double64_pos, arith,
}
use mano_reck.Outbox.Relay.{RelayConfig, backoff, backoff_loop, cap_backoff}

pow_pos : (k : ℕ) → 1 ≤ 2 ^ k
pow_pos zero = omega arith
pow_pos (suc k) = rw pow-suc (omega (arith, pow_pos k))

pub doubled-le : (b k : ℕ) → b * 2 ≤ b * 2 ^ suc k
doubled-le b k = rw pow-suc (grind (arith, pow_pos k))

pub regroup : (b k : ℕ) → b * 2 * 2 ^ k ≡ b * 2 ^ suc k
regroup b k = rw pow-suc (grind arith)

pub min_left : (m n : ℕ) → m ≤ n → min m n ≡ m
min_left m n h = omega arith

min_right : (m n : ℕ) → n ≤ m → min m n ≡ n
min_right m n h = omega arith

cap_below : (m b : ℕ) → b ≤ m → cap_backoff (pos m) (pos b) ≡ pos b
cap_below m b h = ground arith

over_half : (m b : ℕ) → ltb_ℤ (half64 (pos m)) (pos b) ≡ true → m ≤ b * 2
over_half m b h = ground arith

under_half : (m b : ℕ) → ltb_ℤ (half64 (pos m)) (pos b) ≡ false → b * 2 ≤ m
under_half m b h = ground arith

at_top : (m b : ℕ) → b ≤ m → ltb_ℤ (pos b) (pos m) ≡ false → b ≡ m
at_top m b h e = ground arith

-- The loop of backoff, from a positive delay within the maximum.
backoff_loop-pos :
    (m rounds b : ℕ)
    → m < 2 ^ 63
    → 0 < b
    → b ≤ m
    → backoff_loop (pos m) rounds (pos b) ≡ pos (min m (b * 2 ^ rounds))
unfolding backoff_loop
backoff_loop-pos m zero b fits p h = cap_below m b h ∙ ap pos (omega arith)
backoff_loop-pos m (suc k) b fits p h = elim (Bool-cases (ltb_ℤ (pos b) (pos m))) [
  | inr top ↦ rw top (
      cap_below m b h
      ∙ ap pos (
          at_top m b h top
          ∙ sym (min_left m (b * 2 ^ suc k) (omega (arith, doubled-le b k, at_top m b h top)))))
  | inl below ↦ rw below (elim (Bool-cases (ltb_ℤ (half64 (pos m)) (pos b))) [
    | inl over ↦ rw over (
        ap pos
          (sym (min_left m (b * 2 ^ suc k) (omega (arith, over_half m b over, doubled-le b k)))))
    | inr under ↦
        let fits' = under_half m b under in
        rw (under, double64_pos b (omega arith))
          (backoff_loop-pos m k (b * 2) fits (omega arith) fits'
            ∙ ap (λ x. pos (min m x)) (regroup b k))
  ])
]

-- For a positive base that is at most the maximum, which fits in an int64, the delay after attempt n
-- is the base doubled n - 1 times, or the maximum where that is less.
pub backoff-eq-min :
    (c : RelayConfig) (base maximum attempt : ℕ)
    → c.base_backoff ≡ pos base
    → c.max_backoff ≡ pos maximum
    → 0 < base
    → base ≤ maximum
    → maximum < 2 ^ 63
    → backoff c attempt ≡ pos (min maximum (base * 2 ^ (attempt - 1)))
unfolding backoff
backoff-eq-min c base maximum attempt eb em p h fits =
    rw (eb, em) (backoff_loop-pos maximum (attempt - 1) base fits p h)
