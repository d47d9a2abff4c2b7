-- ===== src/EventConsumer/Delays.antt =====
-- The constants of backend/internal/platform/eventconsumer/consumer.go, and redeliveryBackoff.
use mano_reck.Prelude.{ℕ, zero, suc, ◌-◌, ◌*◌, if◌then◌else◌, Text, codes, ℤ, pos, ltb_ℤ, double64}

abbrev pub infrastructure_consumer : Text
infrastructure_consumer = codes "manoreck-infrastructure-proof-v1"

abbrev pub max_deliveries : ℕ
max_deliveries = 5

abbrev pub second : ℕ
second = 1_000_000_000

abbrev pub minute : ℕ
minute = 60 * second

-- The loop of redeliveryBackoff over the deliveries that are left.
unfoldable pub redelivery_loop : ℕ → ℤ → ℤ
redelivery_loop zero current = if ltb_ℤ (pos minute) current then pos minute else current
redelivery_loop (suc rounds) current =
    let next = redelivery_loop rounds (double64 current) in
    if ltb_ℤ current (pos minute)
    then next
    else if ltb_ℤ (pos minute) current
    then pos minute
    else current

-- `delivery` counts from 1.
unfoldable pub redelivery_backoff : ℕ → ℤ
unfolding redelivery_loop double64
redelivery_backoff delivery = redelivery_loop (delivery - 1) (pos second)
