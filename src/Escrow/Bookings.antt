-- ===== src/Escrow/Bookings.antt =====
-- How a refund and a burn are booked (internal/chain/storage_fee_pool.go).
use falari.Prelude.{ℕ, ◌==◌, if◌then◌else◌}
use falari.Arith.{saturating_add}
use falari.Types.{Intent}
use falari.State.{State}
use falari.Escrow.{put_intent, put_escrow, deal_escrow_locked}

unfoldable pub record_storage_fee_refund : Intent → ℕ → State → State
record_storage_fee_refund intent amount s =
    let (s1, escrow) = deal_escrow_locked intent s in
    let s2 =
      put_escrow intent.intent_id
        (record escrow {
          refunded_fee = saturating_add escrow.refunded_fee amount;
          status = intent.storage_status;
        })
        s1 in
    if amount == 0 then s else record s2 {
      storage_fee_pool = record s2.storage_fee_pool {
        total_refunded = saturating_add s2.storage_fee_pool.total_refunded amount;
      };
    }

-- The intent is changed first, so the escrow is synced with the burn before it is added once more.
unfoldable pub record_storage_fee_burn : Intent → ℕ → State → State × Intent
record_storage_fee_burn intent amount s =
    let intent' = record intent { burned_fee = saturating_add intent.burned_fee amount } in
    let (s1, escrow) = deal_escrow_locked intent' (put_intent intent' s) in
    let s2 =
      put_escrow intent.intent_id
        (record escrow {
          burned_fee = saturating_add escrow.burned_fee amount;
          status = intent.storage_status;
        })
        s1 in
    if amount == 0 then (s, intent) else (
      record s2 {
        storage_fee_pool = record s2.storage_fee_pool {
          total_burned = saturating_add s2.storage_fee_pool.total_burned amount;
        };
      },
      intent',
    )
