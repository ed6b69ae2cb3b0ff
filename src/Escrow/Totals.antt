-- ===== src/Escrow/Totals.antt =====
-- The totals of the fee pool, from the escrows and the funds (internal/chain/storage_fee_pool.go).
use falari.Prelude.{[], ◌∷◌, if◌then◌else◌}
use falari.Arith.{saturating_add}
use falari.Dict.{Dict}
use falari.Types.{DealEscrow, PermanentStorageFund, StorageFeePool}
use falari.State.{State}

-- The loop of rebuildStorageFeePoolForState over the escrows, and the one over the funds.
unfoldable pub add_escrows : Dict DealEscrow → StorageFeePool → StorageFeePool
add_escrows [] pool = pool
add_escrows ((_, escrow) ∷ rest) pool = add_escrows rest (record pool {
  total_locked = saturating_add pool.total_locked escrow.locked_fee;
  total_paid = saturating_add pool.total_paid escrow.paid_fee;
  total_refunded = saturating_add pool.total_refunded escrow.refunded_fee;
  total_burned = saturating_add pool.total_burned escrow.burned_fee;
})

unfoldable pub add_funds : Dict PermanentStorageFund → StorageFeePool → StorageFeePool
add_funds [] pool = pool
add_funds ((_, fund) ∷ rest) pool = add_funds rest (record pool {
  permanent_fund_balance =
      if fund.closed
      then pool.permanent_fund_balance
      else saturating_add pool.permanent_fund_balance fund.balance;
  transferred_to_reward_pool =
      saturating_add pool.transferred_to_reward_pool fund.transferred_to_pool;
  total_burned = saturating_add pool.total_burned fund.burned;
})

unfoldable pub rebuild_storage_fee_pool : State → State
rebuild_storage_fee_pool s =
    let empty : StorageFeePool = record {
      total_locked = 0;
      total_paid = 0;
      total_refunded = 0;
      total_burned = 0;
      transferred_to_reward_pool = 0;
      repair_pool_transferred = 0;
      permanent_fund_balance = 0;
      insurance_reserve = 0;
    } in
    let pool = add_funds s.permanent_storage_funds (add_escrows s.deal_escrows empty) in
    record s {
      storage_fee_pool = record pool { insurance_reserve = s.storage_fee_pool.insurance_reserve };
    }
