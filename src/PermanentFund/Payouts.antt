-- ===== src/PermanentFund/Payouts.antt =====
-- What leaves a permanent fund, and what a miner is paid for a proof or a repair
-- (internal/chain/permanent_fund.go, storage_payments.go).
use falari.Prelude.{ℕ, ◌+◌, ◌-◌, String, true, ◌||◌, none, some, ltb, leb, ◌==◌, if◌then◌else◌}
use falari.Arith.{saturating_add}
use falari.Dict.{lookup}
use falari.Types.{Intent, PermanentStorageFund, Pools}
use falari.Env.{Env}
use falari.State.{State}
use falari.Accounts.{account_locked}
use falari.Escrow.{
  is_permanent_intent, put_intent, deal_escrow_locked, put_escrow, least, unlock_storage,
  spend_finite_storage_fee,
}
use falari.PermanentFund.{ensure_permanent_fund, put_fund, shrink_pool, spent_fund}
use falari.Vesting.{vest_mining_reward}

-- SpendPermanentFund (internal/reward/types.go)
unfoldable pub spend_pool : ℕ → Pools → Pools
spend_pool amount pools =
    if amount == 0 || ltb pools.permanent_fund_remaining amount
    then pools
    else record pools { permanent_fund_remaining = pools.permanent_fund_remaining - amount }

-- How much a subsidy covers, once the fund is old enough; all of the shortfall, if the pool has it.
unfoldable pub subsidy_cap : Intent → ℕ → ℕ → State → ℕ
subsidy_cap intent shortfall now s =
    let takeover = s.mining_params.permanent_fund_takeover_seconds in
    let fund = ensure_permanent_fund intent now s in
    if shortfall == 0 || ltb 0 intent.duration || takeover == 0
    then 0
    else if fund.closed || ltb now (fund.created_at_unix + takeover)
    then 0
    else least shortfall s.reward_pools.permanent_fund_remaining

unfoldable pub pay_permanent_fund_subsidy : Intent → ℕ → ℕ → State → State × ℕ
pay_permanent_fund_subsidy intent shortfall now s =
    let subsidy = subsidy_cap intent shortfall now s in
    if subsidy == 0 then (s, 0) else (
      record s {
        reward_pools = spend_pool subsidy s.reward_pools;
        storage_fee_pool = record s.storage_fee_pool {
          repair_pool_transferred =
              saturating_add s.storage_fee_pool.repair_pool_transferred subsidy;
        };
      },
      subsidy,
    )

module _ (env : Env) where
  -- What spendPermanentFundLocked pays of a request.
  unfoldable pub fund_payment : Intent → PermanentStorageFund → ℕ → State → ℕ
  fund_payment intent fund amount s =
      if fund.closed
      then 0
      else least (least amount fund.balance) (account_locked env s intent.user).locked_storage

  -- The escrow is synced with the intent, which has the payment already, before it is added there.
  unfoldable pub spend_permanent_fund : Intent → ℕ → ℕ → State → State × Intent × ℕ
  spend_permanent_fund intent amount now s =
      let fund = ensure_permanent_fund intent now s in
      let paid = fund_payment intent fund amount s in
      let spent = spent_fund paid now fund in
      let intent' = record intent {
        permanent_fund_balance = spent.balance;
        permanent_fund_paid = spent.paid;
        paid_fee = saturating_add intent.paid_fee paid;
      } in
      let s1 = put_intent intent' (put_fund intent spent (unlock_storage env intent.user paid s)) in
      let (s2, escrow) = deal_escrow_locked intent' s1 in
      let s3 = shrink_pool paid (
        put_escrow intent.intent_id
          (record escrow {
            paid_fee = saturating_add escrow.paid_fee paid;
            accrued_fee = saturating_add escrow.accrued_fee paid;
            last_accrued_at_unix = now;
          })
          s2) in
      if amount == 0 || ltb 0 intent.duration || paid == 0 then (s, intent, 0) else (
        record s3 {
          storage_fee_pool = record s3.storage_fee_pool {
            total_paid = saturating_add s3.storage_fee_pool.total_paid paid;
          };
        },
        intent',
        paid,
      )

  -- What is burned is at most what the user still has locked.
  unfoldable pub close_permanent_fund : Intent → String → ℕ → State → State × Intent × ℕ
  close_permanent_fund intent reason now s =
      let fund = ensure_permanent_fund intent now s in
      let remaining = least fund.balance (account_locked env s intent.user).locked_storage in
      let closed = record fund {
        balance = 0;
        burned = saturating_add fund.burned remaining;
        closed = true;
        closed_reason = reason;
        closed_at_unix = now;
        updated_at_unix = now;
      } in
      let intent' = record intent {
        burned_fee = saturating_add intent.burned_fee remaining;
        permanent_fund_balance = 0;
        permanent_fund_paid = fund.paid;
      } in
      let s1 =
        if fund.balance == 0
        then s
        else (let s0 = unlock_storage env intent.user remaining s in
            record s0 {
              storage_fee_pool = record s0.storage_fee_pool {
                total_burned = saturating_add s0.storage_fee_pool.total_burned remaining;
              };
            }) in
      if ltb 0 intent.duration || fund.closed then (s, intent, 0) else (
        shrink_pool remaining (put_intent intent' (put_fund intent closed s1)),
        intent',
        remaining,
      )

  -- The payment out of the deal itself, of whichever kind it is.
  unfoldable pub spend_from_deal : Intent → ℕ → ℕ → State → State × Intent × ℕ
  spend_from_deal intent reward now s =
      if is_permanent_intent intent
      then spend_permanent_fund intent reward now s
      else spend_finite_storage_fee env intent reward now s

  -- payStorageRewardLocked and payRepairRewardLocked, which differ in the name of the source.
  unfoldable pub pay_reward : String → Intent → String → ℕ → ℕ → State → State
  pay_reward source intent miner reward now s =
      let (s1, intent', paid) = spend_from_deal intent reward now s in
      let s2 = if paid == 0 then s1 else vest_mining_reward env miner paid source now now s1 in
      let (s3, subsidy) = pay_permanent_fund_subsidy intent' (reward - paid) now s2 in
      if reward == 0
      then s
      else if leb reward paid || ltb 0 intent.duration || subsidy == 0
      then s2
      else vest_mining_reward env miner subsidy "repair_pool_subsidy" now now s3

  -- payStorageRewardLocked, which looks the intent of the challenge up.
  unfoldable pub pay_storage_reward : String → String → ℕ → ℕ → State → State
  pay_storage_reward intent_id miner reward now s = elim (lookup intent_id s.intents) [
    | none ↦ s
    | some intent ↦ pay_reward "storage_proof" intent miner reward now s
  ]

  -- payRepairRewardLocked
  unfoldable pub pay_repair_reward : Intent → String → ℕ → ℕ → State → State
  pay_repair_reward intent miner reward now s = pay_reward "repair" intent miner reward now s
