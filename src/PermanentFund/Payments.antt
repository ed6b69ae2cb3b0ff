-- ===== src/PermanentFund/Payments.antt =====
-- Where the money of a payment to a miner comes from.
use falari.Prelude.{
  ℕ, ◌+◌, ◌-◌, ◌≤◌, ◌<◌, String, ◌≡◌, ◌≢◌, ◌||◌, ◌∙◌, inl, inr, ap, ltb, leb, ◌==◌, if◌then◌else◌,
  Bool-cases, arith,
}
use falari.Arith.{u64_mod, saturating_add}
use falari.Types.{Intent, Pools}
use falari.Env.{Env, normalize_address}
use falari.State.{State}
use falari.Accounts.{account_locked}
use falari.Accounts.Funds.{circulating}
use falari.Escrow.{unlock_storage, is_permanent_intent, put_intent}
use falari.Escrow.Spending.{
  ensure-accounts, ensure-pools, unlock-circulating, spend_finite-circulating,
}
use falari.PermanentFund.{ensure_permanent_fund, spent_fund, put_fund}
use falari.PermanentFund.Payouts.{
  spend_pool, subsidy_cap, pay_permanent_fund_subsidy, fund_payment, spend_permanent_fund,
  spend_from_deal, pay_reward,
}
use falari.Vesting.{vest_mining_reward}
use falari.Vesting.Grant.{vest_mining_reward-circulating, vest_mining_reward-pools}

-- All that accounts own, with what the platform's permanent fund still has to give.
abbrev pub money : State → ℕ
money s = circulating s.accounts + s.reward_pools.permanent_fund_remaining

subsidy-le :
    (intent : Intent) (shortfall now : ℕ) (s : State)
    → (subsidy_cap intent shortfall now s ≤ shortfall)
      × (subsidy_cap intent shortfall now s ≤ s.reward_pools.permanent_fund_remaining)
unfolding subsidy_cap
subsidy-le intent shortfall now s = ground arith

-- A subsidy is taken from the platform's fund, and touches no account.
subsidy_taken :
    (intent : Intent) (shortfall now : ℕ) (s : State)
    → let (s', subsidy) = pay_permanent_fund_subsidy intent shortfall now s in
      (s'.accounts ≡ s.accounts)
      × (s'.reward_pools.permanent_fund_remaining + subsidy
          ≡ s.reward_pools.permanent_fund_remaining)
unfolding pay_permanent_fund_subsidy spend_pool
subsidy_taken intent shortfall now s = ground (arith, subsidy-le intent shortfall now s)

module _ (env : Env) where
  fund_payment-le :
      (intent : Intent) (amount now : ℕ) (s : State)
      → let fund = ensure_permanent_fund intent now s in
        (fund_payment env intent fund amount s ≤ amount)
        × (fund_payment env intent fund amount s ≤ fund.balance)
        × (fund_payment env intent fund amount s
            ≤ (account_locked env s intent.user).locked_storage)
  unfolding fund_payment
  fund_payment-le intent amount now s = ground arith

  spend_permanent-circulating :
      (intent : Intent) (amount now : ℕ) (s : State)
      → normalize_address env intent.user ≡ intent.user
      → let (s', intent', paid) = spend_permanent_fund env intent amount now s in
        (paid ≤ amount)
        × (circulating s'.accounts + paid ≡ circulating s.accounts)
        × (s'.reward_pools ≡ s.reward_pools)
  unfolding spend_permanent_fund
  spend_permanent-circulating intent amount now s normal =
      let fund = ensure_permanent_fund intent now s in
      let paid = fund_payment env intent fund amount s in
      let bounds = fund_payment-le intent amount now s in
      let spent = spent_fund paid now fund in
      let intent' = record intent {
        permanent_fund_balance = spent.balance;
        permanent_fund_paid = spent.paid;
        paid_fee = saturating_add intent.paid_fee paid;
      } in
      let s1 = put_intent intent' (put_fund intent spent (unlock_storage env intent.user paid s)) in
      ground (
        arith,
        bounds,
        ap circulating (ensure-accounts intent' s1),
        ensure-pools intent' s1,
        unlock-circulating env intent.user paid s normal bounds.2,
      )

  spend_from_deal-circulating :
      (intent : Intent) (amount now : ℕ) (s : State)
      → normalize_address env intent.user ≡ intent.user
      → let (s', intent', paid) = spend_from_deal env intent amount now s in
        (paid ≤ amount)
        × (circulating s'.accounts + paid ≡ circulating s.accounts)
        × (s'.reward_pools ≡ s.reward_pools)
  unfolding spend_from_deal
  spend_from_deal-circulating intent amount now s normal =
      elim (Bool-cases (is_permanent_intent intent)) [
        | inl e ↦ rw e (spend_permanent-circulating intent amount now s normal)
        | inr e ↦ rw e (spend_finite-circulating env intent amount now s normal)
      ]

  granted_once :
      (source miner : String) (paid now : ℕ) (s : State)
      → normalize_address env miner ≢ ""
      → 0 < now
      → circulating s.accounts + paid < u64_mod
      → let s' = if paid == 0 then s else vest_mining_reward env miner paid source now now s in
        (circulating s'.accounts ≡ circulating s.accounts + paid)
        × (s'.reward_pools.permanent_fund_remaining ≡ s.reward_pools.permanent_fund_remaining)
  granted_once source miner paid now s named timed fits = ground (
    arith,
    vest_mining_reward-circulating env miner paid source now now s named timed fits,
    ap (λ (p : Pools). p.permanent_fund_remaining)
        (vest_mining_reward-pools env miner paid source now now s),
  )

  granted_subsidy :
      (intent : Intent) (miner : String) (shortfall now : ℕ) (s : State)
      → normalize_address env miner ≢ ""
      → 0 < now
      → money s < u64_mod
      → let (s', subsidy) = pay_permanent_fund_subsidy intent shortfall now s in
        money (vest_mining_reward env miner subsidy "repair_pool_subsidy" now now s') ≡ money s
  granted_subsidy intent miner shortfall now s named timed fits =
      let s' = (pay_permanent_fund_subsidy intent shortfall now s).0 in
      let subsidy = (pay_permanent_fund_subsidy intent shortfall now s).1 in
      let taken = subsidy_taken intent shortfall now s in
      let same : circulating s'.accounts ≡ circulating s.accounts = ap circulating taken.0 in
      omega (
        arith,
        same,
        vest_mining_reward-circulating env miner subsidy "repair_pool_subsidy" now now s' named
            timed (omega arith),
        ap (λ (p : Pools). p.permanent_fund_remaining)
            (vest_mining_reward-pools env miner subsidy "repair_pool_subsidy" now now s'),
      )

  -- Paying a miner for a proof or a repair creates no money and loses none: what the miner is
  -- granted comes out of what the user of the deal has locked and out of the platform's permanent
  -- fund, so the sum of what all accounts own and of that fund stays the same. It holds for every
  -- deal, finite or permanent, and every reward, at a time after 0, where the sum is a uint64, the
  -- miner's address is not empty, and the user's address is in its normal spelling.
  pub pay_reward-money :
      (source : String) (intent : Intent) (miner : String) (reward now : ℕ) (s : State)
      → normalize_address env intent.user ≡ intent.user
      → normalize_address env miner ≢ ""
      → 0 < now
      → money s < u64_mod
      → money (pay_reward env source intent miner reward now s) ≡ money s
  unfolding pay_reward
  pay_reward-money source intent miner reward now s normal named timed fits =
      let s1 = (spend_from_deal env intent reward now s).0 in
      let intent' = (spend_from_deal env intent reward now s).1 in
      let paid = (spend_from_deal env intent reward now s).2 in
      let spent = spend_from_deal-circulating intent reward now s normal in
      let s2 = if paid == 0 then s1 else vest_mining_reward env miner paid source now now s1 in
      let first : money s2 ≡ money s = omega (
        arith,
        granted_once source miner paid now s1 named timed (omega arith),
        ap (λ (p : Pools). p.permanent_fund_remaining) spent.2,
      ) in
      elim (Bool-cases (reward == 0)) [
        | inl nothing ↦ rw nothing
        | inr some_reward ↦
            elim (Bool-cases (
              leb reward paid
              || ltb 0 intent.duration
              || (pay_permanent_fund_subsidy intent' (reward - paid) now s2).1 == 0)) [
                | inl done ↦ rw (some_reward, done) first
                | inr more ↦
                    rw (some_reward, more)
                      (granted_subsidy intent' miner (reward - paid) now s2 named timed
                          (omega arith)
                        ∙ first)
              ]
      ]
