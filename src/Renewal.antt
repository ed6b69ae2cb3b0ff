-- ===== src/Renewal.antt =====
-- The price of a renewal, and the deals that renew themselves when a block is produced
-- (internal/chain/renewal.go).
pub mod Money
use falari.Prelude.{
  ℕ, ◌+◌, ◌-◌, ◌*◌, String, Bool, true, false, not, ◌&&◌, ◌||◌, List, [], ◌∷◌, ok, err, Result,
  str_eq, ltb, leb, ◌==◌, if◌then◌else◌,
}
use falari.Arith.{add64, saturating_add}
use falari.Dict.{Dict, insert}
use falari.Types.{Account, Intent}
use falari.Env.{Env}
use falari.State.{State}
use falari.Accounts.{account_locked}
use falari.Escrow.{is_finalized, put_intent, add_deal_escrow_funds}
use falari.Pricing.{
  QuoteError, if_zero, redundant_storage_bytes, compute_storage_fee, default_storage_pricing,
}

abbrev pub grace_period : ℕ
grace_period = 7 * 24 * 60 * 60

abbrev pub value_or : ℕ → Result QuoteError ℕ → ℕ
value_or other (ok n) = n
value_or other (err _) = other

-- A fee that cannot be computed, or is below the minimum, is the minimum.
unfoldable pub estimate_renewal_price : Intent → ℕ → State → ℕ
estimate_renewal_price intent duration s =
    let base_price = if_zero default_storage_pricing.base_price s.storage_pricing.base_price in
    let bytes =
      value_or intent.file_size (redundant_storage_bytes intent.file_size intent.erasure) in
    let fee = value_or 0 (compute_storage_fee bytes duration base_price) in
    if ltb fee default_storage_pricing.minimum_fee then default_storage_pricing.minimum_fee else fee

-- The conditions of autoRenewDealsLocked on the deal: it has expired, and not for too long.
unfoldable pub auto_renewable : Intent → ℕ → Bool
auto_renewable intent now =
    intent.auto_renew
    && intent.renewable
    && is_finalized intent.status
    && str_eq intent.storage_status "active"
    && leb intent.expires_at_unix now
    && leb now (intent.expires_at_unix + grace_period)

abbrev pub renewal_duration : Intent → ℕ
renewal_duration intent = if_zero (30 * 86400) intent.duration

abbrev pub renewed_intent : Intent → ℕ → ℕ → Intent
renewed_intent intent price now = record intent {
  locked_fee = saturating_add intent.locked_fee price;
  updated_at = now;
  expires_at_unix = now + renewal_duration intent;
}

module _ (env : Env) where
  abbrev pub lock_price : Intent → ℕ → State → State
  lock_price intent price s =
      let account = account_locked env s intent.user in
      record s {
        accounts =
            insert intent.user
              (record account {
                balance = account.balance - price;
                locked_storage = add64 account.locked_storage price;
              })
              s.accounts;
      }

  -- One round of the loop: the state, and whether the deal was renewed.
  unfoldable pub auto_renew_deal : ℕ → Intent → State → State × Bool
  auto_renew_deal now intent s =
      let price = estimate_renewal_price intent (renewal_duration intent) s in
      let intent' = renewed_intent intent price now in
      if not (auto_renewable intent now) || ltb (account_locked env s intent.user).balance price
      then (s, false)
      else (
        put_intent intent' (add_deal_escrow_funds intent' price now (lock_price intent price s)),
        true,
      )

  unfoldable pub renew_all : ℕ → Dict Intent → State → State × ℕ
  renew_all now [] s = (s, 0)
  renew_all now ((_, intent) ∷ rest) s =
      let (s1, renewed) = auto_renew_deal now intent s in
      let (s2, count) = renew_all now rest s1 in (s2, if renewed then count + 1 else count)

  -- autoRenewDealsLocked
  unfoldable pub auto_renew_deals : ℕ → State → State × ℕ
  auto_renew_deals now s = renew_all now s.intents s
