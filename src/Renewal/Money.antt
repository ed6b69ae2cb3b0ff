-- ===== src/Renewal/Money.antt =====
-- Renewals move a user's money from its balance to its locked storage.
use falari.Prelude.{ℕ, ◌-◌, ◌≤◌, ◌<◌, [], ◌∷◌, ◌≡◌, refl, ◌∙◌, ap, arith}
use falari.Arith.{u64_mod, add64}
use falari.Dict.{Dict}
use falari.Types.{Intent}
use falari.Env.{Env, normalize_address}
use falari.State.{State}
use falari.Accounts.{account_at, account_locked}
use falari.Accounts.Funds.{holdings, circulating, circulating-insert, holdings-le-circulating}
use falari.Escrow.{add_deal_escrow_funds}
use falari.Escrow.Spending.{ensure-accounts}
use falari.Renewal.{
  estimate_renewal_price, renewal_duration, renewed_intent, lock_price, auto_renew_deal, renew_all,
  auto_renew_deals,
}

abbrev pub NormalUsers : Env → Dict Intent → Type 0
NormalUsers env [] = Unit
NormalUsers env ((_, intent) ∷ rest) =
    (normalize_address env intent.user ≡ intent.user) × NormalUsers env rest

funds-accounts :
    (intent : Intent) (amount now : ℕ) (s : State)
    → (add_deal_escrow_funds intent amount now s).accounts ≡ s.accounts
unfolding add_deal_escrow_funds
funds-accounts intent amount now s = ground (arith, ensure-accounts intent s)

module _ (env : Env) where
  lock-circulating :
      (intent : Intent) (price : ℕ) (s : State)
      → normalize_address env intent.user ≡ intent.user
      → price ≤ (account_locked env s intent.user).balance
      → circulating s.accounts < u64_mod
      → circulating (lock_price env intent price s).accounts ≡ circulating s.accounts
  unfolding account_locked holdings
  lock-circulating intent price s normal enough fits =
      let account = account_locked env s intent.user in
      let e : account ≡ account_at s.accounts intent.user = ap (account_at s.accounts) normal in
      omega (
        arith,
        circulating-insert intent.user
            (record account {
              balance = account.balance - price;
              locked_storage = add64 account.locked_storage price;
            })
            s.accounts,
        ap holdings e,
        holdings-le-circulating intent.user s.accounts,
      )

  renew-circulating :
      (now : ℕ) (intent : Intent) (s : State)
      → normalize_address env intent.user ≡ intent.user
      → circulating s.accounts < u64_mod
      → circulating (auto_renew_deal env now intent s).0.accounts ≡ circulating s.accounts
  unfolding auto_renew_deal
  renew-circulating now intent s normal fits =
      let price = estimate_renewal_price intent (renewal_duration intent) s in
      let intent' = renewed_intent intent price now in
      ground (
        arith,
        ap circulating (funds-accounts intent' price now (lock_price env intent price s)),
        lock-circulating intent price s normal,
        fits,
      )

  all-circulating :
      (now : ℕ) (intents : Dict Intent) (s : State)
      → NormalUsers env intents
      → circulating s.accounts < u64_mod
      → circulating (renew_all env now intents s).0.accounts ≡ circulating s.accounts
  unfolding renew_all
  all-circulating now [] s normal fits = refl
  all-circulating now ((id, intent) ∷ rest) s (user, users) fits =
      let s1 = (auto_renew_deal env now intent s).0 in
      let one = renew-circulating now intent s user fits in
      all-circulating now rest s1 users (omega (arith, one)) ∙ one

  -- The automatic renewals of a block neither make nor lose money: what a renewal takes from a
  -- user's balance is what it locks for the deal. It holds where the users' addresses are in their
  -- normal spelling and the sum over all accounts is a uint64.
  pub auto_renew_deals-circulating :
      (now : ℕ) (s : State)
      → NormalUsers env s.intents
      → circulating s.accounts < u64_mod
      → circulating (auto_renew_deals env now s).0.accounts ≡ circulating s.accounts
  unfolding auto_renew_deals
  auto_renew_deals-circulating now s normal fits = all-circulating now s.intents s normal fits
