-- ===== src/Vesting/Release.antt =====
-- What the release of vested rewards does to the accounts and to the buckets.
use falari.Prelude.{
  ℕ, ◌+◌, ◌-◌, ◌/◌, ◌≤◌, ◌<◌, String, Bool, true, ◌&&◌, ◌≡◌, ◌∙◌, refl, inl, inr, ap, sym, str_eq,
  eq_iff, if◌then◌else◌, Bool-cases, [], ◌∷◌, All, arith, ltb, leb, ◌==◌,
}
use falari.Arith.{u64_mod, saturating_add}
use falari.Arith.Bounds.{saturating_add_exact}
use falari.Dict.{Dict, insert, total}
use falari.Dict.Laws.{str_ne-of-false}
use falari.Types.{Account, MiningRewardVestingBucket}
use falari.Env.{Env, normalize_address}
use falari.State.{State}
use falari.Accounts.{account_at, account_locked}
use falari.Accounts.Funds.{
  holdings, circulating, circulating-insert, holdings-le-circulating, IsKeyed, IsKeyed-insert,
  account_at-insert_self, account_at-insert_ne,
}
use falari.Vesting.{
  bucket_releasable, target_released, released_now, release_account, release_buckets,
  release_vested_mining_rewards, claim_mining_rewards,
}
use falari.Vesting.Schedule.{mul_below}

-- What a bucket has left, for its own account.
abbrev pub left_for : String → MiningRewardVestingBucket → ℕ
left_for k b = if str_eq b.address k then b.total - b.released else 0

abbrev pub unreleased : String → Dict MiningRewardVestingBucket → ℕ
unreleased k buckets = total (left_for k) buckets

target_released-le : (n days : ℕ) → days ≤ 90 → target_released n days ≤ n
unfolding target_released
target_released-le n days h = ground (arith, mul_below n days)

-- A bucket never gives more than it has left, also where the product wraps.
pub bucket_releasable-le :
    (b : MiningRewardVestingBucket) (now : ℕ) → bucket_releasable b now ≤ b.total - b.released
unfolding bucket_releasable
bucket_releasable-le b now =
    let e = (now - b.day_unix) / 86400 in
    ground (arith, target_released-le b.total (if ltb 90 e then 90 else e))

module _ (env : Env) where
  abbrev pub IsNormal : String × MiningRewardVestingBucket → Type 0
  IsNormal (_, b) = (normalize_address env b.address ≡ b.address) × (b.total < u64_mod)

  module _ (b : MiningRewardVestingBucket) (release : ℕ) (s : State)
      (normal : normalize_address env b.address ≡ b.address) (keyed : IsKeyed s.accounts)
      (covered : release ≤ (account_at s.accounts b.address).pending_mining_rewards) where
    abbrev old : Account
    old = account_at s.accounts b.address

    abbrev new : Account
    new = record old {
      pending_mining_rewards = old.pending_mining_rewards - release;
      balance = saturating_add old.balance release;
    }

    release_account-IsKeyed : IsKeyed (release_account env b release s).accounts
    unfolding release_account account_locked
    release_account-IsKeyed = rw normal (IsKeyed-insert old.address new s.accounts refl keyed)

    release_account-circulating :
        circulating s.accounts < u64_mod
        → circulating (release_account env b release s).accounts ≡ circulating s.accounts
    unfolding release_account account_locked holdings
    release_account-circulating fits = rw normal (
        omega (
          arith,
          circulating-insert old.address new s.accounts,
          ap (λ (j : String). holdings (account_at s.accounts j)) (keyed b.address),
          holdings-le-circulating b.address s.accounts,
          saturating_add_exact old.balance release,
        ))

    release_account-pending :
        (k : String)
        → (account_at (release_account env b release s).accounts k).pending_mining_rewards
            + (if str_eq b.address k then release else 0)
          ≡ (account_at s.accounts k).pending_mining_rewards
    unfolding release_account account_locked
    release_account-pending k = elim (Bool-cases (str_eq b.address k)) [
      | inl same ↦
          (let p = keyed b.address ∙ (eq_iff b.address k).0 same in
            let q = (eq_iff b.address k).0 same in
            rw normal (
              ground (
                arith,
                same,
                covered,
                ap
                    (λ (j : String).
                      (account_at (insert old.address new s.accounts) j).pending_mining_rewards)
                    p,
                ap (λ (j : String). (account_at s.accounts j).pending_mining_rewards) q,
                ap (λ (a : Account). a.pending_mining_rewards)
                    (account_at-insert_self old.address new s.accounts),
              )))
      | inr other ↦
          (let ne = λ (e : old.address ≡ k).
              str_ne-of-false b.address k other (sym (keyed b.address) ∙ e) in
            rw (normal, account_at-insert_ne old.address k new s.accounts ne)
              (ground (arith, other)))
    ]

  abbrev given : MiningRewardVestingBucket → ℕ → ℕ → MiningRewardVestingBucket
  given b release now = record b {
    released = saturating_add b.released release;
    last_released_at_unix = now;
  }

  released_now-le :
      (b : MiningRewardVestingBucket) (now : ℕ) (s : State)
      → normalize_address env b.address ≡ b.address
      → (released_now env b now s ≤ (account_at s.accounts b.address).pending_mining_rewards)
        × (released_now env b now s ≤ b.total - b.released)
  unfolding account_locked
  released_now-le b now s normal =
      rw normal
        (ground (arith, bucket_releasable-le b now), ground (arith, bucket_releasable-le b now))

  -- What a bucket has left after it has given something.
  given-left :
      (k : String) (b : MiningRewardVestingBucket) (release now : ℕ)
      → b.total < u64_mod
      → 0 < release
      → release ≤ b.total - b.released
      → left_for k (given b release now) + (if str_eq b.address k then release else 0)
        ≡ left_for k b
  given-left k b release now fits some_left h =
      ground (arith, saturating_add_exact b.released release)

  -- A bucket that has given all has nothing left.
  emptied :
      (k id : String) (b : MiningRewardVestingBucket) (kept : Dict MiningRewardVestingBucket)
      → unreleased k (if leb b.total b.released then kept else (id, b) ∷ kept)
        ≡ left_for k b + unreleased k kept
  emptied k id b kept = ground arith

  release_buckets-keeps :
      (wanted : String → Bool) (now : ℕ) (buckets : Dict MiningRewardVestingBucket) (s : State)
      → All IsNormal buckets
      → IsKeyed s.accounts
      → circulating s.accounts < u64_mod
      → let (s', kept) = release_buckets env wanted now buckets s in
        IsKeyed s'.accounts
        × (circulating s'.accounts ≡ circulating s.accounts)
        × ((k : String)
            → (account_at s'.accounts k).pending_mining_rewards + unreleased k buckets
              ≡ (account_at s.accounts k).pending_mining_rewards + unreleased k kept)
  unfolding release_buckets
  release_buckets-keeps wanted now [] s normal keyed fits = (keyed, refl, λ k. refl)
  release_buckets-keeps wanted now ((id, b) ∷ rest) s ((here, small), later) keyed fits =
      let release = released_now env b now s in
      elim (Bool-cases (wanted b.address && ltb 0 release)) [
        | inr keeps ↦
            (let (keyed', sum, owes) = release_buckets-keeps wanted now rest s later keyed fits in
              rw (release_buckets, keeps) (keyed', sum, λ k. omega (arith, owes k)))
        | inl gives ↦
            (let (pending, left) = released_now-le b now s here in
              let s1 = release_account env b release s in
              let moved = release_account-circulating b release s here keyed pending fits in
              let (keyed', sum, owes) =
                release_buckets-keeps wanted now rest s1 later
                  (release_account-IsKeyed b release s here keyed pending)
                  (omega (arith, moved, fits)) in
              rw (release_buckets, gives)
                (
                  keyed',
                  sum ∙ moved,
                  λ k. omega (
                    arith,
                    owes k,
                    release_account-pending b release s here keyed pending k,
                    emptied k id (given b release now) (release_buckets env wanted now rest s1).1,
                    given-left k b release now small (ground (arith, gives)) left,
                  ),
                ))
      ]

  -- Every account has pending what its buckets have left.
  abbrev pub IsBacked : State → Type 0
  IsBacked s =
      (k : String)
      → (account_at s.accounts k).pending_mining_rewards ≡ unreleased k s.mining_reward_vestings

  -- The release of vested rewards, to all or to one account that claims: nobody gains or loses in
  -- sum, and every account still has pending exactly what its buckets have left. It holds where that
  -- was so before, the buckets are filed under normalised addresses and every account under its
  -- own, and the buckets' totals and the sum over all accounts are uint64.
  pub release-IsBacked :
      (address : String) (now wall : ℕ) (s : State)
      → All IsNormal s.mining_reward_vestings
      → IsKeyed s.accounts
      → circulating s.accounts < u64_mod
      → IsBacked s
      → (circulating (release_vested_mining_rewards env now wall s).accounts
          ≡ circulating s.accounts)
        × IsBacked (release_vested_mining_rewards env now wall s)
        × (circulating (claim_mining_rewards env address now wall s).accounts
            ≡ circulating s.accounts)
        × IsBacked (claim_mining_rewards env address now wall s)
  unfolding release_vested_mining_rewards claim_mining_rewards
  release-IsBacked address now wall s normal keyed fits backed =
      let time = if now == 0 then wall else now in
      let a = normalize_address env address in
      let (_, sum, owes) =
        release_buckets-keeps (λ j. true) time s.mining_reward_vestings s normal keyed fits in
      let (_, sum', owes') =
        release_buckets-keeps (λ j. str_eq j a) time s.mining_reward_vestings s normal keyed fits in
      (
        sum,
        λ k. omega (arith, owes k, backed k),
        ground (arith, sum'),
        λ k. ground (arith, owes' k, backed k),
      )
