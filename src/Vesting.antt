-- ===== src/Vesting.antt =====
-- The vesting of mining rewards (internal/chain/mining_vesting.go): rewards go into one bucket for
-- each account and day, and become free over 90 days. Go walks a map of buckets in any order; the
-- model takes the order of the list.
pub mod Grant
pub mod Release
pub mod Schedule
use Prim.Native.String.{◌++◌}
use falari.Prelude.{
  ℕ, ◌+◌, ◌-◌, ◌*◌, ◌/◌, ◌%◌, ◌^◌, String, Bool, true, false, ◌||◌, ◌&&◌, List, [], ◌∷◌, Option,
  none, some, str_eq, ltb, leb, ◌==◌, if◌then◌else◌,
}
use falari.Arith.{mul64, saturating_add}
use falari.Dict.{Dict, lookup, insert, erase}
use falari.Types.{Account, MiningRewardVestingBucket}
use falari.Env.{Env, normalize_address}
use falari.State.{State}
use falari.Accounts.{account_locked}
use falari.Text.{decimal}

abbrev pub vesting_days : ℕ
vesting_days = 90

abbrev pub vesting_day_seconds : ℕ
vesting_day_seconds = 86400

-- What is due after so many full days, 90 at most.
unfoldable pub target_released : ℕ → ℕ → ℕ
target_released total days = if days == vesting_days then total else mul64 total days / vesting_days

unfoldable pub bucket_releasable : MiningRewardVestingBucket → ℕ → ℕ
bucket_releasable bucket now =
    if leb bucket.total bucket.released || bucket.day_unix == 0 || leb now bucket.day_unix
    then 0
    else (let elapsed = (now - bucket.day_unix) / vesting_day_seconds in
        let days = if ltb vesting_days elapsed then vesting_days else elapsed in
        if elapsed == 0 then 0 else target_released bucket.total days - bucket.released)

-- miningRewardVestingDayStart
abbrev pub vesting_day_start : ℕ → ℕ
vesting_day_start unix = unix - unix % vesting_day_seconds

abbrev pub vesting_bucket_id : String → ℕ → String
vesting_bucket_id address day_unix = address ++ ":" ++ decimal day_unix

abbrev count_of : Option ℕ → ℕ
count_of none = 0
count_of (some n) = n

module _ (env : Env) where
  abbrev new_bucket : String → ℕ → ℕ → MiningRewardVestingBucket
  new_bucket address day_unix now = record {
    bucket_id = vesting_bucket_id address day_unix;
    address = address;
    day_unix = day_unix;
    total = 0;
    released = 0;
    created_at_unix = now;
    last_released_at_unix = 0;
    sources = [];
  }

  -- The bucket of an account and a day, a new one if there is none.
  abbrev pub bucket_of : String → ℕ → Dict MiningRewardVestingBucket → MiningRewardVestingBucket
  bucket_of address now buckets =
      let day_unix = vesting_day_start now in
      elim (lookup (vesting_bucket_id address day_unix) buckets) [
        | none ↦ new_bucket address day_unix now
        | some bucket ↦
            if str_eq bucket.bucket_id "" then new_bucket address day_unix now else bucket
      ]

  abbrev pub vested_bucket : String → ℕ → String → ℕ → State → MiningRewardVestingBucket
  vested_bucket address amount source now s =
      let bucket = bucket_of address now s.mining_reward_vestings in
      record bucket {
        total = saturating_add bucket.total amount;
        sources =
            insert source (saturating_add (count_of (lookup source bucket.sources)) amount)
              bucket.sources;
      }

  -- The writes of vestMiningRewardLocked.
  abbrev pub vest_writes : String → ℕ → String → ℕ → State → State
  vest_writes address amount source now s =
      let account = account_locked env s address in
      record s {
        mining_reward_vestings =
            insert (vesting_bucket_id address (vesting_day_start now))
              (vested_bucket address amount source now s) s.mining_reward_vestings;
        accounts =
            insert address
              (record account {
                pending_mining_rewards = saturating_add account.pending_mining_rewards amount;
              })
              s.accounts;
      }

  -- vestMiningRewardLocked; `wall` stands in for a time that is not given.
  unfoldable pub vest_mining_reward : String → ℕ → String → ℕ → ℕ → State → State
  vest_mining_reward raw amount source given wall s =
      let address = normalize_address env raw in
      if amount == 0 || str_eq address ""
      then s
      else vest_writes address amount (if str_eq source "" then "mining" else source)
          (if given == 0 then wall else given) s

  -- What a bucket gives now: what is due, but not more than the account has pending.
  abbrev pub released_now : MiningRewardVestingBucket → ℕ → State → ℕ
  released_now bucket now s =
      let due = bucket_releasable bucket now in
      let pending = (account_locked env s bucket.address).pending_mining_rewards in
      if ltb pending due then pending else due

  unfoldable pub release_account : MiningRewardVestingBucket → ℕ → State → State
  release_account bucket release s =
      let account = account_locked env s bucket.address in
      record s {
        accounts =
            insert account.address
              (record account {
                pending_mining_rewards = account.pending_mining_rewards - release;
                balance = saturating_add account.balance release;
              })
              s.accounts;
      }

  -- The loop over the buckets, with those that stay. `wanted`
  -- selects one account's buckets for a claim, and all for the release.
  unfoldable pub release_buckets :
      (String → Bool)
      → ℕ
      → Dict MiningRewardVestingBucket
      → State
      → State × Dict MiningRewardVestingBucket
  release_buckets wanted now [] s = (s, [])
  release_buckets wanted now ((id, bucket) ∷ rest) s =
      let release = released_now bucket now s in
      let given = record bucket {
        released = saturating_add bucket.released release;
        last_released_at_unix = now;
      } in
      elim (wanted bucket.address && ltb 0 release) [
        | false ↦ (let (s', kept) = release_buckets wanted now rest s in (s', (id, bucket) ∷ kept))
        | true ↦
            (let (s', kept) = release_buckets wanted now rest (release_account bucket release s) in
              (s', if leb bucket.total given.released then kept else (id, given) ∷ kept))
      ]

  -- releaseVestedMiningRewardsLocked
  unfoldable pub release_vested_mining_rewards : ℕ → ℕ → State → State
  release_vested_mining_rewards given wall s =
      let now = if given == 0 then wall else given in
      let (s', kept) = release_buckets (λ a. true) now s.mining_reward_vestings s in
      record s' { mining_reward_vestings = kept }

  -- applyClaimMiningRewardsLocked
  unfoldable pub claim_mining_rewards : String → ℕ → ℕ → State → State
  claim_mining_rewards raw given wall s =
      let address = normalize_address env raw in
      let now = if given == 0 then wall else given in
      let (s', kept) = release_buckets (λ a. str_eq a address) now s.mining_reward_vestings s in
      if str_eq address "" then s else record s' { mining_reward_vestings = kept }

  -- One step of the loop of slashVestingBucketsLocked, on an unreleased bucket.
  unfoldable pub slash_buckets :
      ℕ
      → Dict MiningRewardVestingBucket
      → Dict MiningRewardVestingBucket
      → Dict MiningRewardVestingBucket
  slash_buckets remaining [] buckets = buckets
  slash_buckets remaining ((id, b) ∷ rest) buckets =
      let unreleased = b.total - b.released in
      let slash = if ltb unreleased remaining then unreleased else remaining in
      let b' = record b { total = b.total - slash } in
      elim (remaining == 0) [
        | true ↦ buckets
        | false ↦ slash_buckets (remaining - slash) rest (
            if unreleased == 0
            then buckets
            else if leb b'.total b'.released
            then erase id buckets
            else insert id b' buckets)
      ]

  -- The account's buckets, the oldest first.
  unfoldable pub insert_by_day :
      String × MiningRewardVestingBucket
      → Dict MiningRewardVestingBucket
      → Dict MiningRewardVestingBucket
  insert_by_day e [] = e ∷ []
  insert_by_day e (f ∷ rest) =
      let later = insert_by_day e rest in
      if leb e.1.day_unix f.1.day_unix then e ∷ f ∷ rest else f ∷ later

  unfoldable pub oldest_first :
      String → Dict MiningRewardVestingBucket → Dict MiningRewardVestingBucket
  oldest_first address [] = []
  oldest_first address ((id, b) ∷ rest) =
      let later = oldest_first address rest in
      if str_eq b.address address then insert_by_day (id, b) later else later

  unfoldable pub slash_vesting_buckets : String → ℕ → State → State × ℕ
  slash_vesting_buckets raw requested s =
      let address = normalize_address env raw in
      let account = account_locked env s address in
      let pending = account.pending_mining_rewards in
      let amount = if ltb pending requested then pending else requested in
      if amount == 0 then (s, 0) else (
        record s {
          accounts =
              insert address (record account { pending_mining_rewards = pending - amount })
                s.accounts;
          mining_reward_vestings =
              slash_buckets amount (oldest_first address s.mining_reward_vestings)
                s.mining_reward_vestings;
        },
        amount,
      )
