-- ===== src/Witness/Vests.antt =====
-- Examples for the vesting of mining rewards.
use falari.Prelude.{◌+◌, ◌*◌, ◌-◌, ◌≤◌, ◌≡◌, refl, [], ◌∷◌, some, none, arith, eq_iff}
use falari.Dict.{lookup}
use falari.Types.{MiningRewardVestingBucket}
use falari.Env.{normalize_address}
use falari.State.{State}
use falari.Accounts.{account_at}
use falari.Accounts.Funds.{holdings, circulating, IsKeyed}
use falari.Vesting.{
  vesting_bucket_id, vesting_day_start, bucket_releasable, release_vested_mining_rewards,
  claim_mining_rewards,
}
use falari.Vesting.Schedule.{bucket_releasable_schedule}
use falari.Vesting.Release.{IsBacked, release-IsBacked}
use falari.Text.{decimal}
use falari.Fixtures.{env, chain, funded}

abbrev bucket : MiningRewardVestingBucket
bucket = record {
  bucket_id = "0xAB:86400";
  address = "0xAB";
  day_unix = 86400;
  total = 900;
  released = 10;
  created_at_unix = 90000;
  last_released_at_unix = 0;
  sources = [];
}

bucket_releasable_schedule_example :
    (bucket_releasable bucket 864000 ≤ bucket_releasable bucket 1728000)
    × (bucket_releasable bucket 1728000 ≤ 900 - 10)
    × (bucket_releasable bucket (86400 + 86399) ≡ 0)
    × (bucket_releasable bucket (86400 + 90 * 86400) ≡ 900 - 10)
bucket_releasable_schedule_example =
    bucket_releasable_schedule bucket 864000 1728000 (omega arith) (omega arith) (omega arith)

abbrev earning : State
earning = record chain {
  accounts = ("0xAB", record funded { pending_mining_rewards = 890 }) ∷ [];
  mining_reward_vestings = ("0xAB:86400", bucket) ∷ [];
}

earning-IsKeyed : IsKeyed earning.accounts
unfolding account_at
earning-IsKeyed k = ground (arith, eq_iff "0xAB" k)

earning-IsBacked : IsBacked env earning
unfolding account_at
earning-IsBacked k = ground (arith, eq_iff "0xAB" k)

release-IsBacked_example :
    (circulating (release_vested_mining_rewards env 1728000 1 earning).accounts
      ≡ circulating earning.accounts)
    × IsBacked env (release_vested_mining_rewards env 1728000 1 earning)
    × (circulating (claim_mining_rewards env "0xab" 1728000 1 earning).accounts
        ≡ circulating earning.accounts)
    × IsBacked env (claim_mining_rewards env "0xab" 1728000 1 earning)
unfolding normalize_address holdings decimal
release-IsBacked_example =
    release-IsBacked env "0xab" 1728000 1 earning ((refl, omega arith), tt) earning-IsKeyed
      (omega arith) earning-IsBacked

no_bucket :
    lookup (vesting_bucket_id "0xAB" (vesting_day_start 100)) earning.mining_reward_vestings ≡ none
unfolding decimal
no_bucket = refl

some_of_none : {b : MiningRewardVestingBucket} → none ≡ some b → ⊥
some_of_none e = ground (arith, e)
