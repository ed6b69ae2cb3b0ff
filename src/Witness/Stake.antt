-- ===== src/Witness/Stake.antt =====
-- Examples for delegated stake on the sample chain.
use falari.Prelude.{ℕ, ◌+◌, ◌<◌, ◌≡◌, refl, [], ◌∷◌, ok, arith, eq_iff, All, String, true}
use falari.Types.{ValidatorInfo, active, StakeDelegation, UnbondingEntry}
use falari.Env.{normalize_address}
use falari.State.{State}
use falari.Accounts.{account_at, account_locked, verify_account_request}
use falari.Accounts.Funds.{holdings, circulating, IsKeyed}
use falari.Staking.{
  StakeRequest, StakePayload, normalized, delegate_stake, apply_delegate_stake, undelegate_stake,
  write_delegation, write_undelegation, delegation_key,
}
use falari.Staking.Maturity.{process_matured_unbonding_entries}
use falari.Staking.Supply.{staked, delegate_stake-supply}
use falari.Staking.Unbonding.{Unbonds, undelegate_stake-supply}
use falari.Staking.Release.{Covers, process_matured_unbonding_entries-keeps}
use falari.Staking.Replay.{undelegate_stake_replayed}
use falari.Fixtures.{env, chain, funded}

abbrev validator : ValidatorInfo
validator = record {
  owner_address = "val";
  operator_address = "op";
  operator_public_key = "";
  stake = 0;
  delegated_stake = 0;
  self_stake = 0;
  status = active;
  delegator_count = 0;
  rewards = 0;
  delegation_rewards = 0;
  commission_rate_bps = 0;
  produced_blocks = 0;
}

abbrev staking : State
staking = record chain { validators = ("val", validator) ∷ [] }

abbrev order : StakeRequest
order = record {
  chain_id = "falari";
  delegator = "0xab";
  validator = "val";
  amount = 200_000_000_000;
  nonce = 7;
}

staking-IsKeyed : IsKeyed staking.accounts
unfolding account_at
staking-IsKeyed k = ground (arith, eq_iff "0xAB" k)

-- What the request leaves where it is recorded as leaving `after`.
abbrev left_by : ℕ → State
left_by after = write_delegation env (normalized env order) validator after 50 staking

abbrev recorded : ℕ → StakePayload
recorded after = record {
  request = normalized env order;
  delegated_before = 0;
  delegated_after = after;
}

order_accepted :
    delegate_stake env order 50 true staking
    ≡ ok (left_by 200_000_000_000, recorded 200_000_000_000)
unfolding delegate_stake verify_account_request account_locked account_at normalize_address
    delegation_key
order_accepted = refl

delegate_stake-supply_example :
    circulating (left_by 200_000_000_000).accounts
      + staked (left_by 200_000_000_000).stake_delegations
    ≡ circulating staking.accounts + staked staking.stake_delegations
unfolding holdings
delegate_stake-supply_example =
    delegate_stake-supply env order 50 true staking (left_by 200_000_000_000)
      (recorded 200_000_000_000) staking-IsKeyed (omega arith) order_accepted

inflated_accepted :
    apply_delegate_stake env (recorded 900_000_000_000) 50 true staking
    ≡ ok (left_by 900_000_000_000)
unfolding apply_delegate_stake verify_account_request account_locked account_at normalize_address
    delegation_key
inflated_accepted = refl

abbrev delegation : StakeDelegation
delegation = record {
  delegator = "0xAB";
  validator = "val";
  amount = 200_000_000_000;
  since_unix = 50;
}

abbrev delegating : State
delegating = record staking { stake_delegations = ("0xAB:val", delegation) ∷ [] }

abbrev undone : State
undone = write_undelegation env (normalized env order) delegation 0 60 delegating

abbrev undo : StakePayload
undo = record {
  request = normalized env order;
  delegated_before = 200_000_000_000;
  delegated_after = 0;
}

undo_accepted : undelegate_stake env order 60 true delegating ≡ ok (undone, undo)
unfolding undelegate_stake verify_account_request account_locked account_at normalize_address
    delegation_key
undo_accepted = refl

undelegate_stake-supply_example :
    Unbonds "0xAB" 200_000_000_000 delegating undone
    × Unbonds "0xAB" 200_000_000_000 delegating undone
unfolding holdings normalize_address
undelegate_stake-supply_example =
    undelegate_stake-supply env order undo undo 60 true delegating undone undone staking-IsKeyed
      (omega arith) undo_accepted
      (undelegate_stake_replayed env order 60 true delegating undone undo undo_accepted)

abbrev unbonding : State
unbonding = record chain {
  accounts = ("0xAB", record funded { unbonding_balance = 40 }) ∷ [];
  unbonding_entries =
      (
        "e",
        record {
          id = "e";
          delegator = "0xAB";
          validator = "val";
          amount = 40;
          created_at_unix = 0;
          matures_at_unix = 100;
        },
      )
      ∷ [];
}

unbonding-IsKeyed : IsKeyed unbonding.accounts
unfolding account_at
unbonding-IsKeyed k = ground (arith, eq_iff "0xAB" k)

unbonding-Covers : Covers unbonding.unbonding_entries unbonding.accounts
unfolding account_at
unbonding-Covers k = ground (arith, eq_iff "0xAB" k)

process_matured_unbonding_entries-keeps_example :
    let s' = process_matured_unbonding_entries env 100 unbonding in
    (circulating s'.accounts ≡ circulating unbonding.accounts)
    × Covers s'.unbonding_entries s'.accounts
    × All (λ (e : String × UnbondingEntry). 100 < e.1.matures_at_unix) s'.unbonding_entries
unfolding normalize_address holdings
process_matured_unbonding_entries-keeps_example =
    process_matured_unbonding_entries-keeps env 100 unbonding (refl, tt) unbonding-IsKeyed
      (omega arith) unbonding-Covers
