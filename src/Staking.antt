-- ===== src/Staking.antt =====
-- Delegated stake (internal/chain/validator_delegation.go): delegation and undelegation as the
-- receiving node handles them and as a replaying node does (`apply_…`); Maturity has the release
-- of matured unbonding entries and the rotation of a validator's operator. Clocks and the verdict on
-- a signature are arguments; events, the transaction record and the state file are not modelled.
pub mod Maturity
pub mod Supply
pub mod Replay
pub mod Unbonding
pub mod Release
use Prim.Native.String.{◌++◌}
use falari.Prelude.{
  ℕ, zero, suc, ◌+◌, ◌-◌, ◌*◌, ◌/◌, ◌%◌, ◌^◌, String, Bool, true, false, not, ◌&&◌, ◌||◌, List, [],
  ◌∷◌, Option, none, some, Result, ok, err, fail_if, ◌>>=◌, ◌>>◌, str_eq, ltb, leb, ◌==◌,
  if◌then◌else◌, length,
}
use falari.Arith.{add64, saturating_add}
use falari.Dict.{Dict, lookup, insert, erase, has}
use falari.Types.{
  Account, ValidatorInfo, ValidatorStatus, active, unregistered, StakeDelegation, UnbondingEntry,
}
use falari.Env.{Env, normalize_address}
use falari.State.{State}
use falari.Text.{decimal}
use falari.Accounts.{AuthError, account_locked, verify_account_request, consume_account_nonce}

abbrev pub min_delegation_amount : ℕ
min_delegation_amount = 1000 * 100_000_000

abbrev pub unbonding_period_seconds : ℕ
unbonding_period_seconds = 7 * 86400

-- DelegateStakeRequest and UndelegateStakeRequest
pub record StakeRequest : Type 0 where
  pub chain_id : String
  pub delegator : String
  pub validator : String
  pub amount : ℕ
  pub nonce : ℕ

-- delegateStakeTxPayload and undelegateStakeTxPayload
pub record StakePayload : Type 0 where
  pub request : StakeRequest
  pub delegated_before : ℕ
  pub delegated_after : ℕ

pub record RotateOperatorRequest : Type 0 where
  pub chain_id : String
  pub owner_address : String
  pub new_operator_address : String
  pub new_operator_public_key : String
  pub nonce : ℕ

pub data StakingError : Type 0 where
  auth : AuthError → StakingError
  addresses_required amount_required below_minimum validator_not_active : StakingError
  insufficient_balance insufficient_stake before_mismatch after_mismatch : StakingError
  validator_not_found operator_taken : StakingError

abbrev pub from_auth : {A : Type 0} → Result AuthError A → Result StakingError A
from_auth (ok a) = ok a
from_auth (err e) = err (auth e)

abbrev pub is_active : ValidatorStatus → Bool
is_active active = true
is_active _ = false

abbrev pub active_validator : String → Dict ValidatorInfo → Result StakingError ValidatorInfo
active_validator a validators = elim (lookup a validators) [
  | none ↦ err validator_not_active
  | some v ↦ if is_active v.status then ok v else err validator_not_active
]

abbrev empty_validator : String → ValidatorInfo
empty_validator a = record {
  owner_address = a;
  operator_address = "";
  operator_public_key = "";
  stake = 0;
  delegated_stake = 0;
  self_stake = 0;
  status = unregistered;
  delegator_count = 0;
  rewards = 0;
  delegation_rewards = 0;
  commission_rate_bps = 0;
  produced_blocks = 0;
}

unfoldable pub unbonding_id : String → String → ℕ → ℕ → String
unbonding_id delegator validator now seq =
    delegator ++ ":" ++ validator ++ ":" ++ decimal now ++ ":" ++ decimal seq

abbrev pub delegated : Option StakeDelegation → ℕ
delegated none = 0
delegated (some d) = d.amount

module _ (env : Env) where
  unfoldable pub validator_locked : State → String → ValidatorInfo
  validator_locked s address =
      let a = normalize_address env address in
      elim (lookup a s.validators) [ none ↦ empty_validator a | some v ↦ v ]

  unfoldable pub delegation_key : String → String → String
  delegation_key delegator validator =
      normalize_address env delegator ++ ":" ++ normalize_address env validator

  abbrev pub normalized : StakeRequest → StakeRequest
  normalized req = record req {
    delegator = normalize_address env req.delegator;
    validator = normalize_address env req.validator;
  }

  abbrev pub verify_stake_request : StakeRequest → Bool → State → Result StakingError (Unit {0})
  verify_stake_request req signed s =
      from_auth (verify_account_request env s req.chain_id req.delegator req.nonce signed)

  -- syncMinerDelegatorCountLocked: a miner that is not there stays so.
  abbrev sync_count : String → ℕ → Dict ℕ → Dict ℕ
  sync_count a count miners = if has a miners then insert a count miners else miners

  -- The writes of a delegation, which leaves `after` delegated; the nonce is used up first, and the
  -- account read again.
  unfoldable pub write_delegation : StakeRequest → ValidatorInfo → ℕ → ℕ → State → State
  write_delegation req validator after wall s =
      let key = delegation_key req.delegator req.validator in
      let had_before = has key s.stake_delegations in
      let entry : StakeDelegation = elim (lookup key s.stake_delegations) [
        | none ↦ record {
          delegator = req.delegator;
          validator = req.validator;
          amount = after;
          since_unix = wall;
        }
        | some d ↦ record d { amount = after }
      ] in
      let s1 = consume_account_nonce env req.delegator s in
      let account = account_locked env s1 req.delegator in
      let count = if had_before then validator.delegator_count else validator.delegator_count + 1 in
      record s1 {
        stake_delegations = insert key entry s1.stake_delegations;
        accounts =
            insert req.delegator (record account { balance = account.balance - req.amount })
              s1.accounts;
        validators =
            insert req.validator
              (record validator {
                delegated_stake = saturating_add validator.delegated_stake req.amount;
                delegator_count = count;
              })
              s1.validators;
        miner_delegators = sync_count req.validator count s1.miner_delegators;
      }

  -- DelegateStake: the new state, with what the block will carry.
  unfoldable pub delegate_stake :
      StakeRequest → ℕ → Bool → State → Result StakingError (State × StakePayload)
  delegate_stake request wall signed s = do
    let req = normalized request
    fail_if (str_eq req.delegator "" || str_eq req.validator "") addresses_required
    fail_if (req.amount == 0) amount_required
    fail_if (ltb req.amount min_delegation_amount) below_minimum
    verify_stake_request req signed s
    validator ← active_validator req.validator s.validators
    fail_if (ltb (account_locked env s req.delegator).balance req.amount) insufficient_balance
    let before = delegated (lookup (delegation_key req.delegator req.validator) s.stake_delegations)
    let after = add64 before req.amount
    ok (
      write_delegation req validator after wall s,
      record { request = req; delegated_before = before; delegated_after = after },
    )

  -- applyDelegateStakeLocked
  unfoldable pub apply_delegate_stake : StakePayload → ℕ → Bool → State → Result StakingError State
  apply_delegate_stake payload wall signed s = do
    let req = normalized payload.request
    verify_stake_request req signed s
    validator ← active_validator req.validator s.validators
    fail_if (ltb (account_locked env s req.delegator).balance req.amount) insufficient_balance
    let before = delegated (lookup (delegation_key req.delegator req.validator) s.stake_delegations)
    fail_if (not (before == payload.delegated_before)) before_mismatch
    ok (write_delegation req validator payload.delegated_after wall s)

  -- The writes of an undelegation, which leaves `after` of the delegation `existing`.
  unfoldable pub write_undelegation : StakeRequest → StakeDelegation → ℕ → ℕ → State → State
  write_undelegation req existing after now s =
      let key = delegation_key req.delegator req.validator in
      let s1 = consume_account_nonce env req.delegator s in
      let account = account_locked env s1 req.delegator in
      let id = unbonding_id req.delegator req.validator now (length s1.unbonding_entries) in
      let validator = validator_locked s1 req.validator in
      let count =
        if after == 0 && ltb 0 validator.delegator_count
        then validator.delegator_count - 1
        else validator.delegator_count in
      record s1 {
        stake_delegations =
            if after == 0
            then erase key s1.stake_delegations
            else insert key (record existing { amount = after }) s1.stake_delegations;
        accounts =
            insert req.delegator
              (record account { unbonding_balance = add64 account.unbonding_balance req.amount })
              s1.accounts;
        unbonding_entries =
            insert id
              (record {
                id = id;
                delegator = req.delegator;
                validator = req.validator;
                amount = req.amount;
                created_at_unix = now;
                matures_at_unix = now + unbonding_period_seconds;
              })
              s1.unbonding_entries;
        validators =
            insert req.validator
              (record validator {
                delegated_stake =
                    if leb req.amount validator.delegated_stake
                    then validator.delegated_stake - req.amount
                    else 0;
                delegator_count = count;
              })
              s1.validators;
        miner_delegators = sync_count req.validator count s1.miner_delegators;
      }

  abbrev pub find_delegation : StakeRequest → State → Result StakingError StakeDelegation
  find_delegation req s =
      elim (lookup (delegation_key req.delegator req.validator) s.stake_delegations) [
        | none ↦ err insufficient_stake
        | some d ↦ ok d
      ]

  unfoldable pub undelegate_stake :
      StakeRequest → ℕ → Bool → State → Result StakingError (State × StakePayload)
  undelegate_stake request now signed s = do
    let req = normalized request
    fail_if (str_eq req.delegator "" || str_eq req.validator "") addresses_required
    fail_if (req.amount == 0) amount_required
    verify_stake_request req signed s
    existing ← find_delegation req s
    fail_if (ltb existing.amount req.amount) insufficient_stake
    let after = existing.amount - req.amount
    ok (
      write_undelegation req existing after now s,
      record { request = req; delegated_before = existing.amount; delegated_after = after },
    )

  -- applyUndelegateStakeLocked
  unfoldable pub apply_undelegate_stake :
      StakePayload → ℕ → Bool → State → Result StakingError State
  apply_undelegate_stake payload now signed s = do
    let req = normalized payload.request
    verify_stake_request req signed s
    existing ← find_delegation req s
    fail_if
        (not (existing.amount == payload.delegated_before)
          || ltb payload.delegated_before req.amount)
        before_mismatch
    fail_if (not (payload.delegated_after == payload.delegated_before - req.amount)) after_mismatch
    ok (write_undelegation req existing payload.delegated_after now s)
