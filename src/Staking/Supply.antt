-- ===== src/Staking/Supply.antt =====
-- What delegations and undelegations do to the sum of what accounts hold and what is delegated.
use falari.Prelude.{
  ℕ, ◌+◌, ◌-◌, ◌≤◌, ◌<◌, String, Bool, ◌≡◌, refl, inl, inr, ap, ok, none, some, Option-cases,
  Result-cases, arith,
}
use falari.Arith.{u64_mod, add64}
use falari.Dict.{Dict, lookup, insert, total, value_of}
use falari.Dict.Laws.{total-insert, value_of-le-total}
use falari.Types.{StakeDelegation, ValidatorInfo}
use falari.Env.{Env, normalize_address, normalize_address_idempotent}
use falari.State.{State}
use falari.Accounts.{account_at, account_locked, consume_account_nonce}
use falari.Accounts.Funds.{
  holdings, circulating, circulating-insert, holdings-le-circulating, IsKeyed,
  account_at-insert_self,
}
use falari.Staking.{
  normalized, active_validator, delegated, StakeRequest, StakePayload, delegation_key,
  write_delegation, delegate_stake, apply_delegate_stake,
}

-- All that is delegated.
abbrev pub staked : Dict StakeDelegation → ℕ
staked delegations = total (λ d. d.amount) delegations

module _ (env : Env) (d : String) (stable : normalize_address env d ≡ d) where
  -- The account that is read again after the use of its nonce owns what it owned, and so do all.
  pub consumed :
      (s : State)
      → IsKeyed s.accounts
      → let after = consume_account_nonce env d s in
        ((account_locked env after d).balance ≡ (account_at s.accounts d).balance)
        × ((account_locked env after d).unbonding_balance
            ≡ (account_at s.accounts d).unbonding_balance)
        × (holdings (account_locked env after d) ≡ holdings (account_at s.accounts d))
        × (circulating after.accounts ≡ circulating s.accounts)
        × (account_locked env after d ≡ account_at after.accounts d)
  unfolding consume_account_nonce account_locked holdings
  consumed s keyed =
      let before = account_at s.accounts d in
      let bumped = record before { nonce = add64 before.nonce 1 } in
      let same = ap (λ k. account_at (insert before.address bumped s.accounts) k) (keyed d) in
      let read = account_at-insert_self before.address bumped s.accounts in
      rw (stable, stable)
        (ground (
          arith,
          same,
          read,
          circulating-insert before.address bumped s.accounts,
          ap (account_at s.accounts) (keyed d),
        ))

-- A delegation's amount is part of the sum.
pub delegated-value_of :
    (k : String) (m : Dict StakeDelegation)
    → delegated (lookup k m) ≡ value_of (λ (e : StakeDelegation). e.amount) (lookup k m)
delegated-value_of k m = elim (lookup k m) [ none ↦ refl | some e ↦ refl ]

module _ (env : Env) where
  write_delegation-staked :
      (req : StakeRequest) (validator : ValidatorInfo) (after wall : ℕ) (s : State)
      → let key = delegation_key env req.delegator req.validator in
        staked (write_delegation env req validator after wall s).stake_delegations
          + delegated (lookup key s.stake_delegations)
        ≡ staked s.stake_delegations + after
  unfolding write_delegation consume_account_nonce
  write_delegation-staked req validator after wall s =
      let key = delegation_key env req.delegator req.validator in
      let m = s.stake_delegations in
      elim (Option-cases (lookup key m)) [
        | inl e ↦ rw e (
            omega (
              arith,
              ap delegated e,
              delegated-value_of key m,
              total-insert (λ (d : StakeDelegation). d.amount) key
                  (record {
                    delegator = req.delegator;
                    validator = req.validator;
                    amount = after;
                    since_unix = wall;
                  })
                  m,
            ))
        | inr (d, e) ↦ rw e (
            omega (
              arith,
              ap delegated e,
              delegated-value_of key m,
              total-insert (λ (d : StakeDelegation). d.amount) key (record d { amount = after }) m,
            ))
      ]

module _ (env : Env) where
  write_delegation-supply :
      (req : StakeRequest) (validator : ValidatorInfo) (after wall : ℕ) (s : State)
      → normalize_address env req.delegator ≡ req.delegator
      → IsKeyed s.accounts
      → req.amount ≤ (account_at s.accounts req.delegator).balance
      → let s' = write_delegation env req validator after wall s in
        let before =
          delegated (lookup (delegation_key env req.delegator req.validator) s.stake_delegations) in
        (circulating s'.accounts + req.amount ≡ circulating s.accounts)
        × (staked s'.stake_delegations + before ≡ staked s.stake_delegations + after)
  unfolding write_delegation holdings
  write_delegation-supply req validator after wall s stable keyed covered =
      let (free, _, held, sum, read) = consumed env req.delegator stable s keyed in
      let s1 = consume_account_nonce env req.delegator s in
      let key = delegation_key env req.delegator req.validator in
      let account = account_locked env s1 req.delegator in
      (
        omega (
          arith,
          free,
          held,
          sum,
          ap holdings read,
          circulating-insert req.delegator
              (record account { balance = account.balance - req.amount }) s1.accounts,
        ),
        write_delegation-staked env req validator after wall s,
      )

  -- What an accepted delegation has checked.
  delegate_stake-ok :
      (request : StakeRequest) (wall : ℕ) (signed : Bool) (s s' : State) (payload : StakePayload)
      → delegate_stake env request wall signed s ≡ ok (s', payload)
      → let req = normalized env request in
        let before =
          delegated (lookup (delegation_key env req.delegator req.validator) s.stake_delegations) in
        (validator : ValidatorInfo) × (req.amount ≤ (account_at s.accounts req.delegator).balance)
        × (s' ≡ write_delegation env req validator (add64 before req.amount) wall s)
  unfolding delegate_stake account_locked
  delegate_stake-ok request wall signed s s' payload h =
      let req = normalized env request in
      elim (Result-cases (active_validator req.validator s.validators)) [
        | inl (validator, e) ↦ (
          validator,
          ground (arith, e, normalize_address_idempotent env request.delegator),
          ground (arith, e, normalize_address_idempotent env request.delegator),
        )
        | inr (_, e) ↦ absurd (ground (arith, e))
      ]

  apply_delegate_stake-ok :
      (payload : StakePayload) (wall : ℕ) (signed : Bool) (s s' : State)
      → apply_delegate_stake env payload wall signed s ≡ ok s'
      → let req = normalized env payload.request in
        (validator : ValidatorInfo) × (req.amount ≤ (account_at s.accounts req.delegator).balance)
        × (delegated (lookup (delegation_key env req.delegator req.validator) s.stake_delegations)
            ≡ payload.delegated_before)
        × (s' ≡ write_delegation env req validator payload.delegated_after wall s)
  unfolding apply_delegate_stake account_locked
  apply_delegate_stake-ok payload wall signed s s' h =
      let req = normalized env payload.request in
      elim (Result-cases (active_validator req.validator s.validators)) [
        | inl (validator, e) ↦ (
          validator,
          ground (arith, e, normalize_address_idempotent env payload.request.delegator),
          ground (arith, e, normalize_address_idempotent env payload.request.delegator),
          ground (arith, e, normalize_address_idempotent env payload.request.delegator),
        )
        | inr (_, e) ↦ absurd (ground (arith, e))
      ]

  -- A delegation moves stake and makes none: what all accounts own and all that is delegated stay
  -- the same in sum, if every account is stored under its own address and that sum is a uint64.
  pub delegate_stake-supply :
      (request : StakeRequest) (wall : ℕ) (signed : Bool) (s s' : State) (payload : StakePayload)
      → IsKeyed s.accounts
      → circulating s.accounts + staked s.stake_delegations < u64_mod
      → delegate_stake env request wall signed s ≡ ok (s', payload)
      → circulating s'.accounts + staked s'.stake_delegations
        ≡ circulating s.accounts + staked s.stake_delegations
  unfolding holdings
  delegate_stake-supply request wall signed s s' payload keyed fits h =
      let req = normalized env request in
      let key = delegation_key env req.delegator req.validator in
      let (validator, covered, after) = delegate_stake-ok request wall signed s s' payload h in
      let (moved, staked') =
        write_delegation-supply req validator
          (add64 (delegated (lookup key s.stake_delegations)) req.amount) wall s
          (normalize_address_idempotent env request.delegator) keyed covered in
      rw after (
        omega (
          arith,
          moved,
          staked',
          delegated-value_of key s.stake_delegations,
          value_of-le-total (λ (d : StakeDelegation). d.amount) key s.stake_delegations,
          holdings-le-circulating req.delegator s.accounts,
        ))

  -- What a replaying node makes of a recorded delegation: the sum changes by the recorded amount
  -- after it, less the recorded amount before it and the amount that is paid. The replay does not
  -- compare these, so a recorded amount that is too large makes stake that nobody has paid.
  pub apply_delegate_stake-supply :
      (payload : StakePayload) (wall : ℕ) (signed : Bool) (s s' : State)
      → IsKeyed s.accounts
      → apply_delegate_stake env payload wall signed s ≡ ok s'
      → circulating s'.accounts
          + staked s'.stake_delegations
          + payload.delegated_before
          + payload.request.amount
        ≡ circulating s.accounts + staked s.stake_delegations + payload.delegated_after
  apply_delegate_stake-supply payload wall signed s s' keyed h =
      let req = normalized env payload.request in
      let (validator, covered, before, after) =
        apply_delegate_stake-ok payload wall signed s s' h in
      let (moved, staked') =
        write_delegation-supply req validator payload.delegated_after wall s
          (normalize_address_idempotent env payload.request.delegator) keyed covered in
      rw after (omega (arith, moved, staked', before))
