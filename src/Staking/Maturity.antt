-- ===== src/Staking/Maturity.antt =====
-- The release of matured unbonding entries, and the rotation of a validator's operator
-- (processMaturedUnbondingEntriesLocked and RotateOperator of validator_delegation.go).
use falari.Prelude.{
  ℕ, ◌-◌, Bool, true, false, not, ◌||◌, [], ◌∷◌, none, some, Result, ok, err, fail_if, ◌>>=◌, ◌>>◌,
  str_eq, ltb, leb, if◌then◌else◌,
}
use falari.Arith.{add64}
use falari.Dict.{Dict, lookup, insert, erase}
use falari.Types.{UnbondingEntry}
use falari.Env.{Env, normalize_address}
use falari.State.{State}
use falari.Accounts.{account_locked, verify_account_request, consume_account_nonce}
use falari.Staking.{
  RotateOperatorRequest, StakingError, from_auth, addresses_required, validator_not_found,
  operator_taken,
}

module _ (env : Env) where
  -- One matured entry of processMaturedUnbondingEntriesLocked.
  unfoldable pub release_entry : UnbondingEntry → State → State
  release_entry entry s =
      let account = account_locked env s entry.delegator in
      let released = record account {
        unbonding_balance =
            if leb entry.amount account.unbonding_balance
            then account.unbonding_balance - entry.amount
            else 0;
        balance = add64 account.balance entry.amount;
      } in
      record s { accounts = insert entry.delegator released s.accounts }

  -- The loop over the entries, with those that stay.
  unfoldable pub release_entries : ℕ → Dict UnbondingEntry → State → State × Dict UnbondingEntry
  release_entries now [] s = (s, [])
  release_entries now ((id, entry) ∷ rest) s = elim (ltb now entry.matures_at_unix) [
    | true ↦ (let (s', kept) = release_entries now rest s in (s', (id, entry) ∷ kept))
    | false ↦ release_entries now rest (release_entry entry s)
  ]

  unfoldable pub process_matured_unbonding_entries : ℕ → State → State
  process_matured_unbonding_entries now s =
      let (s', kept) = release_entries now s.unbonding_entries s in
      record s' { unbonding_entries = kept }

  -- RotateOperator
  unfoldable pub rotate_operator : RotateOperatorRequest → Bool → State → Result StakingError State
  rotate_operator request signed s = do
    let owner = normalize_address env request.owner_address
    let operator = normalize_address env request.new_operator_address
    fail_if (str_eq owner "" || str_eq operator "" || str_eq request.new_operator_public_key "")
        addresses_required
    from_auth (verify_account_request env s request.chain_id owner request.nonce signed)
    validator ← elim (lookup owner s.validators) [ none ↦ err validator_not_found | some v ↦ ok v ]
    fail_if
        (elim (lookup operator s.operator_map) [
          | none ↦ false
          | some existing ↦ not (str_eq existing owner)
        ])
        operator_taken
    let rotated = record validator {
      operator_address = operator;
      operator_public_key = request.new_operator_public_key;
    }
    ok (
        consume_account_nonce env owner (record s {
          validators = insert owner rotated s.validators;
          operator_map = insert operator owner (erase validator.operator_address s.operator_map);
        }))
