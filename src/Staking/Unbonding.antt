-- ===== src/Staking/Unbonding.antt =====
-- What undelegations and the release of matured entries do to the same sums.
use falari.Prelude.{
  ℕ, String, ◌+◌, ◌-◌, ◌≤◌, ◌<◌, Bool, ◌≡◌, inl, inr, ap, ok, some, Option-cases, arith,
}
use falari.Arith.{u64_mod, add64}
use falari.Dict.{lookup, value_of}
use falari.Dict.Laws.{total-insert, total-erase, value_of-le-total}
use falari.Types.{StakeDelegation}
use falari.Env.{Env, normalize_address, normalize_address_idempotent}
use falari.State.{State}
use falari.Accounts.{account_at, account_locked, consume_account_nonce}
use falari.Accounts.Funds.{
  holdings, circulating, circulating-insert, holdings-le-circulating, IsKeyed,
  account_at-insert_self,
}
use falari.Staking.{
  normalized, StakeRequest, StakePayload, delegation_key, write_undelegation,
  apply_undelegate_stake, undelegate_stake,
}
use falari.Staking.Supply.{staked, consumed}

-- What an undelegation does: the amount leaves what is delegated and is added to the delegator's
-- unbonding balance, not to its free balance, and the sum of what all accounts own and of all that
-- is delegated stays the same.
abbrev pub Unbonds : String → ℕ → State → State → Type 0
Unbonds delegator amount s s' =
    let before = account_at s.accounts delegator in
    let after = account_at s'.accounts delegator in
    (circulating s'.accounts + staked s'.stake_delegations
      ≡ circulating s.accounts + staked s.stake_delegations)
    × (staked s'.stake_delegations + amount ≡ staked s.stake_delegations)
    × (after.unbonding_balance ≡ before.unbonding_balance + amount)
    × (after.balance ≡ before.balance)

module _ (env : Env) where
  write_undelegation-staked :
      (req : StakeRequest) (existing : StakeDelegation) (after now : ℕ) (s : State)
      → let key = delegation_key env req.delegator req.validator in
        lookup key s.stake_delegations ≡ some existing
        → staked (write_undelegation env req existing after now s).stake_delegations
            + existing.amount
          ≡ staked s.stake_delegations + after
  unfolding write_undelegation consume_account_nonce
  write_undelegation-staked req existing after now s found =
      let key = delegation_key env req.delegator req.validator in
      let m = s.stake_delegations in
      let amount : StakeDelegation → ℕ = λ d. d.amount in
      ground (
        arith,
        ap (value_of amount) found,
        total-insert amount key (record existing { amount = after }) m,
        total-erase amount key m,
      )

  write_undelegation-circulating :
      (req : StakeRequest) (existing : StakeDelegation) (after now : ℕ) (s : State)
      → normalize_address env req.delegator ≡ req.delegator
      → IsKeyed s.accounts
      → circulating s.accounts + req.amount < u64_mod
      → circulating (write_undelegation env req existing after now s).accounts
        ≡ circulating s.accounts + req.amount
  unfolding write_undelegation holdings
  write_undelegation-circulating req existing after now s stable keyed fits =
      let (_, unbonding, held, sum, read) = consumed env req.delegator stable s keyed in
      let s1 = consume_account_nonce env req.delegator s in
      let account = account_locked env s1 req.delegator in
      omega (
        arith,
        unbonding,
        held,
        sum,
        ap holdings read,
        holdings-le-circulating req.delegator s.accounts,
        circulating-insert req.delegator
            (record account { unbonding_balance = add64 account.unbonding_balance req.amount })
            s1.accounts,
      )

  write_undelegation-account :
      (req : StakeRequest) (existing : StakeDelegation) (after now : ℕ) (s : State)
      → normalize_address env req.delegator ≡ req.delegator
      → IsKeyed s.accounts
      → circulating s.accounts + req.amount < u64_mod
      → let s' = write_undelegation env req existing after now s in
        let old = account_at s.accounts req.delegator in
        let new = account_at s'.accounts req.delegator in
        (new.unbonding_balance ≡ old.unbonding_balance + req.amount) × (new.balance ≡ old.balance)
  unfolding write_undelegation holdings
  write_undelegation-account req existing after now s stable keyed fits =
      let (free, unbonding, held, sum, read) = consumed env req.delegator stable s keyed in
      let s1 = consume_account_nonce env req.delegator s in
      let account = account_locked env s1 req.delegator in
      let new = record account { unbonding_balance = add64 account.unbonding_balance req.amount } in
      ground (
        arith,
        free,
        unbonding,
        holdings-le-circulating req.delegator s.accounts,
        account_at-insert_self req.delegator new s1.accounts,
      )

  -- What both sides of an undelegation have checked.
  undelegate_stake-ok :
      (request : StakeRequest) (now : ℕ) (signed : Bool) (s s' : State) (payload : StakePayload)
      → undelegate_stake env request now signed s ≡ ok (s', payload)
      → let req = normalized env request in
        (existing : StakeDelegation) × (lookup
            (delegation_key env req.delegator req.validator)
            s.stake_delegations
          ≡ some existing)
        × (req.amount ≤ existing.amount)
        × (s' ≡ write_undelegation env req existing (existing.amount - req.amount) now s)
        × (payload ≡ record {
          request = req;
          delegated_before = existing.amount;
          delegated_after = existing.amount - req.amount;
        })
  unfolding undelegate_stake
  undelegate_stake-ok request now signed s s' payload h =
      let req = normalized env request in
      elim (Option-cases
        (lookup (delegation_key env req.delegator req.validator) s.stake_delegations)) [
          | inl e ↦ absurd (ground (arith, e))
          | inr (existing, e) ↦
              (existing, e, ground (arith, e), ground (arith, e), ground (arith, e))
        ]

  apply_undelegate_stake-ok :
      (payload : StakePayload) (now : ℕ) (signed : Bool) (s s' : State)
      → apply_undelegate_stake env payload now signed s ≡ ok s'
      → let req = normalized env payload.request in
        (existing : StakeDelegation) × (lookup
            (delegation_key env req.delegator req.validator)
            s.stake_delegations
          ≡ some existing)
        × (req.amount ≤ existing.amount)
        × (s' ≡ write_undelegation env req existing (existing.amount - req.amount) now s)
  unfolding apply_undelegate_stake
  apply_undelegate_stake-ok payload now signed s s' h =
      let req = normalized env payload.request in
      elim (Option-cases
        (lookup (delegation_key env req.delegator req.validator) s.stake_delegations)) [
          | inl e ↦ absurd (ground (arith, e))
          | inr (existing, e) ↦ (existing, e, ground (arith, e), ground (arith, e))
        ]

  written :
      (req : StakeRequest) (existing : StakeDelegation) (now : ℕ) (s : State)
      → normalize_address env req.delegator ≡ req.delegator
      → IsKeyed s.accounts
      → circulating s.accounts + staked s.stake_delegations < u64_mod
      → lookup (delegation_key env req.delegator req.validator) s.stake_delegations ≡ some existing
      → req.amount ≤ existing.amount
      → let s' = write_undelegation env req existing (existing.amount - req.amount) now s in
        Unbonds req.delegator req.amount s s'
  written req existing now s stable keyed fits found covered =
      let key = delegation_key env req.delegator req.validator in
      let amount : StakeDelegation → ℕ = λ d. d.amount in
      let part : existing.amount ≤ staked s.stake_delegations =
        omega
          (arith, ap (value_of amount) found, value_of-le-total amount key s.stake_delegations) in
      let fewer =
        write_undelegation-staked req existing (existing.amount - req.amount) now s found in
      let more =
        write_undelegation-circulating req existing (existing.amount - req.amount) now s stable
          keyed (omega arith) in
      let (unbonding, free) =
        write_undelegation-account req existing (existing.amount - req.amount) now s stable keyed
          (omega arith) in
      (omega (arith, fewer, more), omega (arith, fewer), unbonding, free)

  -- An undelegation, on the node that receives it and on one that replays it, moves the amount from
  -- what is delegated to the delegator's unbonding balance: what is delegated falls by the amount,
  -- the unbonding balance grows by it, the free balance stays the same, and so does the sum of what
  -- all accounts own and of all that is delegated. It holds if every account is stored under its
  -- own address and that sum is a uint64.
  pub undelegate_stake-supply :
      (request : StakeRequest) (payload recorded : StakePayload) (now : ℕ) (signed : Bool)
      (s live replayed : State)
      → IsKeyed s.accounts
      → circulating s.accounts + staked s.stake_delegations < u64_mod
      → undelegate_stake env request now signed s ≡ ok (live, recorded)
      → apply_undelegate_stake env payload now signed s ≡ ok replayed
      → Unbonds (normalize_address env request.delegator) request.amount s live
        × Unbonds
            (normalize_address env payload.request.delegator)
            payload.request.amount
            s
            replayed
  undelegate_stake-supply request payload recorded now signed s live replayed keyed fits h k =
      let (e, found, covered, after, _) =
        undelegate_stake-ok request now signed s live recorded h in
      let (e', found', covered', after') =
        apply_undelegate_stake-ok payload now signed s replayed k in
      (
        rw after (
            written (normalized env request) e now s
              (normalize_address_idempotent env request.delegator) keyed fits found covered),
        rw after' (
            written (normalized env payload.request) e' now s
              (normalize_address_idempotent env payload.request.delegator) keyed fits found'
              covered'),
      )
