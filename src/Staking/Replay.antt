-- ===== src/Staking/Replay.antt =====
-- A node that replays a recorded delegation ends where the node that received it ended.
use falari.Prelude.{ℕ, Bool, ◌≡◌, inl, inr, ok, Option-cases, arith}
use falari.Dict.{lookup}
use falari.Env.{Env, normalize_address_idempotent}
use falari.State.{State}
use falari.Staking.{
  normalized, StakeRequest, StakePayload, delegation_key, delegate_stake, apply_delegate_stake,
  apply_undelegate_stake, undelegate_stake,
}

module _ (env : Env) where
  normalized-normalized :
      (req : StakeRequest) → normalized env (normalized env req) ≡ normalized env req
  normalized-normalized req = rw (
    normalize_address_idempotent env req.delegator,
    normalize_address_idempotent env req.validator,
  )

  -- A delegation that a node accepts is accepted by a node that replays its record on the same
  -- state with the same clock and verdict on the signature, and leaves both in the same state.
  pub delegate_stake_replayed :
      (request : StakeRequest) (wall : ℕ) (signed : Bool) (s s' : State) (payload : StakePayload)
      → delegate_stake env request wall signed s ≡ ok (s', payload)
      → apply_delegate_stake env payload wall signed s ≡ ok s'
  unfolding delegate_stake apply_delegate_stake
  delegate_stake_replayed request wall signed s s' payload h =
      ground (arith, normalized-normalized request)

  -- The same holds of an undelegation, at the same block time.
  pub undelegate_stake_replayed :
      (request : StakeRequest) (now : ℕ) (signed : Bool) (s s' : State) (payload : StakePayload)
      → undelegate_stake env request now signed s ≡ ok (s', payload)
      → apply_undelegate_stake env payload now signed s ≡ ok s'
  unfolding undelegate_stake apply_undelegate_stake
  undelegate_stake_replayed request now signed s s' payload h =
      let req = normalized env request in
      elim (Option-cases
        (lookup (delegation_key env req.delegator req.validator) s.stake_delegations)) [
          | inl e ↦ absurd (ground (arith, e))
          | inr (existing, e) ↦ ground (arith, e, normalized-normalized request)
        ]
