-- ===== src/TokenRelease/Index.antt =====
-- The miners' claims by the reward index, against what left the pool for them.
use falari.Prelude.{
  ℕ, ◌+◌, ◌-◌, ◌*◌, ◌/◌, ◌≤◌, ◌<◌, Bool, false, true, ◌≡◌, ◌||◌, inl, inr, none, some, [], ◌∷◌,
  Option, Option-cases, str_eq, leb, ◌==◌, if◌then◌else◌, Bool-cases, arith,
}
use native.Mathlib.Nat.{div-mul-le_self}
use falari.Arith.{u64_mod}
use falari.Arith.Bounds.{saturating_add_exact}
use falari.Dict.{Dict, total}
use falari.Types.{MinerStats}
use falari.State.{State}
use falari.Escrow.{least}
use falari.TokenRelease.{
  permanent_fund_injection_amount, storage_reward_weight, total_weight, index_value, index_scale,
  release_storage_per_block, unsettled_storage_reward, or_default, token_unit, capped,
}
use falari.TokenRelease.Streams.{injection_bounds}

-- Every miner has settled up to an index.
abbrev pub AllSettled : Option ℕ → Dict MinerStats → Type 0
AllSettled index [] = Unit
AllSettled index ((_, stats) ∷ rest) = (stats.storage_reward_index ≡ index) × AllSettled index rest

distribute :
    (c r scale growth w v : ℕ)
    → c * scale ≤ growth * w
    → r * scale ≤ growth * v
    → (c + r) * scale ≤ growth * (w + v)
distribute c r scale growth w v one all = grind arith

whole_claim :
    (growth weight : ℕ) → capped (growth * weight / index_scale) * index_scale ≤ growth * weight
whole_claim growth weight = ground arith

grown_claim :
    (out : Bool) (global own weight : ℕ)
    → (if out
          then 0
          else if leb global own
          then 0
          else capped ((global - own) * weight / index_scale))
        * index_scale
      ≤ (global - own) * weight
grown_claim true global own weight = omega arith
grown_claim false global own weight = elim (Bool-cases (leb global own)) [
  | inl past ↦ rw past (omega arith)
  | inr grown ↦ rw grown (whole_claim (global - own) weight)
]

-- A claim is at most the miner's weight times the growth of the index, cut down to whole units.
claim-le :
    (stats : MinerStats) (s : State) (before : Option ℕ)
    → stats.storage_reward_index ≡ before
    → unsettled_storage_reward stats s * index_scale
      ≤ (index_value s.storage_reward_index - index_value before) * storage_reward_weight stats
unfolding unsettled_storage_reward storage_reward_weight
claim-le stats s none same = rw (same, unsettled_storage_reward) (omega arith)
claim-le stats s (some own) same = elim (Option-cases s.storage_reward_index) [
  | inl unset ↦ rw (same, unset, unsettled_storage_reward) (omega arith)
  | inr (global, set) ↦
      rw (same, set, unsettled_storage_reward)
        (grown_claim (str_eq stats.miner_address "" || storage_reward_weight stats == 0) global own
          (storage_reward_weight stats))
]

claims-le :
    (miners : Dict MinerStats) (s : State) (before : Option ℕ)
    → AllSettled before miners
    → total (λ stats. unsettled_storage_reward stats s) miners * index_scale
      ≤ (index_value s.storage_reward_index - index_value before) * total_weight miners
unfolding total_weight
claims-le [] s before settled = omega arith
claims-le ((a, stats) ∷ rest) s before settled =
    let one = claim-le stats s before settled.0 in
    let all = claims-le rest s before settled.1 in
    distribute (unsettled_storage_reward stats s)
      (total (λ stats. unsettled_storage_reward stats s) rest) index_scale
      (index_value s.storage_reward_index - index_value before) (storage_reward_weight stats)
      (total_weight rest) one all

unmoved_paid :
    (base weight storage fund scale rest : ℕ)
    → (base - base) * weight ≤ (storage - storage - (fund - fund)) * scale + rest
unmoved_paid base weight storage fund scale rest =
    let e : base - base ≡ 0 = omega arith in rw e (omega arith)

moved_paid :
    (base increment weight storage release fund share scale rest : ℕ)
    → release ≤ storage
    → increment * weight ≤ (release - share) * scale + rest
    → (base + increment - base) * weight
      ≤ (storage - (storage - release) - (fund + share - fund)) * scale + rest
moved_paid base increment weight storage release fund share scale rest small whole =
    let i : base + increment - base ≡ increment = omega arith in
    let p : storage - (storage - release) ≡ release = omega arith in
    let f : fund + share - fund ≡ share = omega arith in rw (i, p, f) whole

-- The growth of the index, times the weights, is paid by what leaves the pool.
release_step :
    (s : State)
    → s.reward_pools.permanent_fund_remaining + s.reward_pools.storage_remaining < u64_mod
    → s.reward_pools.tokens_released + s.reward_pools.storage_remaining < u64_mod
    → let s' = release_storage_per_block s in
      let paid = s.reward_pools.storage_remaining - s'.reward_pools.storage_remaining in
      let fund =
        s'.reward_pools.permanent_fund_remaining - s.reward_pools.permanent_fund_remaining in
      ((index_value s'.storage_reward_index - index_value s.storage_reward_index)
          * total_weight s.miners
        ≤ (paid - fund) * index_scale + s.storage_reward_remainder)
      × (s'.reward_pools.tokens_released ≡ s.reward_pools.tokens_released + paid)
unfolding release_storage_per_block
release_step s fund_fits count_fits =
    let pools = s.reward_pools in
    let release =
      least (or_default (70 * token_unit) s.mining_params.storage_reward_per_block)
        pools.storage_remaining in
    let small : release ≤ pools.storage_remaining = ground arith in
    let carved = injection_bounds release s in
    let fund_share = permanent_fund_injection_amount release s in
    let weight = total_weight s.miners in
    let numerator = (release - fund_share) * index_scale + s.storage_reward_remainder in
    let increment = numerator / weight in
    let whole : increment * weight ≤ numerator = div-mul-le_self numerator weight in
    let exact =
      saturating_add_exact pools.permanent_fund_remaining fund_share (omega (arith, carved.0)) in
    let counted = saturating_add_exact pools.tokens_released release (omega arith) in
    let base = index_value s.storage_reward_index in
    elim (Bool-cases (pools.storage_remaining == 0 || weight == 0)) [
      | inl out ↦ rw out (
        unmoved_paid base weight pools.storage_remaining pools.permanent_fund_remaining index_scale
            s.storage_reward_remainder,
        omega arith,
      )
      | inr go ↦ elim (Bool-cases (increment == 0)) [
        | inl unmoved ↦
            rw (go, unmoved)
              (
                unmoved_paid base weight pools.storage_remaining pools.permanent_fund_remaining
                    index_scale s.storage_reward_remainder,
                omega arith,
              )
        | inr moved ↦
            rw (go, moved, exact)
              (
                moved_paid base increment weight pools.storage_remaining release
                    pools.permanent_fund_remaining fund_share index_scale s.storage_reward_remainder
                    small whole,
                omega arith,
              )
      ]
    ]

-- After a block's release, the miners that had all settled before can together claim at most what
-- left the storage pool for them (the release without the carve-out for the permanent fund), with
-- what the release before left over, and the pool loses exactly what is counted as released. It
-- holds where the fund and the count of released tokens stay uint64.
pub release_claims_covered :
    (s : State)
    → AllSettled s.storage_reward_index s.miners
    → s.reward_pools.permanent_fund_remaining + s.reward_pools.storage_remaining < u64_mod
    → s.reward_pools.tokens_released + s.reward_pools.storage_remaining < u64_mod
    → let s' = release_storage_per_block s in
      let paid = s.reward_pools.storage_remaining - s'.reward_pools.storage_remaining in
      let fund =
        s'.reward_pools.permanent_fund_remaining - s.reward_pools.permanent_fund_remaining in
      (total (λ stats. unsettled_storage_reward stats s') s.miners * index_scale
        ≤ (paid - fund) * index_scale + s.storage_reward_remainder)
      × (s'.reward_pools.tokens_released ≡ s.reward_pools.tokens_released + paid)
release_claims_covered s settled fund_fits count_fits =
    let s' = release_storage_per_block s in
    let claims = claims-le s.miners s' s.storage_reward_index settled in
    let step = release_step s fund_fits count_fits in (omega (arith, claims, step.0), step.1)
