-- ===== src/FeeMarket.antt =====
-- The fee market (internal/chain/fee_market.go): the base fee and its per-type multipliers, their
-- update by an operator, the charge of a transaction's fee, and the adjustment after each block.
pub mod Adjustment
pub mod Charging
pub mod Updates
use falari.Prelude.{
  ℕ, ◌+◌, ◌-◌, ◌*◌, ◌/◌, ◌%◌, ◌^◌, String, Bool, true, false, ◌||◌, Option, none, some, Result, ok,
  err, fail_if, ◌>>=◌, ◌>>◌, str_eq, ltb, leb, ◌==◌, if◌then◌else◌,
}
use falari.Arith.{add64, mul_div_uint64}
use falari.Dict.{Dict, has, insert}
use falari.Types.{FeeMultipliers, FeeMarket}
use falari.Env.{Env, normalize_address}
use falari.State.{State}
use falari.Accounts.{account_locked}

-- The transaction types that the fee rules name; `user_tx` is any other.
pub data TxType : Type 0 where
  bridge_out create_intent upload_nft_template register_validator batch_commit : TxType
  deploy_contract call_contract destroy_contract : TxType
  faucet genesis_credit validator_rotation submit_proof submit_delete_receipt : TxType
  submit_retrieval_receipt generate_challenges create_repair_tasks start_epoch : TxType
  finalize_epoch validator_evidence governance_deal_action committee_freeze_deal : TxType
  governance_block_deal direct_governance_action direct_action_review_vote : TxType
  wasm_cron_exec wasm_event_delivery : TxType
  user_tx : String → TxType

abbrev pub default_base_fee : ℕ
default_base_fee = 100_000_000

abbrev pub default_target_block_txs : ℕ
default_target_block_txs = 10

abbrev pub max_base_fee : ℕ
max_base_fee = 1_000_000_000_000

abbrev pub default_fee_multipliers : FeeMultipliers
default_fee_multipliers = record {
  bridge_out = 20000;
  create_intent = 15000;
  upload_nft_template = 15000;
  register_validator = 15000;
  batch_commit = 15000;
  deploy_contract = 0;
  call_contract = 0;
  destroy_contract = 0;
}

abbrev pub default_fee_market : FeeMarket
default_fee_market = record {
  base_fee = default_base_fee;
  target_block_txs = default_target_block_txs;
  last_block_txs = 0;
  updated_at_height = 0;
  multipliers = default_fee_multipliers;
}

abbrev or_default : ℕ → ℕ
or_default m = if ltb 0 m then m else 10000

unfoldable pub transaction_fee_multiplier_bps : FeeMultipliers → TxType → ℕ
transaction_fee_multiplier_bps m bridge_out = or_default m.bridge_out
transaction_fee_multiplier_bps m create_intent = or_default m.create_intent
transaction_fee_multiplier_bps m upload_nft_template = or_default m.upload_nft_template
transaction_fee_multiplier_bps m register_validator = or_default m.register_validator
transaction_fee_multiplier_bps m batch_commit = or_default m.batch_commit
transaction_fee_multiplier_bps m deploy_contract = or_default m.deploy_contract
transaction_fee_multiplier_bps m call_contract = or_default m.call_contract
transaction_fee_multiplier_bps m destroy_contract = or_default m.destroy_contract
transaction_fee_multiplier_bps m _ = 10000

-- What the validators generate themselves pays no gas.
unfoldable pub transaction_requires_base_fee : TxType → Bool
transaction_requires_base_fee faucet = false
transaction_requires_base_fee genesis_credit = false
transaction_requires_base_fee validator_rotation = false
transaction_requires_base_fee submit_proof = false
transaction_requires_base_fee submit_delete_receipt = false
transaction_requires_base_fee submit_retrieval_receipt = false
transaction_requires_base_fee generate_challenges = false
transaction_requires_base_fee create_repair_tasks = false
transaction_requires_base_fee start_epoch = false
transaction_requires_base_fee finalize_epoch = false
transaction_requires_base_fee validator_evidence = false
transaction_requires_base_fee governance_deal_action = false
transaction_requires_base_fee committee_freeze_deal = false
transaction_requires_base_fee governance_block_deal = false
transaction_requires_base_fee direct_governance_action = false
transaction_requires_base_fee direct_action_review_vote = false
transaction_requires_base_fee wasm_cron_exec = false
transaction_requires_base_fee wasm_event_delivery = false
transaction_requires_base_fee _ = true

pub record Transaction : Type 0 where
  pub tx_id : String
  pub tx_type : TxType
  pub from : String
  pub fee : ℕ

pub data FeeError : Type 0 where
  fee_below_required payer_required insufficient_for_fee : FeeError
  base_fee_zero target_zero multiplier_out_of_range : FeeError

unfoldable pub validate_transaction_fee : FeeMarket → Transaction → Result FeeError (Unit {0})
validate_transaction_fee market tx =
    if transaction_requires_base_fee tx.tx_type
    then (let multiplier = transaction_fee_multiplier_bps market.multipliers tx.tx_type in
        let required = mul_div_uint64 market.base_fee multiplier 1 10000 in
        fail_if (ltb tx.fee required) fee_below_required)
    else ok tt

-- One `applyField` of applyFeeMultiplierUpdate: zero keeps the field, and a value out of
-- [1000, 100000] is an error.
unfoldable pub apply_field : ℕ → ℕ → Option ℕ
apply_field val field =
    if val == 0 then some field else if ltb val 1000 || ltb 100000 val then none else some val

abbrev then_field : Option ℕ → FeeMultipliers → (ℕ → FeeMultipliers × Bool) → FeeMultipliers × Bool
then_field none dst rest = (dst, false)
then_field (some v) dst rest = rest v

-- The fields in the source's order; `false` is the error, with the fields before it written.
unfoldable pub apply_fee_multiplier_update : FeeMultipliers → FeeMultipliers → FeeMultipliers × Bool
apply_fee_multiplier_update dst src =
    then_field (apply_field src.bridge_out dst.bridge_out) dst λ v1.
      let d1 = record dst { bridge_out = v1 } in
      then_field (apply_field src.create_intent d1.create_intent) d1 λ v2.
        let d2 = record d1 { create_intent = v2 } in
        then_field (apply_field src.upload_nft_template d2.upload_nft_template) d2 λ v3.
          let d3 = record d2 { upload_nft_template = v3 } in
          then_field (apply_field src.register_validator d3.register_validator) d3 λ v4.
            let d4 = record d3 { register_validator = v4 } in
            then_field (apply_field src.batch_commit d4.batch_commit) d4 λ v5.
              let d5 = record d4 { batch_commit = v5 } in
              then_field (apply_field src.deploy_contract d5.deploy_contract) d5 λ v6.
                let d6 = record d5 { deploy_contract = v6 } in
                then_field (apply_field src.call_contract d6.call_contract) d6 λ v7.
                  let d7 = record d6 { call_contract = v7 } in
                  then_field (apply_field src.destroy_contract d7.destroy_contract) d7
                    λ v8. (record d7 { destroy_contract = v8 }, true)

pub record SetFeeMarketRequest : Type 0 where
  pub base_fee : Option ℕ
  pub target_block_txs : Option ℕ
  pub multipliers : Option FeeMultipliers

-- The three parts of SetFeeMarket, each on what the one before wrote.
unfoldable pub set_base_fee : Option ℕ → FeeMarket → FeeMarket × Option FeeError
set_base_fee none m = (m, none)
set_base_fee (some fee) m =
    if fee == 0 then (m, some base_fee_zero) else (record m { base_fee = fee }, none)

unfoldable pub set_target : Option ℕ → FeeMarket → FeeMarket × Option FeeError
set_target none m = (m, none)
set_target (some n) m =
    if n == 0 then (m, some target_zero) else (record m { target_block_txs = n }, none)

unfoldable pub set_multipliers : Option FeeMultipliers → FeeMarket → FeeMarket × Option FeeError
set_multipliers none m = (m, none)
set_multipliers (some src) m =
    let (dst, done) = apply_fee_multiplier_update m.multipliers src in
    (record m { multipliers = dst }, if done then none else some multiplier_out_of_range)

abbrev unless_failed :
    FeeMarket × Option FeeError
    → (FeeMarket → FeeMarket × Option FeeError)
    → FeeMarket × Option FeeError
unless_failed (m, none) rest = rest m
unless_failed (m, some e) rest = (m, some e)

-- The part of SetFeeMarket after the base fee.
abbrev pub set_rest : SetFeeMarketRequest → FeeMarket → FeeMarket × Option FeeError
set_rest req m = unless_failed (set_target req.target_block_txs m) (set_multipliers req.multipliers)

unfoldable pub set_fee_market : SetFeeMarketRequest → FeeMarket → FeeMarket × Option FeeError
unfolding set_base_fee set_target
set_fee_market req m = unless_failed (set_base_fee req.base_fee m) (set_rest req)

module _ (env : Env) where
  -- The debit of the payer, and the credit of the producer's account as it is then.
  unfoldable pub move_fee : String → String → ℕ → State → State
  move_fee payer_address producer_address fee s =
      let acct = account_locked env s payer_address in
      let debited = record acct { balance = acct.balance - fee } in
      let s1 = record s { accounts = insert debited.address debited s.accounts } in
      let producer = account_locked env s1 producer_address in
      let credited = record producer { balance = add64 producer.balance fee } in
      record s1 { accounts = insert credited.address credited s1.accounts }

  abbrev pub mark_charged : String → State → State
  mark_charged tx_id s = record s { fee_charged_txs = insert tx_id true s.fee_charged_txs }

  unfoldable pub charge_transaction_fee : Transaction → String → State → Result FeeError State
  charge_transaction_fee tx producer_address s =
      let payer_address = normalize_address env tx.from in
      if tx.fee == 0 || has tx.tx_id s.fee_charged_txs
      then ok s
      else if str_eq payer_address ""
      then err payer_required
      else if ltb (account_locked env s payer_address).balance tx.fee
      then err insufficient_for_fee
      else if str_eq payer_address producer_address
      then ok (mark_charged tx.tx_id s)
      else ok (mark_charged tx.tx_id (move_fee payer_address producer_address tx.fee s))

-- adjustFeeMarketAfterBlockLocked; `tx_count` is the block's number of transactions.
abbrev fee_step : ℕ → ℕ
fee_step base = let step = base / 8 in if step == 0 then 1 else step

abbrev with_defaults : FeeMarket → FeeMarket
with_defaults m =
    let m' = if m.base_fee == 0 then default_fee_market else m in
    record m' {
      target_block_txs =
          if m'.target_block_txs == 0 then default_target_block_txs else m'.target_block_txs;
    }

abbrev raise_fee : ℕ → ℕ
raise_fee base =
    let raised = add64 base (fee_step base) in
    if ltb max_base_fee raised then max_base_fee else raised

abbrev lower_fee : ℕ → ℕ
lower_fee base =
    if leb base (add64 default_base_fee (fee_step base))
    then default_base_fee
    else base - fee_step base

unfoldable pub adjust_fee_market : ℕ → ℕ → FeeMarket → FeeMarket
adjust_fee_market tx_count height market =
    let m = with_defaults market in
    record m {
      base_fee =
          if ltb m.target_block_txs tx_count
          then raise_fee m.base_fee
          else if ltb tx_count m.target_block_txs
          then (if ltb default_base_fee m.base_fee then lower_fee m.base_fee else m.base_fee)
          else m.base_fee;
      last_block_txs = tx_count;
      updated_at_height = height;
    }
