-- ===== src/Pricing.antt =====
-- What a user has to lock for a deal (internal/chain/storage_pricing.go). The sizes, which are
-- int64 or int in the source, are natural numbers, so the tests for a negative one are left out.
-- Products and quotients are taken on big.Int, which have no bound; of the repair pools only the
-- number is read.
pub mod Ceiling
pub mod Quotes
pub mod Growth
use falari.Prelude.{
  ℕ, zero, suc, ◌+◌, ◌-◌, ◌*◌, ◌/◌, ◌%◌, ◌^◌, Bool, ◌||◌, ◌&&◌, List, [], ◌∷◌, Result, ok, err,
  fail_if, ◌>>=◌, ◌>>◌, ltb, leb, ◌==◌, if◌then◌else◌,
}
use falari.Arith.{max_u64, add64, mul64, saturating_add}
use falari.Dict.{Dict}
use falari.Types.{ErasurePolicy, MinerStats, StoragePricing}
use falari.State.{State}
use falari.TokenRelease.{is_active_miner}

pub record StorageQuoteRequest : Type 0 where
  pub file_size : ℕ
  pub segment_size : ℕ
  pub erasure : ErasurePolicy
  pub duration : ℕ  -- Policy.Duration
  pub repair_pools : ℕ

pub record StorageQuote : Type 0 where
  pub pricing : StoragePricing
  pub file_size : ℕ
  pub redundant_bytes : ℕ
  pub duration : ℕ
  pub total_mib_days : ℕ
  pub utilization_bps : ℕ
  pub utilization_multiplier : ℕ
  pub required_fee : ℕ
  pub active_capacity_bytes : ℕ
  pub active_used_bytes : ℕ

pub data QuoteError : Type 0 where
  file_size_required invalid_erasure size_overflow : QuoteError
  duration_required days_overflow fee_overflow : QuoteError

abbrev pub mib : ℕ
mib = 1024 * 1024

abbrev pub day : ℕ
day = 24 * 60 * 60

abbrev pub base_period_days : ℕ
base_period_days = 300

abbrev pub if_zero : ℕ → ℕ → ℕ
if_zero other n = if n == 0 then other else n

unfoldable pub ceil_big_div : ℕ → ℕ → ℕ
ceil_big_div numerator denominator =
    if denominator == 0
    then 0
    else if numerator % denominator == 0
    then numerator / denominator
    else numerator / denominator + 1

-- IsUint64
abbrev pub as_uint64 : QuoteError → ℕ → Result QuoteError ℕ
as_uint64 overflow value = if ltb max_u64 value then err overflow else ok value

abbrev pub total_shards : ErasurePolicy → ℕ
total_shards erasure = erasure.data_shards + erasure.parity_shards

unfoldable pub redundant_storage_bytes : ℕ → ErasurePolicy → Result QuoteError ℕ
redundant_storage_bytes file_size erasure = do
  fail_if (file_size == 0) file_size_required
  fail_if (erasure.data_shards == 0) invalid_erasure
  as_uint64 size_overflow (ceil_big_div (file_size * total_shards erasure) erasure.data_shards)

unfoldable pub total_storage_mib_days : ℕ → ℕ → Result QuoteError ℕ
total_storage_mib_days redundant_bytes duration = do
  fail_if (duration == 0) duration_required
  total ← as_uint64 days_overflow (ceil_big_div redundant_bytes mib * (duration / day))
  ok (if_zero 1 total)

-- What is due for so many bytes and days, before it is cut to 64 bits.
abbrev pub base_fee : ℕ → ℕ → ℕ → ℕ
base_fee redundant_bytes duration base_price =
    let redundant_mib = if_zero 1 (ceil_big_div redundant_bytes mib) in
    ceil_big_div (redundant_mib * base_price * if_zero 1 (duration / day)) base_period_days

unfoldable pub compute_storage_fee : ℕ → ℕ → ℕ → Result QuoteError ℕ
compute_storage_fee redundant_bytes duration base_price = do
  fail_if (duration == 0) duration_required
  fee ← as_uint64 fee_overflow (base_fee redundant_bytes duration base_price)
  ok (if_zero 1 fee)

unfoldable pub apply_multiplier_and_minimum : ℕ → ℕ → ℕ → ℕ
apply_multiplier_and_minimum fee multiplier minimum =
    let value = ceil_big_div (fee * multiplier) 10000 in
    if ltb max_u64 value then max_u64 else if ltb value minimum then minimum else value

-- The capacity of the active miners, and what of it is used or reserved.
unfoldable pub active_storage_capacity : Dict MinerStats → ℕ → ℕ → ℕ × ℕ
active_storage_capacity [] capacity used = (capacity, used)
active_storage_capacity ((_, miner) ∷ rest) capacity used =
    active_storage_capacity rest
      (if is_active_miner miner.status
        then saturating_add capacity miner.capacity_bytes
        else capacity)
      (if is_active_miner miner.status
        then saturating_add used (saturating_add miner.used_bytes miner.reserved_bytes)
        else used)

unfoldable pub utilization_bps : ℕ → ℕ → ℕ
utilization_bps used capacity =
    if capacity == 0 || used == 0
    then 0
    else (let value = used * 10000 / capacity in if ltb max_u64 value then max_u64 else value)

unfoldable pub storage_utilization_multiplier : ℕ → ℕ
storage_utilization_multiplier utilization =
    if leb 7000 utilization
    then 15000
    else if leb 5000 utilization
    then 10000
    else if leb 3000 utilization
    then 7000
    else if ltb 0 utilization
    then 5000
    else 10000

abbrev pub default_storage_pricing : StoragePricing
default_storage_pricing = record {
  base_price = 10_000_000;
  minimum_fee = 100_000;
  permanent_duration = 50 * 365 * 24 * 60 * 60;
}

-- The pricing with its defaults filled in.
abbrev pub completed_pricing : StoragePricing → StoragePricing
completed_pricing given =
    let pricing = if given.base_price == 0 then default_storage_pricing else given in
    record pricing {
      minimum_fee = if_zero default_storage_pricing.minimum_fee pricing.minimum_fee;
      permanent_duration =
          if_zero default_storage_pricing.permanent_duration pricing.permanent_duration;
    }

-- A quotient on int64: a sum past 2^63 - 1 has wrapped to a negative number, whose quotient is cut
-- towards zero and then read as a uint64.
abbrev int64_quotient : ℕ → ℕ → ℕ
int64_quotient sum n = if ltb sum (2 ^ 63) then sum / n else (2 ^ 64 - (2 ^ 64 - sum) / n) % 2 ^ 64

-- The shards of the repair pools, multiplied on uint64.
unfoldable pub cross_parity_bytes : StorageQuoteRequest → ℕ
cross_parity_bytes req =
    let shards = req.erasure.data_shards in
    let shard_size = int64_quotient (req.segment_size + shards - 1) shards in
    if req.segment_size == 0 || shards == 0 || req.repair_pools == 0
    then 0
    else mul64 (mul64 req.repair_pools (total_shards req.erasure)) shard_size

abbrev pub quoted_duration : StoragePricing → StorageQuoteRequest → ℕ
quoted_duration pricing req = if_zero pricing.permanent_duration req.duration

-- The response, once the sizes and the fee have been worked out.
abbrev pub new_quote : StorageQuoteRequest → State → ℕ → ℕ → ℕ → StorageQuote
new_quote req s redundant_bytes mib_days storage_fee =
    let pricing = completed_pricing s.storage_pricing in
    let (capacity, used) = active_storage_capacity s.miners 0 0 in
    let utilization = utilization_bps used capacity in
    let multiplier = storage_utilization_multiplier utilization in
    record {
      pricing = pricing;
      file_size = req.file_size;
      redundant_bytes = redundant_bytes;
      duration = quoted_duration pricing req;
      total_mib_days = mib_days;
      utilization_bps = utilization;
      utilization_multiplier = multiplier;
      required_fee = apply_multiplier_and_minimum storage_fee multiplier pricing.minimum_fee;
      active_capacity_bytes = capacity;
      active_used_bytes = used;
    }

unfoldable pub storage_quote : StorageQuoteRequest → State → Result QuoteError StorageQuote
storage_quote req s = do
  fail_if (req.file_size == 0) file_size_required
  fail_if (req.erasure.data_shards == 0) invalid_erasure
  let pricing = completed_pricing s.storage_pricing
  let duration = quoted_duration pricing req
  file_bytes ← redundant_storage_bytes req.file_size req.erasure
  let redundant_bytes = add64 file_bytes (cross_parity_bytes req)
  mib_days ← total_storage_mib_days redundant_bytes duration
  storage_fee ← compute_storage_fee redundant_bytes duration pricing.base_price
  ok (new_quote req s redundant_bytes mib_days storage_fee)
