-- ===== src/Witness/Quotes.antt =====
-- Examples for quotes: ten MiB in six shards of which four hold data, for thirty days.
use falari.Prelude.{◌≤◌, ◌≡◌, refl, ok, arith}
use falari.Pricing.{
  StorageQuoteRequest, StorageQuote, storage_quote, new_quote, redundant_storage_bytes,
  total_storage_mib_days, compute_storage_fee, ceil_big_div, cross_parity_bytes,
  active_storage_capacity, utilization_bps, storage_utilization_multiplier,
  apply_multiplier_and_minimum,
}
use falari.Pricing.Growth.{storage_quote_mono, with_size}
use falari.Fixtures.{chain}

abbrev request : StorageQuoteRequest
request = record {
  file_size = 10_485_760;
  segment_size = 4_194_304;
  erasure = record { data_shards = 4; parity_shards = 2 };
  duration = 2_592_000;
  repair_pools = 1;
}

-- 21 MiB are stored, at a tenth of the base price.
abbrev quote : StorageQuote
quote = new_quote request chain 22_020_096 630 21_000_000

quoted : storage_quote request chain ≡ ok quote
unfolding storage_quote redundant_storage_bytes total_storage_mib_days compute_storage_fee
    ceil_big_div cross_parity_bytes
quoted = refl

fee_of_quote : quote.required_fee ≡ 21_000_000
unfolding active_storage_capacity utilization_bps storage_utilization_multiplier
    apply_multiplier_and_minimum ceil_big_div
fee_of_quote = refl

abbrev twice : StorageQuote
twice = new_quote (with_size 20_971_520 request) chain 37_748_736 1080 36_000_000

quoted_twice : storage_quote (with_size 20_971_520 request) chain ≡ ok twice
unfolding storage_quote redundant_storage_bytes total_storage_mib_days compute_storage_fee
    ceil_big_div cross_parity_bytes
quoted_twice = refl

storage_quote_mono_example : quote.required_fee ≤ twice.required_fee
unfolding ceil_big_div cross_parity_bytes
storage_quote_mono_example =
    storage_quote_mono request 20_971_520 chain quote twice (omega arith) quoted quoted_twice
      (omega arith) (omega arith)
