-- ===== src/Pricing/Quotes.antt =====
-- A quote covers what the deal is worth.
use falari.Prelude.{ℕ, ◌+◌, ◌*◌, ◌/◌, ◌≤◌, ◌<◌, ◌≡◌, ◌⊎◌, inl, inr, ok, Result-cases, arith}
use falari.Arith.{max_u64, add64}
use falari.Types.{ErasurePolicy}
use falari.State.{State}
use falari.Pricing.{
  StorageQuoteRequest, StorageQuote, mib, day, base_period_days, if_zero, ceil_big_div,
  total_shards, redundant_storage_bytes, total_storage_mib_days, base_fee, compute_storage_fee,
  completed_pricing, cross_parity_bytes, quoted_duration, storage_quote, new_quote,
}

pub redundant-ok :
    (size : ℕ) (erasure : ErasurePolicy) {bytes : ℕ}
    → redundant_storage_bytes size erasure ≡ ok bytes
    → (0 < size)
      × (0 < erasure.data_shards)
      × (bytes ≤ max_u64)
      × (bytes ≡ ceil_big_div (size * total_shards erasure) erasure.data_shards)
unfolding redundant_storage_bytes
redundant-ok size erasure h = ground arith

pub fee-ok :
    (bytes duration price : ℕ) {fee : ℕ}
    → compute_storage_fee bytes duration price ≡ ok fee
    → (base_fee bytes duration price ≤ fee) × (fee ≡ if_zero 1 (base_fee bytes duration price))
unfolding compute_storage_fee
fee-ok bytes duration price h = ground arith

-- What a quote that is given is made of.
pub quote_lem :
    (req : StorageQuoteRequest) (s : State) {quote : StorageQuote}
    → storage_quote req s ≡ ok quote
    → let pricing = completed_pricing s.storage_pricing in
      let duration = quoted_duration pricing req in
      (bytes : ℕ) × (days : ℕ) × (fee : ℕ) × (redundant_storage_bytes req.file_size req.erasure
        ≡ ok bytes)
      × (compute_storage_fee (add64 bytes (cross_parity_bytes req)) duration pricing.base_price
          ≡ ok fee)
      × (quote ≡ new_quote req s (add64 bytes (cross_parity_bytes req)) days fee)
unfolding storage_quote
quote_lem req s h =
    let pricing = completed_pricing s.storage_pricing in
    let duration = quoted_duration pricing req in
    elim (Result-cases (redundant_storage_bytes req.file_size req.erasure)) [
      | inr (e, failed) ↦ absurd (ground (arith, failed))
      | inl (bytes, sized) ↦
          elim (Result-cases
            (total_storage_mib_days (add64 bytes (cross_parity_bytes req)) duration)) [
              | inr (e, failed) ↦ absurd (ground (arith, sized, failed))
              | inl (days, counted) ↦
                  elim (Result-cases (
                    compute_storage_fee (add64 bytes (cross_parity_bytes req)) duration
                      pricing.base_price)) [
                        | inr (e, failed) ↦ absurd (ground (arith, sized, counted, failed))
                        | inl (fee, priced) ↦ (
                          bytes,
                          days,
                          fee,
                          sized,
                          priced,
                          ground (arith, sized, counted, priced),
                        )
                      ]
            ]
    ]

abbrev stored : StorageQuoteRequest → ℕ
stored req =
    req.file_size * total_shards req.erasure + cross_parity_bytes req * req.erasure.data_shards

abbrev Covered : StorageQuoteRequest → StorageQuote → Type 0
Covered req quote =
    (quote.required_fee ≡ max_u64)
    ⊎ ((quote.pricing.minimum_fee ≤ quote.required_fee)
        × (stored req
              * quote.pricing.base_price
              * if_zero 1 (quote.duration / day)
              * quote.utilization_multiplier
            ≤ quote.required_fee * 10000 * base_period_days * mib * req.erasure.data_shards))
