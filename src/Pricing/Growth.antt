-- ===== src/Pricing/Growth.antt =====
-- A larger file has a larger quote.
use falari.Prelude.{ℕ, ◌+◌, ◌*◌, ◌/◌, ◌≤◌, ◌<◌, ◌≡◌, refl, ok, arith}
use native.Mathlib.Nat.{mul-le-mul_right}
use falari.Arith.{u64_mod, max_u64, add64}
use falari.State.{State}
use falari.Pricing.{
  StorageQuoteRequest, StorageQuote, mib, day, base_period_days, if_zero, ceil_big_div,
  total_shards, base_fee, apply_multiplier_and_minimum, completed_pricing, cross_parity_bytes,
  quoted_duration, storage_quote, new_quote,
}
use falari.Pricing.Ceiling.{ceil_big_div_mono}
use falari.Pricing.Quotes.{redundant-ok, fee-ok, quote_lem}

if_zero_mono : (a b : ℕ) → a ≤ b → if_zero 1 a ≤ if_zero 1 b
if_zero_mono a b h = ground arith

base_fee_mono :
    (a b duration price : ℕ) → a ≤ b → base_fee a duration price ≤ base_fee b duration price
base_fee_mono a b duration price h =
    let more =
      if_zero_mono (ceil_big_div a mib) (ceil_big_div b mib) (ceil_big_div_mono a b mib h) in
    let days = if_zero 1 (duration / day) in
    ceil_big_div_mono (if_zero 1 (ceil_big_div a mib) * price * days)
      (if_zero 1 (ceil_big_div b mib) * price * days) base_period_days
      (mul-le-mul_right days (mul-le-mul_right price more))

multiplied_mono :
    (a b multiplier minimum : ℕ)
    → minimum ≤ max_u64
    → a ≤ b
    → apply_multiplier_and_minimum a multiplier minimum
      ≤ apply_multiplier_and_minimum b multiplier minimum
unfolding apply_multiplier_and_minimum
multiplied_mono a b multiplier minimum small h =
    let more =
      ceil_big_div_mono (a * multiplier) (b * multiplier) 10000 (mul-le-mul_right multiplier h) in
    ground (arith, more)

abbrev pub with_size : ℕ → StorageQuoteRequest → StorageQuoteRequest
with_size size req = record req { file_size = size }

same_cross :
    (req : StorageQuoteRequest) (size : ℕ)
    → cross_parity_bytes (with_size size req) ≡ cross_parity_bytes req
unfolding cross_parity_bytes
same_cross req size = refl

-- A larger file is never cheaper: with the same coding, duration and repair pools, in the same
-- state, its quote asks for at least as much. It holds where both quotes are given and the bytes of
-- the larger one fit in 64 bits, as the minimum fee does.
pub storage_quote_mono :
    (req : StorageQuoteRequest) (size : ℕ) (s : State) (small large : StorageQuote)
    → req.file_size ≤ size
    → storage_quote req s ≡ ok small
    → storage_quote (with_size size req) s ≡ ok large
    → ceil_big_div (size * total_shards req.erasure) req.erasure.data_shards
        + cross_parity_bytes req
      < u64_mod
    → (completed_pricing s.storage_pricing).minimum_fee ≤ max_u64
    → small.required_fee ≤ large.required_fee
storage_quote_mono req size s small large larger h k fits low =
    let (bytes, days, fee, sized, priced, made) = quote_lem req s h in
    let (bytes', days', fee', sized', priced', made') = quote_lem (with_size size req) s k in
    let cross = cross_parity_bytes req in
    let pricing = completed_pricing s.storage_pricing in
    let duration = quoted_duration pricing req in
    let exact = (redundant-ok req.file_size req.erasure sized).3 in
    let exact' = (redundant-ok size req.erasure sized').3 in
    let more =
      ceil_big_div_mono (req.file_size * total_shards req.erasure) (size * total_shards req.erasure)
        req.erasure.data_shards (mul-le-mul_right (total_shards req.erasure) larger) in
    let same = same_cross req size in
    let bytes_more = add64 bytes' (cross_parity_bytes (with_size size req)) in
    let bigger : add64 bytes cross ≤ bytes_more = omega (arith, exact, exact', more, same) in
    let due = (fee-ok (add64 bytes cross) duration pricing.base_price priced).1 in
    let due_more = (fee-ok bytes_more duration pricing.base_price priced').1 in
    let grown =
      if_zero_mono (base_fee (add64 bytes cross) duration pricing.base_price)
        (base_fee bytes_more duration pricing.base_price)
        (base_fee_mono (add64 bytes cross) bytes_more duration pricing.base_price bigger) in
    rw (made, made')
      (multiplied_mono fee fee'
        (new_quote req s (add64 bytes cross) days fee).utilization_multiplier pricing.minimum_fee
        low (omega (arith, due, due_more, grown)))
