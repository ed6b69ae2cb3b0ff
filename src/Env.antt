-- ===== src/Env.antt =====
-- Addresses (internal/wire/address.go). The hex test and the checksum spelling are go-ethereum's
-- `common.IsHexAddress` and `common.HexToAddress(a).Hex()`: parameters, with the documented facts
-- that a checksum spelling is a hex address and is its own checksum spelling.
use falari.Prelude.{String, ◌≡◌, Bool, true, if◌then◌else◌, inl, inr, Bool-cases}

pub record Env : Type 0 where
  pub is_hex_address : String → Bool
  pub checksum_address : String → String
  pub checksum-hex :
      (a : String) → is_hex_address a ≡ true → is_hex_address (checksum_address a) ≡ true
  pub checksum-checksum :
      (a : String)
      → is_hex_address a ≡ true
      → checksum_address (checksum_address a) ≡ checksum_address a

module _ (env : Env) where
  unfoldable pub normalize_address : String → String
  normalize_address a = if env.is_hex_address a then env.checksum_address a else a

  -- Normalising an address twice gives what normalising it once gives, so every spelling of an
  -- address names one account.
  pub normalize_address_idempotent :
      (a : String) → normalize_address (normalize_address a) ≡ normalize_address a
  unfolding normalize_address
  normalize_address_idempotent a = elim (Bool-cases (env.is_hex_address a)) [
    | inl e ↦ rw (e, env.checksum-hex a e, env.checksum-checksum a e)
    | inr e ↦ rw (e, e)
  ]
