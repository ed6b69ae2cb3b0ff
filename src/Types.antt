-- ===== src/Types.antt =====
-- The records of internal/wire (types.go) and of the chain state (internal/chain/state.go). Times
-- and counts that the source keeps in int64 or int are natural numbers: the code only stores what
-- its guards leave non-negative.
mod Ledger
mod Bridging
mod Storage
pub use Ledger.*
pub use Bridging.*
pub use Storage.*
