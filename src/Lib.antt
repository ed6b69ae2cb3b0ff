-- ===== src/Lib.antt =====
-- Falari: a model of the chain node's state machine (internal/chain), with theorems.
--
-- The node keeps one state (`State` of internal/chain/state.go), which requests and blocks rewrite.
-- A request is checked, applied and recorded as a transaction by the node that receives it; the
-- other nodes apply the transaction again when they replay the block (internal/chain/tx_replay.go).
-- Each operation is a function from the state, its request and what it takes from outside to a new
-- state or an error, with the checks in the source's order; the two sides of an operation are two
-- functions (`delegate_stake` is DelegateStake, `apply_delegate_stake` is
-- applyDelegateStakeLocked).
--
-- The files:
--   Prelude         shared names, Boolean tests, lists, and the result of a fallible function
--   Dict            a Go map as an association list, with its laws
--   Text            lower-casing and strings.EqualFold
--   Arith           uint64 helpers: saturatingAdd, safeAddU64, transferTotalCost, mulDivUint64,
--                   bftThreshold; their wrap-around is written out as `% 2 ^ 64`
--   Types, State    the records of internal/wire/types.go and internal/chain/state.go
--   Env             addresses: NormalizeAddress of internal/wire/address.go
--   Accounts        accountLocked, and the nonce checks of internal/chain/request_auth.go
--   Transfer        applyTransferLocked and applySignedTransferLocked of tx_replay.go
--   FeeMarket       internal/chain/fee_market.go
--   AgentKeys       internal/chain/agent_key.go and agent_request_auth.go
--   Staking         internal/chain/validator_delegation.go
--   Bridge          internal/chain/bridge.go, and hasAdminPermission of admin_auth.go
--   Multisig        internal/chain/multisig.go and internal/wire/multisig.go
--   Consensus       internal/chain/consensus_engine.go, availability.go,
--                   validator_rotation.go, and the powers of block.go
--   Vesting         internal/chain/mining_vesting.go
--   TokenRelease    internal/chain/token_release.go and storage_reward_index.go
--   Escrow          internal/chain/storage_fee_pool.go
--   PermanentFund   internal/chain/permanent_fund.go and storage_payments.go
--   Pricing         internal/chain/storage_pricing.go
--   Renewal         the automatic renewals of internal/chain/renewal.go
--   Merkle          internal/crypto/merkle.go and hash.go
--   StorageProofs   Prove of internal/storage/node.go, internal/chain/storage_proof.go, and the
--                   challenges of internal/chain/state.go
--   Fixtures        concrete data, and Witness the theorems applied to it
--
-- How they interact: all parts read and write accounts through Accounts (accountLocked), check the
-- sums of uint64 with Arith, and use up nonces with consume_account_nonce. Accounts/Funds has the
-- laws of the sum over all accounts, in which the conservation theorems of Transfer, FeeMarket,
-- Staking, Bridge, Multisig, Vesting, TokenRelease, Escrow and PermanentFund are stated. A payment
-- to a miner (PermanentFund/Payouts) is taken out of a deal by Escrow or out of its permanent fund,
-- and granted by vest_mining_reward of Vesting, which the release to validators uses too.
-- StorageProofs checks the samples of a proof with Merkle.
--
-- What comes from outside is an argument: the verdict on a signature or the address that it
-- recovers to, a hash, the wall clock and the block clock, and the random bytes of an agent key's
-- id. The hex test and the checksum spelling of an address are go-ethereum's; Env has them as
-- parameters. SHA-256 and base64 are the fields of `Codec` (StorageProofs): a digest is not empty,
-- and decoding gives back what was encoded. Merkle takes the two hashes as arguments.
--
-- Bounds: every uint64 addition or product that can wrap does so in the model (`add64`, `mul64`); a
-- subtraction stands behind the guard that the source has. The amounts of the storage reward index
-- and of quotes are big.Int in the source and have no bound here. Fuel: `decimal` (Text) prints a
-- number of fewer digits than its fuel, one more than the number; the loops of Merkle over the
-- levels of a tree have the number of leaves, which each level brings down, and over the data the
-- number of bytes, of which each round takes one at least; the loop of storageProofSampleCount has
-- the number that it halves. Other loops are structural.
--
-- Not modelled: blocks, votes and the mempool, the life of storage deals and their renewal on
-- request, the submission of storage proofs and its sanctions, governance, contracts, events, the
-- recording of transactions and the state file; the HTTP server, the command lines, and of the
-- storage and gateway nodes all but the answer to a challenge.
pub mod Prelude
pub mod Text
pub mod Dict
pub mod Arith
pub mod Types
pub mod Env
pub mod State
pub mod Accounts
pub mod Escrow
pub mod Pricing
pub mod Renewal
pub mod PermanentFund
pub mod TokenRelease
pub mod Merkle
pub mod StorageProofs
pub mod Transfer
pub mod FeeMarket
pub mod AgentKeys
pub mod Staking
pub mod Bridge
pub mod Multisig
pub mod Vesting
pub mod Consensus
pub mod Fixtures
pub mod Witness
