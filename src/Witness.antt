-- ===== src/Witness.antt =====
-- The theorems applied at concrete inputs, by the part of the program that they are about.
mod Numbers
mod Proofs
mod Deals
mod Pools
mod Quotes
mod Funds
mod Keys
mod Stake
mod Crossing
mod Wallets
mod Vests
mod Rounds
