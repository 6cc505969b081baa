-- ===== src/Raydium.antt =====
-- The Raydium CPMM adapter, src/adapters/raydium_cpmm/. `PublicKey` is the 32-byte number of
-- @solana/web3.js, which the code only compares.
pub mod Layout
pub mod Params
pub mod Decode
pub mod Fees
pub mod Curve
pub mod TransferFee
pub mod Pool
pub mod Swap
pub mod Adapter
pub mod Tests
