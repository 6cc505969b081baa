-- ===== src/Pumpswap.antt =====
-- The PumpSwap adapter, src/adapters/pumpswap/: its swap math and its choice of a fee schedule.
pub mod Math
pub mod TransferFee
pub mod Schedule
pub mod Decode
pub mod Gate
pub mod Params
pub mod Adapter
pub mod Tests
