-- ===== src/Capital.antt =====
-- The capital ledger of the shadow probes, src/accounting/capital.ts: `class CapitalLedger`, its state
-- as a record and each method as a function of it. The map of pending positions, keyed by their ids,
-- is the list of its values in insertion order. A fraction of the configuration is a whole number of
-- millionths, as `Math.round(x * 1e6)` makes it.
pub mod Types
pub mod Budget
pub mod Reserve
pub mod Settle
pub mod Tests
