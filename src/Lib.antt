-- ===== src/Lib.antt =====
-- Verification of atomarb, the read-only engine that looks for atomic arbitrage circuits on Solana:
-- it decodes and validates pools of two exchanges, quotes swaps with the exchanges' own integer
-- arithmetic, sizes circuits WSOL -> token -> WSOL over two pools, and accounts for what an attempt
-- would cost and lock.
--
-- The parts, and how they interact. An adapter (src/adapters/raydium_cpmm/adapter.ts,
-- src/adapters/pumpswap/adapter.ts) decodes a pool from the accounts of a bundle, validates it,
-- quotes swaps on it with the math of its exchange (math.ts and fees.ts beside it), moves it by a
-- quote, and builds the instruction. snapshotPools (src/state/snapshot.ts) fetches the accounts with
-- two calls of the RPC client (src/state/rpc.ts) and hands them to the adapters. The router
-- (src/routing/circuit.ts) asks two adapters in turn, the second for exactly what the first pays out,
-- and searches for the size with the largest profit; the profit is that of src/accounting/pnl.ts,
-- which also deducts the external costs and reconciles an attempt. The capital ledger
-- (src/accounting/capital.ts) bounds the sizes, grants and settles the probes of a shadow run.
--
-- Files and code:
--   Common      shared names: Boolean tests on the native numbers, lists, the result of a call (`ok`, or
--               an exit: `null`, a failure code, an exception), signed integers, division.
--   Bigint      src/util/bigint.ts: ceilDiv, floorDiv, the checks of u64 and u128, the basis points.
--   Bytes       src/util/bytes.ts: little-endian readers and writers, over lists of bytes.
--   Token       src/state/token.ts: parseTlv, parseMint, parseTokenAccount.
--   Raydium     src/adapters/raydium_cpmm/math.ts, every function, and the
--               decoders of layout.ts (Decode): Fees, Curve, TransferFee, Pool (reserves net of
--               fee counters, applyFeeUpdate) and Swap (simulateSwapBaseInput,
--               simulateSwapBaseOutput); Adapter is the class of adapter.ts.
--   Pumpswap    src/adapters/pumpswap/math.ts: Math (buyBaseInput, buyQuoteInput, sellBaseInput),
--               TransferFee; src/adapters/pumpswap/fees.ts: Schedule (calculateFeeTier,
--               feesForQuoteMint, selectFeeSchedule); Decode is layout.ts;
--               Gate is token2022Gate; Adapter is the class of adapter.ts.
--   Adapter     src/adapters/types.ts: accounts, pools, quotes and the interface of an adapter.
--   Rpc         src/state/rpc.ts: getMultipleAccounts and getAccountsBatched.
--   Snapshot    src/state/snapshot.ts: stateHashOf, and in Pools snapshotPools.
--   Registry    the table of the adapters, src/adapters/registry.ts.
--   Accounting  src/accounting/pnl.ts and types.ts: tradingPnl, externalCosts, and in Period,
--               Scenarios and Reconcile transactionPnl, operatingPnl, failureScenarios,
--               breakEvenLandingRate and reconcileAttempt.
--   Routing     src/routing/circuit.ts: evaluateCircuit, in Enumerate enumerateCircuits and
--               filterByMinQuoteReserve, and in Size sizeCircuit with its cache, grid
--               and refinement.
--   Capital     src/accounting/capital.ts: the ledger's constructor, budget, capacityFor, reserve and
--               settle; Settle.Trace is the step relation of its calls.
-- Each module's lemmas stand in its child modules, and its witnesses in its module Tests.
--
-- Correspondence. A record is an interface of the source, a data type a union of its tags, and a
-- function has the name of the source's in snake case. State is passed explicitly: a method of the
-- ledger takes and returns a ledger, and the search of sizeCircuit takes and returns its cache. A
-- method that throws returns an exit, and the state after a throw is not modelled. What the node
-- answers is an argument, by the number of the call. The texts of failures, notes and sources are
-- left out, their codes are kept. A public key is a number, which is only compared; the mint of
-- wrapped SOL and the other known keys are arguments, and so are the addresses that a library
-- derives. A UTC text and a batch id are numbers, which are only compared, and a hash is a function
-- of the parts that its text joins. A `fail` stands for the source's Unsupported, a reject or warning
-- of a validation for its code; the basis points and sources of fee items and the estimates of the
-- price impact are left out.
--
-- Numbers. The source computes with unbounded bigints and writes out its u64 and u128 bounds; so do
-- the definitions. An amount that cannot be negative is a natural number, any other an integer; a
-- division of integers truncates toward 0. Fractions and rates that the source rounds to millionths
-- are given in millionths; the constructor of the ledger, which compares its fractions before they
-- are rounded, is taken to compare the millionths. The loops over lists recurse on the list. The
-- refinement of sizeCircuit recurses on the number of steps that the source bounds it by, so no fuel
-- is added: it is the code's own bound. The loop of parseTlv has as much fuel as the account has
-- bytes, and every turn moves on by four or more; the loop of getAccountsBatched has as much as there
-- are keys, and every turn takes one at least.
--
-- Not modelled: discovery, the retries of the RPC client and its other methods, the WebSocket client,
-- the database, telemetry, configuration, the command line, the local simulator and the builders of
-- transactions, whose work is input and output or calls of libraries; the on-chain programs and the
-- Rust crates; scripts, tests and documents.
pub mod Common
pub mod Bigint
pub mod Bytes
pub mod Raydium
pub mod Pumpswap
pub mod Adapter
pub mod Snapshot
pub mod Rpc
pub mod Registry
pub mod Token
pub mod Accounting
pub mod Routing
pub mod Capital
