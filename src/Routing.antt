-- ===== src/Routing.antt =====
-- Circuits over two pools, src/routing/circuit.ts: how one is evaluated and how its size is chosen. The
-- adapters and the mint of wrapped SOL are arguments. The texts of reasons are data.
pub mod Evaluate
pub mod Size
pub mod Enumerate
pub mod Tests
use atomarb.Common.{
  ℕ, Bool, true, false, Option, none, some, List, [], ◌∷◌, Result, ok, err, null, fail, throw, Code,
  ◌>>=◌, if◌then◌else◌,
}
use atomarb.Common.Int.{ℤ, pos, leb_ℤ}
use atomarb.Raydium.Layout.{PublicKey}
use atomarb.Adapter.{AdapterId, DecodedPool, Quote, PoolAdapter}
use atomarb.Accounting.{TradingPnl, trading_pnl}

pub data Category : Type 0 where
  cross_adapter same_adapter : Category

pub record Circuit : Type 0 where
  pub token : PublicKey
  pub pool_a : DecodedPool
  pub pool_b : DecodedPool
  pub category : Category

pub record CircuitEval : Type 0 where
  pub amount_in : ℤ
  pub quote_a : Quote
  pub quote_b : Quote
  pub pnl : TradingPnl

pub data Reason : Type 0 where
  zero_trade leg_a_zero_out above_max_capital : Reason
  leg_a_unsupported leg_b_unsupported : Code → Reason
  leg_a_reject leg_b_reject : List Code → Reason

pub data CircuitResult : Type 0 where
  evaluated : CircuitEval → CircuitResult
  failed : Reason → CircuitResult

unfoldable pub is_empty : List Code → Bool
is_empty [] = true
is_empty (r ∷ rs) = false

-- The body after the quote of leg B.
unfoldable pub after_leg_b : PublicKey → ℤ → Quote → Result Quote → Result CircuitResult
unfolding trading_pnl is_empty
after_leg_b wsol x qa (err (fail code)) = ok (failed (leg_b_unsupported code))
after_leg_b wsol x qa (err null) = err null
after_leg_b wsol x qa (err (throw t)) = err (throw t)
after_leg_b wsol x qa (ok qb) =
    if is_empty qb.reject_reasons
    then (trading_pnl wsol qa qb >>= λ p.
        ok (evaluated (record { amount_in = x; quote_a = qa; quote_b = qb; pnl = p })))
    else ok (failed (leg_b_reject qb.reject_reasons))

-- The body after the quote of leg A.
unfoldable pub after_leg_a :
    PublicKey → (AdapterId → PoolAdapter) → Circuit → ℤ → Result Quote → Result CircuitResult
unfolding after_leg_b is_empty
after_leg_a wsol adapters c x (err (fail code)) = ok (failed (leg_a_unsupported code))
after_leg_a wsol adapters c x (err null) = err null
after_leg_a wsol adapters c x (err (throw t)) = err (throw t)
after_leg_a wsol adapters c x (ok qa) =
    if is_empty qa.reject_reasons
    then (if leb_ℤ qa.amount_out_to_user (pos 0)
        then ok (failed leg_a_zero_out)
        else after_leg_b wsol x qa
            ((adapters c.pool_b.adapter).quote_exact_in c.pool_b c.token qa.amount_out_to_user))
    else ok (failed (leg_a_reject qa.reject_reasons))

unfoldable pub evaluate_circuit :
    PublicKey → (AdapterId → PoolAdapter) → Circuit → ℤ → Result CircuitResult
unfolding after_leg_a
evaluate_circuit wsol adapters c x =
    if leb_ℤ x (pos 0)
    then ok (failed zero_trade)
    else after_leg_a wsol adapters c x ((adapters c.pool_a.adapter).quote_exact_in c.pool_a wsol x)
