-- ===== src/Pumpswap/Schedule/Select.antt =====
-- `feesForQuoteMint` and `selectFeeSchedule` of src/adapters/pumpswap/fees.ts: a schedule is always
-- found, and it is one that the config offers.
use atomarb.Common.{
  ℕ, ◌*◌, ◌/◌, ◌<◌, ◌≡◌, ◌⊎◌, refl, sym, subst, Bool, true, false, Bool-cases, inl, inr, Option,
  none, some, List, [], ◌∷◌, get_elem?, ok, ◌==◌, if◌then◌else◌, arith,
}
use atomarb.Raydium.Layout.{PublicKey}
use atomarb.Pumpswap.Schedule.{
  Fees, FeeTier, PumpFeeConfig, PumpPool, Keys, is_sol_like_quote_mint, is_stable_quote_mint,
  is_zero_fees, is_pump_pool, pool_market_cap, calculate_fee_tier, stable_or, stable_tiers,
  fees_for_quote_mint, FeeSchedule, overrides, schedule_of, select_fee_schedule,
  pump_amm_total_token_supply,
}
use atomarb.Pumpswap.Schedule.Tiers.{tier-found}

-- The fees that a config holds for a pool that is, or is not, one of Pump, and for its quote mint: the
-- flat fees if it is not; of a pool of Pump, a tier for wrapped SOL and its like, a stable tier for a
-- stable mint, or a tier if there are no stable ones, and else the exotic fees, or the flat ones where
-- the exotic fees are not set.
pub data IsOffered (k : Keys) (c : PumpFeeConfig) (pump : Bool) (mint : PublicKey)
    : Fees → Type 0 where
  flat : pump ≡ false → IsOffered k c pump mint c.flat_fees
  exotic :
      pump ≡ true
      → is_sol_like_quote_mint k mint ≡ false
      → is_stable_quote_mint k mint ≡ false
      → is_zero_fees c.exotic_flat_fees ≡ false
      → IsOffered k c pump mint c.exotic_flat_fees
  unset :
      pump ≡ true
      → is_sol_like_quote_mint k mint ≡ false
      → is_stable_quote_mint k mint ≡ false
      → is_zero_fees c.exotic_flat_fees ≡ true
      → IsOffered k c pump mint c.flat_fees
  tier :
      pump ≡ true
      → (is_sol_like_quote_mint k mint ≡ true)
        ⊎ ((is_stable_quote_mint k mint ≡ true) × (c.stable_fee_tiers ≡ []))
      → (i : ℕ) (t : FeeTier) → get_elem? c.fee_tiers i ≡ some t
      → IsOffered k c pump mint t.fees
  stable :
      pump ≡ true
      → is_sol_like_quote_mint k mint ≡ false
      → is_stable_quote_mint k mint ≡ true
      → (i : ℕ) (t : FeeTier) → get_elem? c.stable_fee_tiers i ≡ some t
      → IsOffered k c pump mint t.fees

-- A tier of the list that is tried, as fees that the config holds.
tiered_at :
    (k : Keys) (c : PumpFeeConfig) (mint : PublicKey) (tiers : List FeeTier) (t : FeeTier)
    (ts : List FeeTier) (cap : ℕ)
    → tiers ≡ t ∷ ts
    → ((i : ℕ) (u : FeeTier) → get_elem? tiers i ≡ some u → IsOffered k c true mint u.fees)
    → (r : Fees × ℕ) × (calculate_fee_tier tiers cap ≡ ok r) × IsOffered k c true mint r.0
tiered_at k c mint tiers t ts cap e offer =
    let (r, h, u, found, fees) = tier-found t ts cap in
    (r, rw e h, subst (IsOffered k c true mint) (sym fees) (offer r.1 u (rw e found)))

stable_at :
    (k : Keys) (c : PumpFeeConfig) (mint : PublicKey) (t : FeeTier) (ts : List FeeTier) (cap : ℕ)
    → c.fee_tiers ≡ t ∷ ts
    → is_sol_like_quote_mint k mint ≡ false
    → is_stable_quote_mint k mint ≡ true
    → (s : List FeeTier) → s ≡ c.stable_fee_tiers
    → (r : Fees × ℕ) × (calculate_fee_tier (stable_or c s) cap ≡ ok r) × IsOffered k c true mint r.0
unfolding stable_or
stable_at k c mint t ts cap e other usd [] same =
    tiered_at k c mint c.fee_tiers t ts cap e (tier refl (inr (usd, sym same)))
stable_at k c mint t ts cap e other usd (u ∷ us) same =
    tiered_at k c mint (u ∷ us) u us cap refl λ i v h. stable refl other usd i v (rw (sym same) h)

offered :
    (k : Keys) (c : PumpFeeConfig) (pump : Bool) (cap : ℕ) (mint : PublicKey) (t : FeeTier)
    (ts : List FeeTier)
    → c.fee_tiers ≡ t ∷ ts
    → (r : Fees × Option ℕ) × (fees_for_quote_mint k c pump cap mint ≡ ok r)
      × IsOffered k c pump mint r.0
unfolding fees_for_quote_mint stable_tiers
offered k c false cap mint t ts e = ((c.flat_fees, none), refl, flat refl)
offered k c true cap mint t ts e = elim (Bool-cases (is_sol_like_quote_mint k mint)) [
  | inl sol ↦
      let (r, h, o) = tiered_at k c mint c.fee_tiers t ts cap e (tier refl (inl sol)) in
      ((r.0, some r.1), rw (sol, h) refl, o)
  | inr other ↦ elim (Bool-cases (is_stable_quote_mint k mint)) [
    | inl usd ↦
        let (r, h, o) = stable_at k c mint t ts cap e other usd c.stable_fee_tiers refl in
        ((r.0, some r.1), rw (other, usd, h) refl, o)
    | inr neither ↦ elim (Bool-cases (is_zero_fees c.exotic_flat_fees)) [
      | inl zero ↦
          ((c.flat_fees, none), rw (other, neither, zero) refl, unset refl other neither zero)
      | inr set ↦
          ((c.exotic_flat_fees, none), rw (other, neither, set) refl, exotic refl other neither set)
    ]
  ]
]

-- What a schedule charges, given fees that the config offers to the pool.
pub record IsSchedule (k : Keys) (pool : PumpPool) (configurable : Bool) (c : PumpFeeConfig)
    (r : FeeSchedule) : Type 0 where
  pub offer : Fees
  pub is_offered : IsOffered k c (is_pump_pool k pool.base_mint pool.creator) pool.quote_mint offer
  pub lp : r.lp_bps ≡ offer.lp_fee_bps
  pub protocol : r.protocol_bps ≡ offer.protocol_fee_bps
  pub no_creator : pool.coin_creator ≡ k.default → r.creator_bps ≡ 0
  pub creator :
      ¬ (pool.coin_creator ≡ k.default)
      → ((r.creator_bps ≡ pool.creator_fee_bps)
          × (configurable ≡ true)
          × (0 < pool.creator_fee_bps))
        ⊎ ((r.creator_bps ≡ offer.creator_fee_bps)
            × ((configurable ≡ false) ⊎ (pool.creator_fee_bps ≡ 0)))

schedule_of-IsSchedule :
    (k : Keys) (pool : PumpPool) (configurable : Bool) (c : PumpFeeConfig) (cap : ℕ)
    (sel : Fees × Option ℕ)
    → IsOffered k c (is_pump_pool k pool.base_mint pool.creator) pool.quote_mint sel.0
    → IsSchedule k pool configurable c (schedule_of k pool configurable cap sel)
unfolding schedule_of overrides
schedule_of-IsSchedule k pool configurable c cap sel o = record {
  offer = sel.0;
  is_offered = o;
  lp = refl;
  protocol = refl;
  no_creator = λ h. ground arith;
  creator = λ h. ground arith;
}

-- With a base reserve and at least one fee tier, a schedule is always selected. Its lp and protocol
-- rates are those of fees that the config offers to the pool: the flat ones if it is no pool of Pump; a
-- tier if its quote mint is SOL or like it, a stable tier if the mint is a stable one, or a tier if
-- there are no stable ones; and for any other mint the exotic fees, or the flat ones if those are all
-- zero. The creator's rate is 0 if the coin has no creator, and else the pool's own, where it may be
-- set and is not 0, or the one of the same fees.
pub select_fee_schedule-IsSchedule :
    (k : Keys) (pool : PumpPool) (configurable : Bool) (c : PumpFeeConfig)
    (supply base effective_quote : ℕ) (t : FeeTier) (ts : List FeeTier)
    → 0 < base
    → c.fee_tiers ≡ t ∷ ts
    → (r : FeeSchedule) × (select_fee_schedule k pool configurable c supply base effective_quote
        ≡ ok r)
      × IsSchedule k pool configurable c r
unfolding select_fee_schedule pool_market_cap
select_fee_schedule-IsSchedule k pool configurable c supply base eff t ts h e =
    let cap = eff * (if pool.is_mayhem_mode then pump_amm_total_token_supply else supply) / base in
    let pump = is_pump_pool k pool.base_mint pool.creator in
    let b : (base == 0) ≡ false = ground arith in
    let (sel, f, o) = offered k c pump cap pool.quote_mint t ts e in
    (
      schedule_of k pool configurable cap sel,
      rw (b, f) refl,
      schedule_of-IsSchedule k pool configurable c cap sel o,
    )
