-- ===== src/Pumpswap/Schedule/Tiers.antt =====
-- `calculateFeeTier` of src/adapters/pumpswap/fees.ts: the tier of a market cap.
use atomarb.Common.{
  ℕ, zero, suc, ◌+◌, ◌≤◌, ◌<◌, ◌≡◌, ◌⊎◌, refl, ap, subst, Bool-cases, inl, inr, Option, none, some,
  List, [], ◌∷◌, get_elem?, All, ok, ltb, leb, arith,
}
use atomarb.Pumpswap.Schedule.{Fees, FeeTier, last_reached, or_this, or_first, calculate_fee_tier}

some_inj : (t u : FeeTier) → some t ≡ some u → t ≡ u
some_inj t u e = cc

-- Thresholds that never fall along the list.
abbrev pub AreSorted : List FeeTier → Type 0
AreSorted [] = Unit
AreSorted (t ∷ ts) =
    All (λ u. t.market_cap_lamports_threshold ≤ u.market_cap_lamports_threshold) ts × AreSorted ts

-- The tier at the index has the fees and is reached, and no later one is.
record IsLast (tiers : List FeeTier) (from cap : ℕ) (r : Fees × ℕ) : Type 0 where
  place : ℕ
  index : r.1 ≡ from + place
  tier : FeeTier
  found : get_elem? tiers place ≡ some tier
  fees : r.0 ≡ tier.fees
  reached : tier.market_cap_lamports_threshold ≤ cap
  later :
      (j : ℕ) (u : FeeTier)
      → place < j
      → get_elem? tiers j ≡ some u
      → cap < u.market_cap_lamports_threshold

-- No tier is reached.
abbrev NoneReached : List FeeTier → ℕ → Type 0
NoneReached tiers cap =
    (j : ℕ) (u : FeeTier) → get_elem? tiers j ≡ some u → cap < u.market_cap_lamports_threshold

-- What the scan answers.
abbrev Scanned : List FeeTier → ℕ → ℕ → Option (Fees × ℕ) → Type 0
Scanned tiers from cap none = NoneReached tiers cap
Scanned tiers from cap (some r) = IsLast tiers from cap r

none_cons :
    (t : FeeTier) (ts : List FeeTier) (cap : ℕ)
    → cap < t.market_cap_lamports_threshold
    → NoneReached ts cap
    → NoneReached (t ∷ ts) cap
none_cons t ts cap h k zero u e =
    rw (ap FeeTier.market_cap_lamports_threshold (some_inj t u e)) at h
none_cons t ts cap h k (suc j) u e = k j u e

later_cons :
    (t : FeeTier) (ts : List FeeTier) (i cap : ℕ)
    → ((j : ℕ) (u : FeeTier)
        → i < j
        → get_elem? ts j ≡ some u
        → cap < u.market_cap_lamports_threshold)
    → (j : ℕ) (u : FeeTier) → suc i < j
    → get_elem? (t ∷ ts) j ≡ some u
    → cap < u.market_cap_lamports_threshold
later_cons t ts i cap h zero u l e = omega arith
later_cons t ts i cap h (suc j) u l e = h j u (omega arith) e

first_later :
    (t : FeeTier) (ts : List FeeTier) (cap : ℕ)
    → NoneReached ts cap
    → (j : ℕ) (u : FeeTier) → 0 < j
    → get_elem? (t ∷ ts) j ≡ some u
    → cap < u.market_cap_lamports_threshold
first_later t ts cap h zero u l e = omega arith
first_later t ts cap h (suc j) u l e = h j u e

or_this-Scanned :
    (t : FeeTier) (ts : List FeeTier) (from cap : ℕ) (o : Option (Fees × ℕ))
    → Scanned ts (suc from) cap o
    → Scanned (t ∷ ts) from cap (or_this t from cap o)
unfolding or_this
or_this-Scanned t ts from cap none h = elim (Bool-cases (leb t.market_cap_lamports_threshold cap)) [
  | inl reach ↦ rw reach (record {
    place = 0;
    index = omega arith;
    tier = t;
    found = refl;
    fees = refl;
    reached = ground arith;
    later = first_later t ts cap h;
  })
  | inr miss ↦ rw miss (none_cons t ts cap (ground arith) h)
]
or_this-Scanned t ts from cap (some r) h = record {
  place = suc h.place;
  index = omega (arith, h.index);
  tier = h.tier;
  found = h.found;
  fees = h.fees;
  reached = h.reached;
  later = later_cons t ts h.place cap h.later;
}

last_reached-Scanned :
    (tiers : List FeeTier) (from cap : ℕ) → Scanned tiers from cap (last_reached tiers from cap)
unfolding last_reached
last_reached-Scanned [] from cap = λ j u e. cc
last_reached-Scanned (t ∷ ts) from cap =
    or_this-Scanned t ts from cap (last_reached ts (suc from) cap)
      (last_reached-Scanned ts (suc from) cap)

All-get :
    (P : FeeTier → Type 0) (ts : List FeeTier) (j : ℕ) (u : FeeTier)
    → All P ts
    → get_elem? ts j ≡ some u
    → P u
All-get P [] j u h e = cc
All-get P (t ∷ ts) zero u (h, hs) e = subst P (some_inj t u e) h
All-get P (t ∷ ts) (suc j) u (h, hs) e = All-get P ts j u hs e

-- The tier that a market cap has: the last one reached, or the first one if none is.
pub record IsTierOf (tiers : List FeeTier) (cap : ℕ) (r : Fees × ℕ) : Type 0 where
  pub tier : FeeTier
  pub found : get_elem? tiers r.1 ≡ some tier
  pub fees : r.0 ≡ tier.fees
  pub reached : (r.1 ≡ 0) ⊎ (tier.market_cap_lamports_threshold ≤ cap)
  pub later :
      (j : ℕ) (u : FeeTier)
      → r.1 < j
      → get_elem? tiers j ≡ some u
      → cap < u.market_cap_lamports_threshold

below_all :
    (t : FeeTier) (ts : List FeeTier) (cap : ℕ)
    → AreSorted (t ∷ ts)
    → cap < t.market_cap_lamports_threshold
    → NoneReached ts cap
below_all t ts cap (h, hs) k j u e = omega (
  arith,
  All-get (λ v. t.market_cap_lamports_threshold ≤ v.market_cap_lamports_threshold) ts j u h e,
  k,
)

first_IsTierOf :
    (t : FeeTier) (ts : List FeeTier) (cap : ℕ)
    → NoneReached ts cap
    → IsTierOf (t ∷ ts) cap (t.fees, 0)
first_IsTierOf t ts cap h = record {
  tier = t;
  found = refl;
  fees = refl;
  reached = inl refl;
  later = first_later t ts cap h;
}

none_tail :
    (t : FeeTier) (ts : List FeeTier) (cap : ℕ) → NoneReached (t ∷ ts) cap → NoneReached ts cap
none_tail t ts cap h j u e = h (suc j) u e

or_first-IsTierOf :
    (t : FeeTier) (ts : List FeeTier) (cap : ℕ) (o : Option (Fees × ℕ))
    → Scanned (t ∷ ts) 0 cap o
    → IsTierOf (t ∷ ts) cap (or_first t.fees o)
or_first-IsTierOf t ts cap none h = first_IsTierOf t ts cap (none_tail t ts cap h)
or_first-IsTierOf t ts cap (some r) h =
    let same : h.place ≡ r.1 = omega (arith, h.index) in
    record {
      tier = h.tier;
      found = subst (λ i. get_elem? (t ∷ ts) i ≡ some h.tier) same h.found;
      fees = h.fees;
      reached = inr h.reached;
      later = λ j u l e. h.later j u (omega (arith, same, l)) e;
    }

-- For tiers with thresholds that never fall, a tier is always found if there is one: the last whose
-- threshold the market cap reaches, or the first if it reaches none; no later threshold is reached.
pub calculate_fee_tier-IsTierOf :
    (t : FeeTier) (ts : List FeeTier) (cap : ℕ)
    → AreSorted (t ∷ ts)
    → (r : Fees × ℕ) × (calculate_fee_tier (t ∷ ts) cap ≡ ok r) × IsTierOf (t ∷ ts) cap r
unfolding calculate_fee_tier
calculate_fee_tier-IsTierOf t ts cap sorted =
    elim (Bool-cases (ltb cap t.market_cap_lamports_threshold)) [
      | inl low ↦ (
        (t.fees, 0),
        rw low refl,
        first_IsTierOf t ts cap (below_all t ts cap sorted (ground arith)),
      )
      | inr high ↦ (
        or_first t.fees (last_reached (t ∷ ts) 0 cap),
        rw high refl,
        or_first-IsTierOf t ts cap (last_reached (t ∷ ts) 0 cap)
            (last_reached-Scanned (t ∷ ts) 0 cap),
      )
    ]

or_first-found :
    (t : FeeTier) (ts : List FeeTier) (cap : ℕ) (o : Option (Fees × ℕ))
    → Scanned (t ∷ ts) 0 cap o
    → (u : FeeTier) × (get_elem? (t ∷ ts) (or_first t.fees o).1 ≡ some u)
      × ((or_first t.fees o).0 ≡ u.fees)
or_first-found t ts cap none h = (t, refl, refl)
or_first-found t ts cap (some r) h =
    let same : h.place ≡ r.1 = omega (arith, h.index) in
    (h.tier, subst (λ i. get_elem? (t ∷ ts) i ≡ some h.tier) same h.found, h.fees)

-- Whatever the order of the tiers, the fees that are answered are those of a tier.
pub tier-found :
    (t : FeeTier) (ts : List FeeTier) (cap : ℕ)
    → (r : Fees × ℕ) × (calculate_fee_tier (t ∷ ts) cap ≡ ok r)
      × (u : FeeTier) × (get_elem? (t ∷ ts) r.1 ≡ some u)
      × (r.0 ≡ u.fees)
unfolding calculate_fee_tier
tier-found t ts cap = elim (Bool-cases (ltb cap t.market_cap_lamports_threshold)) [
  | inl low ↦ ((t.fees, 0), rw low refl, t, refl, refl)
  | inr high ↦
      let (u, f, e) =
        or_first-found t ts cap (last_reached (t ∷ ts) 0 cap)
          (last_reached-Scanned (t ∷ ts) 0 cap) in
      (or_first t.fees (last_reached (t ∷ ts) 0 cap), rw high refl, u, f, e)
]
