-- ===== src/Capital/Reserve/Grants.antt =====
-- When `reserve` of src/accounting/capital.ts grants: exactly up to `capacityFor`.
use atomarb.Common.{◌≡◌, ◌↔◌, refl, sym, ◌∙◌, false, Option, none, some, arith}
use atomarb.Common.Int.{ℤ, pos, ◌+ℤ◌, ◌-ℤ◌, ◌≤ℤ◌, ◌<ℤ◌, ltb_ℤ, int_laws, ltb_ℤ→ge, le→ltb_ℤ}
use atomarb.Capital.Types.{RejectCode, Ledger, granted}
use atomarb.Capital.Budget.{
  frac, min_ℤ, or_zero, episode_room, aggregate_room, reserve_room, budget, deposit_or_zero,
  capacity_for,
}
use atomarb.Capital.Reserve.{
  Request, grant, need, over_limit, bad_sign, blocked, refusal, reserve_by, reserve, position_of,
}

le-min_iff : (z x y : ℤ) → (z ≤ℤ min_ℤ x y) ↔ ((z ≤ℤ x) × (z ≤ℤ y))
le-min_iff z x y = ground arith

-- Below the larger of a number and 0, for a positive number.
le-or_zero_iff : (z m : ℤ) → pos 0 <ℤ z → (z ≤ℤ or_zero m) ↔ (z ≤ℤ m)
le-or_zero_iff z m h = ground arith

-- A sum under a limit, and its part under what is left of the limit.
room_iff : (locked n limit : ℤ) → (ltb_ℤ limit (locked +ℤ n) ≡ false) ↔ (n ≤ℤ limit -ℤ locked)
room_iff locked n limit = (
  λ h. omega (int_laws, ltb_ℤ→ge limit (locked +ℤ n) h),
  λ h. le→ltb_ℤ limit (locked +ℤ n) (omega int_laws),
)

pub over_limit_iff :
    (l : Ledger) (n : ℤ)
    → (over_limit l n ≡ none)
      ↔ ((n ≤ℤ episode_room l) × (n ≤ℤ aggregate_room l) × (n ≤ℤ reserve_room l))
unfolding over_limit episode_room aggregate_room reserve_room
over_limit_iff l n =
    let b = room_iff l.locked_amount n (frac l.capital l.cfg.max_aggregate_open_frac) in
    let c = room_iff l.locked_amount n (l.capital -ℤ frac l.capital l.cfg.reserve_frac) in
    (λ h. ground (arith, b, c), λ h. ground (arith, b, c))

budget_iff :
    (l : Ledger) (n : ℤ)
    → pos 0 <ℤ n
    → (n ≤ℤ budget l) ↔ ((n ≤ℤ episode_room l) × (n ≤ℤ aggregate_room l) × (n ≤ℤ reserve_room l))
unfolding budget
budget_iff l n h =
    let e =
      le-or_zero_iff n (min_ℤ (min_ℤ (episode_room l) (aggregate_room l)) (reserve_room l)) h in
    let o = le-min_iff n (min_ℤ (episode_room l) (aggregate_room l)) (reserve_room l) in
    let i = le-min_iff n (episode_room l) (aggregate_room l) in
    (
      λ k. let (ea, c) = o.0 (e.0 k) in let (a, b) = i.0 ea in (a, b, c),
      λ k. e.1 (o.1 (i.1 (k.0, k.1), k.2)),
    )

signs :
    (p : Request)
    → bad_sign p ≡ false
    → (pos 0 <ℤ p.amount_in)
      × (pos 0 ≤ℤ p.fee_budget)
      × (pos 0 ≤ℤ deposit_or_zero p.deposit_lamports)
unfolding bad_sign
signs p h = ground arith

blocked-signs : (l : Ledger) (p : Request) → blocked l p ≡ none → bad_sign p ≡ false
unfolding blocked
blocked-signs l p h = ground arith

capacity_iff :
    (l : Ledger) (p : Request)
    → bad_sign p ≡ false
    → (p.amount_in ≤ℤ capacity_for l p.fee_budget p.deposit_lamports) ↔ (need p ≤ℤ budget l)
unfolding capacity_for need
capacity_iff l p h =
    let (a, f, d) = signs p h in
    let e =
      le-or_zero_iff p.amount_in (budget l -ℤ p.fee_budget -ℤ deposit_or_zero p.deposit_lamports)
        a in
    (λ k. let k' = e.0 k in omega int_laws, λ k. e.1 (omega int_laws))

need_pos : (p : Request) → bad_sign p ≡ false → pos 0 <ℤ need p
unfolding need
need_pos p h = let (a, f, d) = signs p h in omega int_laws

granted_iff :
    (o : Option RejectCode) (l : Ledger) (p : Request)
    → ((reserve_by o l p).1 ≡ granted (position_of p)) ↔ (o ≡ none)
unfolding reserve_by
granted_iff none l p = (λ h. refl, λ h. refl)
granted_iff (some c) l p = (λ h. cc, λ h. cc)

refusal-over_limit :
    (l : Ledger) (p : Request) → blocked l p ≡ none → refusal l p ≡ over_limit l (need p)
unfolding refusal
refusal-over_limit l p h = rw h

-- A request that no earlier check refuses is granted exactly if its amount is at most what
-- `capacityFor` answers for its fee budget and deposit.
pub reserve-capacity_for_iff :
    (l : Ledger) (p : Request)
    → blocked l p ≡ none
    → ((reserve l p).1 ≡ granted (position_of p))
      ↔ (p.amount_in ≤ℤ capacity_for l p.fee_budget p.deposit_lamports)
unfolding reserve
reserve-capacity_for_iff l p h =
    let s = blocked-signs l p h in
    let g = granted_iff (refusal l p) l p in
    let o = over_limit_iff l (need p) in
    let b = budget_iff l (need p) (need_pos p s) in
    let c = capacity_iff l p s in
    let e = refusal-over_limit l p h in
    (λ k. c.1 (b.1 (o.0 (sym e ∙ g.0 k))), λ k. g.1 (e ∙ o.1 (b.0 (c.0 k))))

refusal-none :
    (l : Ledger) (p : Request)
    → refusal l p ≡ none
    → (blocked l p ≡ none) × (over_limit l (need p) ≡ none)
unfolding refusal
refusal-none l p h = ground arith

pub grants_within :
    (o : Option RejectCode) (l : Ledger) (p : Request)
    → o ≡ refusal l p
    → (reserve_by o l p).1 ≡ granted (position_of p)
    → let l' = (reserve_by o l p).0 in
      (need p ≤ℤ frac l.capital l.cfg.max_episode_frac)
      × (l'.locked_amount ≤ℤ frac l.capital l.cfg.max_aggregate_open_frac)
      × (l'.locked_amount ≤ℤ l.capital -ℤ frac l.capital l.cfg.reserve_frac)
unfolding reserve_by grant episode_room aggregate_room reserve_room
grants_within none l p e h =
    let (a, b, c) = (over_limit_iff l (need p)).0 (refusal-none l p (sym e)).1 in
    (a, omega int_laws, omega int_laws)
grants_within (some c) l p e h = cc

-- A granted request keeps all three limits: what it needs is within the cap of an episode, and what
-- is locked with it is within the aggregate cap and leaves the reserve untouched.
pub reserve_within_limits :
    (l : Ledger) (p : Request)
    → (reserve l p).1 ≡ granted (position_of p)
    → (need p ≤ℤ frac l.capital l.cfg.max_episode_frac)
      × ((reserve l p).0.locked_amount ≤ℤ frac l.capital l.cfg.max_aggregate_open_frac)
      × ((reserve l p).0.locked_amount ≤ℤ l.capital -ℤ frac l.capital l.cfg.reserve_frac)
unfolding reserve
reserve_within_limits l p h = grants_within (refusal l p) l p refl h
