-- ===== src/Capital/Settle/Hypothetical.antt =====
-- The ledger of src/accounting/capital.ts in hypothetical mode, which is the default.
use atomarb.Common.{ℕ, ◌*◌, ◌≤◌, ◌≡◌, refl, subst, true, false, Option, none, some, arith, ◌/◌}
use atomarb.Common.Int.{ℤ, pos, ◌-ℤ◌, ◌*ℤ◌, div_trunc, ◌≤ℤ◌, int_laws, negsuc}
use atomarb.Common.Div.{div_bounds, le_of_mul_le, mul_mono_r}
use atomarb.Capital.Types.{CapitalConfig, Ledger, new_ledger, fractions_bad, million}
use atomarb.Capital.Budget.{frac}
use atomarb.Capital.Types.{RejectCode, PendingPosition, SettleOutcome, need_of}
use atomarb.Capital.Reserve.{Request, reserve, reserve_by, grant, reject, refusal}
use atomarb.Capital.Reserve.Grants.{grants_within}
use atomarb.Capital.Settle.{is_hypothetical, settled_ledger, settled_capital}
use atomarb.Capital.Settle.Invariant.{IsSound, IsFunded, found-IsFunded, total_nonneg}
use atomarb.Capital.Settle.Trace.{
  Step, reserving, settling, Reach, created, called, create_state, Reach-IsSound, settle-ok,
}

good_fractions :
    (cfg : CapitalConfig)
    → fractions_bad cfg ≡ false
    → (pos 0 ≤ℤ cfg.max_aggregate_open_frac)
      × (pos 0 ≤ℤ cfg.reserve_frac)
      × (cfg.reserve_frac ≤ℤ million)
unfolding fractions_bad
good_fractions cfg h = ground arith

frac_pos : (c f : ℕ) → frac (pos c) (pos f) ≡ pos (c * f / 1_000_000)
unfolding frac div_trunc ◌*ℤ◌
frac_pos c f = ground arith

scaled_le : (c f : ℕ) → f ≤ 1_000_000 → c * f / 1_000_000 ≤ c
scaled_le c f h =
    le_of_mul_le (c * f / 1_000_000) c 1_000_000 (omega arith)
      (omega (arith, div_bounds (c * f) 1_000_000 (omega arith), mul_mono_r f 1_000_000 c h))

frac_nonneg : (c f : ℤ) → pos 0 ≤ℤ c → pos 0 ≤ℤ f → pos 0 ≤ℤ frac c f
frac_nonneg (pos c) (pos f) h k = rw (frac_pos c f) (omega arith)
frac_nonneg (pos c) (negsuc f) h k = omega arith
frac_nonneg (negsuc c) f h k = omega arith

frac_le : (c f : ℤ) → pos 0 ≤ℤ c → pos 0 ≤ℤ f → f ≤ℤ million → frac c f ≤ℤ c
frac_le (pos c) (pos f) h k b = rw (frac_pos c f) (omega (arith, scaled_le c f (omega arith)))
frac_le (pos c) (negsuc f) h k b = omega arith
frac_le (negsuc c) f h k b = omega arith

-- What stays true in hypothetical mode.
record Within (cfg : CapitalConfig) (l : Ledger) : Type 0 where
  cfg_kept : l.cfg ≡ cfg
  capital_kept : l.capital ≡ cfg.capital_lamports
  aggregate : l.locked_amount ≤ℤ frac cfg.capital_lamports cfg.max_aggregate_open_frac
  reserve_kept :
      l.locked_amount ≤ℤ cfg.capital_lamports -ℤ frac cfg.capital_lamports cfg.reserve_frac

new_ledger-Within :
    (cfg : CapitalConfig)
    → pos 0 ≤ℤ cfg.capital_lamports
    → fractions_bad cfg ≡ false
    → Within cfg (new_ledger cfg)
unfolding new_ledger
new_ledger-Within cfg h good =
    let (a, r, r') = good_fractions cfg good in
    record {
      cfg_kept = refl;
      capital_kept = refl;
      aggregate = frac_nonneg cfg.capital_lamports cfg.max_aggregate_open_frac h a;
      reserve_kept = omega (int_laws, frac_le cfg.capital_lamports cfg.reserve_frac h r r');
    }

reserve_by-Within :
    (c : Option RejectCode) (cfg : CapitalConfig) (l : Ledger) (p : Request)
    → c ≡ refusal l p
    → Within cfg l
    → Within cfg (reserve_by c l p).0
unfolding reserve_by grant reject refusal
reserve_by-Within none cfg l p e w =
    let (_, a, r) = grants_within none l p e refl in
    record {
      cfg_kept = w.cfg_kept;
      capital_kept = w.capital_kept;
      aggregate = rw (w.capital_kept, w.cfg_kept) at a;
      reserve_kept = rw (w.capital_kept, w.cfg_kept) at r;
    }
reserve_by-Within (some c) cfg l p e w = record {
  cfg_kept = w.cfg_kept;
  capital_kept = w.capital_kept;
  aggregate = w.aggregate;
  reserve_kept = w.reserve_kept;
}

need_nonneg : (p : PendingPosition) → IsFunded p → pos 0 ≤ℤ need_of p
need_nonneg p (a, f, d) = omega int_laws

lower : (x n b : ℤ) → pos 0 ≤ℤ n → x ≤ℤ b → x -ℤ n ≤ℤ b
lower x n b h k = omega int_laws

settled-Within :
    (cfg : CapitalConfig) (l : Ledger) (o : SettleOutcome) (p : PendingPosition)
    → is_hypothetical cfg.hypothetical ≡ true
    → pos 0 ≤ℤ need_of p
    → Within cfg l
    → Within cfg (settled_ledger l o p)
unfolding settled_ledger settled_capital
settled-Within cfg l o p hyp n w = record {
  cfg_kept = w.cfg_kept;
  capital_kept = rw (w.cfg_kept, hyp) w.capital_kept;
  aggregate =
      lower l.locked_amount (need_of p) (frac cfg.capital_lamports cfg.max_aggregate_open_frac) n
        w.aggregate;
  reserve_kept =
      lower l.locked_amount (need_of p)
        (cfg.capital_lamports -ℤ frac cfg.capital_lamports cfg.reserve_frac) n w.reserve_kept;
}

Step-Within :
    (cfg : CapitalConfig) (l l' : Ledger)
    → is_hypothetical cfg.hypothetical ≡ true
    → Step l l'
    → IsSound l
    → Within cfg l
    → Within cfg l'
unfolding reserve
Step-Within cfg l _ hyp (reserving _ p named) sound w =
    reserve_by-Within (refusal l p) cfg l p refl w
Step-Within cfg l l' hyp (settling _ _ o h) sound w =
    let (p, found, _, same) = settle-ok l l' o sound h in
    let n = need_nonneg p (found-IsFunded l.pending o.id p found sound.funded) in
    subst (Within cfg) same (settled-Within cfg l o p hyp n w)

Reach-Within :
    (cfg : CapitalConfig) (l : Ledger)
    → is_hypothetical cfg.hypothetical ≡ true
    → pos 0 ≤ℤ cfg.capital_lamports
    → Reach cfg l
    → Within cfg l
Reach-Within cfg l hyp h (created _ e) =
    let (good, same) = create_state cfg l e in
    subst (Within cfg) same (new_ledger-Within cfg h good)
Reach-Within cfg l' hyp h (called l _ r s) =
    Step-Within cfg l l' hyp s (Reach-IsSound cfg l r) (Reach-Within cfg l hyp h r)

-- In hypothetical mode, and from a capital that is not negative, no sequence of calls in which no
-- request names a pool by the empty string changes the capital, and what is locked is never negative,
-- never above the aggregate cap of the initial capital, and never touches the reserve.
pub Reach-hypothetical_lem :
    (cfg : CapitalConfig) (l : Ledger)
    → is_hypothetical cfg.hypothetical ≡ true
    → pos 0 ≤ℤ cfg.capital_lamports
    → Reach cfg l
    → (l.capital ≡ cfg.capital_lamports)
      × (pos 0 ≤ℤ l.locked_amount)
      × (l.locked_amount ≤ℤ frac cfg.capital_lamports cfg.max_aggregate_open_frac)
      × (l.locked_amount ≤ℤ cfg.capital_lamports -ℤ frac cfg.capital_lamports cfg.reserve_frac)
Reach-hypothetical_lem cfg l hyp h r =
    let w = Reach-Within cfg l hyp h r in
    let sound = Reach-IsSound cfg l r in
    (
      w.capital_kept,
      rw sound.locked (total_nonneg l.pending sound.funded),
      w.aggregate,
      w.reserve_kept,
    )
