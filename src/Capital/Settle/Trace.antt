-- ===== src/Capital/Settle/Trace.antt =====
-- The states of a ledger of src/accounting/capital.ts, from its construction on.
use atomarb.Common.{
  ◌≡◌, refl, ◌∙◌, false, some, ok, throw, on_ok, on_pass, arith, fractions_out_of_range, ok_inj,
  unknown_position, or_exit, or_exit-eq-ok, sym, subst,
}
use atomarb.Capital.Types.{
  CapitalConfig, PendingPosition, SettleOutcome, Ledger, create, new_ledger, fractions_bad,
}
use atomarb.Capital.Reserve.{Request, reserve}
use atomarb.Capital.Reserve.Sound.{AreNamed, reserve-IsSound}
use atomarb.Capital.Settle.{find_position, settle, settled_ledger, settle_position}
use atomarb.Capital.Settle.Invariant.{IsSound}
use atomarb.Capital.Settle.Sound.{settle-IsSound}

-- One call that returns.
pub data Step : Ledger → Ledger → Type 0 where
  reserving : (l : Ledger) (p : Request) → AreNamed p.pools → Step l (reserve l p).0
  settling : (l l' : Ledger) (o : SettleOutcome) → settle l o ≡ ok l' → Step l l'

-- The states that a sequence of calls reaches from a new ledger.
pub data Reach (cfg : CapitalConfig) : Ledger → Type 0 where
  created : (l : Ledger) → create cfg ≡ ok l → Reach cfg l
  called : (l l' : Ledger) → Reach cfg l → Step l l' → Reach cfg l'

new_ledger-IsSound : (cfg : CapitalConfig) → IsSound (new_ledger cfg)
unfolding new_ledger
new_ledger-IsSound cfg = record {
  locked = refl;
  funded = tt;
  apart = tt;
  bounded = omega arith;
  counted = refl;
  by_status = refl;
  logged = refl;
}

pub create_state :
    (cfg : CapitalConfig) (l : Ledger)
    → create cfg ≡ ok l
    → (fractions_bad cfg ≡ false) × (new_ledger cfg ≡ l)
unfolding create
create_state cfg l h =
    on_pass (fractions_bad cfg) (throw fractions_out_of_range) (ok (new_ledger cfg)) h
      λ good h1. (good, ok_inj h1)

-- A call that returns has found the position.
settle-found :
    (l l' : Ledger) (o : SettleOutcome)
    → settle l o ≡ ok l'
    → (p : PendingPosition) × (find_position l.pending o.id ≡ some p)
unfolding settle
settle-found l l' o h =
    on_ok (or_exit (find_position l.pending o.id) (throw unknown_position))
      (λ p. settle_position l o p) h
      λ p e h1. (p, or_exit-eq-ok (find_position l.pending o.id) (throw unknown_position) e)

pub settle-ok :
    (l l' : Ledger) (o : SettleOutcome)
    → IsSound l
    → settle l o ≡ ok l'
    → (p : PendingPosition) × (find_position l.pending o.id ≡ some p)
      × IsSound l'
      × (settled_ledger l o p ≡ l')
settle-ok l l' o sound h =
    let (p, found) = settle-found l l' o h in
    let (e, next, _, _, _) = settle-IsSound l o p sound found in
    let same = ok_inj (sym e ∙ h) in (p, found, subst IsSound same next, same)

Step-IsSound : (l l' : Ledger) → Step l l' → IsSound l → IsSound l'
Step-IsSound l _ (reserving _ p named) sound = reserve-IsSound l p sound named
Step-IsSound l l' (settling _ _ o h) sound = let (_, _, next, _) = settle-ok l l' o sound h in next

-- Every ledger that calls reach from a new one, of any configuration and with any outcomes of the
-- probes, is sound, if no request names a pool by the empty string.
pub Reach-IsSound : (cfg : CapitalConfig) (l : Ledger) → Reach cfg l → IsSound l
Reach-IsSound cfg l (created _ h) = subst IsSound (create_state cfg l h).1 (new_ledger-IsSound cfg)
Reach-IsSound cfg l' (called l _ r s) = Step-IsSound l l' s (Reach-IsSound cfg l r)
