-- ===== src/Capital/Reserve/Undo.antt =====
-- `settle` of src/accounting/capital.ts right after the `reserve` that it settles.
use text.Mathlib.Text.{◌==◌ as str_eq}
use text.Mathlib.TextEquality.{eq_iff}
use atomarb.Common.{◌≡◌, refl, ◌∙◌, false, Option, none, some, List, [], ◌∷◌, ◌++◌, ok, arith}
use atomarb.Common.Int.{ℤ, ◌+ℤ◌, ◌-ℤ◌, int_laws}
use atomarb.Capital.Types.{PendingPosition, RejectCode, SettleOutcome, Ledger, need_of, granted}
use atomarb.Capital.Reserve.{
  Request, has_id, need, blocked, refusal, position_of, grant, reserve_by, reserve,
}
use atomarb.Capital.Settle.{find_position, delete_position, settle, settled_ledger}
use atomarb.Capital.Settle.Invariant.{IsSound}
use atomarb.Capital.Settle.Sound.{settle-IsSound}
use atomarb.Capital.Reserve.Sound.{AreNamed, reserve-IsSound, blocked-none}

find_last :
    (qs : List PendingPosition) (q : PendingPosition)
    → has_id qs q.id ≡ false
    → (find_position (qs ++ q ∷ []) q.id ≡ some q) × (delete_position (qs ++ q ∷ []) q.id ≡ qs)
unfolding has_id find_position delete_position
find_last [] q h = rw ((eq_iff q.id q.id).1 refl) (refl, refl)
find_last (r ∷ qs) q h =
    let (a, b) : (str_eq r.id q.id ≡ false) × (has_id qs q.id ≡ false) = ground arith in
    let (f, d) = find_last qs q b in rw (a, f, d) (refl, refl)

lock_back : (locked n : ℤ) → locked +ℤ n -ℤ n ≡ locked
lock_back locked n = omega int_laws

-- The state that a granted request leaves, as far as the position that was opened goes.
granted_state :
    (c : Option RejectCode) (l : Ledger) (p : Request)
    → c ≡ refusal l p
    → (reserve_by c l p).1 ≡ granted (position_of p)
    → (find_position (reserve_by c l p).0.pending p.id ≡ some (position_of p))
      × (delete_position (reserve_by c l p).0.pending p.id ≡ l.pending)
      × ((reserve_by c l p).0.locked_amount -ℤ need_of (position_of p) ≡ l.locked_amount)
unfolding reserve_by refusal grant position_of need
granted_state none l p e h =
    let b : blocked l p ≡ none = ground arith in
    let (_, fresh, _, _) = blocked-none l p b in
    let (f, d) = find_last l.pending (position_of p) fresh in
    (f, d, lock_back l.locked_amount (need p))
granted_state (some c) l p e h = cc

-- On a sound ledger, settling a request that was just granted, if it names no pool by the empty string,
-- gives back the open positions and the lock as they were before the request, whatever the outcome of
-- the probe.
pub reserve-settle :
    (l : Ledger) (p : Request) (o : SettleOutcome)
    → IsSound l
    → AreNamed p.pools
    → (reserve l p).1 ≡ granted (position_of p)
    → o.id ≡ p.id
    → let next = settled_ledger (reserve l p).0 o (position_of p) in
      (settle (reserve l p).0 o ≡ ok next)
      × (next.pending ≡ l.pending)
      × (next.locked_amount ≡ l.locked_amount)
unfolding reserve
reserve-settle l p o sound named h same =
    let (f, d, k) = granted_state (refusal l p) l p refl h in
    let found : find_position (reserve l p).0.pending o.id ≡ some (position_of p) = rw same f in
    let (e, _, pend, lock, _) =
      settle-IsSound (reserve l p).0 o (position_of p) (reserve-IsSound l p sound named) found in
    (e, pend ∙ rw same d, lock ∙ k)
