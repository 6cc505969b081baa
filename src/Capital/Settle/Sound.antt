-- ===== src/Capital/Settle/Sound.antt =====
-- `settle` of src/accounting/capital.ts keeps the invariant and never throws on a known position.
use atomarb.Common.{
  suc, ◌+◌, ◌≡◌, refl, Bool, true, false, some, length-append_one, ok, if◌then◌else◌, arith,
}
use atomarb.Common.Int.{ℤ, pos, ◌+ℤ◌, ◌-ℤ◌, int_laws, ltb_ℤ, le→ltb_ℤ}
use atomarb.Capital.Types.{
  PendingPosition, SettleOutcome, SettleStatus, filled, reverted, not_landed, Stats, Ledger,
  need_of, settle_entry,
}
use atomarb.Capital.Settle.{
  find_position, delete_position, is_hypothetical, count_status, realised, settled_stats,
  settled_capital, settle_position, settle, settled_ledger,
}
use atomarb.Capital.Settle.Invariant.{
  total, IsFunded, IsSound, total_nonneg, delete_found, All-delete, AreApart-delete,
}

-- The counters after a settlement.
settled_stats_lem :
    (hypothetical : Bool) (o : SettleOutcome) (s : Stats)
    → let t = settled_stats hypothetical o s in
      (t.settled ≡ suc s.settled)
      × (t.filled + t.reverted + t.not_landed ≡ suc (s.filled + s.reverted + s.not_landed))
      × (t.reserved ≡ s.reserved)
      × (t.rejected ≡ s.rejected)
unfolding settled_stats count_status
settled_stats_lem hypothetical o s = by_status hypothetical o.status
  where
    by_status :
        (h : Bool) (st : SettleStatus)
        → let u =
            count_status st
              (record s { settled = suc s.settled; fees_paid = s.fees_paid +ℤ o.fee_paid }) in
          let t =
            if h
            then record u {
              hypothetical_pnl = u.hypothetical_pnl +ℤ (o.realised_pnl -ℤ o.fee_paid);
            }
            else u in
          (t.settled ≡ suc s.settled)
          × (t.filled + t.reverted + t.not_landed ≡ suc (s.filled + s.reverted + s.not_landed))
          × (t.reserved ≡ s.reserved)
          × (t.rejected ≡ s.rejected)
    by_status true filled = omega arith
    by_status true reverted = omega arith
    by_status true not_landed = omega arith
    by_status false filled = omega arith
    by_status false reverted = omega arith
    by_status false not_landed = omega arith

-- Taking the need away from what is locked leaves the sum of the others.
released : (locked all need rest : ℤ) → locked ≡ all → all ≡ need +ℤ rest → locked -ℤ need ≡ rest
released locked all need rest h k = rw (h, k) (omega int_laws)

released-IsSound :
    (l : Ledger) (o : SettleOutcome) (p : PendingPosition)
    → IsSound l
    → find_position l.pending o.id ≡ some p
    → IsSound (settled_ledger l o p)
unfolding settled_ledger
released-IsSound l o p sound found =
    let (sum, count) = delete_found l.pending o.id p found in
    let st = settled_stats_lem (is_hypothetical l.cfg.hypothetical) o l.stats in
    record {
      locked =
          released l.locked_amount (total l.pending) (need_of p)
            (total (delete_position l.pending o.id)) sound.locked sum;
      funded = All-delete IsFunded l.pending o.id sound.funded;
      apart = AreApart-delete l.pending o.id sound.apart;
      bounded = omega (arith, sound.bounded, count);
      counted = omega (arith, sound.counted, count, st);
      by_status = omega (arith, sound.by_status, st);
      logged = omega (
        arith,
        length-append_one l.journal (
            settle_entry o p.deposit_lamports (is_hypothetical l.cfg.hypothetical)
              (settled_capital (is_hypothetical l.cfg.hypothetical) o l.capital)
              (l.locked_amount -ℤ need_of p)),
        sound.logged,
        st,
      );
    }

-- What a settled probe gains: only one that is filled has a profit, and all of them pay the fee.
abbrev pub gain_at : SettleStatus → (pnl fee : ℤ) → ℤ
gain_at filled pnl fee = pnl -ℤ fee
gain_at reverted pnl fee = pos 0 -ℤ fee
gain_at not_landed pnl fee = pos 0 -ℤ fee

pub realised-gain_at :
    (st : SettleStatus) (pnl fee : ℤ) → realised st pnl -ℤ fee ≡ gain_at st pnl fee
unfolding realised
realised-gain_at filled pnl fee = refl
realised-gain_at reverted pnl fee = refl
realised-gain_at not_landed pnl fee = refl

capital_after :
    (h : Bool) (o : SettleOutcome) (x : ℤ)
    → settled_capital h o x ≡ (if h then x else x +ℤ gain_at o.status o.realised_pnl o.fee_paid)
unfolding settled_capital
capital_after true o x = refl
capital_after false o x = rw (realised-gain_at o.status o.realised_pnl o.fee_paid) refl

-- Settling an open position of a sound ledger returns a sound ledger: it throws neither for an
-- unknown position nor for a negative lock. The position is gone, exactly its need is released, and
-- the capital moves by the realised profit less the fee if the probe was filled, by the fee alone if it
-- was reverted or did not land, and, in hypothetical mode, not at all.
pub settle-IsSound :
    (l : Ledger) (o : SettleOutcome) (p : PendingPosition)
    → IsSound l
    → find_position l.pending o.id ≡ some p
    → (settle l o ≡ ok (settled_ledger l o p))
      × IsSound (settled_ledger l o p)
      × ((settled_ledger l o p).pending ≡ delete_position l.pending o.id)
      × ((settled_ledger l o p).locked_amount ≡ l.locked_amount -ℤ need_of p)
      × ((settled_ledger l o p).capital ≡ (
          if is_hypothetical l.cfg.hypothetical
          then l.capital
          else l.capital +ℤ gain_at o.status o.realised_pnl o.fee_paid))
unfolding settle settle_position settled_ledger
settle-IsSound l o p sound found =
    let next = released-IsSound l o p sound found in
    let room : ltb_ℤ (l.locked_amount -ℤ need_of p) (pos 0) ≡ false =
      le→ltb_ℤ (l.locked_amount -ℤ need_of p) (pos 0)
        (rw next.locked (total_nonneg (delete_position l.pending o.id) next.funded)) in
    (
      rw (found, room) refl,
      next,
      refl,
      refl,
      capital_after (is_hypothetical l.cfg.hypothetical) o l.capital,
    )
