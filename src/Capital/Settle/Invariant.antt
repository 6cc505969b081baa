-- ===== src/Capital/Settle/Invariant.antt =====
-- The invariant of the ledger of src/accounting/capital.ts, and its lemmas on the list of positions.
use Prim.Native.String.{String}
use text.Mathlib.Text.{◌==◌ as str_eq}
use atomarb.Common.{
  suc, ◌+◌, ◌≤◌, ◌≡◌, refl, true, false, Bool-cases, inl, inr, subst, some, List, [], ◌∷◌, ◌++◌,
  length, All, All-append_one, arith,
}
use atomarb.Common.Int.{ℤ, pos, ◌+ℤ◌, ◌≤ℤ◌, ◌<ℤ◌, int_laws}
use atomarb.Capital.Types.{PendingPosition, Ledger, need_of}
use atomarb.Capital.Reserve.{includes}
use atomarb.Capital.Settle.{find_position, delete_position}

abbrev pub total : List PendingPosition → ℤ
total [] = pos 0
total (q ∷ qs) = need_of q +ℤ total qs

-- A position as `reserve` accepts it: a positive amount, and costs that are not negative.
abbrev pub IsFunded : PendingPosition → Type 0
IsFunded q = (pos 0 <ℤ q.amount_in) × (pos 0 ≤ℤ q.fee_budget) × (pos 0 ≤ℤ q.deposit_lamports)

-- Two positions that may be open together: other ids, other mints, and no pool in common.
abbrev pub IsApart : PendingPosition → PendingPosition → Type 0
IsApart q r =
    (str_eq q.id r.id ≡ false)
    × (str_eq q.mint r.mint ≡ false)
    × All (λ x. includes r.pools x ≡ false) q.pools

abbrev pub AreApart : List PendingPosition → Type 0
AreApart [] = Unit
AreApart (q ∷ qs) = All (IsApart q) qs × AreApart qs

-- What the class promises of its state between two calls.
pub record IsSound (l : Ledger) : Type 0 where
  pub locked : l.locked_amount ≡ total l.pending
  pub funded : All IsFunded l.pending
  pub apart : AreApart l.pending
  pub bounded : length l.pending ≤ l.cfg.max_concurrent
  pub counted : l.stats.reserved ≡ l.stats.settled + length l.pending
  pub by_status : l.stats.settled ≡ l.stats.filled + l.stats.reverted + l.stats.not_landed
  pub logged : length l.journal ≡ l.stats.reserved + l.stats.rejected + l.stats.settled

pub total_nonneg : (qs : List PendingPosition) → All IsFunded qs → pos 0 ≤ℤ total qs
total_nonneg [] h = omega arith
total_nonneg (q ∷ qs) (h, hs) = omega (int_laws, total_nonneg qs hs)

pub total-append_one :
    (qs : List PendingPosition) (q : PendingPosition) → total (qs ++ q ∷ []) ≡ total qs +ℤ need_of q
total-append_one [] q = omega int_laws
total-append_one (r ∷ qs) q = rw (total-append_one qs q) (omega int_laws)

pub AreApart-append_one :
    (qs : List PendingPosition) (r : PendingPosition)
    → AreApart qs
    → All (λ q. IsApart q r) qs
    → AreApart (qs ++ r ∷ [])
AreApart-append_one [] r h k = (tt, tt)
AreApart-append_one (q ∷ qs) r (h, hs) (k, ks) =
    (All-append_one (IsApart q) qs r h k, AreApart-append_one qs r hs ks)

pub All-delete :
    (P : PendingPosition → Type 0) (qs : List PendingPosition) (id : String)
    → All P qs
    → All P (delete_position qs id)
unfolding delete_position
All-delete P [] id h = tt
All-delete P (q ∷ qs) id (h, hs) = elim (Bool-cases (str_eq q.id id)) [
  | inl same ↦ rw same hs
  | inr other ↦ rw other (h, All-delete P qs id hs)
]

pub AreApart-delete :
    (qs : List PendingPosition) (id : String) → AreApart qs → AreApart (delete_position qs id)
unfolding delete_position
AreApart-delete [] id h = tt
AreApart-delete (q ∷ qs) id (h, hs) = elim (Bool-cases (str_eq q.id id)) [
  | inl same ↦ rw same hs
  | inr other ↦ rw other (All-delete (IsApart q) qs id h, AreApart-delete qs id hs)
]

-- Deleting a position that is there takes its need and its place away.
found_head :
    (q : PendingPosition) (qs : List PendingPosition) (id : String) (p : PendingPosition)
    → str_eq q.id id ≡ true
    → find_position (q ∷ qs) id ≡ some p
    → q ≡ p
unfolding find_position
found_head q qs id p same h = let e : some q ≡ some p = rw same at h in cc

found_tail :
    (q : PendingPosition) (qs : List PendingPosition) (id : String) (p : PendingPosition)
    → str_eq q.id id ≡ false
    → find_position (q ∷ qs) id ≡ some p
    → find_position qs id ≡ some p
unfolding find_position
found_tail q qs id p other h = rw other at h

pub delete_found :
    (qs : List PendingPosition) (id : String) (p : PendingPosition)
    → find_position qs id ≡ some p
    → (total qs ≡ need_of p +ℤ total (delete_position qs id))
      × (length qs ≡ suc (length (delete_position qs id)))
unfolding find_position delete_position
delete_found [] id p h = cc
delete_found (q ∷ qs) id p h = elim (Bool-cases (str_eq q.id id)) [
  | inl same ↦ rw (same, found_head q qs id p same h) (refl, refl)
  | inr other ↦
      let (t, n) = delete_found qs id p (found_tail q qs id p other h) in
      rw other (rw t (omega int_laws), omega (arith, n))
]

pub found-IsFunded :
    (qs : List PendingPosition) (id : String) (p : PendingPosition)
    → find_position qs id ≡ some p
    → All IsFunded qs
    → IsFunded p
unfolding find_position
found-IsFunded [] id p h k = cc
found-IsFunded (q ∷ qs) id p h (k, ks) = elim (Bool-cases (str_eq q.id id)) [
  | inl same ↦ subst IsFunded (found_head q qs id p same h) k
  | inr other ↦ found-IsFunded qs id p (found_tail q qs id p other h) ks
]
