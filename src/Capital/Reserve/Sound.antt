-- ===== src/Capital/Reserve/Sound.antt =====
-- `reserve` of src/accounting/capital.ts keeps the invariant, and `settle` undoes a `reserve`.
use Prim.Native.String.{String}
use text.Mathlib.Text.{◌==◌ as str_eq}
use text.Mathlib.TextEquality.{eq_iff}
use atomarb.Common.{
  suc, ◌≤◌, ◌≡◌, refl, true, false, Bool-cases, inl, inr, Option, none, some, List, [], ◌∷◌, ◌++◌,
  length, length-append_one, All, All-append_one, arith,
}
use atomarb.Common.Int.{ℤ, ◌+ℤ◌}
use atomarb.Capital.Types.{PendingPosition, RejectCode, Ledger, reserve_entry, reject_entry}
use atomarb.Capital.Budget.{budget}
use atomarb.Capital.Reserve.{
  Request, includes, has_id, find_clash, is_clash, conflict, need, bad_sign, blocked, refusal,
  position_of, grant, reject, reserve_by, reserve,
}
use atomarb.Capital.Settle.Invariant.{
  total, IsFunded, IsApart, IsSound, total-append_one, AreApart-append_one,
}

-- No pool of the request is the empty string.
abbrev pub AreNamed : List String → Type 0
AreNamed xs = All (λ x. str_eq x "" ≡ false) xs

named-not_empty : (mine : List String) → AreNamed mine → includes mine "" ≡ false
unfolding includes
named-not_empty [] h = refl
named-not_empty (x ∷ xs) (h, hs) = rw (h, named-not_empty xs hs) refl

no_clash_head :
    (mine : List String) (x : String)
    → AreNamed mine
    → is_clash (some x) ≡ false
    → includes mine x ≡ false
unfolding is_clash
no_clash_head mine x h k =
    let e : str_eq x "" ≡ true = ground arith in rw ((eq_iff x "").0 e) (named-not_empty mine h)

clash-none :
    (xs mine : List String)
    → AreNamed mine
    → is_clash (find_clash xs mine) ≡ false
    → All (λ x. includes mine x ≡ false) xs
unfolding find_clash
clash-none [] mine h k = tt
clash-none (x ∷ xs) mine h k = elim (Bool-cases (includes mine x)) [
  | inl there ↦
      let k' : is_clash (some x) ≡ false = rw there at k in let e = no_clash_head mine x h k' in cc
  | inr away ↦ (away, clash-none xs mine h (rw away at k))
]

conflict-none :
    (p : Request) (qs : List PendingPosition)
    → AreNamed p.pools
    → has_id qs p.id ≡ false
    → conflict p qs ≡ none
    → All (λ q. IsApart q (position_of p)) qs
unfolding conflict has_id position_of
conflict-none p [] named fresh h = tt
conflict-none p (q ∷ qs) named fresh h =
    let (i, is) : (str_eq q.id p.id ≡ false) × (has_id qs p.id ≡ false) = ground arith in
    let (c, m, hs) : (is_clash (find_clash q.pools p.pools) ≡ false)
        × (str_eq q.mint p.mint ≡ false)
        × (conflict p qs ≡ none) =
      ground arith in
    ((i, m, clash-none q.pools p.pools named c), conflict-none p qs named is hs)

-- What the checks before the limits have ensured.
pub blocked-none :
    (l : Ledger) (p : Request)
    → blocked l p ≡ none
    → (bad_sign p ≡ false)
      × (has_id l.pending p.id ≡ false)
      × (suc (length l.pending) ≤ l.cfg.max_concurrent)
      × (conflict p l.pending ≡ none)
unfolding blocked
blocked-none l p h = ground arith

position_of-IsFunded : (p : Request) → bad_sign p ≡ false → IsFunded (position_of p)
unfolding bad_sign position_of
position_of-IsFunded p h = ground arith

grown :
    (locked : ℤ) (p : Request) (qs : List PendingPosition)
    → locked ≡ total qs
    → locked +ℤ need p ≡ total (qs ++ position_of p ∷ [])
unfolding need position_of
grown locked p qs h = rw (h, total-append_one qs (position_of p)) refl

grant-IsSound :
    (l : Ledger) (p : Request)
    → IsSound l
    → AreNamed p.pools
    → blocked l p ≡ none
    → IsSound (grant l p)
unfolding grant need
grant-IsSound l p sound named h =
    let (sign, fresh, room, apart) = blocked-none l p h in
    let n = length-append_one l.pending (position_of p) in
    let e = reserve_entry (position_of p) (l.locked_amount +ℤ need p) l.capital in
    record {
      locked = grown l.locked_amount p l.pending sound.locked;
      funded =
          All-append_one IsFunded l.pending (position_of p) sound.funded
            (position_of-IsFunded p sign);
      apart =
          AreApart-append_one l.pending (position_of p) sound.apart
            (conflict-none p l.pending named fresh apart);
      bounded = omega (arith, n, room);
      counted = omega (arith, n, sound.counted);
      by_status = sound.by_status;
      logged = omega (arith, length-append_one l.journal e, sound.logged);
    }

reject-IsSound : (l : Ledger) (c : RejectCode) (b : ℤ) → IsSound l → IsSound (reject l c b)
unfolding reject
reject-IsSound l c b sound = record {
  locked = sound.locked;
  funded = sound.funded;
  apart = sound.apart;
  bounded = sound.bounded;
  counted = sound.counted;
  by_status = sound.by_status;
  logged = omega (arith, length-append_one l.journal (reject_entry c b), sound.logged);
}

reserve_by-IsSound :
    (o : Option RejectCode) (l : Ledger) (p : Request)
    → o ≡ refusal l p
    → IsSound l
    → AreNamed p.pools
    → IsSound (reserve_by o l p).0
unfolding reserve_by refusal
reserve_by-IsSound none l p e sound named =
    let b : blocked l p ≡ none = ground arith in grant-IsSound l p sound named b
reserve_by-IsSound (some c) l p e sound named = reject-IsSound l c (budget l) sound

-- `reserve` keeps a sound ledger sound, whatever it answers, if no pool of the request is named by the
-- empty string: the lock stays the sum of what the open positions need, they stay apart in id, mint
-- and pools, and at most `maxConcurrent` in number, and the counters and the journal stay in step.
pub reserve-IsSound :
    (l : Ledger) (p : Request) → IsSound l → AreNamed p.pools → IsSound (reserve l p).0
unfolding reserve
reserve-IsSound l p sound named = reserve_by-IsSound (refusal l p) l p refl sound named
