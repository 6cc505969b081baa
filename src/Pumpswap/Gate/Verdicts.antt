-- ===== src/Pumpswap/Gate/Verdicts.antt =====
-- What `token2022Gate` of src/adapters/pumpswap/math.ts says of each extension.
use atomarb.Common.{
  Bool, ◌≢◌, ℕ, ◌≤◌, ◌<◌, ◌≡◌, ◌⊎◌, refl, true, false, not, ◌&&◌, ◌||◌, Bool-cases, inl, inr,
  Option, Code, paused, default_frozen, transfer_hook, transfer_fee_invalid, [], ◌∷◌, ◌++◌, length,
  ok, throw, range, ok_inj, on_pass, ltb, leb, ◌==◌, arith, subst,
}
use atomarb.Bytes.{Bytes, subarray}
use atomarb.Raydium.TransferFee.{TransferFeeTier}
use atomarb.Raydium.Decode.{field}
use atomarb.Token.{TlvEntry}
use atomarb.Pumpswap.Gate.{
  Token2022Gate, reject_with, warn_with, is_zero_32, on_pausable, on_default_state,
  on_transfer_hook, on_permanent_delegate, with_tiers, pick_tier, on_transfer_fee_config,
}

-- Every transfer fails; the mint is paused; new accounts start frozen; a hook's program is called;
-- one of the two rates is above 100%.
abbrev pub Harm : TlvEntry → Type 0
Harm e =
    (e.type_id ≡ 9)
    ⊎ ((e.type_id ≡ 26) × (33 ≤ length e.bytes) × (field 1 e.bytes 32 ≡ 1))
    ⊎ ((e.type_id ≡ 6) × (1 ≤ length e.bytes) × (field 1 e.bytes 0 ≡ 2))
    ⊎ ((e.type_id ≡ 14) × (64 ≤ length e.bytes) × (is_zero_32 (subarray e.bytes 32 32) ≡ false))
    ⊎ ((e.type_id ≡ 1) × ((10_000 < field 2 e.bytes 88) ⊎ (10_000 < field 2 e.bytes 106)))

-- An entry that does no harm adds no reason to reject, any other adds one.
abbrev pub Verdict : TlvEntry → Token2022Gate → Token2022Gate → Type 0
Verdict e g h =
    (¬ Harm e × (h.rejects ≡ g.rejects))
    ⊎ (Harm e × ((c : Code) × (h.rejects ≡ g.rejects ++ c ∷ [])))

pub pausable-Verdict :
    (g : Token2022Gate) (e : TlvEntry) → e.type_id ≡ 26 → Verdict e g (on_pausable g e.bytes)
unfolding on_pausable reject_with warn_with
pausable-Verdict g e t = elim (Bool-cases (leb 33 (length e.bytes) && field 1 e.bytes 32 == 1)) [
  | inl bad ↦ inr (inr (inl (t, ground arith, ground arith)), (paused, rw bad refl))
  | inr fine ↦ inl (λ x. ground arith, rw fine refl)
]

pub default_state-Verdict :
    (g : Token2022Gate) (e : TlvEntry) → e.type_id ≡ 6 → Verdict e g (on_default_state g e.bytes)
unfolding on_default_state reject_with
default_state-Verdict g e t = elim (Bool-cases (leb 1 (length e.bytes) && field 1 e.bytes 0 == 2)) [
  | inl bad ↦ inr (inr (inr (inl (t, ground arith, ground arith))), (default_frozen, rw bad refl))
  | inr fine ↦ inl (λ x. ground arith, rw fine refl)
]

and_not : (n m : ℕ) (b : Bool) → (leb n m && not b) ≡ true → (n ≤ m) × (b ≡ false)
and_not n m b h = ground arith

or_is : (n m : ℕ) (b : Bool) → (leb n m && not b) ≡ false → n ≤ m → b ≢ false
or_is n m b h l e = ground arith

no_hook :
    (e : TlvEntry)
    → e.type_id ≡ 14
    → (64 ≤ length e.bytes → is_zero_32 (subarray e.bytes 32 32) ≢ false)
    → ¬ Harm e
no_hook e t f (inl a) = omega arith
no_hook e t f (inr (inl (a, b, c))) = omega arith
no_hook e t f (inr (inr (inl (a, b, c)))) = omega arith
no_hook e t f (inr (inr (inr (inl (a, b, c))))) = f b c
no_hook e t f (inr (inr (inr (inr (a, b))))) = omega arith

pub transfer_hook-Verdict :
    (g : Token2022Gate) (e : TlvEntry) → e.type_id ≡ 14 → Verdict e g (on_transfer_hook g e.bytes)
unfolding on_transfer_hook reject_with warn_with
transfer_hook-Verdict g e t =
    let n = length e.bytes in
    let z = is_zero_32 (subarray e.bytes 32 32) in
    elim (Bool-cases (leb 64 n && not z)) [
      | inl bad ↦
          let (l, p) = and_not 64 n z bad in
          inr (inr (inr (inr (inl (t, l, p)))), (transfer_hook, rw bad refl))
      | inr fine ↦ inl (no_hook e t (or_is 64 n z fine), rw fine refl)
    ]

pub permanent_delegate-rejects :
    (g : Token2022Gate) (d : Bytes) → (on_permanent_delegate g d).rejects ≡ g.rejects
unfolding on_permanent_delegate warn_with
permanent_delegate-rejects g d = ground arith

-- The tiers of a fee whose rates are at most 100% add no reason.
with_tiers-rejects :
    (g : Token2022Gate) (epoch : Option ℕ) (older newer : TransferFeeTier)
    → (ltb 10_000 older.bps || ltb 10_000 newer.bps) ≡ false
    → (with_tiers g epoch older newer).rejects ≡ g.rejects
unfolding with_tiers warn_with
with_tiers-rejects g epoch older newer fine =
    let p = pick_tier epoch older newer in
    elim (Bool-cases (ltb 0 p.bps || ltb 0 newer.bps || ltb 0 older.bps)) [
      | inl charged ↦ rw (fine, charged) refl
      | inr free ↦ rw (fine, free) refl
    ]

with_tiers-rejected :
    (g : Token2022Gate) (epoch : Option ℕ) (older newer : TransferFeeTier)
    → (ltb 10_000 older.bps || ltb 10_000 newer.bps) ≡ true
    → (with_tiers g epoch older newer).rejects ≡ g.rejects ++ transfer_fee_invalid ∷ []
unfolding with_tiers reject_with
with_tiers-rejected g epoch older newer bad = rw bad refl

above : (a b : ℕ) → (ltb 10_000 a || ltb 10_000 b) ≡ true → (10_000 < a) ⊎ (10_000 < b)
above a b h = elim (Bool-cases (ltb 10_000 a)) [
  | inl l ↦ inl (ground arith)
  | inr r ↦ inr (ground arith)
]

not_above : (a b : ℕ) → (ltb 10_000 a || ltb 10_000 b) ≡ false → (a ≤ 10_000) × (b ≤ 10_000)
not_above a b h = ground arith

fair_rates :
    (e : TlvEntry)
    → e.type_id ≡ 1
    → (ltb 10_000 (field 2 e.bytes 88) || ltb 10_000 (field 2 e.bytes 106)) ≡ false
    → ¬ Harm e
fair_rates e t f (inl a) = omega arith
fair_rates e t f (inr (inl (a, b, c))) = omega arith
fair_rates e t f (inr (inr (inl (a, b, c)))) = omega arith
fair_rates e t f (inr (inr (inr (inl (a, b, c))))) = omega arith
fair_rates e t f (inr (inr (inr (inr (a, inl b))))) =
    omega (arith, not_above (field 2 e.bytes 88) (field 2 e.bytes 106) f)
fair_rates e t f (inr (inr (inr (inr (a, inr b))))) =
    omega (arith, not_above (field 2 e.bytes 88) (field 2 e.bytes 106) f)

pub fee_config-Verdict :
    (g h : Token2022Gate) (epoch : Option ℕ) (e : TlvEntry)
    → e.type_id ≡ 1
    → on_transfer_fee_config g epoch e.bytes ≡ ok h
    → Verdict e g h
unfolding on_transfer_fee_config
fee_config-Verdict g h epoch e t k =
    let d = e.bytes in
    let older : TransferFeeTier = record {
      epoch = field 8 d 72;
      max_fee = field 8 d 80;
      bps = field 2 d 88;
    } in
    let newer : TransferFeeTier = record {
      epoch = field 8 d 90;
      max_fee = field 8 d 98;
      bps = field 2 d 106;
    } in
    on_pass (ltb (length d) 106) (throw range) (ok (with_tiers g epoch older newer)) k λ long k1.
      subst (Verdict e g) (ok_inj k1)
        (elim (Bool-cases (ltb 10_000 older.bps || ltb 10_000 newer.bps)) [
          | inl bad ↦ inr (
            inr (inr (inr (inr (t, above older.bps newer.bps bad)))),
            (transfer_fee_invalid, with_tiers-rejected g epoch older newer bad),
          )
          | inr fine ↦ inl (fair_rates e t fine, with_tiers-rejects g epoch older newer fine)
        ])

-- An entry of another type does no harm, and changes nothing or adds a warning.
pub other_harmless :
    (e : TlvEntry)
    → e.type_id ≢ 9
    → e.type_id ≢ 26
    → e.type_id ≢ 6
    → e.type_id ≢ 14
    → e.type_id ≢ 1
    → ¬ Harm e
other_harmless e a b c d f (inl x) = a x
other_harmless e a b c d f (inr (inl (x, y, z))) = b x
other_harmless e a b c d f (inr (inr (inl (x, y, z)))) = c x
other_harmless e a b c d f (inr (inr (inr (inl (x, y, z))))) = d x
other_harmless e a b c d f (inr (inr (inr (inr (x, y))))) = f x

pub delegate_harmless : (e : TlvEntry) → e.type_id ≡ 12 → ¬ Harm e
delegate_harmless e t =
    other_harmless e (omega arith) (omega arith) (omega arith) (omega arith) (omega arith)
