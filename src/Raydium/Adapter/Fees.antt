-- ===== src/Raydium/Adapter/Fees.antt =====
-- The fee items of a quote of src/adapters/raydium_cpmm/adapter.ts: their sums by mint.
use atomarb.Common.{
  Bool, ℕ, ◌≡◌, ◌≢◌, refl, sym, ap, true, false, Bool-cases, inl, inr, Option, none, some, List, [],
  ◌∷◌, ◌++◌, ok, ok_inj, ltb, ◌==◌, if◌then◌else◌, arith,
}
use atomarb.Common.Int.{ℤ, pos, ◌+ℤ◌, ◌-ℤ◌, int_laws}
use atomarb.Raydium.Layout.{PublicKey}
use atomarb.Raydium.TransferFee.{
  TokenProgramKind, spl_token, token_2022, TransferFeeConfigView, MintFeeView, fee_by,
  get_transfer_fee,
}
use atomarb.Raydium.Curve.Input.{taken, not_taken}
use atomarb.Raydium.Swap.{SwapBaseInputOk}
use atomarb.Adapter.{FeeItem}
use atomarb.Raydium.Adapter.{String, Sides}
use atomarb.Raydium.Adapter.Quote.{fee_item, creator_item, transfer_item, fee_items}

-- The sum of the fees that are taken in a mint.
unfoldable pub fees_in_mint : PublicKey → List FeeItem → ℤ
unfolding ◌+ℤ◌
fees_in_mint k [] = pos 0
fees_in_mint k (f ∷ fs) = if f.mint == k then f.amount +ℤ fees_in_mint k fs else fees_in_mint k fs

zero_plus : (a : ℤ) → pos 0 +ℤ a ≡ a
zero_plus a = omega int_laws

plus_assoc : (a b c : ℤ) → a +ℤ b +ℤ c ≡ a +ℤ (b +ℤ c)
plus_assoc a b c = omega int_laws

fees_in_mint-append :
    (k : PublicKey) (xs ys : List FeeItem)
    → fees_in_mint k (xs ++ ys) ≡ fees_in_mint k xs +ℤ fees_in_mint k ys
unfolding fees_in_mint
fees_in_mint-append k [] ys = sym (zero_plus (fees_in_mint k ys))
fees_in_mint-append k (x ∷ xs) ys = elim (Bool-cases (x.mint == k)) [
  | inl a ↦
      rw (a, fees_in_mint-append k xs ys)
        (sym (plus_assoc x.amount (fees_in_mint k xs) (fees_in_mint k ys)))
  | inr a ↦ rw (a, fees_in_mint-append k xs ys) refl
]

same_key : (k : PublicKey) → (k == k) ≡ true
same_key k = ground arith

other_key : (j k : PublicKey) → j ≢ k → (j == k) ≡ false
other_key j k h = ground arith

plus_zero : (a : ℤ) → a +ℤ pos 0 ≡ a
plus_zero a = omega int_laws

-- A list of one item, in the mint or in another one.
one_here :
    (n : String) (a : ℤ) (k : PublicKey) (r : String) → fees_in_mint k (fee_item n a k r ∷ []) ≡ a
unfolding fees_in_mint
one_here n a k r = rw (same_key k) (plus_zero a)

one_elsewhere :
    (n : String) (a : ℤ) (m k : PublicKey) (r : String)
    → m ≢ k
    → fees_in_mint k (fee_item n a m r ∷ []) ≡ pos 0
unfolding fees_in_mint
one_elsewhere n a m k r h = rw (other_key m k h) refl

none_taken : (b : Bool) (c : ℕ) → c ≡ 0 → (taken b c ≡ 0) × (not_taken b c ≡ 0)
none_taken true c e = (e, refl)
none_taken false c e = (refl, e)

-- The creator's fee stands in the mint in which it is taken.
module _ (s : Sides) (r : SwapBaseInputOk) (apart : s.in_mint.mint ≢ s.out_mint.mint)
    (free : r.creator_fee_rate ≡ 0 → r.curve.creator_fee ≡ 0) where
  creator_in :
      fees_in_mint s.in_mint.mint (creator_item s r)
      ≡ pos (taken r.is_creator_fee_on_input r.curve.creator_fee)
  unfolding creator_item
  creator_in = elim (Bool-cases (ltb 0 r.creator_fee_rate)) [
    | inl charged ↦ elim (Bool-cases r.is_creator_fee_on_input) [
      | inl i ↦
          rw (charged, i)
            (one_here "creator_fee" (pos r.curve.creator_fee) s.in_mint.mint "creator")
      | inr o ↦
          rw (charged, o)
            (one_elsewhere "creator_fee" (pos r.curve.creator_fee) s.out_mint.mint s.in_mint.mint
              "creator" (λ e. apart (sym e)))
    ]
    | inr unpaid ↦
        let e = none_taken r.is_creator_fee_on_input r.curve.creator_fee (free (ground arith)) in
        rw (unpaid, e.0) (unfold fees_in_mint in refl)
  ]

  creator_out :
      fees_in_mint s.out_mint.mint (creator_item s r)
      ≡ pos (not_taken r.is_creator_fee_on_input r.curve.creator_fee)
  unfolding creator_item
  creator_out = elim (Bool-cases (ltb 0 r.creator_fee_rate)) [
    | inl charged ↦ elim (Bool-cases r.is_creator_fee_on_input) [
      | inl i ↦
          rw (charged, i)
            (one_elsewhere "creator_fee" (pos r.curve.creator_fee) s.in_mint.mint s.out_mint.mint
              "creator" apart)
      | inr o ↦
          rw (charged, o)
            (one_here "creator_fee" (pos r.curve.creator_fee) s.out_mint.mint "creator")
    ]
    | inr unpaid ↦
        let e = none_taken r.is_creator_fee_on_input r.curve.creator_fee (free (ground arith)) in
        rw (unpaid, e.1) (unfold fees_in_mint in refl)
  ]

-- A mint with no configuration takes no transfer fee.
transfer_here :
    (v : Option TransferFeeConfigView) (n : String) (a : ℕ) (k : PublicKey)
    → (v ≡ none → a ≡ 0)
    → fees_in_mint k (transfer_item v n a k) ≡ pos a
unfolding transfer_item
transfer_here none n a k h = rw (h refl) (unfold fees_in_mint in refl)
transfer_here (some v) n a k h = one_here n (pos a) k "token2022_transfer_fee"

transfer_elsewhere :
    (v : Option TransferFeeConfigView) (n : String) (a : ℕ) (m k : PublicKey)
    → m ≢ k
    → fees_in_mint k (transfer_item v n a m) ≡ pos 0
unfolding transfer_item
transfer_elsewhere none n a m k h = unfold fees_in_mint in refl
transfer_elsewhere (some v) n a m k h = one_elsewhere n (pos a) m k "token2022_transfer_fee" h

no_transfer_fee :
    (k : TokenProgramKind) (v : Option TransferFeeConfigView) (epoch x f : ℕ)
    → fee_by k v epoch x ≡ ok f
    → v ≡ none
    → f ≡ 0
unfolding fee_by
no_transfer_fee spl_token v epoch x f h e = sym (ok_inj h)
no_transfer_fee token_2022 none epoch x f h e = sym (ok_inj h)
no_transfer_fee token_2022 (some v) epoch x f h e = cc

pub get_transfer_fee-none :
    (m : MintFeeView) (epoch x f : ℕ)
    → get_transfer_fee m epoch x ≡ ok f
    → m.transfer_fee ≡ none
    → f ≡ 0
unfolding get_transfer_fee
get_transfer_fee-none m epoch x f h e = no_transfer_fee m.program m.transfer_fee epoch x f h e

three_parts :
    (t p f : ℕ) (rest : ℤ) → (pos t -ℤ pos p -ℤ pos f) +ℤ (pos p +ℤ (pos f +ℤ rest)) ≡ pos t +ℤ rest
three_parts t p f rest = omega int_laws

-- The fee items in the input's mint are the trade fee, the creator's fee if it is taken on the input,
-- and the transfer fee; those in the output's mint are the rest.
pub fee_items-sums :
    (s : Sides) (r : SwapBaseInputOk)
    → s.in_mint.mint ≢ s.out_mint.mint
    → (r.creator_fee_rate ≡ 0 → r.curve.creator_fee ≡ 0)
    → (s.ctx.input_mint.transfer_fee ≡ none → r.transfer_fee_in ≡ 0)
    → (s.ctx.output_mint.transfer_fee ≡ none → r.transfer_fee_out ≡ 0)
    → (fees_in_mint s.in_mint.mint (fee_items s r)
        ≡ pos r.curve.trade_fee
          +ℤ (pos (taken r.is_creator_fee_on_input r.curve.creator_fee) +ℤ pos r.transfer_fee_in))
      × (fees_in_mint s.out_mint.mint (fee_items s r)
          ≡ pos (not_taken r.is_creator_fee_on_input r.curve.creator_fee) +ℤ pos r.transfer_fee_out)
unfolding fee_items
fee_items-sums s r apart free fin fout =
    let a = s.in_mint.mint in
    let b = s.out_mint.mint in
    let x =
      transfer_item s.ctx.input_mint.transfer_fee "token2022_transfer_fee_in" r.transfer_fee_in a in
    let y =
      transfer_item s.ctx.output_mint.transfer_fee "token2022_transfer_fee_out" r.transfer_fee_out
        b in
    let c = creator_item s r in
    let rest_in : fees_in_mint a (c ++ (x ++ y))
        ≡ pos (taken r.is_creator_fee_on_input r.curve.creator_fee) +ℤ pos r.transfer_fee_in =
      rw
        (
          fees_in_mint-append a c (x ++ y),
          fees_in_mint-append a x y,
          creator_in s r apart free,
          transfer_here s.ctx.input_mint.transfer_fee "token2022_transfer_fee_in" r.transfer_fee_in
              a fin,
          transfer_elsewhere s.ctx.output_mint.transfer_fee "token2022_transfer_fee_out"
              r.transfer_fee_out b a (λ e. apart (sym e)),
        )
        (ap (λ t. pos (taken r.is_creator_fee_on_input r.curve.creator_fee) +ℤ t)
          (plus_zero (pos r.transfer_fee_in))) in
    let rest_out : fees_in_mint b (c ++ (x ++ y))
        ≡ pos (not_taken r.is_creator_fee_on_input r.curve.creator_fee) +ℤ pos r.transfer_fee_out =
      rw
        (
          fees_in_mint-append b c (x ++ y),
          fees_in_mint-append b x y,
          creator_out s r apart free,
          transfer_elsewhere s.ctx.input_mint.transfer_fee "token2022_transfer_fee_in"
              r.transfer_fee_in a b apart,
          transfer_here s.ctx.output_mint.transfer_fee "token2022_transfer_fee_out"
              r.transfer_fee_out b fout,
        )
        (ap (λ t. pos (not_taken r.is_creator_fee_on_input r.curve.creator_fee) +ℤ t)
          (zero_plus (pos r.transfer_fee_out))) in
    unfold fees_in_mint in
    (
      rw (same_key a, rest_in)
          (three_parts r.curve.trade_fee r.curve.protocol_fee r.curve.fund_fee
            (pos (taken r.is_creator_fee_on_input r.curve.creator_fee) +ℤ pos r.transfer_fee_in)),
      rw (other_key a b apart) rest_out,
    )
