-- ===== src/Pumpswap/Gate/Harm.antt =====
-- What `token2022Gate` of src/adapters/pumpswap/math.ts rejects: the extensions of a mint that make a
-- transfer fail, or that make its fee unknown.
use atomarb.Common.{
  ◌∙◌, ◌≢◌, ℕ, ◌<◌, ◌≡◌, ◌↔◌, refl, sym, true, false, not, ◌||◌, Bool-cases, inl, inr, none, some,
  Option, Code, non_transferable, List, [], ◌∷◌, ◌++◌, length, All, ok, ok_inj, on_ok, leb, ◌==◌,
  arith, subst,
}
use atomarb.Raydium.Layout.{PublicKey}
use atomarb.Adapter.Accounts.{RawAccount, MintInfo}
use atomarb.Token.{TlvEntry, parse_tlv, mint_size}
use atomarb.Pumpswap.Gate.{
  Token2022Gate, reject_with, on_entry, gate_entries, start_gate, epoch_of, token_2022_gate,
}
use atomarb.Pumpswap.Gate.Verdicts.{
  Harm, Verdict, pausable-Verdict, default_state-Verdict, transfer_hook-Verdict,
  permanent_delegate-rejects, fee_config-Verdict, other_harmless, delegate_harmless,
}

append-ne-nil : (xs : List Code) (c : Code) → ¬ (xs ++ c ∷ [] ≡ [])
append-ne-nil [] c h = cc
append-ne-nil (x ∷ xs) c h = cc

ne_of : (a b : ℕ) → (a == b) ≡ false → a ≢ b
ne_of a b h e = ground arith

eq_of : (a b : ℕ) → (a == b) ≡ true → a ≡ b
eq_of a b h = ground arith

on_entry-Verdict :
    (epoch : Option ℕ) (g h : Token2022Gate) (e : TlvEntry)
    → on_entry epoch g e ≡ ok h
    → Verdict e g h
unfolding on_entry reject_with
on_entry-Verdict epoch g h e k = elim (Bool-cases (e.type_id == 9)) [
  | inl a ↦
      subst (Verdict e g) (ok_inj (rw a at k))
        (inr (inl (eq_of e.type_id 9 a), (non_transferable, refl)))
  | inr a ↦ elim (Bool-cases (e.type_id == 26)) [
    | inl b ↦
        subst (Verdict e g) (ok_inj (rw (a, b) at k)) (pausable-Verdict g e (eq_of e.type_id 26 b))
    | inr b ↦ elim (Bool-cases (e.type_id == 6)) [
      | inl c ↦
          subst (Verdict e g) (ok_inj (rw (a, b, c) at k))
            (default_state-Verdict g e (eq_of e.type_id 6 c))
      | inr c ↦ elim (Bool-cases (e.type_id == 14)) [
        | inl d ↦
            subst (Verdict e g) (ok_inj (rw (a, b, c, d) at k))
              (transfer_hook-Verdict g e (eq_of e.type_id 14 d))
        | inr d ↦ elim (Bool-cases (e.type_id == 12)) [
          | inl f ↦ subst (Verdict e g) (ok_inj (rw (a, b, c, d, f) at k)) (
              inl
                (delegate_harmless e (eq_of e.type_id 12 f), permanent_delegate-rejects g e.bytes))
          | inr f ↦ elim (Bool-cases (e.type_id == 1)) [
            | inl i ↦
                fee_config-Verdict g h epoch e (eq_of e.type_id 1 i) (rw (a, b, c, d, f, i) at k)
            | inr i ↦ subst (Verdict e g) (ok_inj (rw (a, b, c, d, f, i) at k)) (
                inl (
                  other_harmless e (ne_of e.type_id 9 a) (ne_of e.type_id 26 b)
                      (ne_of e.type_id 6 c) (ne_of e.type_id 14 d) (ne_of e.type_id 1 i),
                  refl,
                ))
          ]
        ]
      ]
    ]
  ]
]

-- No reason to reject at the end: there was none at the start, and no entry does harm.
gate_entries-rejects_iff :
    (epoch : Option ℕ) (g h : Token2022Gate) (es : List TlvEntry)
    → gate_entries epoch g es ≡ ok h
    → (h.rejects ≡ []) ↔ ((g.rejects ≡ []) × All (λ e. ¬ Harm e) es)
unfolding gate_entries
gate_entries-rejects_iff epoch g h [] k = rw (← ok_inj k) (λ r. (r, tt), λ p. p.0)
gate_entries-rejects_iff epoch g h (e ∷ es) k =
    on_ok (on_entry epoch g e) (λ m. gate_entries epoch m es) k
      λ m k1 k2.
        let (there, back) = gate_entries-rejects_iff epoch m h es k2 in
        elim (on_entry-Verdict epoch g m e k1) [
          | inl (fine, same) ↦
              (λ r. (sym same ∙ (there r).0, (fine, (there r).1)), λ p. back (same ∙ p.0, (p.1).1))
          | inr (harm, (c, grown)) ↦ (
            λ r. absurd (append-ne-nil g.rejects c (sym grown ∙ (there r).0)),
            λ p. absurd ((p.1).0 harm),
          )
        ]

start_gate-rejects : (k : Option PublicKey) → (start_gate k).rejects ≡ []
unfolding start_gate
start_gate-rejects none = refl
start_gate-rejects (some k) = refl

-- The gate of a mint of the Token-2022 program with extensions, when it returns, has no reason to
-- reject exactly when none of the extensions that the account holds does harm: none makes every
-- transfer fail, pauses the mint, freezes new accounts, calls a hook's program, or has a rate of more
-- than 100%.
pub token_2022_gate-rejects_iff :
    (program : PublicKey) (raw : RawAccount) (mint : MintInfo) (g : Token2022Gate)
    → raw.owner ≡ program
    → mint_size < length raw.bytes
    → token_2022_gate program raw mint ≡ ok g
    → (tlv : List TlvEntry) × (parse_tlv raw.bytes ≡ ok tlv)
      × ((g.rejects ≡ []) ↔ All (λ e. ¬ Harm e) tlv)
unfolding token_2022_gate
token_2022_gate-rejects_iff program raw mint g o l k =
    let c : (not (raw.owner == program) || leb (length raw.bytes) mint_size) ≡ false =
      ground (arith, o, l) in
    on_ok (parse_tlv raw.bytes)
      (λ tlv. gate_entries (epoch_of raw) (start_gate mint.freeze_authority) tlv) (rw c at k)
      λ tlv e k1.
        let (there, back) =
          gate_entries-rejects_iff (epoch_of raw) (start_gate mint.freeze_authority) g tlv k1 in
        (tlv, e, (λ r. (there r).1, λ p. back (start_gate-rejects mint.freeze_authority, p)))
