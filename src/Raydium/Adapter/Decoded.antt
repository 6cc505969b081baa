-- ===== src/Raydium/Adapter/Decoded.antt =====
-- What a pool decoded by `decodeSnapshot` of src/adapters/raydium_cpmm/adapter.ts is read from.
use atomarb.Common.{
  ◌∙◌, ap, ℕ, ◌≤◌, ◌≡◌, refl, sym, subst, true, false, Bool-cases, inl, inr, some, List, [], ◌∷◌,
  map, length, All, ok, ok_inj, on_ok, or_exit, or_exit-eq-ok, ltb, ◌==◌, if◌then◌else◌, arith,
}
use atomarb.Raydium.Layout.{PublicKey, PoolState}
use atomarb.Raydium.Decode.{decode_pool_state, decode_amm_config}
use atomarb.Raydium.Pool.{vault_amount_without_fee}
use atomarb.Adapter.{DecodedPool, PoolRef, SnapshotInfo}
use atomarb.Adapter.Accounts.{RawAccount, AccountBundle}
use atomarb.Token.{parse_mint, parse_token_account}
use atomarb.Raydium.Adapter.{
  RaydiumCpmmAdapter, params_of, epoch_for_slot, has_key, distinct, distinct_from,
}
use atomarb.Raydium.Adapter.Decode.{
  Raws, others, snapshot_of, decode_raws, on_throw, minimum, maximum, keys_of, params_from,
  decode_snapshot,
}
use atomarb.Raydium.Adapter.Runs.{IsHeld}

lesser : (m n : ℕ) → let l = if ltb m n then m else n in (l ≤ n) × (l ≤ m)
lesser m n = ground arith

minimum-le : (n : ℕ) (ms : List ℕ) → (minimum n ms ≤ n) × All (λ m. minimum n ms ≤ m) ms
unfolding minimum
minimum-le n [] = (omega arith, tt)
minimum-le n (m ∷ ms) =
    let (a, b) = minimum-le (if ltb m n then m else n) ms in
    (omega (arith, a, lesser m n), (omega (arith, a, lesser m n), b))

greater : (m n : ℕ) → let g = if ltb n m then m else n in (n ≤ g) × (m ≤ g)
greater m n = ground arith

le-maximum : (n : ℕ) (ms : List ℕ) → (n ≤ maximum n ms) × All (λ m. m ≤ maximum n ms) ms
unfolding maximum
le-maximum n [] = (omega arith, tt)
le-maximum n (m ∷ ms) =
    let (a, b) = le-maximum (if ltb n m then m else n) ms in
    (omega (arith, a, greater m n), (omega (arith, a, greater m n), b))

distinct_from-old :
    (seen : List ℕ) (k : ℕ) (ks : List ℕ)
    → has_key seen k ≡ true
    → distinct_from seen (k ∷ ks) ≡ distinct_from seen ks
unfolding distinct_from
distinct_from-old seen k ks h = rw (h, distinct_from) refl

distinct_from-new :
    (seen : List ℕ) (k : ℕ) (ks : List ℕ)
    → has_key seen k ≡ false
    → distinct_from seen (k ∷ ks) ≡ k ∷ distinct_from (k ∷ seen) ks
unfolding distinct_from
distinct_from-new seen k ks h = rw (h, distinct_from) refl

has_key-one : (k j : ℕ) → has_key (k ∷ []) j ≡ true → j ≡ k
unfolding has_key
has_key-one k j h = ground arith

distinct-All : (k : ℕ) (ks : List ℕ) → length (distinct_from (k ∷ []) ks) ≡ 0 → All (λ j. j ≡ k) ks
distinct-All k [] h = tt
distinct-All k (j ∷ js) h = elim (Bool-cases (has_key (k ∷ []) j)) [
  | inl e ↦ (
    has_key-one k j e,
    distinct-All k js (sym (ap length (distinct_from-old (k ∷ []) j js e)) ∙ h),
  )
  | inr n ↦ absurd (omega (arith, sym (ap length (distinct_from-new (k ∷ []) j js n)) ∙ h))
]

-- One id is left of a list of equal ones only.
distinct-single :
    (k : ℕ) (ks : List ℕ) → (length (distinct (k ∷ ks)) == 1) ≡ true → All (λ j. j ≡ k) ks
unfolding distinct distinct_from has_key
distinct-single k ks h = distinct-All k ks (ground arith)

-- An account that the pool was read from: it is in the bundle, its slot is in the range of the
-- snapshot, and in a snapshot of a single batch it is of that batch.
abbrev pub Covered : AccountBundle → SnapshotInfo → ℕ → PublicKey → Type 0
Covered bundle i batch k =
    (a : RawAccount) × (bundle.accounts k ≡ some a)
    × (i.min_slot ≤ a.context_slot)
    × (a.context_slot ≤ i.max_slot)
    × (i.single_batch ≡ true → a.batch_id ≡ batch)

pub record IsDecoded (pool : PoolRef) (bundle : AccountBundle) (d : DecodedPool) : Type 0 where
  pub batch : ℕ
  pub same_address : d.address ≡ pool.address
  pub covered : All (Covered bundle d.snapshot batch) d.depends_on
  pub held : IsHeld d

-- The accounts of a bundle at some keys.
abbrev pub AreAt : AccountBundle → List PublicKey → List RawAccount → Type 0
AreAt bundle [] rs = Unit
AreAt bundle (k ∷ ks) [] = ⊥
AreAt bundle (k ∷ ks) (r ∷ rs) = (bundle.accounts k ≡ some r) × AreAt bundle ks rs

AreAt-Covered :
    (bundle : AccountBundle) (i : SnapshotInfo) (batch : ℕ) (ks : List PublicKey)
    (rs : List RawAccount)
    → AreAt bundle ks rs
    → All (λ slot. i.min_slot ≤ slot) (map RawAccount.context_slot rs)
    → All (λ slot. slot ≤ i.max_slot) (map RawAccount.context_slot rs)
    → (i.single_batch ≡ true → All (λ j. j ≡ batch) (map RawAccount.batch_id rs))
    → All (Covered bundle i batch) ks
AreAt-Covered bundle i batch [] rs at lo hi one = tt
AreAt-Covered bundle i batch (k ∷ ks) [] at lo hi one = absurd at
AreAt-Covered bundle i batch (k ∷ ks) (r ∷ rs) (e, at) (l, lo) (h, hi) one =
    ((r, e, l, h, λ s. (one s).0), AreAt-Covered bundle i batch ks rs at lo hi λ s. (one s).1)

decode_raws-IsDecoded :
    (self : RaydiumCpmmAdapter) (pool : PoolRef) (bundle : AccountBundle) (st : PoolState)
    (raws : Raws) (d : DecodedPool)
    → AreAt bundle (keys_of pool st) (raws.pool ∷ others raws)
    → decode_raws self pool bundle st raws ≡ ok d
    → IsDecoded pool bundle d
unfolding decode_raws params_from params_of keys_of snapshot_of
decode_raws-IsDecoded self pool bundle st raws d at h =
    let programs = self.platform.token_programs in
    on_ok (decode_amm_config (raws.config).bytes) _ h λ cfg ec h.
      on_ok (on_throw (parse_token_account programs raws.vault_0) _) _ h λ vault_0 ev0 h.
        on_ok (on_throw (parse_token_account programs raws.vault_1) _) _ h λ vault_1 ev1 h.
          on_ok (on_throw (parse_mint programs raws.mint_0) _) _ h λ mint_0 em0 h.
            on_ok (on_throw (parse_mint programs raws.mint_1) _) _ h λ mint_1 em1 h.
              on_ok (vault_amount_without_fee st vault_0.amount vault_1.amount) _ h λ reserves er h.
                on_ok (on_throw (epoch_for_slot _ self.epoch_schedule) _) _ h λ epoch ee h.
                  let id = (raws.pool).batch_id in
                  let slot = (raws.pool).context_slot in
                  let slots = map RawAccount.context_slot (others raws) in
                  let one = distinct-single id (map RawAccount.batch_id (others raws)) in
                  subst (IsDecoded pool bundle) (ok_inj h) (record {
                    batch = id;
                    same_address = refl;
                    covered =
                        AreAt-Covered bundle (snapshot_of raws) id (keys_of pool st)
                          (raws.pool ∷ others raws) at (minimum-le slot slots)
                          (le-maximum slot slots) λ s. (refl, one s);
                    held = record {
                      params = params_from self st cfg raws.pool raws.config epoch mint_0 mint_1;
                      fees = reserves;
                      params_eq = refl;
                      reserves_eq = er;
                      held_a = refl;
                      held_b = refl;
                    };
                  })

-- A decoded pool is that of the address asked for; every account it depends on is in the bundle, with a
-- slot between the least and the greatest of the snapshot, and of one batch if the snapshot says so;
-- and its reserves are its vaults less the fees that it owes.
pub decode_snapshot-IsDecoded :
    (self : RaydiumCpmmAdapter) (pool : PoolRef) (bundle : AccountBundle) (d : DecodedPool)
    → decode_snapshot self pool bundle ≡ ok d
    → IsDecoded pool bundle d
unfolding decode_snapshot keys_of
decode_snapshot-IsDecoded self pool bundle d h =
    on_ok (or_exit (bundle.accounts pool.address) _) _ h λ pool_raw e0 h.
      on_ok (decode_pool_state pool_raw.bytes) _ h λ st es h.
        on_ok (or_exit (bundle.accounts st.amm_config) _) _ h λ cfg_raw e1 h.
          on_ok (or_exit (bundle.accounts st.token_0_vault) _) _ h λ v0_raw e2 h.
            on_ok (or_exit (bundle.accounts st.token_1_vault) _) _ h λ v1_raw e3 h.
              on_ok (or_exit (bundle.accounts st.token_0_mint) _) _ h λ m0_raw e4 h.
                on_ok (or_exit (bundle.accounts st.token_1_mint) _) _ h λ m1_raw e5 h.
                  decode_raws-IsDecoded self pool bundle st
                    (record {
                      pool = pool_raw;
                      config = cfg_raw;
                      vault_0 = v0_raw;
                      vault_1 = v1_raw;
                      mint_0 = m0_raw;
                      mint_1 = m1_raw;
                    })
                    d
                    (
                      or_exit-eq-ok _ _ e0,
                      (
                        or_exit-eq-ok _ _ e1,
                        (
                          or_exit-eq-ok _ _ e2,
                          (
                            or_exit-eq-ok _ _ e3,
                            (or_exit-eq-ok _ _ e4, (or_exit-eq-ok _ _ e5, tt)),
                          ),
                        ),
                      ),
                    )
                    h
