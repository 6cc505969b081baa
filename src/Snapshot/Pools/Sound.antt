-- ===== src/Snapshot/Pools/Sound.antt =====
-- What an outcome `OK` of `snapshotPools` of src/state/snapshot.ts stands for.
use atomarb.Common.{
  arith, ℕ, ◌≡◌, ◌≢◌, ◌⊎◌, refl, subst, Bool, true, false, not, ◌&&◌, Bool-cases, inl, inr, Option,
  none, some, List, [], ◌∷◌, ◌++◌, All, All-append_one, map, length, leb, Result, ok, err, null,
  fail, throw, ok_inj, on_ok, if◌then◌else◌, pool_account_missing,
}
use atomarb.Raydium.Layout.{PublicKey}
use atomarb.Adapter.{DecodedPool, PoolRef, ValidationResult}
use atomarb.Adapter.Accounts.{AccountBundle}
use atomarb.Rpc.{RpcClient, get_accounts_batched}
use atomarb.Rpc.Coherent.{IsCoherent, get_multiple_accounts-IsCoherent}
use atomarb.Rpc.Batches.{get_accounts_batched-IsCoherent}
use atomarb.Snapshot.Pools.{
  usable, unsupported, invalid, SnapshotOutcome, refused, Adapters, Asked, add_outcome, on_required,
  ask_pool, ask, has_all, on_decoded, examine, examine_all, fetch_needed, Snapshots,
  snapshot_needed, snapshot_pools,
}

AreRefused : List SnapshotOutcome → Type 0
AreRefused os = All (λ o. o.status ≢ usable) os

Option-cases {ℓ} : {A : Type ℓ} (o : Option A) → (o ≡ none) ⊎ ((a : A) × (o ≡ some a))
Option-cases none = inl refl
Option-cases (some a) = inr (a, refl)

-- The first loop finds no pool usable.
on_required-AreRefused :
    (s t : Asked) (p : PoolRef) (m : Result (List PublicKey))
    → AreRefused s.outcomes
    → on_required s p m ≡ ok t
    → AreRefused t.outcomes
unfolding AreRefused on_required add_outcome
on_required-AreRefused s t p (ok req) old h = subst (λ t. AreRefused t.outcomes) (ok_inj h) old
on_required-AreRefused s t p (err null) old h = cc
on_required-AreRefused s t p (err (throw e)) old h = cc
on_required-AreRefused s t p (err (fail c)) old h =
    subst (λ t. AreRefused t.outcomes) (ok_inj h)
      (All-append_one (λ o. o.status ≢ usable) s.outcomes (refused p unsupported c) old λ e. cc)

ask_pool-AreRefused :
    (adapters : Adapters) (first : AccountBundle) (s t : Asked) (p : PoolRef)
    → AreRefused s.outcomes
    → ask_pool adapters first s p ≡ ok t
    → AreRefused t.outcomes
unfolding AreRefused ask_pool add_outcome
ask_pool-AreRefused adapters first s t p old h = elim (Option-cases (first.accounts p.address)) [
  | inl e ↦
      subst (λ t. AreRefused t.outcomes) (ok_inj (rw (e, ask_pool) at h))
        (All-append_one (λ o. o.status ≢ usable) s.outcomes (refused p invalid pool_account_missing)
          old λ e. cc)
  | inr (account, e) ↦
      on_required-AreRefused s t p ((adapters p.adapter).required_accounts p (some account)) old
        (rw (e, ask_pool) at h)
]

ask-AreRefused :
    (adapters : Adapters) (first : AccountBundle) (s t : Asked) (ps : List PoolRef)
    → AreRefused s.outcomes
    → ask adapters first s ps ≡ ok t
    → AreRefused t.outcomes
unfolding ask
ask-AreRefused adapters first s t [] old h = subst (λ t. AreRefused t.outcomes) (ok_inj h) old
ask-AreRefused adapters first s t (p ∷ ps) old h = on_ok (ask_pool adapters first s p) _ h λ u eu h.
    ask-AreRefused adapters first u t ps (ask_pool-AreRefused adapters first s u p old eu) h

-- An outcome whose pool was decoded from the bundle and passed the validation.
pub record IsUsable (adapters : Adapters) (require_single : Bool) (b : AccountBundle)
    (o : SnapshotOutcome) : Type 0 where
  pub pool : DecodedPool
  pub result : ValidationResult
  pub decoded : o.decoded ≡ some pool
  pub decoded_eq : (adapters o.pool.adapter).decode_snapshot o.pool b ≡ ok pool
  pub validated : (adapters o.pool.adapter).validate_pool pool ≡ ok result
  pub passed : result.is_ok ≡ true
  pub single : require_single ≡ true → b.single_batch ≡ true

passed_of : (ok? : Bool) → (if ok? then usable else invalid) ≡ usable → ok? ≡ true
passed_of true h = refl
passed_of false h = cc

on_decoded-IsUsable :
    (adapters : Adapters) (require_single : Bool) (b : AccountBundle) (p : PoolRef)
    (m : Result DecodedPool) (o : SnapshotOutcome)
    → (adapters p.adapter).decode_snapshot p b ≡ m
    → (require_single ≡ true → b.single_batch ≡ true)
    → on_decoded (adapters p.adapter) p m ≡ ok o
    → o.status ≡ usable
    → IsUsable adapters require_single b o
unfolding on_decoded
on_decoded-IsUsable adapters require_single b p (ok d) o e single h =
    on_ok ((adapters p.adapter).validate_pool d) _ h λ v ev h.
      subst (λ o. o.status ≡ usable → IsUsable adapters require_single b o) (ok_inj h)
        λ u. record {
          pool = d;
          result = v;
          decoded = refl;
          decoded_eq = e;
          validated = ev;
          passed = passed_of v.is_ok u;
          single = single;
        }
on_decoded-IsUsable adapters require_single b p (err null) o e single h = cc
on_decoded-IsUsable adapters require_single b p (err (throw t)) o e single h = cc
on_decoded-IsUsable adapters require_single b p (err (fail c)) o e single h =
    subst (λ o. o.status ≡ usable → IsUsable adapters require_single b o) (ok_inj h) λ u. cc

single_of : (r s : Bool) → (r && not s) ≡ false → r ≡ true → s ≡ true
single_of r s h e = ground arith

examine-IsUsable :
    (adapters : Adapters) (require_single : Bool) (b : AccountBundle) (p : PoolRef)
    (req : List PublicKey) (o : SnapshotOutcome)
    → examine adapters require_single b p req ≡ ok o
    → o.status ≡ usable
    → IsUsable adapters require_single b o
unfolding examine
examine-IsUsable adapters require_single b p req o h = elim (Bool-cases (not (has_all b req))) [
  | inl absent ↦
      subst (λ o. o.status ≡ usable → IsUsable adapters require_single b o)
        (ok_inj (rw absent at h)) λ u. cc
  | inr present ↦ elim (Bool-cases (require_single && not b.single_batch)) [
    | inl parts ↦
        subst (λ o. o.status ≡ usable → IsUsable adapters require_single b o)
          (ok_inj (rw (present, parts) at h)) λ u. cc
    | inr one ↦
        on_decoded-IsUsable adapters require_single b p ((adapters p.adapter).decode_snapshot p b) o
          refl (single_of require_single b.single_batch one) (rw (present, one) at h)
  ]
]

examine_all-IsUsable :
    (adapters : Adapters) (require_single : Bool) (b : AccountBundle)
    (per_pool : PublicKey → Option (List PublicKey)) (ps : List PoolRef) (os : List SnapshotOutcome)
    → examine_all adapters require_single b per_pool ps ≡ ok os
    → All (λ o. o.status ≡ usable → IsUsable adapters require_single b o) os
unfolding examine_all
examine_all-IsUsable adapters require_single b per_pool [] os h =
    subst (All (λ o. o.status ≡ usable → IsUsable adapters require_single b o)) (ok_inj h) tt
examine_all-IsUsable adapters require_single b per_pool (p ∷ ps) os h =
    elim (Option-cases (per_pool p.address)) [
      | inl e ↦
          examine_all-IsUsable adapters require_single b per_pool ps os (rw (e, examine_all) at h)
      | inr (req, e) ↦
          on_ok (examine adapters require_single b p req) _ (rw (e, examine_all) at h) λ o eo h.
            on_ok (examine_all adapters require_single b per_pool ps) _ h λ rest er h.
              subst (All (λ o. o.status ≡ usable → IsUsable adapters require_single b o)) (ok_inj h)
                (
                  examine-IsUsable adapters require_single b p req o eo,
                  examine_all-IsUsable adapters require_single b per_pool ps rest er,
                )
    ]

fetch_needed-IsCoherent :
    (rpc : RpcClient) (n : ℕ) (needed : List PublicKey) (b : AccountBundle)
    → fetch_needed rpc n needed ≡ ok b
    → IsCoherent b
unfolding fetch_needed
fetch_needed-IsCoherent rpc n needed b h = elim (Bool-cases (leb (length needed) 100)) [
  | inl few ↦ (get_multiple_accounts-IsCoherent rpc n needed b (rw few at h)).0
  | inr many ↦ (get_accounts_batched-IsCoherent rpc n needed b (rw many at h)).0
]

-- What is known of an outcome of a result.
abbrev pub Explained : Adapters → Bool → Option AccountBundle → SnapshotOutcome → Type 0
Explained adapters require_single bundle o =
    o.status ≡ usable
    → (b : AccountBundle) × (bundle ≡ some b) × IsCoherent b × IsUsable adapters require_single b o

All-refused :
    (adapters : Adapters) (require_single : Bool) (bundle : Option AccountBundle)
    (os : List SnapshotOutcome)
    → AreRefused os
    → All (Explained adapters require_single bundle) os
unfolding AreRefused
All-refused adapters require_single bundle [] h = tt
All-refused adapters require_single bundle (o ∷ os) (h, hs) =
    (λ u. absurd (h u), All-refused adapters require_single bundle os hs)

All-Explained :
    (adapters : Adapters) (require_single : Bool) (b : AccountBundle) (os : List SnapshotOutcome)
    → IsCoherent b
    → All (λ o. o.status ≡ usable → IsUsable adapters require_single b o) os
    → All (Explained adapters require_single (some b)) os
All-Explained adapters require_single b [] c h = tt
All-Explained adapters require_single b (o ∷ os) c (h, hs) =
    (λ u. (b, refl, c, h u), All-Explained adapters require_single b os c hs)

All-append {ℓ} :
    {A : Type ℓ} (P : A → Type 0) (xs ys : List A) → All P xs → All P ys → All P (xs ++ ys)
All-append P [] ys h k = k
All-append P (x ∷ xs) ys (h, hs) k = (h, All-append P xs ys hs k)

snapshot_needed-Explained :
    (rpc : RpcClient) (n : ℕ) (adapters : Adapters) (pools : List PoolRef) (require_single : Bool)
    (s : Asked) (needed : List PublicKey) (r : Snapshots)
    → AreRefused s.outcomes
    → snapshot_needed rpc n adapters pools require_single s needed ≡ ok r
    → All (Explained adapters require_single r.bundle) r.outcomes
unfolding snapshot_needed
snapshot_needed-Explained rpc n adapters pools require_single s [] r old h =
    subst (λ r. All (Explained adapters require_single r.bundle) r.outcomes) (ok_inj h)
      (All-refused adapters require_single none s.outcomes old)
snapshot_needed-Explained rpc n adapters pools require_single s (k ∷ ks) r old h =
    on_ok (fetch_needed rpc n (k ∷ ks)) _ h λ b eb h.
      on_ok (examine_all adapters require_single b s.per_pool pools) _ h λ os eo h.
        subst (λ r. All (Explained adapters require_single r.bundle) r.outcomes) (ok_inj h)
          (All-append (Explained adapters require_single (some b)) s.outcomes os
            (All-refused adapters require_single (some b) s.outcomes old)
            (All-Explained adapters require_single b os
              (fetch_needed-IsCoherent rpc n (k ∷ ks) b eb)
              (examine_all-IsUsable adapters require_single b s.per_pool pools os eo)))

-- Of every outcome `OK` of `snapshotPools` there is a bundle that the node's answers were gathered in: the
-- outcome's pool was decoded by its adapter from this bundle, and passed the adapter's validation; every
-- account of the bundle stands at its own key, with a slot in the bundle's range and one of its batches;
-- and the bundle is a single batch if one was required.
pub snapshot_pools-Explained :
    (rpc : RpcClient) (adapters : Adapters) (pools : List PoolRef) (require_single : Bool)
    (r : Snapshots)
    → snapshot_pools rpc adapters pools require_single ≡ ok r
    → All (Explained adapters require_single r.bundle) r.outcomes
unfolding snapshot_pools AreRefused
snapshot_pools-Explained rpc adapters pools require_single r h =
    on_ok (get_accounts_batched rpc 0 (map PoolRef.address pools)) _ h λ first ef h.
      on_ok (ask adapters first _ pools) _ h λ s es h.
        snapshot_needed-Explained rpc (length first.batch_ids) adapters pools require_single s
          s.needed r (ask-AreRefused adapters first _ s pools tt es) h
