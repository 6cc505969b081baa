-- ===== src/Rpc/Coherent.antt =====
-- The accounts of a bundle that src/state/rpc.ts fetches belong to it.
use atomarb.Common.{
  ℕ, ◌≤◌, ◌≡◌, ◌⊎◌, refl, subst, true, Bool-cases, inl, inr, Option, none, some, List, [], ◌∷◌,
  ◌++◌, length, ok, throw, bad_key_count, ok_inj, on_ok, on_pass, ltb, ◌==◌, ◌||◌, arith,
}
use atomarb.Raydium.Layout.{PublicKey}
use atomarb.Adapter.Accounts.{RawAccount, AccountBundle}
use atomarb.Rpc.{
  Value, Response, RpcClient, Accounts, no_accounts, set_account, account_of, read_values,
  get_multiple_accounts,
}

abbrev pub Any {ℓ} : {A : Type ℓ} → (A → Type 0) → List A → Type 0
Any P [] = ⊥
Any P (x ∷ xs) = P x ⊎ Any P xs

pub Any-append_left {ℓ} :
    {A : Type ℓ} (P : A → Type 0) (xs ys : List A) → Any P xs → Any P (xs ++ ys)
Any-append_left P [] ys h = absurd h
Any-append_left P (x ∷ xs) ys (inl h) = inl h
Any-append_left P (x ∷ xs) ys (inr h) = inr (Any-append_left P xs ys h)

pub Any-append_right {ℓ} :
    {A : Type ℓ} (P : A → Type 0) (xs ys : List A) → Any P ys → Any P (xs ++ ys)
Any-append_right P [] ys h = h
Any-append_right P (x ∷ xs) ys h = inr (Any-append_right P xs ys h)

-- An account that is found at a key, between two slots and of one of some batches.
pub record Belongs (ids : List ℕ) (lo hi : ℕ) (k : PublicKey) (a : RawAccount) : Type 0 where
  pub key : a.pubkey ≡ k
  pub after : lo ≤ a.context_slot
  pub before : a.context_slot ≤ hi
  pub batch : Any (λ i. i ≡ a.batch_id) ids

abbrev pub Belong : Accounts → List ℕ → (lo hi : ℕ) → Type 0
Belong accounts ids lo hi =
    (k : PublicKey) (a : RawAccount) → accounts k ≡ some a → Belongs ids lo hi k a

some_inj {ℓ} : {A : Type ℓ} {a b : A} → some a ≡ some b → a ≡ b
some_inj h = cc

pub none_stand : (ids : List ℕ) (lo hi : ℕ) → Belong no_accounts ids lo hi
none_stand ids lo hi k a h = cc

set_account-Belong :
    (r : Response) (accounts : Accounts) (k : PublicKey) (v : Value)
    → Belong accounts (r.batch_id ∷ []) r.slot r.slot
    → Belong (set_account accounts k (account_of r k v)) (r.batch_id ∷ []) r.slot r.slot
unfolding set_account
set_account-Belong r accounts k v old j a h = elim (Bool-cases (j == k)) [
  | inl here ↦
      let e : account_of r k v ≡ a = some_inj (rw here at h) in
      let same : k ≡ j = ground arith in
      subst (Belongs (r.batch_id ∷ []) r.slot r.slot j) e
        (record { key = same; after = omega arith; before = omega arith; batch = inl refl })
  | inr there ↦ old j a (rw there at h)
]

read_values-Belong :
    (r : Response) (keys : List PublicKey) (vs : List (Option Value)) (accounts out : Accounts)
    → Belong accounts (r.batch_id ∷ []) r.slot r.slot
    → read_values r keys vs accounts ≡ ok out
    → Belong out (r.batch_id ∷ []) r.slot r.slot
unfolding read_values
read_values-Belong r [] [] accounts out old h =
    subst (λ m. Belong m (r.batch_id ∷ []) r.slot r.slot) (ok_inj h) old
read_values-Belong r (k ∷ ks) [] accounts out old h =
    subst (λ m. Belong m (r.batch_id ∷ []) r.slot r.slot) (ok_inj h) old
read_values-Belong r [] (none ∷ vs) accounts out old h =
    read_values-Belong r [] vs accounts out old h
read_values-Belong r [] (some v ∷ vs) accounts out old h = cc
read_values-Belong r (k ∷ ks) (none ∷ vs) accounts out old h =
    read_values-Belong r ks vs accounts out old h
read_values-Belong r (k ∷ ks) (some v ∷ vs) accounts out old h =
    read_values-Belong r ks vs (set_account accounts k (account_of r k v)) out
      (set_account-Belong r accounts k v old) h

-- Every account of a bundle is found at its own key, its slot is in the range of the bundle, and its
-- batch is one of the bundle's; a bundle that is called a single batch has one batch.
pub record IsCoherent (b : AccountBundle) : Type 0 where
  pub belong : Belong b.accounts b.batch_ids b.min_slot b.max_slot
  pub single : b.single_batch ≡ true → length b.batch_ids ≡ 1

pub get_multiple_accounts-IsCoherent :
    (rpc : RpcClient) (n : ℕ) (keys : List PublicKey) (b : AccountBundle)
    → get_multiple_accounts rpc n keys ≡ ok b
    → IsCoherent b × (length b.batch_ids ≡ 1) × (length keys ≤ 100)
unfolding get_multiple_accounts
get_multiple_accounts-IsCoherent rpc n keys b h =
    on_pass (length keys == 0 || ltb 100 (length keys)) (throw bad_key_count) _ h λ c h.
      on_ok (rpc.call n keys) _ h λ r er h.
        on_ok (read_values r keys r.value no_accounts) _ h λ accounts ea h.
          let fits : length keys ≤ 100 = ground arith in
          subst (λ b. IsCoherent b × (length b.batch_ids ≡ 1) × (length keys ≤ 100)) (ok_inj h)
            (
              record {
                belong =
                    read_values-Belong r keys r.value no_accounts accounts
                      (none_stand (r.batch_id ∷ []) r.slot r.slot) ea;
                single = λ s. refl;
              },
              refl,
              fits,
            )
