-- ===== src/Rpc/Batches.antt =====
-- `getAccountsBatched` of src/state/rpc.ts: what its loop gathers, and that it ends.
use atomarb.Common.{
  ◌⊎◌, ℕ, zero, suc, ◌+◌, ◌*◌, ◌≤◌, ◌<◌, ◌≡◌, refl, subst, true, false, inl, inr, Option, none,
  some, List, [], ◌∷◌, length, take, drop, ok, ok_inj, on_ok, ltb, ◌==◌, ◌||◌, if◌then◌else◌, arith,
  length-append,
}
use atomarb.Raydium.Layout.{PublicKey}
use atomarb.Adapter.Accounts.{RawAccount, AccountBundle}
use atomarb.Rpc.{
  Value, Response, RpcClient, Accounts, no_accounts, set_account, account_of, read_values,
  get_multiple_accounts, or_kept, Batched, no_batch, add_batch, max_safe_integer, batches,
  get_accounts_batched,
}
use atomarb.Rpc.Coherent.{
  Any-append_left, Any-append_right, Belong, none_stand, IsCoherent,
  get_multiple_accounts-IsCoherent,
}

or_kept-cases :
    (new kept : Option RawAccount) (a : RawAccount)
    → or_kept new kept ≡ some a
    → (new ≡ some a) ⊎ (kept ≡ some a)
unfolding or_kept
or_kept-cases none kept a h = inr h
or_kept-cases (some b) kept a h = inl h

least : (m n s : ℕ) → (m ≤ s) ⊎ (n ≤ s) → (if ltb m n then m else n) ≤ s
least m n s h = ground arith

greatest : (m n s : ℕ) → (s ≤ m) ⊎ (s ≤ n) → s ≤ (if ltb m n then n else m)
greatest m n s h = ground arith

add_batch-Belong :
    (acc : Batched) (b : AccountBundle)
    → Belong acc.accounts acc.batch_ids acc.min_slot acc.max_slot
    → Belong b.accounts b.batch_ids b.min_slot b.max_slot
    → let c = add_batch acc b in Belong c.accounts c.batch_ids c.min_slot c.max_slot
unfolding add_batch
add_batch-Belong acc b old new k a h = elim (or_kept-cases (b.accounts k) (acc.accounts k) a h) [
  | inl e ↦
      let g = new k a e in
      record {
        key = g.key;
        after = least b.min_slot acc.min_slot a.context_slot (inl g.after);
        before = greatest acc.max_slot b.max_slot a.context_slot (inr g.before);
        batch = Any-append_right (λ i. i ≡ a.batch_id) acc.batch_ids b.batch_ids g.batch;
      }
  | inr e ↦
      let g = old k a e in
      record {
        key = g.key;
        after = least b.min_slot acc.min_slot a.context_slot (inr g.after);
        before = greatest acc.max_slot b.max_slot a.context_slot (inl g.before);
        batch = Any-append_left (λ i. i ≡ a.batch_id) acc.batch_ids b.batch_ids g.batch;
      }
]

length-drop {ℓ} : {A : Type ℓ} (n : ℕ) (xs : List A) → length xs ≤ length (drop n xs) + n
length-drop zero xs = omega arith
length-drop (suc n) [] = omega arith
length-drop (suc n) (x ∷ xs) = omega (arith, length-drop n xs)

-- The loop keeps what it has gathered in order, and adds a batch for every hundred keys.
batches-Belong :
    (fuel : ℕ) (rpc : RpcClient) (n : ℕ) (keys : List PublicKey) (acc out : Batched)
    → Belong acc.accounts acc.batch_ids acc.min_slot acc.max_slot
    → batches fuel rpc n keys acc ≡ ok out
    → Belong out.accounts out.batch_ids out.min_slot out.max_slot
      × (length keys + 100 * length acc.batch_ids ≤ 100 * length out.batch_ids)
unfolding batches add_batch
batches-Belong zero rpc n [] acc out old h =
    subst
      (λ o.
        Belong o.accounts o.batch_ids o.min_slot o.max_slot
        × (0 + 100 * length acc.batch_ids ≤ 100 * length o.batch_ids))
      (ok_inj h) (old, omega arith)
batches-Belong (suc fuel) rpc n [] acc out old h =
    subst
      (λ o.
        Belong o.accounts o.batch_ids o.min_slot o.max_slot
        × (0 + 100 * length acc.batch_ids ≤ 100 * length o.batch_ids))
      (ok_inj h) (old, omega arith)
batches-Belong zero rpc n (k ∷ ks) acc out old h = cc
batches-Belong (suc fuel) rpc n (k ∷ ks) acc out old h =
    on_ok (get_multiple_accounts rpc n (take 100 (k ∷ ks))) _ h λ b eb h.
      let (c, one, fits) = get_multiple_accounts-IsCoherent rpc n (take 100 (k ∷ ks)) b eb in
      let (there, count) =
        batches-Belong fuel rpc (n + 1) (drop 100 (k ∷ ks)) (add_batch acc b) out
          (add_batch-Belong acc b old c.belong) h in
      let joined = length-append acc.batch_ids b.batch_ids in
      let d : length (k ∷ ks) ≤ length (drop 100 (k ∷ ks)) + 100 = length-drop 100 (k ∷ ks) in
      (there, omega (arith, count, joined, one, d))

-- Without keys the least slot is 0.
lower_min :
    (out : Batched) (keys : List PublicKey)
    → Belong out.accounts out.batch_ids out.min_slot out.max_slot
    → Belong out.accounts out.batch_ids (if length keys == 0 then 0 else out.min_slot) out.max_slot
lower_min out keys h k a e =
    let g = h k a e in
    record { key = g.key; after = ground (arith, g.after); before = g.before; batch = g.batch }

is_one : (n : ℕ) → (n == 1) ≡ true → n ≡ 1
is_one n h = ground arith

-- A bundle of `getAccountsBatched` is coherent, and one that is called a single batch is of a hundred keys
-- at most.
pub get_accounts_batched-IsCoherent :
    (rpc : RpcClient) (n : ℕ) (keys : List PublicKey) (b : AccountBundle)
    → get_accounts_batched rpc n keys ≡ ok b
    → IsCoherent b
      × (length keys ≤ 100 * length b.batch_ids)
      × (b.single_batch ≡ true → length keys ≤ 100)
unfolding get_accounts_batched
get_accounts_batched-IsCoherent rpc n keys b h =
    on_ok (batches (length keys) rpc n keys no_batch) _ h λ out e h.
      let (there, count) =
        batches-Belong (length keys) rpc n keys no_batch out (none_stand [] max_safe_integer 0) e in
      subst
        (λ b.
          IsCoherent b
          × (length keys ≤ 100 * length b.batch_ids)
          × (b.single_batch ≡ true → length keys ≤ 100))
        (ok_inj h)
        (
          record { belong = lower_min out keys there; single = is_one (length out.batch_ids) },
          omega (arith, count),
          λ s. let one = is_one (length out.batch_ids) s in omega (arith, count, one),
        )

-- A node that answers every call, with at most as many values as keys.
abbrev pub Answers : RpcClient → Type 0
Answers rpc =
    (n : ℕ) (keys : List PublicKey)
    → (r : Response) × (rpc.call n keys ≡ ok r) × (length r.value ≤ length keys)

read_values-ok :
    (r : Response) (keys : List PublicKey) (vs : List (Option Value)) (accounts : Accounts)
    → length vs ≤ length keys
    → (out : Accounts) × (read_values r keys vs accounts ≡ ok out)
unfolding read_values
read_values-ok r [] [] accounts h = (accounts, refl)
read_values-ok r (k ∷ ks) [] accounts h = (accounts, refl)
read_values-ok r [] (v ∷ vs) accounts h = absurd (omega arith)
read_values-ok r (k ∷ ks) (none ∷ vs) accounts h = read_values-ok r ks vs accounts (omega arith)
read_values-ok r (k ∷ ks) (some v ∷ vs) accounts h =
    read_values-ok r ks vs (set_account accounts k (account_of r k v)) (omega arith)

get_multiple_accounts-ok :
    (rpc : RpcClient) (n : ℕ) (keys : List PublicKey)
    → Answers rpc
    → 0 < length keys
    → length keys ≤ 100
    → (b : AccountBundle) × (get_multiple_accounts rpc n keys ≡ ok b)
unfolding get_multiple_accounts
get_multiple_accounts-ok rpc n keys answers l h =
    let (r, er, fits) = answers n keys in
    let (m, em) = read_values-ok r keys r.value no_accounts fits in
    let c : (length keys == 0 || ltb 100 (length keys)) ≡ false = ground arith in
    (
      record {
        accounts = m;
        single_batch = true;
        min_slot = r.slot;
        max_slot = r.slot;
        batch_ids = r.batch_id ∷ [];
      },
      rw (c, er, em) refl,
    )

length-take {ℓ} : {A : Type ℓ} (n : ℕ) (xs : List A) → length (take n xs) ≤ n
length-take zero xs = omega arith
length-take (suc n) [] = omega arith
length-take (suc n) (x ∷ xs) = omega (arith, length-take n xs)

length-drop_le {ℓ} : {A : Type ℓ} (n : ℕ) (xs : List A) → length (drop n xs) ≤ length xs
length-drop_le zero xs = omega arith
length-drop_le (suc n) [] = omega arith
length-drop_le (suc n) (x ∷ xs) = omega (arith, length-drop_le n xs)

batches-ok :
    (fuel : ℕ) (rpc : RpcClient) (n : ℕ) (keys : List PublicKey) (acc : Batched)
    → Answers rpc
    → length keys ≤ fuel
    → (out : Batched) × (batches fuel rpc n keys acc ≡ ok out)
unfolding batches
batches-ok zero rpc n [] acc answers h = (acc, refl)
batches-ok (suc fuel) rpc n [] acc answers h = (acc, refl)
batches-ok zero rpc n (k ∷ ks) acc answers h = absurd (omega arith)
batches-ok (suc fuel) rpc n (k ∷ ks) acc answers h =
    let some_keys : 0 < length (take 100 (k ∷ ks)) = omega arith in
    let (b, eb) =
      get_multiple_accounts-ok rpc n (take 100 (k ∷ ks)) answers some_keys
        (length-take 100 (k ∷ ks)) in
    let fewer : length (drop 100 (k ∷ ks)) ≤ fuel = omega (arith, length-drop_le 99 ks) in
    let (out, e) =
      batches-ok fuel rpc (n + 1) (drop 100 (k ∷ ks)) (add_batch acc b) answers fewer in
    (out, rw eb e)

-- When every call is answered, with at most as many values as keys, then `getAccountsBatched` returns a
-- bundle, however many keys it is asked for: the fuel suffices, and no call asks for none or for more
-- than a hundred keys.
pub get_accounts_batched_returns :
    (rpc : RpcClient) (n : ℕ) (keys : List PublicKey)
    → Answers rpc
    → (b : AccountBundle) × (get_accounts_batched rpc n keys ≡ ok b)
unfolding get_accounts_batched
get_accounts_batched_returns rpc n keys answers =
    let (out, e) = batches-ok (length keys) rpc n keys no_batch answers (omega arith) in
    (
      record {
        accounts = out.accounts;
        single_batch = length out.batch_ids == 1;
        min_slot = if length keys == 0 then 0 else out.min_slot;
        max_slot = out.max_slot;
        batch_ids = out.batch_ids;
      },
      rw e refl,
    )
