-- ===== src/Fees/Buckets.antt =====
-- src/services/fee-crank.ts and src/lib/v17-fee-state.ts: which backing buckets the fee crank expires.
use percolator_keeper.Prelude.{
  ℕ, zero, suc, ◌+◌, ◌*◌, ◌≡◌, refl, ap, ◌∙◌, Bool, true, false, ◌&&◌, ◌||◌, Option, none, some,
  List, [], ◌∷◌, ltb, leb, ◌==◌, ==_iff, filter, count_if, arith,
}
use percolator_keeper.Fees.{
  BucketLayout, BackingBucket, has_bucket, read_bucket, add_bucket, buckets_from,
  read_backing_buckets, asset_count, is_expirable, find_expirable_buckets,
  is_bucket_expiry_eligible,
}
use percolator_keeper.Fees.Legs.{PendingWork, Snapshot, LegContext, bucket_works, detect_expire}

abbrev pub bit : Bool → ℕ
bit true = 1
bit false = 0

-- Within the domains of the assets from `first` on.
abbrev pub in_range : ℕ → ℕ → ℕ → Bool
in_range first n d = leb (first * 2) d && ltb d ((first + n) * 2)

read_bucket-domain :
    (l : BucketLayout) (bytes : List ℕ) (k : ℕ) → (read_bucket l bytes k).domain ≡ k
unfolding read_bucket
read_bucket-domain l bytes k = refl

module _ (l : BucketLayout) (bytes : List ℕ) (q : BackingBucket → Bool) (d : ℕ) where
  abbrev wanted : BackingBucket → Bool
  wanted b = b.domain == d && q b

  abbrev due : Bool
  due = has_bucket l bytes d && q (read_bucket l bytes d)

  same_bucket :
      (k : ℕ) → (k == d) ≡ true → (has_bucket l bytes k && q (read_bucket l bytes k)) ≡ due
  same_bucket k e = ap (λ x. has_bucket l bytes x && q (read_bucket l bytes x)) ((==_iff k d).0 e)

  add_bucket-count :
      (k : ℕ) (rest : List BackingBucket)
      → count_if wanted (add_bucket l bytes k rest) ≡ bit (k == d && due) + count_if wanted rest
  unfolding add_bucket read_bucket
  add_bucket-count k rest = ground (arith, same_bucket k, read_bucket-domain l bytes k)

  buckets_from-count :
      (n first : ℕ)
      → count_if wanted (buckets_from l bytes n first) ≡ bit (in_range first n d && due)
  unfolding buckets_from
  buckets_from-count zero first = ground arith
  buckets_from-count (suc n) first = ground (
    arith,
    add_bucket-count (first * 2)
        (add_bucket l bytes (first * 2 + 1) (buckets_from l bytes n (first + 1))),
    add_bucket-count (first * 2 + 1) (buckets_from l bytes n (first + 1)),
    buckets_from-count n (first + 1),
  )

filter-count :
    {A : Type 0} (p q : A → Bool) (xs : List A)
    → count_if p (filter q xs) ≡ count_if (λ x. p x && q x) xs
filter-count p q [] = refl
filter-count p q (x ∷ xs) = ground (arith, filter-count p q xs)

works-count :
    (d : ℕ) (bs : List BackingBucket)
    → count_if (λ (w : PendingWork). w.domain == d) (bucket_works bs)
      ≡ count_if (λ (b : BackingBucket). b.domain == d) bs
unfolding bucket_works
works-count d [] = refl
works-count d (b ∷ bs) = ground (arith, works-count d bs)

-- The bucket of a domain is Fresh, and its slot has come by the chain's clock or the engine's.
abbrev pub has_lapsed : LegContext → Snapshot → ℕ → Bool
has_lapsed ctx s d =
    let b = read_bucket ctx.layout s.bytes d in
    b.status == 1 && (leb b.expiry_slot s.chain_slot || leb b.expiry_slot s.group.current_slot)

expirable_lapsed :
    (ctx : LegContext) (s : Snapshot) (d : ℕ)
    → is_expirable s.chain_slot s.group.current_slot (read_bucket ctx.layout s.bytes d)
      ≡ has_lapsed ctx s d
unfolding is_expirable
expirable_lapsed ctx s d = ground arith

expirable-count :
    (ctx : LegContext) (s : Snapshot) (d : ℕ)
    → count_if
        (λ (w : PendingWork). w.domain == d)
        (bucket_works (
          find_expirable_buckets
            (read_backing_buckets ctx.layout s.bytes s.group)
            s.chain_slot
            s.group.current_slot))
      ≡ bit (
          in_range 0 (asset_count s.group) d
          && (has_bucket ctx.layout s.bytes d
              && is_expirable s.chain_slot s.group.current_slot (read_bucket ctx.layout s.bytes d)))
unfolding find_expirable_buckets read_backing_buckets
expirable-count ctx s d =
    let q = is_expirable s.chain_slot s.group.current_slot in
    let all_buckets = buckets_from ctx.layout s.bytes (asset_count s.group) 0 in
    works-count d (filter q all_buckets)
    ∙ filter-count (λ (b : BackingBucket). b.domain == d) q all_buckets
    ∙ buckets_from-count ctx.layout s.bytes q d (asset_count s.group) 0

abbrev pub works_for : ℕ → Option (List PendingWork) → ℕ
works_for d none = 0
works_for d (some works) = count_if (λ (w : PendingWork). w.domain == d) works

-- A domain is expired by one transaction, and by no more, exactly if the market is Live, the domain is
-- below twice the number of assets that are both configured and physically there, its bucket lies
-- within the account, is Fresh, and has lapsed by the chain's clock or by the engine's.
pub expire_once_iff :
    (ctx : LegContext) (s : Snapshot) (works : List PendingWork) (d : ℕ)
    → detect_expire ctx s ≡ some works
    → count_if (λ (w : PendingWork). w.domain == d) works
      ≡ bit (
          s.group.mode == 0
          && (ltb d (asset_count s.group * 2)
              && (has_bucket ctx.layout s.bytes d && has_lapsed ctx s d)))
unfolding detect_expire is_bucket_expiry_eligible
expire_once_iff ctx s works d h =
    ground (arith, h, ap (works_for d) h, expirable-count ctx s d, expirable_lapsed ctx s d)
