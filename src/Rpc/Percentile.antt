-- ===== src/Rpc/Percentile.antt =====
-- src/lib/rpc-health.ts: the percentile is that of the nearest rank.
use percolator_keeper.Prelude.{
  ℕ, zero, suc, ◌+◌, ◌*◌, ◌≤◌, ◌<◌, ◌≡◌, refl, Bool, true, ◌&&◌, some, List, [], ◌∷◌, arith, ltb,
  leb, if◌then◌else◌, length, get_elem?,
}
use percolator_keeper.Rpc.{insert_sorted, sort_ascending, rank, percentile_of}

-- The number of values up to a bound, and below it.
abbrev pub count_le : ℕ → List ℕ → ℕ
count_le v [] = 0
count_le v (x ∷ xs) = (if leb x v then 1 else 0) + count_le v xs

abbrev pub count_lt : ℕ → List ℕ → ℕ
count_lt v [] = 0
count_lt v (x ∷ xs) = (if ltb x v then 1 else 0) + count_lt v xs

-- Every value is at least `b`, and they ascend.
abbrev ascends_from : ℕ → List ℕ → Bool
ascends_from b [] = true
ascends_from b (x ∷ xs) = leb b x && ascends_from x xs

count_le-insert :
    (v x : ℕ) (xs : List ℕ)
    → count_le v (insert_sorted x xs) ≡ (if leb x v then 1 else 0) + count_le v xs
unfolding insert_sorted
count_le-insert v x [] = refl
count_le-insert v x (y ∷ ys) = ground (arith, count_le-insert v x ys)

count_lt-insert :
    (v x : ℕ) (xs : List ℕ)
    → count_lt v (insert_sorted x xs) ≡ (if ltb x v then 1 else 0) + count_lt v xs
unfolding insert_sorted
count_lt-insert v x [] = refl
count_lt-insert v x (y ∷ ys) = ground (arith, count_lt-insert v x ys)

length-insert : (x : ℕ) (xs : List ℕ) → length (insert_sorted x xs) ≡ suc (length xs)
unfolding insert_sorted
length-insert x [] = refl
length-insert x (y ∷ ys) = ground (arith, length-insert x ys)

ascends_from-insert :
    (b x : ℕ) (xs : List ℕ)
    → b ≤ x
    → ascends_from b xs ≡ true
    → ascends_from b (insert_sorted x xs) ≡ true
unfolding insert_sorted
ascends_from-insert b x [] h a = ground arith
ascends_from-insert b x (y ∷ ys) h a =
    ground (arith, ascends_from-insert y x ys, ascends_from-insert b x ys)

count_le-sort : (v : ℕ) (xs : List ℕ) → count_le v (sort_ascending xs) ≡ count_le v xs
unfolding sort_ascending
count_le-sort v [] = refl
count_le-sort v (x ∷ xs) =
    ground (arith, count_le-insert v x (sort_ascending xs), count_le-sort v xs)

count_lt-sort : (v : ℕ) (xs : List ℕ) → count_lt v (sort_ascending xs) ≡ count_lt v xs
unfolding sort_ascending
count_lt-sort v [] = refl
count_lt-sort v (x ∷ xs) =
    ground (arith, count_lt-insert v x (sort_ascending xs), count_lt-sort v xs)

length-sort : (xs : List ℕ) → length (sort_ascending xs) ≡ length xs
unfolding sort_ascending
length-sort [] = refl
length-sort (x ∷ xs) = ground (arith, length-insert x (sort_ascending xs), length-sort xs)

ascends_from-sort : (xs : List ℕ) → ascends_from 0 (sort_ascending xs) ≡ true
unfolding sort_ascending
ascends_from-sort [] = refl
ascends_from-sort (x ∷ xs) =
    ascends_from-insert 0 x (sort_ascending xs) (omega arith) (ascends_from-sort xs)

none_below : (b v : ℕ) (xs : List ℕ) → v ≤ b → ascends_from b xs ≡ true → count_lt v xs ≡ 0
none_below b v [] h a = refl
none_below b v (x ∷ xs) h a = ground (arith, none_below x v xs)

-- The value at a place of an ascending list, by what stands before it.
at_place :
    (b : ℕ) (xs : List ℕ) (i v : ℕ)
    → ascends_from b xs ≡ true
    → get_elem? xs i ≡ some v
    → (b ≤ v) × (i < count_le v xs) × (count_lt v xs ≤ i)
at_place b [] i v a e = ground (arith, e)
at_place b (x ∷ xs) zero v a e = ground (arith, e, none_below x v xs)
at_place b (x ∷ xs) (suc i) v a e = ground (arith, e, at_place x xs i v)

get_elem-total : (xs : List ℕ) (i : ℕ) → i < length xs → (v : ℕ) × (get_elem? xs i ≡ some v)
get_elem-total [] i h = absurd (omega (arith, h))
get_elem-total (x ∷ xs) zero h = (x, refl)
get_elem-total (x ∷ xs) (suc i) h = get_elem-total xs i (omega (arith, h))

rank_bounds :
    (pct n : ℕ)
    → 0 < pct
    → pct ≤ 100
    → 0 < n
    → (rank pct n < n) × (pct * n ≤ 100 * (rank pct n + 1)) × (100 * rank pct n < pct * n)
unfolding rank
rank_bounds pct n a b c = grind arith

-- The percentile of a list that is not empty exists, at least so many of a hundred values are up to
-- it, and fewer are below it.
pub percentile_nearest_rank :
    (pct : ℕ) (xs : List ℕ)
    → 0 < pct
    → pct ≤ 100
    → 0 < length xs
    → (v : ℕ) × (percentile_of pct xs ≡ some v)
      × (pct * length xs ≤ 100 * count_le v xs)
      × (100 * count_lt v xs < pct * length xs)
unfolding percentile_of
percentile_nearest_rank pct [] a b c = absurd (omega (arith, c))
percentile_nearest_rank pct (x ∷ xs) a b c =
    let (inside, up, down) = rank_bounds pct (length (x ∷ xs)) a b c in
    let (v, e) =
      get_elem-total (sort_ascending (x ∷ xs)) (rank pct (length (x ∷ xs)))
        (omega (arith, inside, length-sort (x ∷ xs))) in
    let (_, le, lt) =
      at_place 0 (sort_ascending (x ∷ xs)) (rank pct (length (x ∷ xs))) v
        (ascends_from-sort (x ∷ xs)) e in
    (
      v,
      e,
      omega (arith, up, le, count_le-sort v (x ∷ xs)),
      omega (arith, down, lt, count_lt-sort v (x ∷ xs)),
    )
