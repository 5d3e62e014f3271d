-- ===== src/Prelude/Sorting.antt =====
-- The stable sort of a list by a Boolean order, with what it keeps and what it arranges.
use Prim.Native.Nat.{ℕ, zero, suc, ◌+◌, ◌<◌}
use mathlib.Core.Path.{◌≡◌, refl}
use mathlib.Core.Bool.{Bool, true, false, ◌&&◌}
use mathlib.Core.List.{List, [], ◌∷◌, ◌++◌}
use mathlib.Core.Logic.{inl, inr}
use mathlib.Core.Option.{some}
use native.Mathlib.Omega.{arith}
use percolator_keeper.Prelude.Tests.{if◌then◌else◌, Bool-cases}
use percolator_keeper.Prelude.Lists.{All, length, get_elem?, take, drop}

module _ {ℓ} {A : Type ℓ} where
  abbrev pub all : (A → Bool) → List A → Bool
  all p [] = true
  all p (x ∷ xs) = p x && all p xs

  abbrev pub count_if : (A → Bool) → List A → ℕ
  count_if p [] = 0
  count_if p (x ∷ xs) = (if p x then 1 else 0) + count_if p xs

  abbrev pub filter : (A → Bool) → List A → List A
  filter p [] = []
  filter p (x ∷ xs) = if p x then x ∷ filter p xs else filter p xs

  pub count_if-append :
      (p : A → Bool) (xs ys : List A) → count_if p (xs ++ ys) ≡ count_if p xs + count_if p ys
  count_if-append p [] ys = omega arith
  count_if-append p (x ∷ xs) ys = omega (arith, count_if-append p xs ys)

  pub all-append : (p : A → Bool) (xs ys : List A) → all p (xs ++ ys) ≡ (all p xs && all p ys)
  all-append p [] ys = refl
  all-append p (x ∷ xs) ys = ground (arith, all-append p xs ys)

  pub all-take : (p : A → Bool) (n : ℕ) (xs : List A) → all p xs ≡ true → all p (take n xs) ≡ true
  all-take p n [] h = refl
  all-take p zero (x ∷ xs) h = refl
  all-take p (suc n) (x ∷ xs) h = ground (arith, all-take p n xs)

  -- `before x y` says that `x` may stand before `y`.
  unfoldable pub insert_by : (A → A → Bool) → A → List A → List A
  insert_by before x [] = x ∷ []
  insert_by before x (y ∷ ys) =
      let rest = insert_by before x ys in if before x y then x ∷ y ∷ ys else y ∷ rest

  unfoldable pub sort_by : (A → A → Bool) → List A → List A
  unfolding insert_by
  sort_by before [] = []
  sort_by before (x ∷ xs) = insert_by before x (sort_by before xs)

  pub count_if-sort :
      (before : A → A → Bool) (p : A → Bool) (xs : List A)
      → count_if p (sort_by before xs) ≡ count_if p xs
  unfolding sort_by
  count_if-sort before p [] = refl
  count_if-sort before p (x ∷ xs) =
      omega (arith, count_if-insert x (sort_by before xs), count_if-sort before p xs)
    where
      count_if-insert :
          (x : A) (ys : List A)
          → count_if p (insert_by before x ys) ≡ (if p x then 1 else 0) + count_if p ys
      count_if-insert x [] = refl
      count_if-insert x (y ∷ ys) = ground (arith, count_if-insert x ys)

  pub all-insert :
      (before : A → A → Bool) (p : A → Bool) (x : A) (ys : List A)
      → all p (insert_by before x ys) ≡ (p x && all p ys)
  unfolding insert_by
  all-insert before p x [] = refl
  all-insert before p x (y ∷ ys) = ground (arith, all-insert before p x ys)

  -- Each element may stand before all that follow it.
  abbrev pub is_sorted : (A → A → Bool) → List A → Bool
  is_sorted before [] = true
  is_sorted before (x ∷ xs) = all (before x) xs && is_sorted before xs

  -- What a sort needs of its order.
  pub record IsOrder (before : A → A → Bool) : Type ℓ where
    pub total : (a b : A) → before a b ≡ false → before b a ≡ true
    pub trans : (a b c : A) → before a b ≡ true → before b c ≡ true → before a c ≡ true

  all_before_trans :
      (before : A → A → Bool) (o : IsOrder before) (x y : A) (zs : List A)
      → before x y ≡ true
      → all (before y) zs ≡ true
      → all (before x) zs ≡ true
  all_before_trans before o x y [] h a = refl
  all_before_trans before o x y (z ∷ zs) h a =
      ground (arith, o.trans x y z h, all_before_trans before o x y zs h)

  insert_keeps_sorted :
      (before : A → A → Bool) (o : IsOrder before) (x : A) (ys : List A)
      → is_sorted before ys ≡ true
      → is_sorted before (insert_by before x ys) ≡ true
  unfolding insert_by
  insert_keeps_sorted before o x [] h = refl
  insert_keeps_sorted before o x (y ∷ ys) h = ground (
    arith,
    o.total x y,
    all_before_trans before o x y ys,
    all-insert before (before y) x ys,
    insert_keeps_sorted before o x ys,
  )

  pub sort_is_sorted :
      (before : A → A → Bool)
      → IsOrder before
      → (xs : List A) → is_sorted before (sort_by before xs) ≡ true
  unfolding sort_by
  sort_is_sorted before o [] = refl
  sort_is_sorted before o (x ∷ xs) =
      insert_keeps_sorted before o x (sort_by before xs) (sort_is_sorted before o xs)

  -- Of a sorted list, each of the first `n` may stand before each of the others.
  pub take_before_drop :
      (before : A → A → Bool) (n : ℕ) (xs : List A)
      → is_sorted before xs ≡ true
      → all (λ x. all (before x) (drop n xs)) (take n xs) ≡ true
  take_before_drop before n [] h = refl
  take_before_drop before zero (x ∷ xs) h = refl
  take_before_drop before (suc n) (x ∷ xs) h =
      ground (arith, all-drop (before x) n xs, take_before_drop before n xs)
    where
      all-drop : (p : A → Bool) (m : ℕ) (ys : List A) → all p ys ≡ true → all p (drop m ys) ≡ true
      all-drop p m [] k = refl
      all-drop p zero (y ∷ ys) k = k
      all-drop p (suc m) (y ∷ ys) k = ground (arith, all-drop p m ys)

  length-count : (xs : List A) → count_if (λ _. true) xs ≡ length xs
  length-count [] = refl
  length-count (x ∷ xs) = omega (arith, length-count xs)

  pub length-sort : (before : A → A → Bool) (xs : List A) → length (sort_by before xs) ≡ length xs
  length-sort before xs = omega (
    arith,
    length-count xs,
    length-count (sort_by before xs),
    count_if-sort before (λ _. true) xs,
  )

  -- What is counted stands at some place.
  pub place_of_count :
      (p : A → Bool) (xs : List A)
      → 0 < count_if p xs
      → (i : ℕ) × (v : A) × (i < length xs) × (get_elem? xs i ≡ some v) × (p v ≡ true)
  place_of_count p [] h = absurd (omega arith)
  place_of_count p (x ∷ xs) h = elim (Bool-cases (p x)) [
    | inl e ↦ (0, x, omega arith, refl, e)
    | inr e ↦
        let (i, v, a, b, c) = place_of_count p xs (ground arith) in (suc i, v, omega arith, b, c)
  ]

  All-if {κ} :
      (P : A → Type κ) (b : Bool) (xs ys : List A)
      → All P xs
      → All P ys
      → All P (if b then xs else ys)
  All-if P true xs ys hx hy = hx
  All-if P false xs ys hx hy = hy

  All-insert {κ} :
      (before : A → A → Bool) (P : A → Type κ) (x : A) (ys : List A)
      → P x
      → All P ys
      → All P (insert_by before x ys)
  unfolding insert_by
  All-insert before P x [] h a = (h, a)
  All-insert before P x (y ∷ ys) h (k, a) =
      All-if P (before x y) (x ∷ y ∷ ys) (y ∷ insert_by before x ys) (h, (k, a))
        (k, All-insert before P x ys h a)

  pub All-sort {κ} :
      (before : A → A → Bool) (P : A → Type κ) (xs : List A) → All P xs → All P (sort_by before xs)
  unfolding sort_by
  All-sort before P [] h = h
  All-sort before P (x ∷ xs) (h, a) =
      All-insert before P x (sort_by before xs) h (All-sort before P xs a)

  pub All-take {κ} : (P : A → Type κ) (n : ℕ) (xs : List A) → All P xs → All P (take n xs)
  All-take P n [] h = h
  All-take P zero (x ∷ xs) h = tt
  All-take P (suc n) (x ∷ xs) (h, a) = (h, All-take P n xs a)
