-- ===== src/Liquidation/Cycle/Log.antt =====
-- src/services/liquidation.ts: what a cycle of scanAndLiquidateAll does, one act after the other: a scan
-- of a market, or a candidate that is handed to the gate. A log has the newest act first.
use percolator_keeper.Prelude.{
  ℕ, zero, suc, ◌+◌, ◌≤◌, ◌<◌, ◌≡◌, refl, ap, Bool, Option, none, some, List, [], ◌∷◌, ◌++◌,
  if◌then◌else◌, length, take, arith,
}
use percolator_keeper.Liquidation.Cycle.{Keeper}

pub data Act (C : Type 0) : Type 0 where
  scans : ℕ → Act C
  hands : ℕ → C → Act C

-- The candidates of a scan with their market; none where it is rejected.
abbrev pub of_market : {C : Type 0} → ℕ → List C → List (ℕ × C)
of_market m [] = []
of_market m (x ∷ xs) = (m, x) ∷ of_market m xs

abbrev pub given : {C : Type 0} → ℕ → Option (List C) → List (ℕ × C)
given m none = []
given m (some xs) = of_market m xs

abbrev pub all_given : {C : Type 0} → List (ℕ × Option (List C)) → List (ℕ × C)
all_given [] = []
all_given ((m, o) ∷ rest) = given m o ++ all_given rest

-- The markets that are scanned, and the candidates that are handed on, in their order.
abbrev pub scanned : {C : Type 0} → List (Act C) → List ℕ
scanned [] = []
scanned (scans m ∷ acts) = scanned acts ++ m ∷ []
scanned (hands m x ∷ acts) = scanned acts

abbrev pub handed : {C : Type 0} → List (Act C) → List (ℕ × C)
handed [] = []
handed (scans m ∷ acts) = handed acts
handed (hands m x ∷ acts) = handed acts ++ (m, x) ∷ []

module _ {C : Type 0} (scan : ℕ → Keeper → Keeper × Option (List C))
    (gated : ℕ → C → Keeper → Keeper × Bool) (start : Keeper) where
  -- The keeper behind the acts, each of which takes the keeper of the one before.
  abbrev pub keeper_after : List (Act C) → Keeper
  keeper_after [] = start
  keeper_after (scans m ∷ acts) = (scan m (keeper_after acts)).0
  keeper_after (hands m x ∷ acts) = (gated m x (keeper_after acts)).0

  -- The candidates that the scans find.
  abbrev pub found : List (Act C) → List (ℕ × C)
  found [] = []
  found (scans m ∷ acts) = found acts ++ given m (scan m (keeper_after acts)).1
  found (hands m x ∷ acts) = found acts

  -- How many of those that are handed on give a signature.
  abbrev pub sent : List (Act C) → ℕ
  sent [] = 0
  sent (scans m ∷ acts) = sent acts
  sent (hands m x ∷ acts) = sent acts + (if (gated m x (keeper_after acts)).1 then 1 else 0)

pub length-of_market : {C : Type 0} (m : ℕ) (xs : List C) → length (of_market m xs) ≡ length xs
length-of_market m [] = refl
length-of_market m (x ∷ xs) = omega (arith, length-of_market m xs)

pub take_full :
    {A : Type 0} (n : ℕ) (xs ys : List A) → n ≤ length (take n xs) → take n (xs ++ ys) ≡ take n xs
take_full zero [] [] h = refl
take_full zero [] (y ∷ ys) h = refl
take_full (suc n) [] ys h = absurd (omega (arith, h))
take_full zero (x ∷ xs) ys h = refl
take_full (suc n) (x ∷ xs) ys h = ap (λ l. x ∷ l) (take_full n xs ys (omega (arith, h)))

pub take_next :
    {A : Type 0} (n : ℕ) (xs : List A) (y : A)
    → length (take n xs) < n
    → take n (xs ++ y ∷ []) ≡ take n xs ++ y ∷ []
take_next zero xs y h = absurd (omega (arith, h))
take_next (suc n) [] y h = refl
take_next (suc n) (x ∷ xs) y h = ap (λ l. x ∷ l) (take_next n xs y (omega (arith, h)))
