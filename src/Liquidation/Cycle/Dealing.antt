-- ===== src/Liquidation/Cycle/Dealing.antt =====
-- src/services/liquidation.ts: how scanAndLiquidateAll deals with the candidates of a batch.
use mathlib.Core.List.{append-nil, append_assoc}
use percolator_keeper.Prelude.{
  ℕ, ◌≡◌, refl, sym, ap, ◌∙◌, Bool, true, false, Option, none, some, List, [], ◌∷◌, ◌++◌, leb,
  length, length-append, take, arith, Bool-cases, inl, inr,
}
use percolator_keeper.Liquidation.Cycle.{
  max_candidates_per_global_cycle, Keeper, Cycle, process_one, process_candidates, count_scan,
  process_results,
}
use percolator_keeper.Liquidation.Cycle.Log.{
  Act, hands, of_market, all_given, scanned, handed, keeper_after, found, sent, length-of_market,
  take_full, take_next,
}

module _ {C : Type 0} (scan : ℕ → Keeper → Keeper × Option (List C))
    (gated : ℕ → C → Keeper → Keeper × Bool) (start : Keeper) where
  -- In the middle of a cycle: the candidates that were dealt with, those of the batch that are left, and
  -- the markets that were scanned.
  abbrev pub IsStage : List (Act C) → Cycle → List (ℕ × C) → List (ℕ × C) → List ℕ → Type 0
  IsStage acts c dealt pending seen =
      (c.keeper ≡ keeper_after scan gated start acts)
      × (handed acts ≡ take 256 dealt)
      × (found scan gated start acts ≡ dealt ++ pending)
      × (c.liquidated ≡ sent scan gated start acts)
      × (c.processed ≡ length (handed acts))
      × (scanned acts ≡ seen)

  hand_next :
      (m : ℕ) (x : C) (c : Cycle) (acts : List (Act C)) (dealt pending : List (ℕ × C))
      (seen : List ℕ)
      → leb max_candidates_per_global_cycle c.processed ≡ false
      → IsStage acts c dealt ((m, x) ∷ pending) seen
      → IsStage (hands m x ∷ acts) (process_one gated m x c) (dealt ++ (m, x) ∷ []) pending seen
  unfolding process_one
  hand_next m x c acts dealt pending seen few (k, h, f, l, p, s) = (
    ap (λ b. (gated m x b).0) k,
    ap (λ b. b ++ (m, x) ∷ []) h
        ∙ sym (take_next 256 dealt (m, x) (ground (arith, few, p, ap length h))),
    f ∙ sym (append_assoc dealt ((m, x) ∷ []) pending),
    rw (k, l) refl,
    omega (arith, p, length-append (handed acts) ((m, x) ∷ [])),
    s,
  )

  skip_rest :
      (c : Cycle) (acts : List (Act C)) (dealt left pending : List (ℕ × C)) (seen : List ℕ)
      → leb max_candidates_per_global_cycle c.processed ≡ true
      → IsStage acts c dealt (left ++ pending) seen
      → IsStage acts c (dealt ++ left) pending seen
  skip_rest c acts dealt left pending seen full (k, h, f, l, p, s) = (
    k,
    h ∙ sym (take_full 256 dealt left (ground (arith, full, p, ap length h))),
    f ∙ sym (append_assoc dealt left pending),
    l,
    p,
    s,
  )

  deal :
      (m : ℕ) (xs : List C) (c : Cycle) (acts : List (Act C)) (dealt pending : List (ℕ × C))
      (seen : List ℕ)
      → IsStage acts c dealt (of_market m xs ++ pending) seen
      → (after : List (Act C)) × IsStage after
          (process_candidates gated m xs c)
          (dealt ++ of_market m xs)
          pending
          seen
  unfolding process_candidates
  deal m [] c acts dealt pending seen h = (acts, rw (append-nil dealt) h)
  deal m (x ∷ xs) c acts dealt pending seen h =
      elim (Bool-cases (leb max_candidates_per_global_cycle c.processed)) [
        | inl full ↦
            (acts, rw full (skip_rest c acts dealt (of_market m (x ∷ xs)) pending seen full h))
        | inr few ↦
            let (after, stage) =
              deal m xs (process_one gated m x c) (hands m x ∷ acts) (dealt ++ (m, x) ∷ []) pending
                seen (hand_next m x c acts dealt (of_market m xs ++ pending) seen few h) in
            (after, rw (few, sym (append_assoc dealt ((m, x) ∷ []) (of_market m xs))) stage)
      ]

  process_candidates-count :
      (m : ℕ) (xs : List C) (c : Cycle)
      → (process_candidates gated m xs c).candidate_count ≡ c.candidate_count
  unfolding process_candidates process_one
  process_candidates-count m [] c = refl
  process_candidates-count m (x ∷ xs) c =
      ground (arith, process_candidates-count m xs (process_one gated m x c))

  pub deal_results :
      (results : List (ℕ × Option (List C))) (c : Cycle) (acts : List (Act C))
      (dealt : List (ℕ × C)) (seen : List ℕ)
      → IsStage acts c dealt (all_given results) seen
      → c.candidate_count ≡ length dealt
      → let d = process_results gated results c in
        (after : List (Act C)) × IsStage after d (dealt ++ all_given results) [] seen
        × (d.candidate_count ≡ length (dealt ++ all_given results))
  unfolding process_results count_scan
  deal_results [] c acts dealt seen h n = (acts, rw (append-nil dealt) h, rw (append-nil dealt) n)
  deal_results ((m, none) ∷ rest) c acts dealt seen h n = deal_results rest c acts dealt seen h n
  deal_results ((m, some xs) ∷ rest) c acts dealt seen h n =
      let counted = count_scan gated xs c in
      let (middle, stage) = deal m xs counted acts dealt (all_given rest) seen h in
      let (after, done, all) =
        deal_results rest (process_candidates gated m xs counted) middle (dealt ++ of_market m xs)
          seen stage
          (omega (
            arith,
            process_candidates-count m xs counted,
            n,
            length-append dealt (of_market m xs),
            length-of_market m xs,
          )) in
      (
        after,
        rw (sym (append_assoc dealt (of_market m xs) (all_given rest))) done,
        rw (sym (append_assoc dealt (of_market m xs) (all_given rest))) all,
      )
