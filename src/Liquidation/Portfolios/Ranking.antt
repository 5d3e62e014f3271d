-- ===== src/Liquidation/Portfolios/Ranking.antt =====
-- src/services/liquidation.ts: which candidates a scan of portfolios returns.
use percolator_keeper.Prelude.{
  ℕ, ◌+◌, ◌≤◌, ◌≡◌, refl, ap, ℤ, pos, ◌≤ℤ◌, All, All-sort, All-take, Bool-cases, inl, inr, Bool,
  true, false, Option, none, some, List, [], ◌∷◌, arith, leb, ◌==◌, length, take, drop, all,
  count_if, sort_by, IsOrder, count_if-sort, count_if-append, sort_is_sorted, take_before_drop,
  take-append-drop, length-take,
}
use percolator_keeper.Liquidation.{
  Market, evaluate_v17_portfolio_health, is_below_liquidation_dust_floor,
}
use percolator_keeper.Liquidation.Portfolios.{
  ParsedPortfolio, Candidate, by_deficit, rank_candidates, max_candidates_per_market, score,
  score_account, score_all, candidate_of, hydrate, rotating_window, scan_v17_portfolios,
  or_no_accounts, add_some,
}

by_deficit-IsOrder : IsOrder by_deficit
by_deficit-IsOrder = record { total = λ a b h. ground arith; trans = λ a b c h k. ground arith }

-- The candidates that the cap leaves out.
abbrev pub left_out : List Candidate → List Candidate
left_out scored = drop max_candidates_per_market (sort_by by_deficit scored)

-- Of the candidates of a market at most 64 are returned; those and the ones left out are the
-- candidates again, each as often; and no candidate that is left out has a larger deficit than one
-- that is returned.
pub rank_keeps_largest :
    (scored : List Candidate) (p : Candidate → Bool)
    → (length (rank_candidates scored) ≤ 64)
      × (count_if p (rank_candidates scored) + count_if p (left_out scored) ≡ count_if p scored)
      × (all (λ c. all (λ d. leb d.deficit c.deficit) (left_out scored)) (rank_candidates scored)
          ≡ true)
unfolding rank_candidates
rank_keeps_largest scored p =
    let sorted = sort_by by_deficit scored in
    (
      (length-take 64 sorted).0,
      omega (
        arith,
        ap (count_if p) (take-append-drop 64 sorted),
        count_if-append p (take 64 sorted) (drop 64 sorted),
        count_if-sort by_deficit p scored,
      ),
      take_before_drop by_deficit 64 sorted (sort_is_sorted by_deficit by_deficit-IsOrder scored),
    )

-- Why a candidate is one: an account that parses to a portfolio of this market, which its evaluation
-- finds liquidatable with a leg, and which is not below the floor.
abbrev pub IsJustified :
    {A : Type 0} → (A → Option ParsedPortfolio) → ℕ → Market → ℤ → Candidate → Type 0
IsJustified {A} parse market_key m floor c =
    (a : A) × (p : ParsedPortfolio) × (parse a ≡ some p)
    × (p.market_group_id ≡ market_key)
    × (let h = evaluate_v17_portfolio_health m p.portfolio in
        (h.liquidatable ≡ true)
        × (pos 0 ≤ℤ h.asset_index)
        × (is_below_liquidation_dust_floor (pos h.aggregate_notional) h.notional_complete floor
            ≡ false)
        × (c ≡ candidate_of c.portfolio_pubkey p h))

score-eq_some :
    (market_key : ℕ) (m : Market) (floor : ℤ) (key : ℕ) (p : ParsedPortfolio) (c : Candidate)
    → score market_key m floor key p ≡ some c
    → let h = evaluate_v17_portfolio_health m p.portfolio in
      (p.market_group_id ≡ market_key)
      × (h.liquidatable ≡ true)
      × (pos 0 ≤ℤ h.asset_index)
      × (is_below_liquidation_dust_floor (pos h.aggregate_notional) h.notional_complete floor
          ≡ false)
      × (c ≡ candidate_of c.portfolio_pubkey p h)
unfolding score
score-eq_some market_key m floor key p c e = ground arith

score_account-IsJustified :
    {A : Type 0} (parse : A → Option ParsedPortfolio) (market_key : ℕ) (m : Market) (floor : ℤ)
    (key : ℕ) (a : A) (o : Option ParsedPortfolio) (c : Candidate)
    → parse a ≡ o
    → score_account parse market_key m floor key a ≡ some c
    → IsJustified parse market_key m floor c
unfolding score_account
score_account-IsJustified parse market_key m floor key a none c q e = absurd (ground (arith, q, e))
score_account-IsJustified parse market_key m floor key a (some p) c q e =
    let (same, liq, leg, big, made) =
      score-eq_some market_key m floor key p c (ground (arith, q, e)) in
    (a, p, q, same, (liq, leg, big, made))

add_some-All :
    (P : Candidate → Type 0) (o : Option Candidate) (cs : List Candidate)
    → ((c : Candidate) → o ≡ some c → P c)
    → All P cs
    → All P (add_some o cs)
add_some-All P none cs h a = a
add_some-All P (some c) cs h a = (h c refl, a)

score_all-IsJustified :
    {A : Type 0} (parse : A → Option ParsedPortfolio) (market_key : ℕ) (m : Market) (floor : ℤ)
    (accounts : List (ℕ × A))
    → All (IsJustified parse market_key m floor) (score_all parse market_key m floor accounts)
unfolding score_all
score_all-IsJustified parse market_key m floor [] = tt
score_all-IsJustified parse market_key m floor ((key, a) ∷ rest) =
    add_some-All (IsJustified parse market_key m floor)
      (score_account parse market_key m floor key a) (score_all parse market_key m floor rest)
      (λ c e. score_account-IsJustified parse market_key m floor key a (parse a) c refl e)
      (score_all-IsJustified parse market_key m floor rest)

rank-All :
    (P : Candidate → Type 0) (scored : List Candidate)
    → All P scored
    → All P (rank_candidates scored)
unfolding rank_candidates
rank-All P scored h = All-take P 64 (sort_by by_deficit scored) (All-sort by_deficit P scored h)

-- Whatever the RPC answers, each candidate of a scan comes from an account that the parser takes for a
-- portfolio of this very market, that the evaluation finds liquidatable with a leg to close, and whose
-- exposure is not below the dust floor.
pub candidates_are-IsJustified :
    {A : Type 0} (parse : A → Option ParsedPortfolio) (fetch : List ℕ → Option (List (Option A)))
    (market_key : ℕ) (m : Market) (floor : ℤ) (raw : Option (List ℕ)) (cursor : Option ℕ)
    → All
        (IsJustified parse market_key m floor)
        (scan_v17_portfolios parse fetch market_key m floor raw cursor).1
unfolding scan_v17_portfolios
candidates_are-IsJustified parse fetch market_key m floor none cursor = tt
candidates_are-IsJustified parse fetch market_key m floor (some raw) cursor =
    elim (Bool-cases (m.fallback_price == 0)) [
      | inl e ↦ rw e tt
      | inr e ↦ rw e (
          rank-All (IsJustified parse market_key m floor) _ (
            score_all-IsJustified parse market_key m floor
              (or_no_accounts (hydrate fetch (rotating_window raw cursor)))))
    ]
