-- ===== src/Liquidation/Portfolios.antt =====
-- src/services/liquidation.ts: scanV17Portfolios. A public key is the number of its place in the order
-- of base58 texts. The RPC's answers and the SDK's parser are arguments; `none` is a throw or a timeout.
-- Of the cursor map only the entry of the market at hand is used, which is an option here.
pub mod Rotation
pub mod Ranking
use percolator_keeper.Prelude.{
  ℕ, zero, suc, ◌+◌, ◌-◌, ◌*◌, ◌/◌, ◌%◌, ℤ, pos, neg_part, ltb_ℤ, Bool, true, false, not, ◌&&◌,
  ◌||◌, Option, none, some, List, [], ◌∷◌, ◌++◌, ltb, leb, ◌==◌, if◌then◌else◌, length, get_elem?,
  take, drop, sort_by,
}
use percolator_keeper.Risk.{or_zero}
use percolator_keeper.Liquidation.{
  Market, Portfolio, Health, evaluate_v17_portfolio_health, is_below_liquidation_dust_floor,
}

abbrev pub max_portfolios_per_market_per_cycle : ℕ
max_portfolios_per_market_per_cycle = 512

abbrev pub max_candidates_per_market : ℕ
max_candidates_per_market = 64

abbrev pub gma_chunk : ℕ
gma_chunk = 100

-- What the parser of the SDK returns for a portfolio account.
pub record ParsedPortfolio : Type 0 where
  pub market_group_id : ℕ
  pub owner : ℕ
  pub portfolio : Portfolio

pub record Candidate : Type 0 where
  pub portfolio_pubkey : ℕ
  pub owner : ℕ
  pub asset_index : ℤ
  pub close_q : ℕ
  pub deficit : ℕ

-- A stable order where the market is over the cap, else the order of the answer.
unfoldable pub ordered : List ℕ → List ℕ
ordered raw = if ltb max_portfolios_per_market_per_cycle (length raw) then sort_by leb raw else raw

unfoldable pub start_offset : ℕ → Option ℕ → ℕ
start_offset total cursor = (or_zero cursor % total + total) % total

-- The loop over `k`, with `n` rounds left; an index is below the length.
unfoldable pub window_from : List ℕ → ℕ → ℕ → ℕ → List ℕ
window_from keys start zero k = []
window_from keys start (suc n) k =
    let rest = window_from keys start n (k + 1) in
    elim (get_elem? keys ((start + k) % length keys)) [ none ↦ rest | some x ↦ x ∷ rest ]

unfoldable pub rotating_window : List ℕ → Option ℕ → List ℕ
rotating_window raw cursor =
    if ltb max_portfolios_per_market_per_cycle (length raw)
    then window_from (ordered raw) (start_offset (length raw) cursor)
        max_portfolios_per_market_per_cycle 0
    else ordered raw

unfoldable pub next_cursor : List ℕ → Option ℕ → Option ℕ
next_cursor raw cursor =
    if ltb max_portfolios_per_market_per_cycle (length raw)
    then some
        ((start_offset (length raw) cursor + max_portfolios_per_market_per_cycle) % length raw)
    else none

module _ {A : Type 0} where
  -- The accounts of a chunk that are there; `infos[j]` past the end is undefined.
  unfoldable pub present : List ℕ → List (Option A) → List (ℕ × A)
  present [] infos = []
  present (k ∷ ks) [] = []
  present (k ∷ ks) (none ∷ infos) = present ks infos
  present (k ∷ ks) (some a ∷ infos) = (k, a) ∷ present ks infos

  unfoldable pub join_chunks :
      Option (List (Option A)) → List ℕ → Option (List (ℕ × A)) → Option (List (ℕ × A))
  unfolding present
  join_chunks (some infos) chunk (some rest) = some (present chunk infos ++ rest)
  join_chunks _ chunk _ = none

  -- The chunks from `keys` on, with `n` rounds left. `fetch` is getMultipleAccountsInfo.
  unfoldable pub hydrate_rounds :
      (List ℕ → Option (List (Option A))) → ℕ → List ℕ → Option (List (ℕ × A))
  unfolding join_chunks
  hydrate_rounds fetch zero keys = some []
  hydrate_rounds fetch (suc n) keys =
      let chunk = take gma_chunk keys in
      join_chunks (fetch chunk) chunk (hydrate_rounds fetch n (drop gma_chunk keys))

  unfoldable pub hydrate : (List ℕ → Option (List (Option A))) → List ℕ → Option (List (ℕ × A))
  unfolding hydrate_rounds
  hydrate fetch keys = hydrate_rounds fetch ((length keys + 99) / gma_chunk) keys

abbrev pub candidate_of : ℕ → ParsedPortfolio → Health → Candidate
candidate_of key p h = record {
  portfolio_pubkey = key;
  owner = p.owner;
  asset_index = h.asset_index;
  close_q = h.close_q;
  deficit = h.deficit;
}

-- The body of the loop behind the parser: a portfolio of another market, without a leg, healthy or
-- below the floor is skipped.
unfoldable pub score : ℕ → Market → ℤ → ℕ → ParsedPortfolio → Option Candidate
score market_key m floor key p =
    let h = evaluate_v17_portfolio_health m p.portfolio in
    if not (p.market_group_id == market_key)
    then none
    else if ltb_ℤ h.asset_index (pos 0)
    then none
    else if not h.liquidatable
    then none
    else if is_below_liquidation_dust_floor (pos h.aggregate_notional) h.notional_complete floor
    then none
    else some (candidate_of key p h)

abbrev pub add_some : Option Candidate → List Candidate → List Candidate
add_some none cs = cs
add_some (some c) cs = c ∷ cs

module _ {A : Type 0} (parse : A → Option ParsedPortfolio) where
  unfoldable pub score_account : ℕ → Market → ℤ → ℕ → A → Option Candidate
  unfolding score
  score_account market_key m floor key a = elim (parse a) [
    | none ↦ none
    | some p ↦ score market_key m floor key p
  ]

  unfoldable pub score_all : ℕ → Market → ℤ → List (ℕ × A) → List Candidate
  unfolding score_account
  score_all market_key m floor [] = []
  score_all market_key m floor ((key, a) ∷ rest) =
      add_some (score_account market_key m floor key a) (score_all market_key m floor rest)

-- `b.deficit > a.deficit ? 1 : …`: the larger deficit stands first.
abbrev pub by_deficit : Candidate → Candidate → Bool
by_deficit a b = leb b.deficit a.deficit

unfoldable pub rank_candidates : List Candidate → List Candidate
rank_candidates scored = take max_candidates_per_market (sort_by by_deficit scored)

abbrev pub or_no_accounts {ℓ} : {A : Type ℓ} → Option (List A) → List A
or_no_accounts none = []
or_no_accounts (some xs) = xs

-- The cursor and the candidates. Where a fetch fails the list is empty, and the cursor has moved on.
unfoldable pub scan_v17_portfolios :
    {A : Type 0}
    → (A → Option ParsedPortfolio)
    → (List ℕ → Option (List (Option A)))
    → ℕ
    → Market
    → ℤ
    → Option (List ℕ)
    → Option ℕ
    → Option ℕ × List Candidate
scan_v17_portfolios parse fetch market_key m floor none cursor = (cursor, [])
scan_v17_portfolios parse fetch market_key m floor (some raw) cursor =
    if m.fallback_price == 0 then (cursor, []) else (
      next_cursor raw cursor,
      rank_candidates (
          score_all parse market_key m floor
            (or_no_accounts (hydrate fetch (rotating_window raw cursor)))),
    )
