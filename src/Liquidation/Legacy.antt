-- ===== src/Liquidation/Legacy.antt =====
-- src/services/liquidation.ts: the v12 branch of scanMarket. The accounts of a slab, as the SDK parses
-- them, are an argument; `none` is a parse that throws. The dust floor is `none` where its setting
-- throws.
use percolator_keeper.Prelude.{
  ℕ, ◌<◌, ◌≡◌, pos, ltb_ℤ, Bool, true, false, not, ◌&&◌, ◌||◌, Option, none, some, List, [], ◌∷◌,
  ltb, leb, ◌==◌, if◌then◌else◌, arith,
}
use percolator_keeper.Liquidation.{compute_margin_ratio_bps, bps_multiplier}
use percolator_keeper.Liquidation.Submit.{
  LegacyAccount, FreshSlab, abs_ℤ, legacy_equity, legacy_notional, legacy_price, drift_exceeds,
  is_healthy_again, recheck_v12,
}

abbrev pub is_corrupted_margin : ℕ → Bool
is_corrupted_margin margin_bps = margin_bps == 0 || leb bps_multiplier margin_bps

unfoldable pub is_underwater : ℕ → LegacyAccount → ℕ → Bool
is_underwater margin_bps a notional =
    not (ltb_ℤ (pos 0) (legacy_equity a))
    || ltb (compute_margin_ratio_bps (legacy_equity a) notional) margin_bps

-- The body of the loop behind the parser.
unfoldable pub is_legacy_candidate : Option ℕ → ℕ → ℕ → LegacyAccount → Bool
unfolding is_underwater
is_legacy_candidate none margin_bps price a = false
is_legacy_candidate (some floor) margin_bps price a =
    let notional = legacy_notional a price in
    if not (a.kind == 0)
    then false
    else if abs_ℤ a.position_size == 0
    then false
    else if notional == 0
    then false
    else if ltb 0 floor && ltb notional floor
    then false
    else is_underwater margin_bps a notional

abbrev pub is_parsed_candidate : Option ℕ → ℕ → ℕ → Option LegacyAccount → Bool
is_parsed_candidate floor margin_bps price none = false
is_parsed_candidate floor margin_bps price (some a) = is_legacy_candidate floor margin_bps price a

unfoldable pub legacy_candidates : Option ℕ → ℕ → ℕ → (ℕ → Option LegacyAccount) → List ℕ → List ℕ
unfolding is_legacy_candidate
legacy_candidates floor margin_bps price parse [] = []
legacy_candidates floor margin_bps price parse (i ∷ used) =
    let rest = legacy_candidates floor margin_bps price parse used in
    if is_parsed_candidate floor margin_bps price (parse i) then i ∷ rest else rest

-- The indices of the candidates. The margin is judged before the price.
unfoldable pub scan_legacy_market : Option ℕ → ℕ → ℕ → (ℕ → Option LegacyAccount) → List ℕ → List ℕ
unfolding legacy_candidates
scan_legacy_market floor margin_bps price parse used =
    if is_corrupted_margin margin_bps
    then []
    else if price == 0
    then []
    else legacy_candidates floor margin_bps price parse used

same_price_is_near : (limit price : ℕ) → drift_exceeds limit price price ≡ false
unfolding drift_exceeds
same_price_is_near limit price = ground arith

-- A v12 candidate of the scan passes the check before sending, whatever the drift limit, if its account
-- is still used and its slab gives the same account, margin and price, which is not 0.
pub unchanged_legacy_candidate_passes :
    (limit : ℕ) (floor : Option ℕ) (f : FreshSlab)
    → f.is_used ≡ true
    → 0 < legacy_price f
    → is_legacy_candidate floor f.maintenance_margin_bps (legacy_price f) f.account ≡ true
    → recheck_v12 (some limit) (legacy_price f) (some f) ≡ true
unfolding is_legacy_candidate is_underwater recheck_v12 is_healthy_again
unchanged_legacy_candidate_passes limit none f u p h = absurd (ground (arith, h))
unchanged_legacy_candidate_passes limit (some floor) f u p h =
    ground (arith, u, p, h, same_price_is_near limit (legacy_price f))
