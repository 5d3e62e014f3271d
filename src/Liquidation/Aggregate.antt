-- ===== src/Liquidation/Aggregate.antt =====
-- src/services/liquidation.ts: the loop of `evaluateV17PortfolioHealth` against sums over the legs.
use percolator_keeper.Prelude.{
  ℕ, ◌+◌, ◌≡◌, refl, ℤ, Bool, true, false, Option, none, some, List, [], ◌∷◌, arith, ◌==◌,
  if◌then◌else◌,
}
use percolator_keeper.Liquidation.{
  Leg, Market, Scan, is_skipped, abs_pos, leg_price, leg_notional, leg_maintenance, note_first,
  add_leg, scan_legs, verdict, unresolved,
}

-- Every leg that counts has a price.
abbrev pub all_priced : Market → List Leg → Bool
all_priced m [] = true
all_priced m (leg ∷ legs) =
    let rest = all_priced m legs in
    if is_skipped leg then rest else if leg_price m leg == 0 then false else rest

abbrev pub first_live : List Leg → Option Leg
first_live [] = none
first_live (leg ∷ legs) = let rest = first_live legs in if is_skipped leg then rest else some leg

abbrev pub total_notional : Market → List Leg → ℕ
total_notional m [] = 0
total_notional m (leg ∷ legs) =
    if is_skipped leg then total_notional m legs else leg_notional m leg + total_notional m legs

abbrev pub requirement : Market → Leg → ℕ
requirement m leg = if leg_notional m leg == 0 then 0 else leg_maintenance m leg

abbrev pub total_maintenance : Market → List Leg → ℕ
total_maintenance m [] = 0
total_maintenance m (leg ∷ legs) =
    if is_skipped leg
    then total_maintenance m legs
    else requirement m leg + total_maintenance m legs

-- The loop with no early return.
pub collect : Market → List Leg → Scan → Scan
collect m [] s = s
collect m (leg ∷ legs) s =
    collect m legs (if is_skipped leg then s else add_leg m leg (note_first leg s))

pub scan_legs-priced :
    (m : Market) (equity : ℤ) (legs : List Leg) (s : Scan)
    → all_priced m legs ≡ true
    → scan_legs m equity legs s ≡ verdict equity (collect m legs s)
unfolding scan_legs collect
scan_legs-priced m equity [] s h = refl
scan_legs-priced m equity (leg ∷ legs) s h = ground (
  arith,
  scan_legs-priced m equity legs s,
  scan_legs-priced m equity legs (add_leg m leg (note_first leg s)),
)

pub scan_legs-unpriced :
    (m : Market) (equity : ℤ) (legs : List Leg) (s : Scan)
    → all_priced m legs ≡ false
    → ((scan_legs m equity legs s).liquidatable ≡ true)
      × ((scan_legs m equity legs s).notional_complete ≡ false)
unfolding scan_legs unresolved
scan_legs-unpriced m equity [] s h = cc
scan_legs-unpriced m equity (leg ∷ legs) s h = ground (
  arith,
  scan_legs-unpriced m equity legs s,
  scan_legs-unpriced m equity legs (add_leg m leg (note_first leg s)),
)

abbrev sums : Scan → ℕ × ℕ
sums s = (s.maintenance, s.notional)

sums-note_first : (leg : Leg) (s : Scan) → sums (note_first leg s) ≡ sums s
unfolding note_first
sums-note_first leg s = ground arith

sums-add_leg :
    (m : Market) (leg : Leg) (s : Scan)
    → sums (add_leg m leg s) ≡ (s.maintenance + requirement m leg, s.notional + leg_notional m leg)
unfolding add_leg
sums-add_leg m leg s = ground arith

pub sums-collect :
    (m : Market) (legs : List Leg) (s : Scan)
    → ((collect m legs s).maintenance ≡ s.maintenance + total_maintenance m legs)
      × ((collect m legs s).notional ≡ s.notional + total_notional m legs)
unfolding collect
sums-collect m [] s = omega arith
sums-collect m (leg ∷ legs) s = ground (
  arith,
  sums-collect m legs s,
  sums-collect m legs (add_leg m leg (note_first leg s)),
  sums-add_leg m leg (note_first leg s),
  sums-note_first leg s,
)

abbrev target : Scan → Option ℕ × ℕ
target s = (s.first_asset_index, s.close_q)

target-add_leg : (m : Market) (leg : Leg) (s : Scan) → target (add_leg m leg s) ≡ target s
unfolding add_leg
target-add_leg m leg s = ground arith

-- Once there is a first leg, it stays.
target-collect-some :
    (m : Market) (legs : List Leg) (s : Scan) (i : ℕ)
    → s.first_asset_index ≡ some i
    → target (collect m legs s) ≡ target s
unfolding collect note_first
target-collect-some m [] s i h = refl
target-collect-some m (leg ∷ legs) s i h = ground (
  arith,
  target-collect-some m legs s i,
  target-collect-some m legs (add_leg m leg s) i,
  target-add_leg m leg s,
)

pub target-collect :
    (m : Market) (legs : List Leg) (s : Scan) (leg : Leg)
    → s.first_asset_index ≡ none
    → first_live legs ≡ some leg
    → target (collect m legs s) ≡ (some leg.asset_index, abs_pos leg)
unfolding collect note_first
target-collect m [] s leg n h = cc
target-collect m (l ∷ legs) s leg n h =
    let noted = record s { first_asset_index = some l.asset_index; close_q = abs_pos l } in
    ground (
      arith,
      target-collect m legs s leg n,
      target-collect-some m legs (add_leg m l noted) l.asset_index,
      target-add_leg m l noted,
    )

pub target-collect-none :
    (m : Market) (legs : List Leg) (s : Scan) → first_live legs ≡ none → collect m legs s ≡ s
unfolding collect
target-collect-none m [] s h = refl
target-collect-none m (l ∷ legs) s h = ground (arith, target-collect-none m legs s)
