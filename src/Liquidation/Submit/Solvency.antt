-- ===== src/Liquidation/Submit/Solvency.antt =====
-- src/services/liquidation.ts: the check of a v12 account before sending, in whole numbers.
use percolator_keeper.Prelude.{
  ℕ, zero, suc, ◌+◌, ◌-◌, ◌*◌, ◌/◌, ◌≤◌, ◌<◌, ◌≡◌, refl, ◌⊎◌, inl, inr, ◌↔◌, ℤ, pos, negsuc,
  pos_part, neg_part, ltb_ℤ, true, false, not, ◌&&◌, some, ltb, leb, arith, int_laws,
}
use percolator_keeper.Liquidation.{compute_margin_ratio_bps}
use percolator_keeper.Liquidation.Exposure.{margin_ratio_lt_iff}
use percolator_keeper.Liquidation.Submit.{
  LegacyAccount, FreshSlab, drift_exceeds, legacy_price, legacy_notional, legacy_equity,
  is_healthy_again, recheck_v12, abs_ℤ,
}

quotient_le : (a d m : ℕ) → 0 < d → a / d ≤ m → a < (m + 1) * d
quotient_le a d m h q = grind arith

quotient_gt : (a d m : ℕ) → 0 < d → m < a / d → (m + 1) * d ≤ a
quotient_gt a d m h q = grind arith

-- The drift limit or the price of the scan is 0, or the quotient of the change, in either direction, is
-- within the limit.
abbrev IsWithin : ℕ → ℕ → ℕ → Type 0
IsWithin limit scan fresh =
    (limit ≡ 0)
    ⊎ (scan ≡ 0)
    ⊎ (((fresh - scan) * 10_000 < (limit + 1) * scan)
        × ((scan - fresh) * 10_000 < (limit + 1) * scan))

drift-IsWithin :
    (limit scan fresh : ℕ) → drift_exceeds limit scan fresh ≡ false → IsWithin limit scan fresh
unfolding drift_exceeds
drift-IsWithin zero scan fresh h = inl refl
drift-IsWithin (suc limit) zero fresh h = inr (inl refl)
drift-IsWithin (suc limit) (suc scan) fresh h = inr (
    inr (
      ground (
        arith,
        h,
        quotient_le ((fresh - suc scan) * 10_000) (suc scan) (suc limit) (omega arith),
      ),
      ground (
        arith,
        h,
        quotient_le ((suc scan - fresh) * 10_000) (suc scan) (suc limit) (omega arith),
      ),
    ))

drift_of_IsWithin :
    (limit scan fresh : ℕ) → IsWithin limit scan fresh → drift_exceeds limit scan fresh ≡ false
unfolding drift_exceeds
drift_of_IsWithin zero scan fresh w = ground arith
drift_of_IsWithin (suc limit) zero fresh w = ground arith
drift_of_IsWithin (suc limit) (suc scan) fresh w = ground (
  arith,
  w,
  quotient_gt ((fresh - suc scan) * 10_000) (suc scan) (suc limit) (omega arith),
  quotient_gt ((suc scan - fresh) * 10_000) (suc scan) (suc limit) (omega arith),
)

abbrev assets : LegacyAccount → ℕ
assets a = pos_part a.capital + pos_part a.pnl

abbrev debts : LegacyAccount → ℕ
debts a = neg_part a.capital + neg_part a.pnl + neg_part a.fee_credits

equity_balance :
    (a : LegacyAccount)
    → pos_part (legacy_equity a) + debts a ≡ neg_part (legacy_equity a) + assets a
unfolding legacy_equity
equity_balance a = omega int_laws

-- Without equity, below the margin, or of a notional of 0.
abbrev IsWeak : ℕ → ℕ → ℕ → ℕ → Type 0
IsWeak margin notional owned owed =
    (owned ≤ owed) ⊎ (owned * 10_000 < margin * notional + owed * 10_000) ⊎ (notional ≡ 0)

IsWeak-iff :
    (e : ℤ) (margin notional owned owed : ℕ)
    → pos_part e + owed ≡ neg_part e + owned
    → (not (ltb 0 notional && (ltb_ℤ (pos 0) e && leb margin (compute_margin_ratio_bps e notional)))
        ≡ true)
      ↔ IsWeak margin notional owned owed
IsWeak-iff e margin zero owned owed h = ground arith
IsWeak-iff (negsuc k) margin (suc n) owned owed h = ground (arith, h)
IsWeak-iff (pos zero) margin (suc n) owned owed h = ground (arith, h)
IsWeak-iff (pos (suc k)) margin (suc n) owned owed h =
    ground (arith, h, margin_ratio_lt_iff (suc k) (suc n) margin (omega arith) (omega arith))

recheck_v12-facts :
    (limit scan : ℕ) (f : FreshSlab)
    → (recheck_v12 (some limit) scan (some f) ≡ true) ↔ (
        (f.is_used ≡ true)
        × (f.account.kind ≡ 0)
        × (0 < abs_ℤ f.account.position_size)
        × (0 < legacy_price f)
        × (drift_exceeds limit scan (legacy_price f) ≡ false)
        × (not (is_healthy_again f) ≡ true))
unfolding recheck_v12
recheck_v12-facts limit scan f = ground arith

-- A v12 account passes its checks exactly if it was read again as a used account of a user with a
-- position, its price is not 0 and has moved by at most the drift limit since the scan (in basis points
-- rounded down, where both the limit and the price of the scan are set), and one of three holds: what
-- the account owns is at most what it owes; 10,000 times the surplus is below the margin in basis
-- points times the notional; or the notional, which is rounded down, is 0. It owns a positive capital
-- and a profit, and owes a negative capital, a loss and its negative fee credits.
pub recheck_v12_iff :
    (limit scan : ℕ) (f : FreshSlab)
    → let a = f.account in
      let price = legacy_price f in
      let size = pos_part a.position_size + neg_part a.position_size in
      let notional = size * price / 1_000_000 in
      let owned = pos_part a.capital + pos_part a.pnl in
      let owed = neg_part a.capital + neg_part a.pnl + neg_part a.fee_credits in
      (recheck_v12 (some limit) scan (some f) ≡ true) ↔ (
        (f.is_used ≡ true)
        × (a.kind ≡ 0)
        × (0 < size)
        × (0 < price)
        × ((limit ≡ 0)
            ⊎ (scan ≡ 0)
            ⊎ (((price - scan) * 10_000 < (limit + 1) * scan)
                × ((scan - price) * 10_000 < (limit + 1) * scan)))
        × ((owned ≤ owed)
            ⊎ (owned * 10_000 < f.maintenance_margin_bps * notional + owed * 10_000)
            ⊎ (notional ≡ 0)))
unfolding is_healthy_again
recheck_v12_iff limit scan f =
    let (there, back) = recheck_v12-facts limit scan f in
    let weak =
      IsWeak-iff (legacy_equity f.account) f.maintenance_margin_bps
        (legacy_notional f.account (legacy_price f)) (assets f.account) (debts f.account)
        (equity_balance f.account) in
    (
      (λ h.
          let (used, user, sized, priced, near, bad) = there h in
          (used, user, sized, priced, drift-IsWithin limit scan (legacy_price f) near, weak.0 bad)),
      (λ (used, user, sized, priced, near, bad). back (
        used,
        user,
        sized,
        priced,
        drift_of_IsWithin limit scan (legacy_price f) near,
        weak.1 bad,
      )),
    )
