-- ===== src/Liquidation/Prices.antt =====
-- src/services/liquidation.ts: the choice of a market's price and the age it may have. A PublicKey is
-- the number that the SDK holds for it, the zero key is 0; prices and times are unsigned.
use percolator_keeper.Prelude.{
  ℕ, ◌+◌, ◌*◌, ◌≤◌, ◌<◌, ◌≡◌, ◌⊎◌, inl, inr, ◌↔◌, ℤ, pos, ◌-ℤ◌, ltb_ℤ, Bool, true, false, not, ◌&&◌,
  arith, ltb, -ℤ_parts, ◌==◌, if◌then◌else◌, Bool-cases,
}

pub data OracleMode : Type 0 where
  pyth_pinned hyperp admin : OracleMode

pub record MarketConfig : Type 0 where
  pub oracle_authority : ℕ
  pub index_feed_id : ℕ
  pub last_effective_price_e6 : ℕ
  pub authority_price_e6 : ℕ
  pub authority_timestamp : ℕ

pub record Price : Type 0 where
  pub price : ℕ
  pub stale : Bool

unfoldable pub detect_oracle_mode : MarketConfig → OracleMode
detect_oracle_mode cfg =
    if cfg.index_feed_id == 0
    then hyperp
    else if cfg.oracle_authority == 0
    then pyth_pinned
    else admin

-- `publish > 0n ? now - publish : now`
unfoldable pub price_age : ℕ → ℕ → ℤ
price_age now publish = if ltb 0 publish then pos now -ℤ pos publish else pos now

unfoldable pub resolve_market_price : MarketConfig → OracleMode → ℕ → Price
unfolding price_age
resolve_market_price cfg pyth_pinned now = record {
  price = cfg.last_effective_price_e6;
  stale = false;
}
resolve_market_price cfg hyperp now = record { price = cfg.last_effective_price_e6; stale = false }
resolve_market_price cfg admin now =
    if ltb 0 cfg.authority_price_e6 && not (ltb_ℤ (pos 60) (price_age now cfg.authority_timestamp))
    then record { price = cfg.authority_price_e6; stale = false }
    else record { price = cfg.last_effective_price_e6; stale = true }

pub record WrapperConfig : Type 0 where
  pub oracle_mode : ℕ
  pub max_staleness_secs : ℕ
  pub oracle_target_publish_time : ℕ
  pub oracle_target_price_e6 : ℕ
  pub mark_ewma_e6 : ℕ

unfoldable pub or_default : ℕ → ℕ → ℕ → ℕ
or_default secs factor default = if ltb 0 secs then secs * factor else default

unfoldable pub takes_target : WrapperConfig → ℕ → Bool
unfolding price_age or_default
takes_target cfg now =
    cfg.oracle_mode == 3
    && (ltb 0 cfg.oracle_target_price_e6
        && not (
            ltb_ℤ (pos (or_default cfg.max_staleness_secs 1 60))
              (price_age now cfg.oracle_target_publish_time)))

unfoldable pub takes_ewma : WrapperConfig → ℕ → Bool
unfolding price_age or_default
takes_ewma cfg now =
    ltb 0 cfg.mark_ewma_e6
    && not (
        ltb_ℤ (pos (or_default cfg.max_staleness_secs 5 300))
          (price_age now cfg.oracle_target_publish_time))

unfoldable pub resolve_v17_wrapper_price : WrapperConfig → ℕ → ℕ
resolve_v17_wrapper_price cfg now =
    if takes_target cfg now
    then cfg.oracle_target_price_e6
    else if takes_ewma cfg now
    then cfg.mark_ewma_e6
    else 0

too_old_iff :
    (limit now publish : ℕ) → ltb_ℤ (pos limit) (price_age now publish) ≡ ltb (publish + limit) now
unfolding price_age
too_old_iff limit now publish = ground (arith, -ℤ_parts (pos now) (pos publish))

-- The age limit of the price, in seconds: the configured one, else a minute.
abbrev pub staleness_limit : WrapperConfig → ℕ
staleness_limit cfg = if cfg.max_staleness_secs == 0 then 60 else cfg.max_staleness_secs

takes_target-IsRecent :
    (cfg : WrapperConfig) (now : ℕ)
    → takes_target cfg now ≡ true
    → (cfg.oracle_mode ≡ 3) × (now ≤ cfg.oracle_target_publish_time + staleness_limit cfg)
unfolding takes_target or_default
takes_target-IsRecent cfg now t =
    ground (
      arith,
      too_old_iff (or_default cfg.max_staleness_secs 1 60) now cfg.oracle_target_publish_time,
    )

takes_ewma-IsRecent :
    (cfg : WrapperConfig) (now : ℕ)
    → takes_ewma cfg now ≡ true
    → now ≤ cfg.oracle_target_publish_time + 5 * staleness_limit cfg
unfolding takes_ewma or_default
takes_ewma-IsRecent cfg now t = ground (
  arith,
  too_old_iff (or_default cfg.max_staleness_secs 5 300) now cfg.oracle_target_publish_time,
)

-- A price of a v17 wrapper is 0, or the oracle's target of mode 3 published within the limit, or the
-- average published within five times the limit.
pub wrapper_price_is_recent :
    (cfg : WrapperConfig) (now : ℕ)
    → (resolve_v17_wrapper_price cfg now ≡ 0)
      ⊎ ((resolve_v17_wrapper_price cfg now ≡ cfg.oracle_target_price_e6)
          × (cfg.oracle_mode ≡ 3)
          × (now ≤ cfg.oracle_target_publish_time + staleness_limit cfg))
      ⊎ ((resolve_v17_wrapper_price cfg now ≡ cfg.mark_ewma_e6)
          × (now ≤ cfg.oracle_target_publish_time + 5 * staleness_limit cfg))
unfolding resolve_v17_wrapper_price
wrapper_price_is_recent cfg now = elim (Bool-cases (takes_target cfg now)) [
  | inl t ↦
      let (mode, recent) = takes_target-IsRecent cfg now t in inr (inl (ground arith, mode, recent))
  | inr t ↦ elim (Bool-cases (takes_ewma cfg now)) [
    | inl e ↦ inr (inr (ground arith, takes_ewma-IsRecent cfg now e))
    | inr e ↦ inl (ground arith)
  ]
]

-- A market whose mode is the detected one has a stale price exactly when an authority and a feed are
-- set and the authority's price is 0 or older than 60 seconds, and a price that is not stale is the
-- authority's in that mode.
pub stale_price_iff :
    (cfg : MarketConfig) (now : ℕ)
    → let p = resolve_market_price cfg (detect_oracle_mode cfg) now in
      (p.stale ≡ true) ↔ (
        (0 < cfg.index_feed_id)
        × (0 < cfg.oracle_authority)
        × ((cfg.authority_price_e6 ≡ 0) ⊎ (cfg.authority_timestamp + 60 < now)))
unfolding resolve_market_price detect_oracle_mode
stale_price_iff cfg now = ground (arith, too_old_iff 60 now cfg.authority_timestamp)
