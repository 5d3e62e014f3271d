-- ===== src/Fraud.antt =====
-- src/services/fraud-detector.ts: a cycle of the fraud detector. Mints are numbers; the prices of the
-- oracle service are an argument, `none` for one that is missing, zero or throws. Marks and prices are
-- whole numbers, whose quotient is taken exactly.
pub mod LastAlerts
pub mod Alerting
use percolator_keeper.Prelude.{
  ℕ, zero, suc, ◌+◌, ◌-◌, ◌*◌, ◌/◌, ◌%◌, Bool, true, false, not, ◌&&◌, ◌||◌, Option, none, some,
  List, [], ◌∷◌, ltb, leb, ◌==◌, if◌then◌else◌, length, get_elem?, update, drop,
}
use percolator_keeper.Risk.{or_zero}

-- `Math.round(|a - b| / b * 10_000)`, and 0 for no off-chain price.
unfoldable pub divergence_bps : ℕ → ℕ → ℕ
divergence_bps onchain offchain =
    if offchain == 0
    then 0
    else let diff = if ltb offchain onchain then onchain - offchain else offchain - onchain in
      (diff * 20_000 + offchain) / (2 * offchain)

pub record FraudSettings : Type 0 where
  pub threshold_bps : ℕ
  pub cooldown_ms : ℕ
  pub max_markets_per_cycle : ℕ
  pub negative_ttl_ms : ℕ
  pub max_alerts_per_cycle : ℕ

-- The oracle mode of a v17 market; for another one, whether its feed is zero.
pub data OracleKind : Type 0 where
  v17_mode : Option ℕ → OracleKind
  legacy_feed : Bool → OracleKind

pub record FraudMarket : Type 0 where
  pub is_active : Bool
  pub oracle : OracleKind
  pub authority_price_e6 : Option ℕ
  pub collateral_mint : ℕ
  pub mainnet_ca : Option ℕ

unfoldable pub is_marked_by_authority : OracleKind → Bool
is_marked_by_authority (v17_mode none) = false
is_marked_by_authority (v17_mode (some mode)) = mode == 3
is_marked_by_authority (legacy_feed is_zero) = is_zero

abbrev pub price_mint : FraudMarket → ℕ
price_mint m = elim m.mainnet_ca [ none ↦ m.collateral_mint | some ca ↦ ca ]

abbrev pub max_tracked_alert_mints : ℕ
max_tracked_alert_mints = 1_000

-- The fields of the service. The map of the last alerts is in the order of its insertions.
pub record Detector : Type 0 where
  pub last_alert_by_mint : List (ℕ × ℕ)
  pub market_cursor : ℕ
  pub negative_price_cache : ℕ → Option ℕ

unfoldable pub last_alert : List (ℕ × ℕ) → ℕ → Option ℕ
last_alert [] mint = none
last_alert ((m, ts) ∷ rest) mint = if m == mint then some ts else last_alert rest mint

-- `Map.set`: an entry keeps its place where its mint is set again.
unfoldable pub put_alert : ℕ → ℕ → List (ℕ × ℕ) → List (ℕ × ℕ)
put_alert mint ts [] = (mint, ts) ∷ []
put_alert mint ts ((m, t) ∷ rest) =
    let put = put_alert mint ts rest in if m == mint then (mint, ts) ∷ rest else (m, t) ∷ put

abbrev pub has_alert : List (ℕ × ℕ) → ℕ → Bool
has_alert alerts mint = elim (last_alert alerts mint) [ none ↦ false | some ts ↦ true ]

-- At capacity a new mint evicts the one inserted first.
unfoldable pub set_last_alert : ℕ → ℕ → List (ℕ × ℕ) → List (ℕ × ℕ)
unfolding last_alert put_alert
set_last_alert mint ts alerts = put_alert mint ts (
    if not (has_alert alerts mint) && leb max_tracked_alert_mints (length alerts)
    then drop 1 alerts
    else alerts)

-- What one cycle carries along: the fetched prices of the cycle and its alerts, newest first.
pub record Check : Type 0 where
  pub detector : Detector
  pub fetched : ℕ → Option (Option ℕ)
  pub alerted : List ℕ
  pub is_over : Bool

unfoldable pub drop_expired : ℕ → (ℕ → Option ℕ) → ℕ → Option ℕ
drop_expired now cache k = elim (cache k) [
  | none ↦ none
  | some expiry ↦ if leb expiry now then none else some expiry
]

module _ {M : Type 0} where
  unfoldable pub select_from : List M → ℕ → ℕ → ℕ → List M
  select_from entries start zero k = []
  select_from entries start (suc n) k =
      let rest = select_from entries start n (k + 1) in
      elim (get_elem? entries ((start + k) % length entries)) [ none ↦ rest | some m ↦ m ∷ rest ]

  unfoldable pub selected : ℕ → List M → ℕ → List M
  unfolding select_from
  selected max_markets entries cursor =
      if leb (length entries) max_markets
      then entries
      else select_from entries ((cursor % length entries + length entries) % length entries)
          max_markets 0

  unfoldable pub next_market_cursor : ℕ → List M → ℕ → ℕ
  next_market_cursor max_markets entries cursor =
      if leb (length entries) max_markets
      then 0
      else ((cursor % length entries + length entries) % length entries + max_markets)
        % length entries

abbrev pub is_negative : ℕ → Option ℕ → Bool
is_negative now none = false
is_negative now (some expiry) = ltb now expiry

-- A fetch that failed enters the negative cache.
unfoldable pub note_price : FraudSettings → ℕ → ℕ → Option ℕ → Check → Check
note_price cfg now mint none c = record c {
  fetched = update c.fetched mint (some none);
  detector = record c.detector {
    negative_price_cache =
        if ltb 0 cfg.negative_ttl_ms
        then update c.detector.negative_price_cache mint (some (now + cfg.negative_ttl_ms))
        else c.detector.negative_price_cache;
  };
}
note_price cfg now mint (some price) c = record c {
  fetched = update c.fetched mint (some (some price));
}

-- `now - lastAlert < cooldown` is written without the subtraction.
unfoldable pub judge_divergence : FraudSettings → ℕ → ℕ → ℕ → Check → Check
unfolding last_alert set_last_alert
judge_divergence cfg now mint bps c =
    if leb bps cfg.threshold_bps
    then c
    else if ltb now (or_zero (last_alert c.detector.last_alert_by_mint mint) + cfg.cooldown_ms)
    then c
    else if leb cfg.max_alerts_per_cycle (length c.alerted)
    then record c { is_over = true }
    else record c {
      detector = record c.detector {
        last_alert_by_mint = set_last_alert mint now c.detector.last_alert_by_mint;
      };
      alerted = mint ∷ c.alerted;
    }

-- With the off-chain price, if there is one.
unfoldable pub judge_price : FraudSettings → ℕ → ℕ → ℕ → Option ℕ → Check → Check
unfolding judge_divergence divergence_bps
judge_price cfg now mint mark none c = c
judge_price cfg now mint mark (some price) c =
    judge_divergence cfg now mint (divergence_bps mark price) c

-- From the fetch on: the price of the cycle, else a new one.
unfoldable pub look_up :
    FraudSettings → ℕ → (ℕ → Option ℕ) → ℕ → ℕ → ℕ → Option (Option ℕ) → Check → Check
unfolding judge_price note_price
look_up cfg now peek mint key mark (some cached) c = judge_price cfg now mint mark cached c
look_up cfg now peek mint key mark none c =
    judge_price cfg now mint mark (peek key) (note_price cfg now key (peek key) c)

unfoldable pub check_marked :
    FraudSettings → ℕ → (ℕ → Option ℕ) → FraudMarket → Option ℕ → Check → Check
unfolding look_up
check_marked cfg now peek m none c = c
check_marked cfg now peek m (some mark) c =
    if mark == 0
    then c
    else if is_negative now (c.detector.negative_price_cache (price_mint m))
    then c
    else look_up cfg now peek m.collateral_mint (price_mint m) mark (c.fetched (price_mint m)) c

unfoldable pub check_market : FraudSettings → ℕ → (ℕ → Option ℕ) → FraudMarket → Check → Check
unfolding check_marked is_marked_by_authority
check_market cfg now peek m c =
    if c.is_over
    then c
    else if not m.is_active
    then c
    else if not (is_marked_by_authority m.oracle)
    then c
    else check_marked cfg now peek m m.authority_price_e6 c

unfoldable pub check_markets : FraudSettings → ℕ → (ℕ → Option ℕ) → List FraudMarket → Check → Check
unfolding check_market
check_markets cfg now peek [] c = c
check_markets cfg now peek (m ∷ ms) c =
    check_markets cfg now peek ms (check_market cfg now peek m c)

unfoldable pub run_check : FraudSettings → ℕ → (ℕ → Option ℕ) → List FraudMarket → Detector → Check
unfolding check_markets selected next_market_cursor drop_expired
run_check cfg now peek markets d =
    check_markets cfg now peek (selected cfg.max_markets_per_cycle markets d.market_cursor)
      (record {
        detector = record d {
          negative_price_cache = drop_expired now d.negative_price_cache;
          market_cursor = next_market_cursor cfg.max_markets_per_cycle markets d.market_cursor;
        };
        fetched = λ mint. none;
        alerted = [];
        is_over = false;
      })
