-- ===== src/Fraud/Alerting.antt =====
-- src/services/fraud-detector.ts: what the alerts of a cycle rest on.
use percolator_keeper.Prelude.{
  ℕ, ◌+◌, ◌≤◌, ◌<◌, ◌≡◌, refl, sym, ap, subst, ◌⊎◌, inl, inr, Bool, true, false, not, Option, none,
  some, List, [], ◌∷◌, ltb, leb, ◌==◌, ==_iff, if◌then◌else◌, length, update, arith, All,
  Bool-cases, max, not,
}
use percolator_keeper.Risk.{or_zero}
use percolator_keeper.Fraud.{
  divergence_bps, FraudSettings, FraudMarket, is_marked_by_authority, price_mint, Detector, Check,
  selected, is_negative, note_price, judge_divergence, judge_price, look_up, check_marked,
  last_alert, set_last_alert, max_tracked_alert_mints, check_market, check_markets, run_check,
}
use percolator_keeper.Fraud.LastAlerts.{
  last_alert-put_alert, set_last_alert-IsBounded, length-set_last_alert,
}

none-ne-some : {A : Type 0} (v : A) → ¬ (none ≡ some v)
none-ne-some v h = cc

module _ (cfg : FraudSettings) (now : ℕ) (peek : ℕ → Option ℕ) (before : Detector)
    (Q : FraudMarket → Type 0) where
  -- The alerts of one cycle may bring the map of the last alerts over its capacity.
  abbrev pub IsCrowded : Type 0
  IsCrowded = max_tracked_alert_mints < length before.last_alert_by_mint + cfg.max_alerts_per_cycle

  -- What an alert for a mint rests on.
  pub record IsJustified (mint : ℕ) : Type 0 where
    pub market : FraudMarket
    pub mark : ℕ
    pub price : ℕ
    pub from_markets : Q market
    pub for_mint : market.collateral_mint ≡ mint
    pub active : market.is_active ≡ true
    pub marked : is_marked_by_authority market.oracle ≡ true
    pub has_mark : market.authority_price_e6 ≡ some mark
    pub mark_set : 0 < mark
    pub has_price : peek (price_mint market) ≡ some price
    pub diverges : cfg.threshold_bps < divergence_bps mark price
    pub cooled :
        (or_zero (last_alert before.last_alert_by_mint mint) + cfg.cooldown_ms ≤ now) ⊎ IsCrowded

  -- The last alert of a mint is that before the cycle or of this cycle, unless it may be evicted.
  abbrev IsKept : ℕ → Option ℕ → Type 0
  IsKept k o = (o ≡ last_alert before.last_alert_by_mint k) ⊎ (o ≡ some now) ⊎ IsCrowded

  -- The prices of the cycle are the oracle's, the map of the last alerts grows with the alerts, and
  -- the last alerts are kept.
  abbrev pub IsSound : Check → Type 0
  IsSound c =
      (length c.alerted ≤ cfg.max_alerts_per_cycle)
      × All IsJustified c.alerted
      × ((k : ℕ) (v : Option ℕ) → c.fetched k ≡ some v → v ≡ peek k)
      × (length c.detector.last_alert_by_mint ≤ max 1_000 (length before.last_alert_by_mint))
      × (length c.detector.last_alert_by_mint ≤ length before.last_alert_by_mint + length c.alerted)
      × ((k : ℕ) → IsKept k (last_alert c.detector.last_alert_by_mint k))

  module _ (cools : 0 < cfg.cooldown_ms) where
    -- A market whose mark and price are known.
    abbrev IsKnown : FraudMarket → ℕ → ℕ → Type 0
    IsKnown m mark price =
        Q m
        × (m.is_active ≡ true)
        × (is_marked_by_authority m.oracle ≡ true)
        × (m.authority_price_e6 ≡ some mark)
        × (0 < mark)
        × (peek (price_mint m) ≡ some price)

    cooled_before :
        (mint : ℕ) (o : Option ℕ)
        → IsKept mint o
        → or_zero o + cfg.cooldown_ms ≤ now
        → (or_zero (last_alert before.last_alert_by_mint mint) + cfg.cooldown_ms ≤ now) ⊎ IsCrowded
    cooled_before mint o (inl e) h = inl (subst (λ x. or_zero x + cfg.cooldown_ms ≤ now) e h)
    cooled_before mint o (inr (inl e)) h =
        absurd (omega (arith, cools, subst (λ x. or_zero x + cfg.cooldown_ms ≤ now) e h))
    cooled_before mint o (inr (inr crowded)) h = inr crowded

    set_last-IsKept :
        (alerts : List (ℕ × ℕ)) (sent mint k : ℕ)
        → length alerts ≤ length before.last_alert_by_mint + sent
        → sent < cfg.max_alerts_per_cycle
        → IsKept k (last_alert alerts k)
        → IsKept k (last_alert (set_last_alert mint now alerts) k)
    unfolding set_last_alert
    set_last-IsKept alerts sent mint k b less l =
        ground (arith, l, b, less, last_alert-put_alert mint now k alerts)

    fetched_new :
        (c : Check) (key k : ℕ) (found v : Option ℕ)
        → peek key ≡ found
        → ((k : ℕ) (v : Option ℕ) → c.fetched k ≡ some v → v ≡ peek k)
        → update c.fetched key (some found) k ≡ some v
        → v ≡ peek k
    fetched_new c key k found v e f h = elim (Bool-cases (k == key)) [
      | inl same ↦ ground (arith, same, h, e, ap peek ((==_iff k key).0 same))
      | inr other ↦ f k v (ground (arith, other, h))
    ]

    note-IsSound :
        (key : ℕ) (found : Option ℕ) (c : Check)
        → peek key ≡ found
        → IsSound c
        → IsSound (note_price cfg now key found c)
    unfolding note_price
    note-IsSound key none c e (n, j, f, w, g, l) =
        (n, j, (λ k v h. fetched_new c key k none v e f h), w, g, l)
    note-IsSound key (some price) c e (n, j, f, w, g, l) =
        (n, j, (λ k v h. fetched_new c key k (some price) v e f h), w, g, l)

    skip_or :
        (b : Bool) (c d : Check)
        → IsSound c
        → (b ≡ false → IsSound d)
        → IsSound (if b then c else d)
    skip_or true c d s h = s
    skip_or false c d s h = h refl

    over_or_alert :
        (b : Bool) (c d : Check)
        → IsSound c
        → (b ≡ false → IsSound d)
        → IsSound (if b then record c { is_over = true } else d)
    over_or_alert true c d s h = s
    over_or_alert false c d s h = h refl

    judge-IsSound :
        (m : FraudMarket) (mark price : ℕ) (c : Check)
        → IsKnown m mark price
        → IsSound c
        → IsSound (judge_divergence cfg now m.collateral_mint (divergence_bps mark price) c)
    unfolding judge_divergence
    judge-IsSound m mark price c (q, a, o, s, z, p) (n, j, f, w, g, l) =
        skip_or (leb (divergence_bps mark price) cfg.threshold_bps) c _ (n, j, f, w, g, l)
          (λ e.
            skip_or
              (ltb now (
                or_zero (last_alert c.detector.last_alert_by_mint m.collateral_mint)
                + cfg.cooldown_ms))
              c _ (n, j, f, w, g, l)
              (λ e2.
                over_or_alert (leb cfg.max_alerts_per_cycle (length c.alerted)) c _
                  (n, j, f, w, g, l)
                  (λ e3. (
                    ground (arith, e3),
                    (
                      record {
                        market = m;
                        mark = mark;
                        price = price;
                        from_markets = q;
                        for_mint = refl;
                        active = a;
                        marked = o;
                        has_mark = s;
                        mark_set = z;
                        has_price = p;
                        diverges = ground (arith, e);
                        cooled =
                            cooled_before m.collateral_mint
                              (last_alert c.detector.last_alert_by_mint m.collateral_mint)
                              (l m.collateral_mint) (ground (arith, e2));
                      },
                      j,
                    ),
                    f,
                    ground (
                      arith,
                      w,
                      set_last_alert-IsBounded m.collateral_mint now c.detector.last_alert_by_mint,
                    ),
                    ground (
                      arith,
                      g,
                      length-set_last_alert m.collateral_mint now c.detector.last_alert_by_mint,
                    ),
                    (λ k.
                        set_last-IsKept c.detector.last_alert_by_mint (length c.alerted)
                          m.collateral_mint k g (ground (arith, e3)) (l k)),
                  ))))

    -- A market whose mark is known, with whatever the oracle says of its price.
    abbrev IsMarked : FraudMarket → ℕ → Type 0
    IsMarked m mark =
        Q m
        × (m.is_active ≡ true)
        × (is_marked_by_authority m.oracle ≡ true)
        × (m.authority_price_e6 ≡ some mark)
        × (0 < mark)

    judge_price-IsSound :
        (m : FraudMarket) (mark : ℕ) (o : Option ℕ) (c : Check)
        → IsMarked m mark
        → o ≡ peek (price_mint m)
        → IsSound c
        → IsSound (judge_price cfg now m.collateral_mint mark o c)
    unfolding judge_price
    judge_price-IsSound m mark none c k e s = s
    judge_price-IsSound m mark (some price) c (q, a, o, h, z) e s =
        judge-IsSound m mark price c (q, a, o, h, z, sym e) s

    look_up-IsSound :
        (m : FraudMarket) (mark : ℕ) (o : Option (Option ℕ)) (c : Check)
        → IsMarked m mark
        → c.fetched (price_mint m) ≡ o
        → IsSound c
        → IsSound (look_up cfg now peek m.collateral_mint (price_mint m) mark o c)
    unfolding look_up
    look_up-IsSound m mark (some cached) c k e s =
        judge_price-IsSound m mark cached c k (s.2 (price_mint m) cached e) s
    look_up-IsSound m mark none c k e s =
        judge_price-IsSound m mark (peek (price_mint m))
          (note_price cfg now (price_mint m) (peek (price_mint m)) c) k refl
          (note-IsSound (price_mint m) (peek (price_mint m)) c refl s)

    check_marked-IsSound :
        (m : FraudMarket) (o : Option ℕ) (c : Check)
        → Q m
        → m.is_active ≡ true
        → is_marked_by_authority m.oracle ≡ true
        → m.authority_price_e6 ≡ o
        → IsSound c
        → IsSound (check_marked cfg now peek m o c)
    unfolding check_marked
    check_marked-IsSound m none c q a k e s = s
    check_marked-IsSound m (some mark) c q a k e s = skip_or (mark == 0) c _ s (λ z.
        skip_or (is_negative now (c.detector.negative_price_cache (price_mint m))) c _ s (λ n.
          look_up-IsSound m mark (c.fetched (price_mint m)) c (q, a, k, e, ground (arith, z)) refl
            s))

    check_market-IsSound :
        (m : FraudMarket) (c : Check) → Q m → IsSound c → IsSound (check_market cfg now peek m c)
    unfolding check_market
    check_market-IsSound m c q s = skip_or c.is_over c _ s (λ over.
        skip_or (not m.is_active) c _ s (λ a.
          skip_or (not (is_marked_by_authority m.oracle)) c _ s (λ k.
            check_marked-IsSound m m.authority_price_e6 c q (ground (arith, a)) (ground (arith, k))
              refl s)))

    check_markets-IsSound :
        (ms : List FraudMarket) (c : Check)
        → All Q ms
        → IsSound c
        → IsSound (check_markets cfg now peek ms c)
    unfolding check_markets
    check_markets-IsSound [] c q s = s
    check_markets-IsSound (m ∷ ms) c (q, qs) s =
        check_markets-IsSound ms (check_market cfg now peek m c) qs (check_market-IsSound m c q s)

    -- A cycle sends at most the number of alerts it may, and each alert stands for one of the markets
    -- of the cycle: an active one whose price its authority sets, with a mark and an off-chain price
    -- that are further apart than the threshold, for a mint whose last alert before the cycle lies
    -- the cooldown back, unless the map of the last alerts with the alerts of one more cycle exceeds
    -- its 1,000 mints. That map keeps to its 1,000 mints, or to its size before. The cooldown is
    -- positive, and Q is what holds of all markets.
    pub alerts_are-IsJustified :
        (markets : List FraudMarket)
        → All Q (selected cfg.max_markets_per_cycle markets before.market_cursor)
        → let after = run_check cfg now peek markets before in
          (length after.alerted ≤ cfg.max_alerts_per_cycle)
          × All IsJustified after.alerted
          × (length after.detector.last_alert_by_mint
              ≤ max 1_000 (length before.last_alert_by_mint))
    unfolding run_check
    alerts_are-IsJustified markets q =
        let s =
          check_markets-IsSound (selected cfg.max_markets_per_cycle markets before.market_cursor) _
            q
            (
              omega arith,
              tt,
              (λ k v h. absurd (none-ne-some v h)),
              omega arith,
              omega arith,
              (λ k. inl refl),
            ) in
        (s.0, s.1, s.3)
