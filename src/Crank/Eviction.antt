-- ===== src/Crank/Eviction.antt =====
-- src/services/crank.ts: when discovery drops a market.
use percolator_keeper.Prelude.{
  ℕ, ◌+◌, ◌≡◌, refl, ap, ◌∙◌, Bool, true, false, not, ◌&&◌, ◌||◌, Option, none, some, List, [], ◌∷◌,
  leb, ◌==◌, if◌then◌else◌, update, NumberSet, arith,
}
use percolator_keeper.Crank.{
  MarketInfo, MarketCrankState, reset_failures, reset_permanent_skip,
  reset_recoverable_market_state,
}
use percolator_keeper.Crank.Registry.{
  rediscover, merge_discovered, is_discovered, note_missing, evict_missing, apply_discovery,
  Registry,
}

-- What one discovery does.
pub record Round : Type 0 where
  pub now : ℕ
  pub db : ℕ → Option (Option ℕ)
  pub found : List MarketInfo
  pub succeeded : NumberSet

abbrev pub discoveries : List Round → Registry → Registry
discoveries [] r = r
discoveries (d ∷ ds) r = discoveries ds (apply_discovery d.now d.db d.found d.succeeded r)

-- The abstract view of one market: untracked, or tracked with the number of misses. It forgets all but
-- whether the market was found and whether its program was scanned.
unfoldable pub watch_market : Bool → Bool → Option ℕ → Option ℕ
watch_market true scanned w = some 0
watch_market false scanned none = none
watch_market false false (some n) = some n
watch_market false true (some n) = if leb 3 (n + 1) then none else some (n + 1)

abbrev pub watched : ℕ → ℕ → List Round → Option ℕ → Option ℕ
watched key program [] w = w
watched key program (d ∷ ds) w =
    watched key program ds (watch_market (is_discovered d.found key) (d.succeeded program) w)

-- The account of a slab keeps its owner.
abbrev pub keeps_owner : ℕ → ℕ → List MarketInfo → Bool
keeps_owner key program [] = true
keeps_owner key program (m ∷ ms) =
    (not (m.slab_address == key) || m.program_id == program) && keeps_owner key program ms

abbrev pub all_keep_owner : ℕ → ℕ → List Round → Bool
all_keep_owner key program [] = true
all_keep_owner key program (d ∷ ds) =
    keeps_owner key program d.found && all_keep_owner key program ds

abbrev pub view : Option MarketCrankState → Option ℕ
view none = none
view (some s) = some s.missing_discovery_count

-- An entry that belongs to this program.
abbrev pub owned_by : ℕ → Option MarketCrankState → Bool
owned_by program none = true
owned_by program (some s) = s.market.program_id == program

rediscover-fresh :
    (now : ℕ) (meta : Option (Option ℕ)) (m : MarketInfo) (o : Option MarketCrankState)
    → let s = rediscover now meta m o in
      (s.missing_discovery_count ≡ 0) × (s.market.program_id ≡ m.program_id)
unfolding rediscover reset_recoverable_market_state reset_failures reset_permanent_skip
rediscover-fresh now meta m none = (refl, refl)
rediscover-fresh now none m (some s) = (ground arith, ground arith)
rediscover-fresh now (some ca) m (some s) = (ground arith, ground arith)

seen_or_missed :
    (found scanned : Bool) (v w : Option ℕ)
    → v ≡ (if found then some 0 else w)
    → (if found then v else watch_market false scanned v) ≡ watch_market found scanned w
unfolding watch_market
seen_or_missed true scanned v w e = e
seen_or_missed false scanned v w e = ap (watch_market false scanned) e

module _ (key program : ℕ) where
  entry-view :
      (m : MarketInfo) (s : MarketCrankState) (r : Registry)
      → s.missing_discovery_count ≡ 0
      → s.market.program_id ≡ m.program_id
      → (not (m.slab_address == key) || m.program_id == program) ≡ true
      → owned_by program (r key) ≡ true
      → let after = update r m.slab_address (some s) key in
        (view after ≡ (if m.slab_address == key then some 0 else view (r key)))
        × (owned_by program after ≡ true)
  entry-view m s r z p k o = (ground (arith, z, p, k, o), ground (arith, z, p, k, o))

  merge-view :
      (now : ℕ) (db : ℕ → Option (Option ℕ)) (found : List MarketInfo) (r : Registry)
      → keeps_owner key program found ≡ true
      → owned_by program (r key) ≡ true
      → let after = merge_discovered now db found r key in
        (view after ≡ (if is_discovered found key then some 0 else view (r key)))
        × (owned_by program after ≡ true)
  unfolding merge_discovered is_discovered
  merge-view now db [] r k o = (refl, o)
  merge-view now db (m ∷ ms) r k o =
      let s = rediscover now (db m.slab_address) m (r m.slab_address) in
      let (zero_misses, same_program) =
        rediscover-fresh now (db m.slab_address) m (r m.slab_address) in
      let (first, mine) = entry-view m s r zero_misses same_program (ground (arith, k)) o in
      let (rest, owned) =
        merge-view now db ms (update r m.slab_address (some s)) (ground (arith, k)) mine in
      (ground (arith, first, rest), owned)

  evict-view :
      (found : List MarketInfo) (succeeded : NumberSet) (r : Registry) (o : Option MarketCrankState)
      → r key ≡ o
      → owned_by program o ≡ true
      → let after = evict_missing found succeeded r key in
        (view after ≡ (
          if is_discovered found key
          then view o
          else watch_market false (succeeded program) (view o)))
        × (owned_by program after ≡ true)
  unfolding evict_missing note_missing watch_market
  evict-view found succeeded r none e w = (ground (arith, e), ground (arith, e))
  evict-view found succeeded r (some s) e w = (ground (arith, e, w), ground (arith, e, w))

  -- What discovery tracks of a market is what the abstract view says, over any discoveries: a market is
  -- dropped exactly at its third miss in a row, where a discovery that could not scan the program counts
  -- neither as a miss nor as a sighting.
  pub discovery_refines_watch :
      (ds : List Round) (r : Registry)
      → all_keep_owner key program ds ≡ true
      → owned_by program (r key) ≡ true
      → view (discoveries ds r key) ≡ watched key program ds (view (r key))
  unfolding apply_discovery
  discovery_refines_watch [] r k o = refl
  discovery_refines_watch (d ∷ ds) r k o =
      let merged = merge_discovered d.now d.db d.found r in
      let (seen, mine) = merge-view d.now d.db d.found r (ground (arith, k)) o in
      let (left, owned) = evict-view d.found d.succeeded merged (merged key) refl mine in
      discovery_refines_watch ds (evict_missing d.found d.succeeded merged) (ground (arith, k))
        owned
      ∙ ap (watched key program ds) (
          left
          ∙ seen_or_missed (is_discovered d.found key) (d.succeeded program) (view (merged key))
              (view (r key)) seen)
