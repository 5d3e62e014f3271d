-- ===== src/Crank/Registry.antt =====
-- src/services/crank.ts: the tracked markets: what a discovery and a registration do to them.
use percolator_keeper.Prelude.{
  ℕ, ◌+◌, Bool, false, not, ◌||◌, Option, none, some, List, [], ◌∷◌, leb, ◌==◌, if◌then◌else◌,
  update, NumberSet,
}
use percolator_keeper.Crank.{
  MarketInfo, MarketCrankState, new_market, reset_recoverable_market_state,
}

-- The tracked markets.
abbrev pub Registry : Type 0
Registry = ℕ → Option MarketCrankState

-- What the database says of a market: nothing, or its entry.
abbrev pub with_metadata : Option (Option ℕ) → MarketCrankState → MarketCrankState
with_metadata none s = s
with_metadata (some ca) s = record s { mainnet_ca = ca }

abbrev pub ca_of : Option (Option ℕ) → Option ℕ
ca_of none = none
ca_of (some ca) = ca

unfoldable pub rediscover :
    ℕ → Option (Option ℕ) → MarketInfo → Option MarketCrankState → MarketCrankState
unfolding reset_recoverable_market_state
rediscover now meta info none = new_market info (ca_of meta)
rediscover now meta info (some s) =
    reset_recoverable_market_state now
      (record (with_metadata meta (record s { market = info })) { missing_discovery_count = 0 })

-- The loop over the discovered markets.
unfoldable pub merge_discovered :
    ℕ → (ℕ → Option (Option ℕ)) → List MarketInfo → Registry → Registry
unfolding rediscover
merge_discovered now db [] r = r
merge_discovered now db (m ∷ ms) r =
    merge_discovered now db ms
      (update r m.slab_address (some (rediscover now (db m.slab_address) m (r m.slab_address))))

unfoldable pub is_discovered : List MarketInfo → ℕ → Bool
is_discovered [] key = false
is_discovered (m ∷ ms) key = m.slab_address == key || is_discovered ms key

-- A tracked market that was not discovered while its program was scanned.
unfoldable pub note_missing : NumberSet → MarketCrankState → Option MarketCrankState
note_missing succeeded s =
    if not (succeeded s.market.program_id)
    then some s
    else if leb 3 (s.missing_discovery_count + 1)
    then none
    else some (record s { missing_discovery_count = s.missing_discovery_count + 1 })

unfoldable pub evict_missing : List MarketInfo → NumberSet → Registry → Registry
unfolding is_discovered note_missing
evict_missing found succeeded r key =
    if is_discovered found key
    then r key
    else elim (r key) [ none ↦ none | some s ↦ note_missing succeeded s ]

-- `discover` from the found markets on.
unfoldable pub apply_discovery :
    ℕ → (ℕ → Option (Option ℕ)) → List MarketInfo → NumberSet → Registry → Registry
unfolding merge_discovered evict_missing
apply_discovery now db found succeeded r =
    evict_missing found succeeded (merge_discovered now db found r)

-- What the RPC and the parser say of a slab that is to be registered.
pub data SlabRead : Type 0 where
  rpc_error not_found : SlabRead
  read_slab : ℕ → Option MarketInfo → SlabRead

pub data Registration : Type 0 where
  already_tracked read_failed missing_slab unknown_program unparsable registered : Registration

abbrev pub is_known : List ℕ → ℕ → Bool
is_known [] id = false
is_known (known ∷ ids) id = known == id || is_known ids id

-- A given override replaces the one of a tracked market.
abbrev pub with_new_ca : Option ℕ → MarketCrankState → MarketCrankState
with_new_ca none s = s
with_new_ca (some ca) s = record s { mainnet_ca = some ca }

unfoldable pub register_new : List ℕ → ℕ → Option ℕ → SlabRead → Registry → Registry × Registration
register_new known_ids key mainnet_ca rpc_error r = (r, read_failed)
register_new known_ids key mainnet_ca not_found r = (r, missing_slab)
register_new known_ids key mainnet_ca (read_slab program none) r =
    (r, if is_known known_ids program then unparsable else unknown_program)
register_new known_ids key mainnet_ca (read_slab program (some info)) r =
    if is_known known_ids program
    then (update r key (some (new_market info mainnet_ca)), registered)
    else (r, unknown_program)

-- Up to the provisioning and the first crank, which follow a registration.
unfoldable pub register_market :
    List ℕ → ℕ → Option ℕ → SlabRead → Registry → Registry × Registration
unfolding register_new
register_market known_ids key mainnet_ca slab r = elim (r key) [
  | some s ↦ (update r key (some (with_new_ca mainnet_ca s)), already_tracked)
  | none ↦ register_new known_ids key mainnet_ca slab r
]
