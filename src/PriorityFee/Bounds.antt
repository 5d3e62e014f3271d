-- ===== src/PriorityFee/Bounds.antt =====
-- src/lib/priority-fee.ts: the bounds of the fees and of their cache.
use percolator_keeper.Prelude.{
  ℕ, ◌+◌, ◌≤◌, ◌<◌, ◌≡◌, refl, Bool, true, false, Option, none, some, List, [], ◌∷◌, ltb, leb, ◌==◌,
  if◌then◌else◌, length, filter, All, arith,
}
use percolator_keeper.PriorityFee.{
  PriorityFeeTier, bounded_setting, resolve_estimate_ceiling, resolve_fallback, FeeEntry,
  drop_oldest, evict_stale_entries, set_entry, cached_fee, FeeQuery, fee_answered, FeeEvent,
  add_fee, fee_run, crank, liquidation, oracle, adl, asked, answered,
}

abbrev pub IsCapped : FeeEntry → Type 0
IsCapped e = e.value ≤ 20_000_000

abbrev pub IsBounded : ℕ → List FeeEntry → Type 0
IsBounded cache_max cache = (length cache ≤ cache_max) × All IsCapped cache

ceiling_bound : (raw : Option ℕ) → resolve_estimate_ceiling raw ≤ 20_000_000
unfolding resolve_estimate_ceiling bounded_setting
ceiling_bound none = omega arith
ceiling_bound (some v) = ground arith

fallback_bound : (tier : PriorityFeeTier) (raw : Option ℕ) → resolve_fallback tier raw ≤ 20_000_000
unfolding resolve_fallback bounded_setting
fallback_bound crank none = omega arith
fallback_bound liquidation none = omega arith
fallback_bound oracle none = omega arith
fallback_bound adl none = omega arith
fallback_bound crank (some v) = ground arith
fallback_bound liquidation (some v) = ground arith
fallback_bound oracle (some v) = ground arith
fallback_bound adl (some v) = ground arith

either_way :
    {A : Type 0} (P : A → Type 0) (b : Bool) (x y : A)
    → (b ≡ true → P x)
    → (b ≡ false → P y)
    → P (if b then x else y)
either_way P true x y hx hy = hx refl
either_way P false x y hx hy = hy refl

All-filter :
    {A : Type 0} (P : A → Type 0) (p : A → Bool) (xs : List A) → All P xs → All P (filter p xs)
All-filter P p [] h = tt
All-filter P p (x ∷ xs) (h, hs) =
    either_way (All P) (p x) (x ∷ filter p xs) (filter p xs) (λ _. (h, All-filter P p xs hs))
      (λ _. All-filter P p xs hs)

drop_oldest-IsBounded :
    (cache_max : ℕ) (es : List FeeEntry)
    → 0 < cache_max
    → All IsCapped es
    → (length (drop_oldest cache_max es) < cache_max) × All IsCapped (drop_oldest cache_max es)
unfolding drop_oldest
drop_oldest-IsBounded cache_max [] m h = (m, tt)
drop_oldest-IsBounded cache_max (e ∷ es) m (h, hs) =
    either_way (λ l. (length l < cache_max) × All IsCapped l) (leb cache_max (length (e ∷ es)))
      (drop_oldest cache_max es) (e ∷ es) (λ _. drop_oldest-IsBounded cache_max es m hs)
      (λ small. (ground (arith, small), (h, hs)))

set_entry-IsBounded :
    (cache_max : ℕ) (new : FeeEntry) (es : List FeeEntry)
    → length es < cache_max
    → IsCapped new
    → All IsCapped es
    → (length (set_entry new es) ≤ length es + 1) × All IsCapped (set_entry new es)
unfolding set_entry
set_entry-IsBounded cache_max new [] b n h = (omega arith, (n, tt))
set_entry-IsBounded cache_max new (e ∷ es) b n (h, hs) =
    either_way (λ l. (length l ≤ length (e ∷ es) + 1) × All IsCapped l) (e.key == new.key)
      (new ∷ es) (e ∷ set_entry new es) (λ _. (omega arith, (n, hs)))
      (λ _.
        let (grown, capped) = set_entry-IsBounded cache_max new es (ground (arith, b)) n hs in
        (omega (arith, grown), (h, capped)))

fee_answered-IsBounded :
    (now cache_ms cache_max : ℕ) (q : FeeQuery) (raw : Option ℕ) (cache : List FeeEntry)
    → 0 < cache_max
    → IsBounded cache_max cache
    → let (kept, fee) = fee_answered now cache_ms cache_max q raw cache in
      IsBounded cache_max kept × (fee ≤ 20_000_000)
unfolding fee_answered evict_stale_entries
fee_answered-IsBounded now cache_ms cache_max q none cache m h =
    (h, fallback_bound q.tier q.fallback_setting)
fee_answered-IsBounded now cache_ms cache_max q (some raw) cache m (_, capped) =
    let ceiling = resolve_estimate_ceiling q.ceiling_setting in
    let value = if ltb ceiling raw then ceiling else raw in
    let value_bound : value ≤ 20_000_000 = ground (arith, ceiling_bound q.ceiling_setting) in
    let fresh = filter (λ (e : FeeEntry). ltb now e.expires_at) cache in
    let (small, kept) =
      drop_oldest-IsBounded cache_max fresh m (All-filter IsCapped _ cache capped) in
    let (grown, all_capped) =
      set_entry-IsBounded cache_max
        (record { key = q.key; value = value; expires_at = now + cache_ms })
        (drop_oldest cache_max fresh) small value_bound kept in
    ((omega (arith, small, grown), all_capped), value_bound)

cached_fee-bound :
    (now key : ℕ) (cache : List FeeEntry)
    → All IsCapped cache
    → All (λ fee. fee ≤ 20_000_000) (add_fee (cached_fee now key cache) [])
unfolding cached_fee
cached_fee-bound now key [] h = tt
cached_fee-bound now key (e ∷ es) (h, hs) =
    either_way (λ o. All (λ fee. fee ≤ 20_000_000) (add_fee o [])) (e.key == key)
      (if ltb now e.expires_at then some e.value else none) (cached_fee now key es)
      (λ _.
        either_way (λ o. All (λ fee. fee ≤ 20_000_000) (add_fee o [])) (ltb now e.expires_at)
          (some e.value) none (λ _. (h, tt)) (λ _. tt))
      (λ _. cached_fee-bound now key es hs)

add_fee-bound :
    (o : Option ℕ) (fees : List ℕ)
    → All (λ fee. fee ≤ 20_000_000) (add_fee o [])
    → All (λ fee. fee ≤ 20_000_000) fees
    → All (λ fee. fee ≤ 20_000_000) (add_fee o fees)
add_fee-bound none fees h hs = hs
add_fee-bound (some fee) fees (h, _) hs = (h, hs)

run-IsBounded :
    (cache_ms cache_max : ℕ) (es : List FeeEvent) (cache : List FeeEntry)
    → 0 < cache_max
    → IsBounded cache_max cache
    → let (after, fees) = fee_run cache_ms cache_max es cache in
      IsBounded cache_max after × All (λ fee. fee ≤ 20_000_000) fees
unfolding fee_run
run-IsBounded cache_ms cache_max [] cache m h = (h, tt)
run-IsBounded cache_ms cache_max (asked now key ∷ es) cache m h =
    let (after, fees) = run-IsBounded cache_ms cache_max es cache m h in
    (
      after,
      add_fee-bound (cached_fee now key cache) (fee_run cache_ms cache_max es cache).1
          (cached_fee-bound now key cache h.1) fees,
    )
run-IsBounded cache_ms cache_max (answered now q raw ∷ es) cache m h =
    let (kept, fee) = fee_answered-IsBounded now cache_ms cache_max q raw cache m h in
    let (after, fees) =
      run-IsBounded cache_ms cache_max es (fee_answered now cache_ms cache_max q raw cache).0 m
        kept in
    (after, (fee, fees))

-- However calls and answers follow each other, and whatever the provider and the settings say: no fee
-- is above 20,000,000 micro-lamports, and the cache holds at most its maximum of entries, which is
-- positive.
pub fees_are_bounded :
    (cache_ms cache_max : ℕ) (es : List FeeEvent)
    → 0 < cache_max
    → let (after, fees) = fee_run cache_ms cache_max es [] in
      (length after ≤ cache_max) × All (λ fee. fee ≤ 20_000_000) fees
fees_are_bounded cache_ms cache_max es m =
    let (bounded, fees) = run-IsBounded cache_ms cache_max es [] m (omega arith, tt) in
    (bounded.0, fees)
