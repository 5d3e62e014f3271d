-- ===== src/Leader/Options.antt =====
-- src/lib/leader.ts: the checks and defaults of the constructor.
use percolator_keeper.Prelude.{
  ℕ, ◌≤◌, ◌<◌, ◌≡◌, ◌↔◌, min, pos, pos_part, ltb_ℤ, Num, finite, Bool, true, false, not, ◌||◌,
  Option, none, some, arith, ltb, if◌then◌else◌,
}
use percolator_keeper.Leader.{Timing}

-- `!Number.isFinite(value) || value <= 0`
unfoldable pub is_bad : Num → Bool
is_bad (finite v) = not (ltb_ℤ (pos 0) v)
is_bad _ = true

unfoldable pub millis : Num → ℕ
millis (finite v) = pos_part v
millis _ = 0

-- Whether `validateTiming` returns; else it throws.
unfoldable pub validate_timing : Num → Num → Num → Bool
unfolding is_bad millis
validate_timing ttl renew poll =
    if is_bad ttl || is_bad renew || is_bad poll then false else ltb (millis renew) (millis ttl)

-- The options that are set; the others have their defaults. `none` is the throw.
unfoldable pub or_else {ℓ} : {A : Type ℓ} → Option A → A → A
or_else none d = d
or_else (some a) d = a

unfoldable pub new_timing : Option Num → Option Num → Option Num → Option ℕ → Option Timing
unfolding validate_timing or_else
new_timing ttl renew poll renew_timeout =
    let ttl_ms = or_else ttl (finite (pos 30_000)) in
    let renew_ms = or_else renew (finite (pos 10_000)) in
    let poll_ms = or_else poll (finite (pos 5_000)) in
    if validate_timing ttl_ms renew_ms poll_ms
    then some (record {
      ttl_ms = millis ttl_ms;
      renew_ms = millis renew_ms;
      poll_ms = millis poll_ms;
      renew_timeout_ms = or_else renew_timeout (min (millis renew_ms) 5_000);
    })
    else none

-- The timings pass exactly if all three are finite and above 0 and the renewal is before the expiry.
pub validate_timing_iff :
    (ttl renew poll : Num)
    → (validate_timing ttl renew poll ≡ true) ↔ (
        (is_bad ttl ≡ false)
        × (is_bad renew ≡ false)
        × (is_bad poll ≡ false)
        × (millis renew < millis ttl))
unfolding validate_timing
validate_timing_iff ttl renew poll = ground arith

-- A lock that is built without its own bound on a renewal renews before the lease expires, gives up
-- a renewal before that time too, and polls with a period above 0.
pub built_timing_ordered :
    (ttl renew poll : Option Num) (t : Timing)
    → new_timing ttl renew poll none ≡ some t
    → (0 < t.renew_ms)
      × (t.renew_ms < t.ttl_ms)
      × (t.renew_timeout_ms ≤ t.renew_ms)
      × (0 < t.poll_ms)
unfolding new_timing validate_timing is_bad millis or_else
built_timing_ordered ttl renew poll t h = ground arith
