-- ===== src/Leader.antt =====
-- src/lib/leader.ts: the handlers of one node of the leader lock. A handler takes the time and the node
-- and returns the node with the Redis request it awaits next, if any. A timer field is the due time of
-- the timer that its handle names. Logging and the two callbacks are left out.
pub mod Options
pub mod Server
pub mod Cluster
pub mod Leases
pub mod Fence
pub mod Recovery
pub mod Handling
pub mod Exclusion
pub mod Transitions
use percolator_keeper.Prelude.{
  ℕ, ◌+◌, ◌-◌, max, Bool, true, false, not, Option, none, some, leb, ltb, ◌||◌, if◌then◌else◌,
}

pub data Role : Type 0 where
  leader standby starting : Role

pub record Timing : Type 0 where
  pub ttl_ms : ℕ
  pub renew_ms : ℕ
  pub poll_ms : ℕ
  pub renew_timeout_ms : ℕ

pub record Node : Type 0 where
  pub role : Role
  pub renew_timer : Option ℕ
  pub poll_timer : Option ℕ
  pub lease_timer : Option ℕ
  pub renew_failures : ℕ
  pub has_opts : Bool
  pub stopped : Bool

abbrev pub new_node : Node
new_node = record {
  role = starting;
  renew_timer = none;
  poll_timer = none;
  lease_timer = none;
  renew_failures = 0;
  has_opts = false;
  stopped = false;
}

-- The four requests that a node awaits: the SET of `_tryAcquire`, the GET and the SET of `_poll`, and
-- the EVAL of `_renew`.
pub data Kind : Type 0 where
  acquire look claim renew : Kind

-- `granted` is "OK" or 1, `denied` is null or 0, `free` and `held` answer a GET, `odd` is any other
-- value and `failed` a throw, the renewal's timeout included.
pub data Answer : Type 0 where
  granted denied free held odd failed : Answer

abbrev pub is_leader : Role → Bool
is_leader leader = true
is_leader _ = false

abbrev pub is_standby : Role → Bool
is_standby standby = true
is_standby _ = false

unfoldable pub schedule_renew : Timing → ℕ → Node → Node
schedule_renew t now n = record n { renew_timer = some (now + t.renew_ms) }

unfoldable pub schedule_poll : Timing → ℕ → Node → Node
schedule_poll t now n = record n { poll_timer = some (now + t.poll_ms) }

unfoldable pub clear_timers : Node → Node
clear_timers n = record n { renew_timer = none; poll_timer = none; lease_timer = none }

-- Due `max(0, ttl - (now - issued))` from now; a request is issued before it is answered.
unfoldable pub arm_lease_watchdog : Timing → ℕ → ℕ → Node → Node
arm_lease_watchdog t now issued n = record n {
  lease_timer = some (now + (t.ttl_ms - (now - issued)));
}

unfoldable pub promote : Timing → ℕ → ℕ → Node → Node
unfolding arm_lease_watchdog schedule_renew
promote t now issued n =
    if n.stopped
    then n
    else schedule_renew t now
        (arm_lease_watchdog t now issued (record n { role = leader; renew_failures = 0 }))

unfoldable pub enter_standby : Timing → ℕ → Node → Node
unfolding schedule_poll
enter_standby t now n = if n.stopped then n else schedule_poll t now (record n { role = standby })

unfoldable pub demote : Timing → ℕ → Node → Node
unfolding clear_timers schedule_poll
demote t now n =
    if not (is_leader n.role)
    then n
    else if n.has_opts
    then schedule_poll t now (clear_timers (record n { role = standby }))
    else clear_timers (record n { role = standby })

unfoldable pub start : Node → Node × Option Kind
start n = (record n { has_opts = true; stopped = false }, some acquire)

unfoldable pub acquire_answered : Timing → ℕ → ℕ → Answer → Node → Node × Option Kind
unfolding promote enter_standby
acquire_answered t now issued granted n = (promote t now issued n, none)
acquire_answered t now issued _ n = (enter_standby t now n, none)

-- The timer of `_scheduleRenew` has fired.
unfoldable pub renew_due : Node → Node × Option Kind
renew_due n =
    let fired = record n { renew_timer = none } in
    if n.stopped || not (is_leader n.role) then (fired, none) else (fired, some renew)

-- The strike of a failed renewal.
unfoldable pub strike : Timing → ℕ → Node → Node
unfolding demote schedule_renew
strike t now n =
    let struck = record n { renew_failures = n.renew_failures + 1 } in
    if leb 2 struck.renew_failures then demote t now struck else schedule_renew t now struck

unfoldable pub renew_answered : Timing → ℕ → ℕ → Answer → Node → Node × Option Kind
unfolding arm_lease_watchdog schedule_renew demote strike
renew_answered t now issued answer n =
    if n.stopped || not (is_leader n.role) then (n, none) else elim answer [
      | granted ↦ (
        schedule_renew t now (arm_lease_watchdog t now issued (record n { renew_failures = 0 })),
        none,
      )
      | denied ↦ (demote t now n, none)
      | _ ↦ (strike t now n, none)
    ]

-- The timer of `_schedulePoll` has fired.
unfoldable pub poll_due : Node → Node × Option Kind
poll_due n =
    let fired = record n { poll_timer = none } in
    if n.stopped || not (is_standby n.role) then (fired, none) else (fired, some look)

-- The catch block of `_poll`.
unfoldable pub poll_failed : Timing → ℕ → Node → Node
unfolding schedule_poll
poll_failed t now n = if n.stopped then n else schedule_poll t now n

unfoldable pub look_answered : Timing → ℕ → Answer → Node → Node × Option Kind
unfolding schedule_poll poll_failed
look_answered t now failed n = (poll_failed t now n, none)
look_answered t now free n =
    if n.stopped || not (is_standby n.role) then (n, none) else (n, some claim)
look_answered t now _ n =
    if n.stopped || not (is_standby n.role) then (n, none) else (schedule_poll t now n, none)

unfoldable pub claim_answered : Timing → ℕ → ℕ → Answer → Node → Node × Option Kind
unfolding schedule_poll poll_failed promote
claim_answered t now issued failed n = (poll_failed t now n, none)
claim_answered t now issued granted n =
    if n.stopped || not (is_standby n.role) then (n, none) else (promote t now issued n, none)
claim_answered t now issued _ n =
    if n.stopped || not (is_standby n.role) then (n, none) else (schedule_poll t now n, none)

unfoldable pub lease_due : Timing → ℕ → Node → Node × Option Kind
unfolding demote
lease_due t now n =
    let fired = record n { lease_timer = none } in
    if n.stopped || not (is_leader n.role) then (fired, none) else (demote t now fired, none)

-- What reaches a node: a call of start, a timer, or the answer to a request issued at a time.
pub data Event : Type 0 where
  started : Event
  renew_fires : Event
  poll_fires : Event
  lease_fires : Event
  answered : Kind → ℕ → Answer → Event

abbrev pub is_local : Event → Bool
is_local (answered _ _ _) = false
is_local _ = true

unfoldable pub react : Timing → ℕ → Event → Node → Node × Option Kind
unfolding start renew_due poll_due lease_due acquire_answered look_answered claim_answered
    renew_answered
react t now started n = start n
react t now renew_fires n = renew_due n
react t now poll_fires n = poll_due n
react t now lease_fires n = lease_due t now n
react t now (answered acquire issued o) n = acquire_answered t now issued o n
react t now (answered look issued o) n = look_answered t now o n
react t now (answered claim issued o) n = claim_answered t now issued o n
react t now (answered renew issued o) n = renew_answered t now issued o n

-- `stop` up to its await, and after it. It sends a DEL between the two where the role is leader.
unfoldable pub begin_stop : Node → Node
unfolding clear_timers
begin_stop n = clear_timers (record n { stopped = true })

unfoldable pub stop : Node → Node
unfolding begin_stop
stop n = record (begin_stop n) { role = standby }
