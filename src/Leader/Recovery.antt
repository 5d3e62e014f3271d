-- ===== src/Leader/Recovery.antt =====
-- src/lib/leader.ts: what a node does once it has lost the lease or was stopped.
use percolator_keeper.Prelude.{
  ℕ, ◌+◌, ◌≡◌, ◌≢◌, refl, ◌↔◌, Bool, true, false, Option, none, some, arith,
}
use percolator_keeper.Leader.{
  Timing, leader, standby, Node, Kind, acquire, look, claim, renew, denied, failed, Event, react,
  stop, started, renew_fires, poll_fires, lease_fires, answered, arm_lease_watchdog, schedule_renew,
  schedule_poll, clear_timers, promote, enter_standby, demote, start, acquire_answered, renew_due,
  strike, renew_answered, poll_due, poll_failed, look_answered, claim_answered, lease_due,
  begin_stop,
}

-- Back in the election: a standby with a poll to come and no other timer.
abbrev pub Rejoined : Timing → ℕ → Node × Option Kind → Type 0
Rejoined t now (n, request) =
    (n.role ≡ standby)
    × (n.poll_timer ≡ some (now + t.poll_ms))
    × (n.lease_timer ≡ none)
    × (n.renew_timer ≡ none)

-- `_tryAcquire` awaits its answer on a node that starts.
abbrev pub is_acquire : Event → Bool
is_acquire (answered acquire _ _) = true
is_acquire _ = false

-- A started leader that an event demotes becomes a standby whose next poll is armed and whose other
-- timers are cleared. The event is not the answer to an acquisition, which a leader does not await.
pub demoted_rejoins :
    (t : Timing) (now : ℕ) (e : Event) (n : Node)
    → n.role ≡ leader
    → n.has_opts ≡ true
    → is_acquire e ≡ false
    → (react t now e n).0.role ≢ leader
    → Rejoined t now (react t now e n)
unfolding react start renew_due poll_due lease_due claim_answered look_answered renew_answered
    promote schedule_renew schedule_poll poll_failed strike demote clear_timers arm_lease_watchdog
demoted_rejoins t now started n l o a d = ground arith
demoted_rejoins t now renew_fires n l o a d = ground arith
demoted_rejoins t now poll_fires n l o a d = ground arith
demoted_rejoins t now lease_fires n l o a d = ground arith
demoted_rejoins t now (answered acquire i x) n l o a d = ground arith
demoted_rejoins t now (answered look i x) n l o a d = ground arith
demoted_rejoins t now (answered claim i x) n l o a d = ground arith
demoted_rejoins t now (answered renew i x) n l o a d = ground arith

-- A node that was stopped ignores every timer and every answer, however late: its state stays the one
-- that the stop left, and it sends no request. Only a new start is left out.
pub stopped_stays_out :
    (t : Timing) (now : ℕ) (e : Event) (n : Node)
    → e ≢ started
    → react t now e (stop n) ≡ (stop n, none)
unfolding react stop begin_stop start renew_due poll_due lease_due claim_answered look_answered
    renew_answered promote schedule_renew schedule_poll poll_failed strike demote clear_timers
    arm_lease_watchdog acquire_answered enter_standby
stopped_stays_out t now started n s = absurd (s refl)
stopped_stays_out t now renew_fires n s = ground arith
stopped_stays_out t now poll_fires n s = ground arith
stopped_stays_out t now lease_fires n s = ground arith
stopped_stays_out t now (answered acquire i o) n s = ground arith
stopped_stays_out t now (answered look i o) n s = ground arith
stopped_stays_out t now (answered claim i o) n s = ground arith
stopped_stays_out t now (answered renew i o) n s = ground arith

-- Of a leader that handles the end of a renewal: a lost lease demotes at once, and a failure demotes
-- exactly if it is the second in a row; the first keeps the role and schedules the next renewal.
pub second_strike_demotes :
    (t : Timing) (now issued : ℕ) (n : Node)
    → n.role ≡ leader
    → n.stopped ≡ false
    → ((renew_answered t now issued denied n).0.role ≡ standby)
      × (((renew_answered t now issued failed n).0.role ≡ leader) ↔ (n.renew_failures ≡ 0))
      × (n.renew_failures ≡ 0
          → (renew_answered t now issued failed n).0.renew_timer ≡ some (now + t.renew_ms))
unfolding renew_answered strike demote clear_timers schedule_poll schedule_renew
second_strike_demotes t now issued n l s = ground arith
