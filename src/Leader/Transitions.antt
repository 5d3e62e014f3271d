-- ===== src/Leader/Transitions.antt =====
-- src/lib/leader.ts: what a handler does to the role and the lease timer of its node.
use percolator_keeper.Prelude.{
  ℕ, ◌+◌, ◌-◌, ◌≡◌, ◌≢◌, refl, ◌⊎◌, inl, inr, true, false, some, arith, Bool-cases,
}
use percolator_keeper.Leader.{
  is_leader, is_standby, is_local, Timing, leader, Node, acquire, look, claim, renew, Answer,
  granted, denied, free, held, odd, failed, Event, react, started, renew_fires, poll_fires,
  lease_fires, answered, arm_lease_watchdog, schedule_renew, schedule_poll, clear_timers, promote,
  enter_standby, demote, start, acquire_answered, renew_due, strike, renew_answered, poll_due,
  poll_failed, look_answered, claim_answered, lease_due,
}

-- The answers that give the lease.
pub data IsGrant : Event → ℕ → Type 0 where
  acquired : (issued : ℕ) → IsGrant (answered acquire issued granted) issued
  claimed : (issued : ℕ) → IsGrant (answered claim issued granted) issued
  renewed : (issued : ℕ) → IsGrant (answered renew issued granted) issued

-- The lease that a leader believes in is the one it had, or was just granted.
abbrev pub KeepsLease : Timing → ℕ → Event → Node → Node → Type 0
KeepsLease t now e n n' =
    ((n.role ≡ leader) × (n'.lease_timer ≡ n.lease_timer))
    ⊎ ((issued : ℕ) × IsGrant e issued
        × (n.stopped ≡ false)
        × (n'.lease_timer ≡ some (now + (t.ttl_ms - (now - issued)))))

acquire_answered-KeepsLease :
    (t : Timing) (now issued : ℕ) (o : Answer) (n : Node)
    → (acquire_answered t now issued o n).0.role ≡ leader
    → KeepsLease t now (answered acquire issued o) n (acquire_answered t now issued o n).0
unfolding acquire_answered promote arm_lease_watchdog schedule_renew enter_standby schedule_poll
acquire_answered-KeepsLease t now issued granted n h = elim (Bool-cases n.stopped) [
  | inl e ↦ inl (ground arith)
  | inr e ↦ inr (issued, acquired issued, e, ground arith)
]
acquire_answered-KeepsLease t now issued denied n h = inl (ground arith)
acquire_answered-KeepsLease t now issued free n h = inl (ground arith)
acquire_answered-KeepsLease t now issued held n h = inl (ground arith)
acquire_answered-KeepsLease t now issued odd n h = inl (ground arith)
acquire_answered-KeepsLease t now issued failed n h = inl (ground arith)

claim_answered-KeepsLease :
    (t : Timing) (now issued : ℕ) (o : Answer) (n : Node)
    → (claim_answered t now issued o n).0.role ≡ leader
    → KeepsLease t now (answered claim issued o) n (claim_answered t now issued o n).0
unfolding claim_answered promote arm_lease_watchdog schedule_renew schedule_poll poll_failed
claim_answered-KeepsLease t now issued granted n h = elim (Bool-cases n.stopped) [
  | inl e ↦ inl (ground arith)
  | inr e ↦ elim (Bool-cases (is_standby n.role)) [
    | inl s ↦ inr (issued, claimed issued, e, ground arith)
    | inr s ↦ inl (ground arith)
  ]
]
claim_answered-KeepsLease t now issued denied n h = inl (ground arith)
claim_answered-KeepsLease t now issued free n h = inl (ground arith)
claim_answered-KeepsLease t now issued held n h = inl (ground arith)
claim_answered-KeepsLease t now issued odd n h = inl (ground arith)
claim_answered-KeepsLease t now issued failed n h = inl (ground arith)

renew_answered-KeepsLease :
    (t : Timing) (now issued : ℕ) (o : Answer) (n : Node)
    → (renew_answered t now issued o n).0.role ≡ leader
    → KeepsLease t now (answered renew issued o) n (renew_answered t now issued o n).0
unfolding renew_answered arm_lease_watchdog schedule_renew schedule_poll strike demote clear_timers
renew_answered-KeepsLease t now issued granted n h = elim (Bool-cases n.stopped) [
  | inl e ↦ inl (ground arith)
  | inr e ↦ elim (Bool-cases (is_leader n.role)) [
    | inl s ↦ inr (issued, renewed issued, e, ground arith)
    | inr s ↦ inl (ground arith)
  ]
]
renew_answered-KeepsLease t now issued denied n h = inl (ground arith)
renew_answered-KeepsLease t now issued free n h = inl (ground arith)
renew_answered-KeepsLease t now issued held n h = inl (ground arith)
renew_answered-KeepsLease t now issued odd n h = inl (ground arith)
renew_answered-KeepsLease t now issued failed n h = inl (ground arith)

look_answered-KeepsLease :
    (t : Timing) (now : ℕ) (o : Answer) (n : Node)
    → (look_answered t now o n).0.role ≡ leader
    → (n.role ≡ leader) × ((look_answered t now o n).0.lease_timer ≡ n.lease_timer)
unfolding look_answered schedule_poll poll_failed
look_answered-KeepsLease t now o n h = ground arith

lease_due-IsFollower :
    (t : Timing) (now : ℕ) (n : Node) → n.stopped ≡ false → (lease_due t now n).0.role ≢ leader
unfolding lease_due demote clear_timers schedule_poll
lease_due-IsFollower t now n e h = ground arith

-- A node that leads after an event led before it with the same lease timer, or the event
-- grants the lease and the timer is set from the time of the request.
pub react-KeepsLease :
    (t : Timing) (now : ℕ) (e : Event) (n : Node)
    → (is_local e ≡ true → n.stopped ≡ false)
    → (react t now e n).0.role ≡ leader
    → KeepsLease t now e n (react t now e n).0
unfolding react start renew_due poll_due
react-KeepsLease t now started n r h = inl (ground arith)
react-KeepsLease t now renew_fires n r h = inl (ground arith)
react-KeepsLease t now poll_fires n r h = inl (ground arith)
react-KeepsLease t now lease_fires n r h = absurd (lease_due-IsFollower t now n (r refl) h)
react-KeepsLease t now (answered acquire i o) n r h = acquire_answered-KeepsLease t now i o n h
react-KeepsLease t now (answered look i o) n r h = inl (look_answered-KeepsLease t now o n h)
react-KeepsLease t now (answered claim i o) n r h = claim_answered-KeepsLease t now i o n h
react-KeepsLease t now (answered renew i o) n r h = renew_answered-KeepsLease t now i o n h

pub react-stopped :
    (t : Timing) (now : ℕ) (e : Event) (n : Node)
    → (is_local e ≡ true → n.stopped ≡ false)
    → (react t now e n).0.stopped ≡ n.stopped
unfolding react start renew_due poll_due lease_due acquire_answered claim_answered look_answered
    renew_answered promote enter_standby arm_lease_watchdog schedule_renew schedule_poll poll_failed
    strike demote clear_timers
react-stopped t now started n r = ground (arith, r refl)
react-stopped t now renew_fires n r = ground arith
react-stopped t now poll_fires n r = ground arith
react-stopped t now lease_fires n r = ground arith
react-stopped t now (answered acquire i o) n r = ground arith
react-stopped t now (answered look i o) n r = ground arith
react-stopped t now (answered claim i o) n r = ground arith
react-stopped t now (answered renew i o) n r = ground arith
