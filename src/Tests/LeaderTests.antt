-- ===== src/Tests/LeaderTests.antt =====
-- The leader lock at concrete inputs: one key in memory, and a node that acquires it.
use percolator_keeper.Prelude.{
  ℕ, ◌+◌, ◌≤◌, ◌≡◌, refl, sym, subst, ◌≢◌, Bool, true, false, Option, none, some, arith, leb,
  if◌then◌else◌,
}
use percolator_keeper.Leader.{
  Timing, leader, Node, acquire, granted, started, answered, lease_fires, react, new_node,
}
use percolator_keeper.Leader.Options.{new_timing}
use percolator_keeper.Leader.Server.{Redis, Request}
use percolator_keeper.Leader.Cluster.{
  World, handle, serve, occur, serve_call, reply, Run, here, there, boot,
}
use percolator_keeper.Leader.Exclusion.{mutual_exclusion, leader_owns_key}

-- An owner and the last time at which the key exists.
abbrev key_at : ℕ → Option (ℕ × ℕ) → Option ℕ
key_at now none = none
key_at now (some (owner, expires)) = if leb now expires then some owner else none

abbrev OwnedUntil : Option (ℕ × ℕ) → ℕ → ℕ → Type 0
OwnedUntil none i t = 1 ≤ 0
OwnedUntil (some (owner, expires)) i t = (owner ≡ i) × (t ≤ expires)

abbrev set_if_free : ℕ → ℕ → ℕ → Option (ℕ × ℕ) → Option (ℕ × ℕ) × Bool
set_if_free now i ms s = elim (key_at now s) [
  | none ↦ (some (i, now + ms), true)
  | some j ↦ (s, false)
]

abbrev extend : ℕ → ℕ → Option (ℕ × ℕ) → Option (ℕ × ℕ)
extend now ms none = none
extend now ms (some (owner, expires)) = some (owner, now + ms)

owned_earlier_lem : (s : Option (ℕ × ℕ)) (i t u : ℕ) → t ≤ u → OwnedUntil s i u → OwnedUntil s i t
owned_earlier_lem none i t u h o = o
owned_earlier_lem (some (owner, expires)) i t u h (p, q) = (p, omega arith)

get_owned_lem :
    (s : Option (ℕ × ℕ)) (i now t : ℕ) → now ≤ t → OwnedUntil s i t → key_at now s ≡ some i
get_owned_lem none i now t h o = absurd (omega arith)
get_owned_lem (some (owner, expires)) i now t h (p, q) = ground arith

set_taken_lem :
    (s : Option (ℕ × ℕ)) (i j now ms : ℕ)
    → key_at now s ≡ some j
    → set_if_free now i ms s ≡ (s, false)
set_taken_lem s i j now ms h = ground arith

set_free_lem :
    (s : Option (ℕ × ℕ)) (i now ms : ℕ)
    → key_at now s ≡ none
    → (set_if_free now i ms s).0 ≡ some (i, now + ms)
set_free_lem s i now ms h = ground arith

pexpire_owned_lem :
    (s : Option (ℕ × ℕ)) (i now ms : ℕ)
    → key_at now s ≡ some i
    → OwnedUntil (extend now ms s) i (now + ms)
pexpire_owned_lem none i now ms h = absurd (ground (arith, h))
pexpire_owned_lem (some (owner, expires)) i now ms h = (ground (arith, h), omega arith)

abbrev memory : Redis
memory = record {
  Store = Option (ℕ × ℕ);
  get_key = key_at;
  set_nx = set_if_free;
  pexpire = extend;
  del = λ s. none;
  Owned = OwnedUntil;
  owned_earlier = owned_earlier_lem;
  get_owned = get_owned_lem;
  set_taken = set_taken_lem;
  set_free = λ s i now ms h.
      subst (λ s'. OwnedUntil s' i (now + ms)) (sym (set_free_lem s i now ms h))
        (refl, omega arith);
  pexpire_owned = pexpire_owned_lem;
}

abbrev timing : Timing
timing = record { ttl_ms = 30_000; renew_ms = 10_000; poll_ms = 5_000; renew_timeout_ms = 5_000 }

abbrev asked : Request
asked = record { node = 0; kind = acquire; issued = 7; answer = none }

abbrev won : Request
won = record { node = 0; kind = acquire; issued = 7; answer = some granted }

abbrev booted : World memory
booted = boot memory 7 none

abbrev begun : World memory
begun = handle memory timing booted 0 0 started

abbrev served : World memory
served = serve memory timing begun 0 asked

abbrev led : World memory
led = handle memory timing served 0 0 (answered acquire 7 granted)

acquisition : Run memory timing booted led
unfolding handle serve
acquisition = there booted begun led (occur booted 0 0 started refl refl refl) (
    there begun served led (serve_call begun 0 asked refl refl)
      (there served led led (reply served 0 won granted refl refl (omega arith)) (here led)))

node_0_leads : (led.nodes 0).role ≡ leader
unfolding handle serve
node_0_leads = refl

abbrev node_0 : ℕ
node_0 = 0

mutual_exclusion_example : node_0 ≡ node_0
mutual_exclusion_example =
    mutual_exclusion memory timing 7 none led (omega arith) acquisition 0 0 node_0_leads
      node_0_leads

leader_owns_key_example :
    (d : ℕ) × ((led.nodes 0).lease_timer ≡ some d)
    × (d ≤ led.now + 30_000)
    × (key_at d led.key ≡ some 0)
leader_owns_key_example =
    leader_owns_key memory timing 7 none led (omega arith) acquisition 0 node_0_leads

abbrev leading : Node
leading = record new_node { role = leader; has_opts = true; lease_timer = some 30_007 }

lease_fires_demotes : (react timing 30_007 lease_fires leading).0.role ≢ leader
unfolding react
lease_fires_demotes h = ground (arith, h)

late_answer : answered acquire 7 granted ≢ started
late_answer h = ground (arith, h)

default_timing : new_timing none none none none ≡ some timing
unfolding new_timing
default_timing = refl
