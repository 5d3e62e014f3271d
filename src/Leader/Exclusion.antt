-- ===== src/Leader/Exclusion.antt =====
-- src/lib/leader.ts: at most one node of a cluster leads.
use percolator_keeper.Prelude.{ℕ, ◌+◌, ◌≤◌, ◌≡◌, refl, true, false, some, arith}
use percolator_keeper.Leader.{Timing, leader, failed, Event, is_local, answered}
use percolator_keeper.Leader.Server.{Redis, execute}
use percolator_keeper.Leader.Leases.{execute-Keeps}
use percolator_keeper.Leader.Cluster.{
  World, serve_late, Step, pass, occur, serve_call, serve_lost, reply, lose, halt_leader,
  halt_other, Run, here, there, boot,
}
use percolator_keeper.Leader.Transitions.{IsGrant, acquired, claimed, renewed}
use percolator_keeper.Leader.Fence.{IsFenced, IsFenced-boot, IsFenced-pass, IsFenced-key}
use percolator_keeper.Leader.Handling.{
  handle-IsFenced, serve-IsFenced, reply-Granted, same_owner, halt_node-unsent, halt_node-sent,
  answer_of_grant,
}

local_not_granted : (e : Event) (issued : ℕ) → is_local e ≡ true → ¬ IsGrant e issued
local_not_granted e x l (acquired y) = ground (arith, l)
local_not_granted e x l (claimed y) = ground (arith, l)
local_not_granted e x l (renewed y) = ground (arith, l)

Step-IsFenced :
    (r : Redis) (t : Timing) (a b : World r)
    → t.renew_timeout_ms ≤ t.ttl_ms
    → Step r t a b
    → IsFenced r t a
    → IsFenced r t b
unfolding serve_late
Step-IsFenced r t a b h (pass w later le due) f = IsFenced-pass r t w later le due f
Step-IsFenced r t a b h (occur w k i e fresh l s) f =
    handle-IsFenced r t w k i e (λ q. s) (λ x g. absurd (local_not_granted e x l g)) f
Step-IsFenced r t a b h (serve_call w k c q u) f = serve-IsFenced r t w k c q f
Step-IsFenced r t a b h (serve_lost w i kind) f =
    IsFenced-key r t w (execute r t w.now i kind w.key).0 (execute-Keeps r t w.now i kind w.key) f
Step-IsFenced r t a b h (reply w k c o q u timely) f =
    handle-IsFenced r t w k c.node (answered c.kind c.issued o) (λ q. absurd (ground (arith, q)))
      (reply-Granted r t w k c o h q u timely f) f
Step-IsFenced r t a b h (lose w k c q) f =
    handle-IsFenced r t w k c.node (answered c.kind c.issued failed)
      (λ q. absurd (ground (arith, q)))
      (λ x g. absurd (ground (arith, (answer_of_grant _ x g c.kind c.issued failed refl).1))) f
Step-IsFenced r t a b h (halt_leader w i true lead) f = halt_node-sent r t w i lead f
Step-IsFenced r t a b h (halt_leader w i false lead) f = halt_node-unsent r t w i f
Step-IsFenced r t a b h (halt_other w i follows) f = halt_node-unsent r t w i f

Run-IsFenced :
    (r : Redis) (t : Timing) (a b : World r)
    → t.renew_timeout_ms ≤ t.ttl_ms
    → Run r t a b
    → IsFenced r t a
    → IsFenced r t b
Run-IsFenced r t a b h (here w) f = f
Run-IsFenced r t a b h (there x y z s run) f =
    Run-IsFenced r t y z h run (Step-IsFenced r t x y h s f)

-- After any sequence of steps of any number of nodes from the boot, two nodes whose role is leader are
-- one node. The renewal's timeout is within the time to live, and the steps are those of `Step`: a
-- watchdog fires when it is due, an acquisition is answered within the time to live or fails, a DEL
-- runs at once, and no node starts again after a stop.
pub mutual_exclusion :
    (r : Redis) (t : Timing) (start : ℕ) (key : r.Store) (w : World r)
    → t.renew_timeout_ms ≤ t.ttl_ms
    → Run r t (boot r start key) w
    → (i j : ℕ) → (w.nodes i).role ≡ leader
    → (w.nodes j).role ≡ leader
    → i ≡ j
mutual_exclusion r t start key w h run i j a b =
    let f = Run-IsFenced r t (boot r start key) w h run (IsFenced-boot r t start key) in
    let (d, timer, le, _, own) = f.leads i a in
    let (d', timer', le', _, own') = f.leads j b in
    same_owner r w.key w.now i j d d' le le' own own'

-- After any sequence of steps from the boot, with the renewal's timeout within the time to live and
-- under the hypotheses that `Step` names, a node whose role is leader has a watchdog that is due
-- within the time to live, and a GET at that due time, with the key as it is, still answers the node.
pub leader_owns_key :
    (r : Redis) (t : Timing) (start : ℕ) (key : r.Store) (w : World r)
    → t.renew_timeout_ms ≤ t.ttl_ms
    → Run r t (boot r start key) w
    → (i : ℕ) → (w.nodes i).role ≡ leader
    → (d : ℕ) × ((w.nodes i).lease_timer ≡ some d)
      × (d ≤ w.now + t.ttl_ms)
      × (r.get_key d w.key ≡ some i)
leader_owns_key r t start key w h run i a =
    let f = Run-IsFenced r t (boot r start key) w h run (IsFenced-boot r t start key) in
    let (d, timer, le, due, own) = f.leads i a in
    (d, timer, due, r.get_owned w.key i d d (omega arith) own)
