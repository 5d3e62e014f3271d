-- ===== src/Leader/Handling.antt =====
-- src/lib/leader.ts: each step of the cluster keeps the invariant.
use percolator_keeper.Prelude.{
  ℕ, ◌+◌, ◌≤◌, ◌≡◌, ◌≢◌, refl, sym, ap, ◌∙◌, subst, inl, inr, true, false, Option, none, some,
  arith,
}
use percolator_keeper.Leader.{
  Timing, leader, Node, Kind, Answer, granted, Event, is_local, react, stop, answered, begin_stop,
  clear_timers,
}
use percolator_keeper.Leader.Server.{Redis, Request, execute}
use percolator_keeper.Leader.Leases.{execute-grants, execute-Keeps}
use percolator_keeper.Leader.Cluster.{World, put, request_of, handle, serve, halt_node, time_limit}
use percolator_keeper.Leader.Transitions.{
  IsGrant, acquired, claimed, renewed, react-KeepsLease, react-stopped,
}
use percolator_keeper.Leader.Fence.{
  put-cases, Leads, Promised-some, IsFenced, IsFenced-key, IsFenced-call, IsFenced-node,
}

fresh_request :
    (now i : ℕ) (o : Option Kind) (c : Request)
    → request_of now i o ≡ some c
    → (c.issued ≡ now) × (c.answer ≡ none)
fresh_request now i o c h = ground arith

-- What a node must know when it handles a grant.
abbrev pub Granted : (r : Redis) → Timing → World r → ℕ → Event → Type 0
Granted r t w i e =
    (issued : ℕ)
    → IsGrant e issued
    → (w.nodes i).stopped ≡ false
    → (issued ≤ w.now) × (w.now ≤ issued + t.ttl_ms) × r.Owned w.key i (issued + t.ttl_ms)

handle-Leads :
    (r : Redis) (t : Timing) (w : World r) (i : ℕ) (e : Event)
    → (is_local e ≡ true → (w.nodes i).stopped ≡ false)
    → Granted r t w i e
    → IsFenced r t w
    → Leads r t w.now w.key i (react t w.now e (w.nodes i)).0
handle-Leads r t w i e l grant f h = elim (react-KeepsLease t w.now e (w.nodes i) l h) [
  | inl (led, same) ↦ let (d, timer, a, b, o) = f.leads i led in (d, same ∙ timer, a, b, o)
  | inr (issued, g, s, timer) ↦
      let (a, b, o) = grant issued g s in
      (issued + t.ttl_ms, timer ∙ ap some (omega arith), b, omega arith, o)
]

pub handle-IsFenced :
    (r : Redis) (t : Timing) (w : World r) (k i : ℕ) (e : Event)
    → (is_local e ≡ true → (w.nodes i).stopped ≡ false)
    → Granted r t w i e
    → IsFenced r t w
    → IsFenced r t (handle r t w k i e)
unfolding handle
handle-IsFenced r t w k i e l grant f =
    let n = (react t w.now e (w.nodes i)).0 in
    IsFenced-call r t (record w { nodes = put w.nodes i n }) k
      (request_of w.now i (react t w.now e (w.nodes i)).1)
      (λ c q.
        let (issued, unanswered) = fresh_request w.now i _ c q in
        (omega arith, λ g s timely. absurd (ground (arith, g, unanswered))))
      (IsFenced-node r t w i n (λ s. react-stopped t w.now e (w.nodes i) l ∙ s)
        (handle-Leads r t w i e l grant f) f)

pub serve-IsFenced :
    (r : Redis) (t : Timing) (w : World r) (k : ℕ) (c : Request)
    → w.calls k ≡ some c
    → IsFenced r t w
    → IsFenced r t (serve r t w k c)
unfolding serve
serve-IsFenced r t w k c q f =
    let result = execute r t w.now c.node c.kind w.key in
    let sent = (f.promised k c q).0 in
    IsFenced-call r t (record w { key = result.0 }) k (some (record c { answer = some result.1 }))
      (Promised-some r t w.now result.0 w.nodes (record c { answer = some result.1 })
        (
          sent,
          λ g s timely.
              r.owned_earlier _ c.node _ _ (omega arith)
                (execute-grants r t w.now c.node c.kind w.key (ground (arith, g))),
        ))
      (IsFenced-key r t w result.0 (execute-Keeps r t w.now c.node c.kind w.key) f)

pub answer_of_grant :
    (e : Event) (issued : ℕ)
    → IsGrant e issued
    → (kind : Kind) (i : ℕ) (o : Answer) → e ≡ answered kind i o
    → (issued ≡ i) × (o ≡ granted)
answer_of_grant e x (acquired y) kind i o q = ground arith
answer_of_grant e x (claimed y) kind i o q = ground arith
answer_of_grant e x (renewed y) kind i o q = ground arith

time_limit-le :
    (t : Timing) (kind : Kind) → t.renew_timeout_ms ≤ t.ttl_ms → time_limit t kind ≤ t.ttl_ms
time_limit-le t kind h = ground arith

pub reply-Granted :
    (r : Redis) (t : Timing) (w : World r) (k : ℕ) (c : Request) (o : Answer)
    → t.renew_timeout_ms ≤ t.ttl_ms
    → w.calls k ≡ some c
    → c.answer ≡ some o
    → w.now ≤ c.issued + time_limit t c.kind
    → IsFenced r t w
    → Granted r t w c.node (answered c.kind c.issued o)
reply-Granted r t w k c o h q a timely f x g s =
    let (sent, own) = f.promised k c q in
    let (when, ok) = answer_of_grant _ x g c.kind c.issued o refl in
    let in_time : w.now ≤ c.issued + t.ttl_ms = omega (arith, time_limit-le t c.kind h) in
    (
      omega arith,
      omega arith,
      subst (λ y. r.Owned w.key c.node (y + t.ttl_ms)) (sym when) (own (a ∙ ap some ok) s in_time),
    )

-- Two nodes that own the key at a time are one.
pub same_owner :
    (r : Redis) (s : r.Store) (now i j u v : ℕ)
    → now ≤ u
    → now ≤ v
    → r.Owned s i u
    → r.Owned s j v
    → i ≡ j
same_owner r s now i j u v a b p q =
    let e = r.get_owned s i now u a p in let e' = r.get_owned s j now v b q in ground (arith, e, e')

stop_node : (n : Node) → (stop n).role ≢ leader
unfolding stop begin_stop clear_timers
stop_node n h = ground arith

stop-stopped : (n : Node) → (stop n).stopped ≡ true
unfolding stop begin_stop clear_timers
stop-stopped n = refl

pub halt_node-unsent :
    (r : Redis) (t : Timing) (w : World r) (i : ℕ)
    → IsFenced r t w
    → IsFenced r t (halt_node r w i false)
unfolding halt_node
halt_node-unsent r t w i f =
    IsFenced-node r t w i (stop (w.nodes i)) (λ s. stop-stopped (w.nodes i))
      (λ h. absurd (stop_node (w.nodes i) h)) f

-- The DEL of a leader takes nothing from another node.
pub halt_node-sent :
    (r : Redis) (t : Timing) (w : World r) (i : ℕ)
    → (w.nodes i).role ≡ leader
    → IsFenced r t w
    → IsFenced r t (halt_node r w i true)
unfolding halt_node
halt_node-sent r t w i lead f =
    let (d, timer, a, b, own) = f.leads i lead in
    let f' = halt_node-unsent r t w i f in
    record {
      leads = λ j h. elim (put-cases w.nodes i (stop (w.nodes i)) j) [
        | inl (same, e) ↦ absurd (stop_node (w.nodes i) (sym (ap (λ n. n.role) e) ∙ h))
        | inr (other, e) ↦
            let (d', timer', a', b', own') = f.leads j (sym (ap (λ n. n.role) e) ∙ h) in
            absurd (other (same_owner r w.key w.now j i d' d a' a own' own))
      ];
      promised = λ k c q.
          let (sent, promise) = f'.promised k c q in
          (
            sent,
            λ g s timely. absurd (elim (put-cases w.nodes i (stop (w.nodes i)) c.node) [
              | inl (same, e) ↦ ground (arith, s, ap (λ n. n.stopped) e, stop-stopped (w.nodes i))
              | inr (other, e) ↦ other (
                  same_owner r w.key w.now c.node i _ d timely a
                    ((f.promised k c q).1 g (sym (ap (λ n. n.stopped) e) ∙ s) timely) own)
            ]),
          );
    }
