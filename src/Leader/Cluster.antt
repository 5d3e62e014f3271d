-- ===== src/Leader/Cluster.antt =====
-- src/lib/leader.ts: any number of nodes around one key, as steps. A node's identity is its number.
-- Redis may run a request at any time while the node awaits it, or after the node has given it up.
use percolator_keeper.Prelude.{
  ℕ, ◌+◌, ◌≤◌, ◌≡◌, ◌≢◌, Bool, true, false, Option, none, some, ◌==◌, if◌then◌else◌,
}
use percolator_keeper.Leader.{
  Timing, leader, Node, Kind, renew, Answer, failed, Event, is_local, react, stop, answered,
  new_node,
}
use percolator_keeper.Leader.Server.{Redis, Request, execute}

pub record World (r : Redis) : Type 0 where
  pub now : ℕ
  pub key : r.Store
  pub nodes : ℕ → Node
  pub calls : ℕ → Option Request

abbrev pub put {ℓ} : {A : Type ℓ} → (ℕ → A) → ℕ → A → ℕ → A
put f i a j = if j == i then a else f j

abbrev pub request_of : ℕ → ℕ → Option Kind → Option Request
request_of now i none = none
request_of now i (some kind) = some (record { node = i; kind = kind; issued = now; answer = none })

-- Node `i` handles an event; what it then awaits stands at `k`.
unfoldable pub handle : (r : Redis) → Timing → World r → ℕ → ℕ → Event → World r
unfolding react
handle r t w k i e = record w {
  nodes = put w.nodes i (react t w.now e (w.nodes i)).0;
  calls = put w.calls k (request_of w.now i (react t w.now e (w.nodes i)).1);
}

-- Redis runs the request at `k`.
unfoldable pub serve : (r : Redis) → Timing → World r → ℕ → Request → World r
unfolding execute
serve r t w k c =
    let result = execute r t w.now c.node c.kind w.key in
    record w { key = result.0; calls = put w.calls k (some (record c { answer = some result.1 })) }

-- Redis runs a request that node `i` has given up.
unfoldable pub serve_late : (r : Redis) → Timing → World r → ℕ → Kind → World r
unfolding execute
serve_late r t w i kind = record w { key = (execute r t w.now i kind w.key).0 }

abbrev pub release_key : (r : Redis) → Bool → r.Store → r.Store
release_key r sent key = if sent then r.del key else key

-- `stop` of node `i`; `sent` says whether its DEL reaches Redis.
unfoldable pub halt_node : (r : Redis) → World r → ℕ → Bool → World r
halt_node r w i sent = record w {
  nodes = put w.nodes i (stop (w.nodes i));
  key = release_key r sent w.key;
}

-- The time by which the answer to a request is handled, else a failure. The renewal has its timeout;
-- the two SETs have none, and that they are answered within the lease is assumed here.
abbrev pub time_limit : Timing → Kind → ℕ
time_limit t renew = t.renew_timeout_ms
time_limit t _ = t.ttl_ms

-- A step of the cluster. The hypotheses are those on its surroundings: a lease timer fires no later
-- than it is due, `start` is not called again after `stop`, an answer is in time, and the DEL of a
-- leader that stops runs at once. (A timer's callback on a stopped node returns at its guard.)
pub data Step (r : Redis) (t : Timing) : World r → World r → Type 0 where
  pass :
      (w : World r) (later : ℕ)
      → w.now ≤ later
      → ((i d : ℕ) → (w.nodes i).role ≡ leader → (w.nodes i).lease_timer ≡ some d → later ≤ d)
      → Step r t w (record w { now = later })
  occur :
      (w : World r) (k i : ℕ) (e : Event)
      → w.calls k ≡ none
      → is_local e ≡ true
      → (w.nodes i).stopped ≡ false
      → Step r t w (handle r t w k i e)
  serve_call :
      (w : World r) (k : ℕ) (c : Request)
      → w.calls k ≡ some c
      → c.answer ≡ none
      → Step r t w (serve r t w k c)
  serve_lost : (w : World r) (i : ℕ) (kind : Kind) → Step r t w (serve_late r t w i kind)
  reply :
      (w : World r) (k : ℕ) (c : Request) (o : Answer)
      → w.calls k ≡ some c
      → c.answer ≡ some o
      → w.now ≤ c.issued + time_limit t c.kind
      → Step r t w (handle r t w k c.node (answered c.kind c.issued o))
  lose :
      (w : World r) (k : ℕ) (c : Request)
      → w.calls k ≡ some c
      → Step r t w (handle r t w k c.node (answered c.kind c.issued failed))
  halt_leader :
      (w : World r) (i : ℕ) (sent : Bool)
      → (w.nodes i).role ≡ leader
      → Step r t w (halt_node r w i sent)
  halt_other :
      (w : World r) (i : ℕ) → (w.nodes i).role ≢ leader → Step r t w (halt_node r w i false)

pub data Run (r : Redis) (t : Timing) : World r → World r → Type 0 where
  here : (w : World r) → Run r t w w
  there : (a b c : World r) → Step r t a b → Run r t b c → Run r t a c

-- No node has started.
abbrev pub boot : (r : Redis) → ℕ → r.Store → World r
boot r now key = record { now = now; key = key; nodes = λ i. new_node; calls = λ k. none }
