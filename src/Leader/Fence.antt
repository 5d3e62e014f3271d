-- ===== src/Leader/Fence.antt =====
-- src/lib/leader.ts: the invariant of the cluster, and the changes of one part that keep it.
use percolator_keeper.Prelude.{
  ℕ, ◌+◌, ◌≤◌, ◌≡◌, ◌≢◌, sym, ap, ◌∙◌, subst, ◌⊎◌, inl, inr, true, false, Option, some, arith,
  Bool-cases, ◌==◌, if◌then◌else◌, ==_iff,
}
use percolator_keeper.Leader.{Timing, leader, Node, granted}
use percolator_keeper.Leader.Server.{Redis, Request}
use percolator_keeper.Leader.Leases.{Keeps}
use percolator_keeper.Leader.Cluster.{World, put, boot}

pub put-cases {ℓ} :
    {A : Type ℓ} (f : ℕ → A) (i : ℕ) (a : A) (j : ℕ)
    → ((j ≡ i) × (put f i a j ≡ a)) ⊎ ((j ≢ i) × (put f i a j ≡ f j))
put-cases f i a j = elim (Bool-cases (j == i)) [
  | inl e ↦ inl ((==_iff j i).0 e, ap (λ b. if b then a else f j) e)
  | inr e ↦ inr (λ p. ground (arith, e, p), ap (λ b. if b then a else f j) e)
]

still_running :
    (nodes : ℕ → Node) (i : ℕ) (n : Node)
    → ((nodes i).stopped ≡ true → n.stopped ≡ true)
    → (j : ℕ) → (put nodes i n j).stopped ≡ false
    → (nodes j).stopped ≡ false
still_running nodes i n stops j h = elim (put-cases nodes i n j) [
  | inl (same, e) ↦ elim (Bool-cases (nodes i).stopped) [
    | inl s ↦ absurd (ground (arith, stops s, ap (λ m. m.stopped) e, h))
    | inr s ↦ ap (λ k. (nodes k).stopped) same ∙ s
  ]
  | inr (other, e) ↦ sym (ap (λ m. m.stopped) e) ∙ h
]

-- A leader has a lease timer that is not overdue, and the key is its own until that timer is due.
abbrev pub Leads : (r : Redis) → Timing → ℕ → r.Store → ℕ → Node → Type 0
Leads r t now key i n =
    n.role ≡ leader
    → (d : ℕ) × (n.lease_timer ≡ some d) × (now ≤ d) × (d ≤ now + t.ttl_ms) × r.Owned key i d

-- A granted request of a node that is not stopped has given it the key for the time to live.
abbrev pub Promise : (r : Redis) → Timing → ℕ → r.Store → (ℕ → Node) → Request → Type 0
Promise r t now key nodes c =
    (c.issued ≤ now)
    × (c.answer ≡ some granted
        → (nodes c.node).stopped ≡ false
        → now ≤ c.issued + t.ttl_ms
        → r.Owned key c.node (c.issued + t.ttl_ms))

abbrev pub Promised : (r : Redis) → Timing → ℕ → r.Store → (ℕ → Node) → Option Request → Type 0
Promised r t now key nodes call = (c : Request) → call ≡ some c → Promise r t now key nodes c

some_inj : (a b : Request) → some a ≡ some b → a ≡ b
some_inj a b h = cc

pub Promised-some :
    (r : Redis) (t : Timing) (now : ℕ) (key : r.Store) (nodes : ℕ → Node) (c : Request)
    → Promise r t now key nodes c
    → Promised r t now key nodes (some c)
Promised-some r t now key nodes c p c' e = subst (Promise r t now key nodes) (some_inj c c' e) p

pub record IsFenced (r : Redis) (t : Timing) (w : World r) : Type 0 where
  pub leads : (i : ℕ) → Leads r t w.now w.key i (w.nodes i)
  pub promised : (k : ℕ) → Promised r t w.now w.key w.nodes (w.calls k)

pub IsFenced-boot :
    (r : Redis) (t : Timing) (now : ℕ) (key : r.Store) → IsFenced r t (boot r now key)
IsFenced-boot r t now key = record {
  leads = λ i h. absurd (ground (arith, h));
  promised = λ k c e. absurd (ground (arith, e));
}

pub IsFenced-pass :
    (r : Redis) (t : Timing) (w : World r) (later : ℕ)
    → w.now ≤ later
    → ((i d : ℕ) → (w.nodes i).role ≡ leader → (w.nodes i).lease_timer ≡ some d → later ≤ d)
    → IsFenced r t w
    → IsFenced r t (record w { now = later })
IsFenced-pass r t w later le due f = record {
  leads =
      λ i h. let (d, timer, a, b, o) = f.leads i h in (d, timer, due i d h timer, omega arith, o);
  promised = λ k c e.
      let (issued, own) = f.promised k c e in (omega arith, λ g s timely. own g s (omega arith));
}

-- Redis changes the key and keeps what is leased.
pub IsFenced-key :
    (r : Redis) (t : Timing) (w : World r) (key : r.Store)
    → Keeps r t w.now w.key key
    → IsFenced r t w
    → IsFenced r t (record w { key = key })
IsFenced-key r t w key keeps f = record {
  leads = λ i h. let (d, timer, a, b, o) = f.leads i h in (d, timer, a, b, keeps i d a b o);
  promised = λ k c e.
      let (issued, own) = f.promised k c e in
      (issued, λ g s timely. keeps c.node _ timely (omega arith) (own g s timely));
}

-- One entry of the calls changes.
pub IsFenced-call :
    (r : Redis) (t : Timing) (w : World r) (k : ℕ) (call : Option Request)
    → Promised r t w.now w.key w.nodes call
    → IsFenced r t w
    → IsFenced r t (record w { calls = put w.calls k call })
IsFenced-call r t w k call p f = record {
  leads = f.leads;
  promised = λ k'. elim (put-cases w.calls k call k') [
    | inl (same, e) ↦ subst (Promised r t w.now w.key w.nodes) (sym e) p
    | inr (other, e) ↦ subst (Promised r t w.now w.key w.nodes) (sym e) (f.promised k')
  ];
}

-- One node changes, and is stopped if it was.
pub IsFenced-node :
    (r : Redis) (t : Timing) (w : World r) (i : ℕ) (n : Node)
    → ((w.nodes i).stopped ≡ true → n.stopped ≡ true)
    → Leads r t w.now w.key i n
    → IsFenced r t w
    → IsFenced r t (record w { nodes = put w.nodes i n })
IsFenced-node r t w i n stops l f = record {
  leads = λ j. elim (put-cases w.nodes i n j) [
    | inl (same, e) ↦
        subst (Leads r t w.now w.key j) (sym e)
          (subst (λ k. Leads r t w.now w.key k n) (sym same) l)
    | inr (other, e) ↦ subst (Leads r t w.now w.key j) (sym e) (f.leads j)
  ];
  promised = λ k c e.
      let (issued, own) = f.promised k c e in
      (issued, λ g s timely. own g (still_running w.nodes i n stops c.node s) timely);
}
