-- ===== src/Send/Settled.antt =====
-- src/lib/keeper-send.ts: on every path out, an admitted send is settled exactly once.
use percolator_keeper.Prelude.{
  ℕ, ◌≡◌, refl, ap, sym, subst, ◌∙◌, pos, negsuc, Num, finite, nan, infinite, Bool, true, false,
  none, some, arith, Bool-cases, inl, inr, if◌then◌else◌, List, [], ◌∷◌,
}
use percolator_keeper.Budget.State.{TxType, TxResult, success, drop, Budget}
use percolator_keeper.Budget.Admission.{can_spend, check_cost}
use percolator_keeper.Budget.Settlement.{record_tx, refresh}
use percolator_keeper.Budget.InFlight.{Matches, Moves-Matches, admitted, refused, settled, other}
use percolator_keeper.Budget.Trace.{reads_stats, step}
use percolator_keeper.Send.{
  Before, After, Ticket, SendOptions, Estimate, estimated, estimate_throws, Opened, closed,
  reserved, open_send, gate_estimate, ask_budget, ticket_of, close_send, try_send, deliver,
  release_once, finish_send, keeper_send, skipped, Delivery, confirmed, delivery_throws,
  classify_send_error,
}

abbrev pub result_of_delivery : Delivery → TxResult
result_of_delivery (confirmed signature) = success
result_of_delivery (delivery_throws error) = classify_send_error error

-- The one result that a send settles with.
abbrev pub result_of : After → TxResult
result_of e = elim e.crash [
  | some error ↦ drop
  | none ↦
      if e.dry_run then success else if e.is_leader then result_of_delivery e.delivery else drop
]

-- After the `try` and the `finally` block the send is settled once, with the reserved cost and one
-- result: a drop after a crash or a lost leadership, a success after a confirmation or a dry run, and
-- what the error says otherwise.
pub close_send_settles_once :
    (after : After) (ticket : Ticket) (opts : SendOptions) (b : Budget)
    → (close_send after ticket opts b).state
      ≡ record { budget = record_tx after.now ticket.cost (result_of after) b; recorded = true }
unfolding close_send try_send deliver release_once
close_send_settles_once after ticket opts b = ground arith

admitted_amount :
    (now : ℕ) (cost : Num) (t : TxType) (b : Budget)
    → (can_spend now cost t b).1 ≡ true
    → (n : ℕ) × (cost ≡ finite (pos n))
unfolding can_spend check_cost
admitted_amount now (finite (pos n)) t b h = (n, refl)
admitted_amount now (finite (negsuc n)) t b h = absurd (ground arith)
admitted_amount now nan t b h = absurd (ground arith)
admitted_amount now infinite t b h = absurd (ground arith)

-- What the gate does to the reservations: nothing if it closes the send, and the cost is in flight
-- if it lets it pass.
abbrev Gated : List ℕ → Budget × Opened → Type 0
Gated f (b, closed outcome) = Matches b f
Gated f (b, reserved ticket) = (n : ℕ) × (ticket.cost ≡ finite (pos n)) × Matches b (n ∷ f)

abbrev answer : Before → Ticket → Budget × Bool → Budget × Opened
answer e ticket (b', true) = (b', reserved ticket)
answer e ticket (b', false) = (refresh e.stats_now b', closed skipped)

ask_budget-Gated :
    (e : Before) (t : TxType) (ticket : Ticket) (b : Budget) (f : List ℕ)
    → Matches b f
    → Gated f (ask_budget e t ticket b)
unfolding ask_budget step
ask_budget-Gated e t ticket b f m =
    go (can_spend e.now ticket.cost t b).1 (can_spend e.now ticket.cost t b).0 refl refl
  where
    go :
        (ok : Bool) (b' : Budget)
        → (can_spend e.now ticket.cost t b).1 ≡ ok
        → (can_spend e.now ticket.cost t b).0 ≡ b'
        → Gated f (if ok then (b', reserved ticket) else (refresh e.stats_now b', closed skipped))
    go true b' p q =
        let (n, c) = admitted_amount e.now ticket.cost t b p in
        (
          n,
          c,
          Moves-Matches
              (admitted e.now n t
                (subst (λ x. can_spend e.now x t b ≡ (b', true)) c (λ i. (q i, p i))) refl)
              m,
        )
    go false b' p q =
        Moves-Matches {b = b'} (other e.stats_now reads_stats tt refl refl)
          (Moves-Matches (refused e.now ticket.cost t (λ i. (q i, p i)) refl) m)

gate_estimate-Gated :
    (e : Before) (t : TxType) (extra : ℕ) (est : Estimate) (b : Budget) (f : List ℕ)
    → Matches b f
    → Gated f (gate_estimate e t extra est b)
unfolding gate_estimate
gate_estimate-Gated e t extra (estimate_throws error) b f m = m
gate_estimate-Gated e t extra (estimated fee sim) b f m = elim (Bool-cases sim.proven_to_fail) [
  | inl p ↦ rw p m
  | inr p ↦ rw p (ask_budget-Gated e t (ticket_of e extra fee sim) b f m)
]

open_send-Gated :
    (e : Before) (t : TxType) (extra : ℕ) (b : Budget) (f : List ℕ)
    → Matches b f
    → Gated f (open_send e t extra b)
unfolding open_send
open_send-Gated e t extra b f m = elim (Bool-cases e.is_leader) [
  | inl l ↦ simp l (gate_estimate-Gated e t extra e.estimate b f m)
  | inr l ↦ simp l m
]

close_send-Matches :
    (after : After) (ticket : Ticket) (opts : SendOptions) (b : Budget) (n : ℕ) (f : List ℕ)
    → ticket.cost ≡ finite (pos n)
    → Matches b (n ∷ f)
    → Matches (close_send after ticket opts b).state.budget f
close_send-Matches after ticket opts b n f c m =
    subst (λ r. Matches r f)
      (sym (
        ap (λ r. r.budget) (close_send_settles_once after ticket opts b)
        ∙ ap (λ x. record_tx after.now x (result_of after) b) c))
      (Moves-Matches (settled after.now n (result_of after) [] f refl refl refl) m)

-- Other tasks keep this send's cost in flight, and what is in flight besides goes from `f` to `g`.
abbrev pub KeepsInFlight : (Budget → Budget) → List ℕ → List ℕ → Type 0
KeepsInFlight others f g = (b : Budget) (n : ℕ) → Matches b (n ∷ f) → Matches (others b) (n ∷ g)

finish_send-Matches :
    (after : After) (opts : SendOptions) (others : Budget → Budget) (f g : List ℕ)
    → KeepsInFlight others f g
    → (p : Budget × Opened) → Gated f p
    → let r = (finish_send after opts others p).state in
      Matches r.budget (if r.recorded then g else f)
unfolding finish_send
finish_send-Matches after opts others f g keeps (b, closed outcome) q = q
finish_send-Matches after opts others f g keeps (b, reserved ticket) (n, c, m) =
    let settled_with = close_send_settles_once after ticket opts (others b) in
    subst (λ r. Matches r.budget (if r.recorded then g else f)) (sym settled_with)
      (subst (λ r. Matches r.budget g) settled_with
        (close_send-Matches after ticket opts (others b) n g c (keeps b n m)))

-- No send leaks a reservation, whatever the estimators, the leader check, the sender and the other
-- tasks do: if the reservations were those of the sends in flight, they are so after the send too,
-- the other tasks' changes included if the send got past the gate.
pub keeper_send_no_leak :
    (before : Before) (after : After) (t : TxType) (extra : ℕ) (opts : SendOptions)
    (others : Budget → Budget) (b : Budget) (f g : List ℕ)
    → Matches b f
    → KeepsInFlight others f g
    → let r = (keeper_send before after t extra opts others b).state in
      Matches r.budget (if r.recorded then g else f)
unfolding keeper_send
keeper_send_no_leak before after t extra opts others b f g m keeps =
    finish_send-Matches after opts others f g keeps (open_send before t extra b)
      (open_send-Gated before t extra b f m)
