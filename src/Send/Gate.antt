-- ===== src/Send/Gate.antt =====
-- src/lib/keeper-send.ts: what must hold for a transaction to be broadcast.
use percolator_keeper.Prelude.{
  ℕ, ◌≡◌, refl, ap, ◌∙◌, Num, true, false, some, arith, Bool-cases, inl, inr,
}
use percolator_keeper.Budget.State.{TxType, Budget}
use percolator_keeper.Budget.Admission.{can_spend}
use percolator_keeper.Send.{
  Before, After, Ticket, SendOptions, Broadcast, Estimate, estimated, estimate_throws, CuEstimate,
  Opened, ticket_of, closed, reserved, open_send, gate_estimate, ask_budget, close_send, try_send,
  deliver, finish_send, keeper_send, estimate_lamport_cost, or_else, Delivery, confirmed,
  delivery_throws, Release,
}

-- Everything that stands before a broadcast.
pub record IsGated (before : Before) (after : After) (t : TxType) (extra : ℕ) (opts : SendOptions)
    (b : Budget) (m : Broadcast) : Type 0 where
  pub leader_at_entry : before.is_leader ≡ true
  pub leader_at_send : after.is_leader ≡ true
  pub not_dry_run : after.dry_run ≡ false
  pub fee : ℕ
  pub sim : CuEstimate
  pub priced : before.estimate ≡ estimated fee sim
  pub not_proven_to_fail : sim.proven_to_fail ≡ false
  pub admitted :
      (can_spend before.now (estimate_lamport_cost fee sim.cu before.jito_tip extra) t b).1 ≡ true
  pub same_fee : m.micro_lamports ≡ or_else opts.priority_fee_micro_lamports fee
  pub same_limit : m.cu ≡ or_else opts.compute_unit_limit sim.cu

-- What the gate lets through.
record Passes (before : Before) (t : TxType) (extra : ℕ) (b : Budget) (ticket : Ticket)
    : Type 0 where
  leader : before.is_leader ≡ true
  fee : ℕ
  sim : CuEstimate
  priced : before.estimate ≡ estimated fee sim
  not_proven_to_fail : sim.proven_to_fail ≡ false
  admitted :
      (can_spend before.now (estimate_lamport_cost fee sim.cu before.jito_tip extra) t b).1 ≡ true
  fee_of : ticket.micro_lamports ≡ fee
  limit_of : ticket.cu ≡ sim.cu

ask_budget-admitted :
    (before : Before) (t : TxType) (ticket ticket' : Ticket) (b : Budget)
    → (ask_budget before t ticket b).1 ≡ reserved ticket'
    → ((can_spend before.now ticket.cost t b).1 ≡ true) × (ticket' ≡ ticket)
unfolding ask_budget
ask_budget-admitted before t ticket ticket' b e = ground arith

gate_estimate-Passes :
    (before : Before) (t : TxType) (extra : ℕ) (est : Estimate) (b : Budget) (ticket : Ticket)
    → before.estimate ≡ est
    → before.is_leader ≡ true
    → (gate_estimate before t extra est b).1 ≡ reserved ticket
    → Passes before t extra b ticket
unfolding gate_estimate
gate_estimate-Passes before t extra (estimate_throws error) b ticket p l e = cc
gate_estimate-Passes before t extra (estimated fee sim) b ticket p l e = record {
  leader = l;
  fee = fee;
  sim = sim;
  priced = p;
  not_proven_to_fail = ground arith;
  admitted = ground (arith, asked);
  fee_of = ground (arith, asked);
  limit_of = ground (arith, asked);
}
  where
    asked :
        (ask_budget before t (ticket_of before extra fee sim) b).1 ≡ reserved ticket
        → ((can_spend before.now (ticket_of before extra fee sim).cost t b).1 ≡ true)
          × (ticket ≡ ticket_of before extra fee sim)
    asked = ask_budget-admitted before t (ticket_of before extra fee sim) ticket b

open_send-Passes :
    (before : Before) (t : TxType) (extra : ℕ) (b : Budget) (ticket : Ticket)
    → (open_send before t extra b).1 ≡ reserved ticket
    → Passes before t extra b ticket
unfolding open_send
open_send-Passes before t extra b ticket e = elim (Bool-cases before.is_leader) [
  | inl l ↦ gate_estimate-Passes before t extra before.estimate b ticket refl l (ground arith)
  | inr l ↦ ground arith
]

deliver-broadcast :
    (now : ℕ) (cost : Num) (d : Delivery) (m : Broadcast) (r : Release)
    → (deliver now cost d m r).broadcast ≡ some m
unfolding deliver
deliver-broadcast now cost (confirmed signature) m r = refl
deliver-broadcast now cost (delivery_throws error) m r = refl

close_send-broadcast :
    (after : After) (ticket : Ticket) (opts : SendOptions) (b : Budget) (m : Broadcast)
    → (close_send after ticket opts b).broadcast ≡ some m
    → (after.is_leader ≡ true)
      × (after.dry_run ≡ false)
      × (m.micro_lamports ≡ or_else opts.priority_fee_micro_lamports ticket.micro_lamports)
      × (m.cu ≡ or_else opts.compute_unit_limit ticket.cu)
unfolding close_send try_send
close_send-broadcast after ticket opts b m e = ground (
  arith,
  deliver-broadcast after.now ticket.cost after.delivery
      (record {
        micro_lamports = or_else opts.priority_fee_micro_lamports ticket.micro_lamports;
        cu = or_else opts.compute_unit_limit ticket.cu;
      })
      (record { budget = b; recorded = false }),
)

finish_send-broadcast :
    (after : After) (opts : SendOptions) (others : Budget → Budget) (p : Budget × Opened)
    (m : Broadcast)
    → (finish_send after opts others p).broadcast ≡ some m
    → (ticket : Ticket) × (p.1 ≡ reserved ticket)
      × ((close_send after ticket opts (others p.0)).broadcast ≡ some m)
unfolding finish_send
finish_send-broadcast after opts others (b, closed outcome) m e = cc
finish_send-broadcast after opts others (b, reserved ticket) m e = (ticket, refl, e)

-- A transaction is broadcast only if this node was leader at entry and again right before the send,
-- the run is no dry run, the simulation did not prove a failure, and the budget admitted the cost.
-- Unless the caller overrides them, the fee and the limit that are broadcast are the ones the
-- admitted cost was computed from.
pub broadcast-IsGated :
    (before : Before) (after : After) (t : TxType) (extra : ℕ) (opts : SendOptions)
    (others : Budget → Budget) (b : Budget) (m : Broadcast)
    → (keeper_send before after t extra opts others b).broadcast ≡ some m
    → IsGated before after t extra opts b m
unfolding keeper_send
broadcast-IsGated before after t extra opts others b m e =
    let (ticket, q, e') =
      finish_send-broadcast after opts others (open_send before t extra b) m e in
    let p = open_send-Passes before t extra b ticket q in
    let c = close_send-broadcast after ticket opts (others (open_send before t extra b).0) m e' in
    record {
      leader_at_entry = p.leader;
      leader_at_send = c.0;
      not_dry_run = c.1;
      fee = p.fee;
      sim = p.sim;
      priced = p.priced;
      not_proven_to_fail = p.not_proven_to_fail;
      admitted = p.admitted;
      same_fee = c.2 ∙ ap (or_else opts.priority_fee_micro_lamports) p.fee_of;
      same_limit = c.3 ∙ ap (or_else opts.compute_unit_limit) p.limit_of;
    }
