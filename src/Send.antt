-- ===== src/Send.antt =====
-- src/lib/keeper-send.ts: `estimateLamportCost`, `classifySendError`, `keeperSend` and the
-- reconciliation of the realized cost.
-- What the network, the estimators, the leader check and the environment answer in one send is a
-- record of answers. Other tasks may use the shared budget while the send is awaited: the part of
-- `keeperSend` before that await is `open_send`, the part after it `close_send`.
pub mod Gate
pub mod Settled
pub mod Reconcile
use Prim.Native.String.{String}
use text.Mathlib.Text.{starts_with}
use percolator_keeper.Prelude.{
  ℕ, ◌+◌, ◌-◌, ◌*◌, ◌/◌, ℤ, pos, negsuc, ◌+ℤ◌, Num, finite, nan, infinite, Bool, true, false,
  Option, none, some, if◌then◌else◌,
}
use percolator_keeper.Budget.State.{TxType, TxResult, success, fail, reverted, drop, Budget}
use percolator_keeper.Budget.Admission.{can_spend}
use percolator_keeper.Budget.Settlement.{record_tx, adjust_for_realized_cost, refresh}

abbrev pub base_fee_lamports : ℕ
base_fee_lamports = 5_000

-- `Math.ceil(a / 1_000_000)`
abbrev pub ceil_div_million : ℕ → ℕ
ceil_div_million a = (a + 999_999) / 1_000_000

-- The sum of JavaScript numbers, where one is an amount: NaN and infinity pass through.
abbrev pub plus_amount : ℕ → Num → Num
plus_amount n (finite z) = finite (pos n +ℤ z)
plus_amount n nan = nan
plus_amount n infinite = infinite

-- The tip comes from the environment and may be NaN; the other terms are amounts.
unfoldable pub estimate_lamport_cost : ℕ → ℕ → Num → ℕ → Num
estimate_lamport_cost micro_lamports cu jito_tip extra_lamports =
    plus_amount (base_fee_lamports + ceil_div_million (micro_lamports * cu) + extra_lamports)
      jito_tip

unfoldable pub classify_send_error : String → TxResult
classify_send_error message = if starts_with message "Transaction failed:" then reverted else fail

pub record CuEstimate : Type 0 where
  pub cu : ℕ
  pub proven_to_fail : Bool

-- What `estimateCost` gets from the estimators: a fee and a simulation, or an error.
pub data Estimate : Type 0 where
  estimated : ℕ → CuEstimate → Estimate
  estimate_throws : String → Estimate

pub data Delivery : Type 0 where
  confirmed : String → Delivery
  delivery_throws : String → Delivery

-- The fee and the limit handed to the sender; the caller may override either.
pub record SendOptions : Type 0 where
  pub priority_fee_micro_lamports : Option ℕ
  pub compute_unit_limit : Option ℕ

pub record Broadcast : Type 0 where
  pub micro_lamports : ℕ
  pub cu : ℕ

pub data Outcome : Type 0 where
  skipped : Outcome
  sent : String → Outcome
  threw : String → Outcome

-- What `open_send` is told, and the times of its two readings of the clock.
pub record Before : Type 0 where
  pub is_leader : Bool
  pub estimate : Estimate
  pub jito_tip : Num
  pub now : ℕ
  pub stats_now : ℕ

-- What `close_send` is told. An unexpected error may strike before the send is reached.
pub record After : Type 0 where
  pub dry_run : Bool
  pub dry_run_id : String
  pub crash : Option String
  pub is_leader : Bool
  pub delivery : Delivery
  pub now : ℕ

-- A send that passed the gate: its cost is reserved, and the fee and the limit are those it counted.
pub record Ticket : Type 0 where
  pub cost : Num
  pub micro_lamports : ℕ
  pub cu : ℕ

pub data Opened : Type 0 where
  closed : Outcome → Opened
  reserved : Ticket → Opened

unfoldable pub ask_budget : Before → TxType → Ticket → Budget → Budget × Opened
ask_budget e t ticket b =
    let (b', admitted) = can_spend e.now ticket.cost t b in
    if admitted then (b', reserved ticket) else (refresh e.stats_now b', closed skipped)

abbrev pub ticket_of : Before → ℕ → ℕ → CuEstimate → Ticket
ticket_of e extra micro_lamports sim = record {
  cost = estimate_lamport_cost micro_lamports sim.cu e.jito_tip extra;
  micro_lamports = micro_lamports;
  cu = sim.cu;
}

unfoldable pub gate_estimate : Before → TxType → ℕ → Estimate → Budget → Budget × Opened
gate_estimate e t extra (estimate_throws error) b = (b, closed (threw error))
gate_estimate e t extra (estimated micro_lamports sim) b =
    if sim.proven_to_fail
    then (b, closed skipped)
    else ask_budget e t (ticket_of e extra micro_lamports sim) b

unfoldable pub open_send : Before → TxType → ℕ → Budget → Budget × Opened
open_send e t extra b =
    if e.is_leader then gate_estimate e t extra e.estimate b else (b, closed skipped)

-- The closure `release` with its flag.
pub record Release : Type 0 where
  pub budget : Budget
  pub recorded : Bool

unfoldable pub release_once : ℕ → Num → TxResult → Release → Release
release_once now cost result r =
    if r.recorded
    then r
    else record { budget = record_tx now cost result r.budget; recorded = true }

abbrev pub or_else : Option ℕ → ℕ → ℕ
or_else none n = n
or_else (some m) n = m

pub record Closed : Type 0 where
  pub state : Release
  pub outcome : Outcome
  pub broadcast : Option Broadcast

unfoldable pub deliver : ℕ → Num → Delivery → Broadcast → Release → Closed
deliver now cost (confirmed signature) message r = record {
  state = release_once now cost success r;
  outcome = sent signature;
  broadcast = some message;
}
deliver now cost (delivery_throws error) message r = record {
  state = release_once now cost (classify_send_error error) r;
  outcome = threw error;
  broadcast = some message;
}

unfoldable pub try_send : After → Ticket → SendOptions → Release → Closed
try_send e ticket opts r = elim e.crash [
  | some error ↦ record { state = r; outcome = threw error; broadcast = none }
  | none ↦
      if e.dry_run
      then record {
        state = release_once e.now ticket.cost success r;
        outcome = sent e.dry_run_id;
        broadcast = none;
      }
      else if e.is_leader
      then deliver e.now ticket.cost e.delivery
          (record {
            micro_lamports = or_else opts.priority_fee_micro_lamports ticket.micro_lamports;
            cu = or_else opts.compute_unit_limit ticket.cu;
          })
          r
      else record {
        state = release_once e.now ticket.cost drop r;
        outcome = skipped;
        broadcast = none;
      }
]

-- The `try` block and its `finally`.
unfoldable pub close_send : After → Ticket → SendOptions → Budget → Closed
close_send e ticket opts b =
    let tried = try_send e ticket opts (record { budget = b; recorded = false }) in
    record tried { state = release_once e.now ticket.cost drop tried.state }

-- `others` is what other tasks make of the budget between the gate and the settlement.
unfoldable pub finish_send : After → SendOptions → (Budget → Budget) → Budget × Opened → Closed
finish_send after opts others (b, closed outcome) = record {
  state = record { budget = b; recorded = false };
  outcome = outcome;
  broadcast = none;
}
finish_send after opts others (b, reserved ticket) = close_send after ticket opts (others b)

-- A whole send.
unfoldable pub keeper_send :
    Before → After → TxType → ℕ → SendOptions → (Budget → Budget) → Budget → Closed
keeper_send before after t extra opts others b =
    finish_send after opts others (open_send before t extra b)

-- The reconciliation five seconds later, where the receipt holds a fee: a tip that is not a finite
-- number counts as 0.
abbrev pub finite_or_zero : Num → Num
finite_or_zero (finite z) = finite z
finite_or_zero _ = finite (pos 0)

unfoldable pub reconcile : ℕ → Num → Option ℕ → Num → Budget → Budget
reconcile now estimated_cost none jito_tip b = b
reconcile now estimated_cost (some realized_fee) jito_tip b =
    adjust_for_realized_cost now estimated_cost (plus_amount realized_fee (finite_or_zero jito_tip))
      b
