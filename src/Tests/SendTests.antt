-- ===== src/Tests/SendTests.antt =====
-- src/lib/keeper-send.ts: the theorems at concrete inputs.
use percolator_keeper.Prelude.{◌≡◌, refl, pos, finite, true, false, none, some, [], arith, ◌+ℤ◌}
use percolator_keeper.Budget.State.{
  crank, success, reverted, fail, Budget, missing, defaults, fresh,
}
use percolator_keeper.Budget.Window.{
  roll_cycle_if_elapsed, prune_old, prune_ledger, prune_window, success_rate_below_threshold,
  effective_tx_cap,
}
use percolator_keeper.Budget.Admission.{can_spend, check_cost, check_caps, over_cap}
use percolator_keeper.Budget.Settlement.{record_tx}
use percolator_keeper.Budget.InFlight.{Matches}
use percolator_keeper.Send.{
  Before, After, Ticket, SendOptions, estimated, confirmed, keeper_send, finish_send, open_send,
  gate_estimate, ask_budget, close_send, try_send, deliver, release_once, estimate_lamport_cost,
  classify_send_error, reconcile,
}
use percolator_keeper.Send.Gate.{IsGated, broadcast-IsGated}
use percolator_keeper.Send.Settled.{keeper_send_no_leak}
use percolator_keeper.Send.Reconcile.{reconcile_keeps_receipt_only}

abbrev start : Budget
start = record (fresh defaults none missing true) { cycle_start_ms = 1_000 }

abbrev before : Before
before = record {
  is_leader = true;
  estimate = estimated 1_000 (record { cu = 300_000; proven_to_fail = false });
  jito_tip = finite (pos 200_000);
  now = 2_000;
  stats_now = 2_001;
}

abbrev after : After
after = record {
  dry_run = false;
  dry_run_id = "dry_run_0";
  crash = none;
  is_leader = true;
  delivery = confirmed "sig";
  now = 2_600;
}

abbrev no_override : SendOptions
no_override = record { priority_fee_micro_lamports = none; compute_unit_limit = none }

abbrev ticket : Ticket
ticket = record { cost = finite (pos 205_300); micro_lamports = 1_000; cu = 300_000 }

costs : estimate_lamport_cost 1_000 300_000 (finite (pos 200_000)) 0 ≡ finite (pos 205_300)
unfolding estimate_lamport_cost ◌+ℤ◌
costs = refl

landed_and_reverted : classify_send_error "Transaction failed: {\"Custom\":14}" ≡ reverted
unfolding classify_send_error
landed_and_reverted = refl

timed_out : classify_send_error "not confirmed after 30000ms" ≡ fail
unfolding classify_send_error
timed_out = refl

broadcast-IsGated_example :
    IsGated before after crank 0 no_override start (record { micro_lamports = 1_000; cu = 300_000 })
unfolding keeper_send finish_send open_send gate_estimate ask_budget close_send try_send deliver
    estimate_lamport_cost can_spend check_cost check_caps over_cap ◌+ℤ◌ prune_old prune_ledger
    prune_window roll_cycle_if_elapsed effective_tx_cap success_rate_below_threshold
broadcast-IsGated_example =
    broadcast-IsGated before after crank 0 no_override (λ b. b) start
      (record { micro_lamports = 1_000; cu = 300_000 }) refl

keeper_send_no_leak_example :
    Matches (keeper_send before after crank 0 no_override (λ b. b) start).state.budget []
unfolding keeper_send finish_send open_send gate_estimate ask_budget close_send try_send deliver
    estimate_lamport_cost can_spend check_cost check_caps over_cap ◌+ℤ◌ prune_old prune_ledger
    prune_window roll_cycle_if_elapsed effective_tx_cap success_rate_below_threshold release_once
keeper_send_no_leak_example =
    keeper_send_no_leak before after crank 0 no_override (λ b. b) start [] []
      (record { lamports = refl; slots = refl }) (λ b n m. m)

-- A portfolio is provisioned: 65,946,000 lamports of rent are in the estimate, not in the receipt.
reconcile_keeps_receipt_only_example :
    (reconcile 7_600
      (finite (pos 66_151_300))
      (some 10_300)
      (finite (pos 200_000))
      (record_tx 2_600 (finite (pos 66_151_300)) success start)).cycle_spend
    ≡ 210_300
reconcile_keeps_receipt_only_example =
    reconcile_keeps_receipt_only start 2_600 7_600 66_151_300 10_300 200_000 (omega arith)
      (omega arith) (omega arith)
