-- ===== src/Budget/State.antt =====
-- src/lib/budget.ts: the configuration and the state of a KeeperBudget.
-- The pair `_hourEvents`, `_hourSpendSum` is a Ledger, and so is the pair for the day; `_txWindow`
-- and its two counters are a TxWindow. The file at `haltStatePath` is a part of the state, and the
-- calls of `onHalt` and `onResume` are a log. Times are milliseconds, amounts lamports.
use Prim.Native.String.{String}
use percolator_keeper.Prelude.{ℕ, ◌+◌, ◌*◌, ℤ, pos, Num, Bool, false, Option, none, List, []}

pub data TxType : Type 0 where
  crank liquidation oracle adl : TxType

pub data TxResult : Type 0 where
  success fail reverted drop : TxResult

pub data HaltKind : Type 0 where
  cycle_spend_cap hour_spend_cap day_spend_cap cycle_tx_count_cap : HaltKind
  tx_success_rate non_finite_cost operator : HaltKind

-- The message of a halt, by the values that its template is filled with.
pub data Reason : Type 0 where
  bad_cost : Num → TxType → Reason
  spend_over : ℤ → ℕ → TxType → Reason
  low_rate : ℕ → ℕ → TxType → Reason
  message : String → Reason

-- A fraction of two numbers; the threshold of the success rate.
pub record Ratio : Type 0 where
  pub num : ℕ
  pub den : ℕ

pub record Config : Type 0 where
  pub max_sol_per_cycle : ℕ
  pub max_sol_per_hour : ℕ
  pub max_sol_per_day : ℕ
  pub max_tx_per_cycle : ℕ
  pub reserved_critical_tx_per_cycle : ℕ
  pub cycle_window_ms : ℕ
  pub tx_success_rate_window : ℕ
  pub tx_success_rate_threshold : Ratio
  pub tx_success_rate_min_samples : ℕ

pub record SpendEvent : Type 0 where
  pub ts : ℕ
  pub lamports : ℤ

pub record TxRecord : Type 0 where
  pub ts : ℕ
  pub landed : Bool

pub record Ledger : Type 0 where
  pub events : List SpendEvent
  pub sum : ℤ

pub record TxWindow : Type 0 where
  pub records : List TxRecord
  pub successes : ℕ
  pub failures : ℕ

-- What the file at `haltStatePath` holds, as `JSON.parse` reads it.
pub data HaltFile : Type 0 where
  missing unparsable : HaltFile
  saved : Option HaltKind → Option Reason → HaltFile

pub data Hook : Type 0 where
  on_halt : HaltKind → Reason → Hook
  on_resume : Hook

pub record Budget : Type 0 where
  pub config : Config
  pub open config use *
  pub cycle_spend : ℕ
  pub cycle_tx_count : ℕ
  pub cycle_start_ms : ℕ
  pub hour : Ledger
  pub day : Ledger
  pub tx_window : TxWindow
  pub reserved_lamports : ℕ
  pub reserved_tx_count : ℕ
  pub is_halted : Bool
  pub halt_kind : Option HaltKind
  pub halt_reason : Option Reason
  -- `none` where no path is set, and for an empty one, which the code treats alike.
  pub halt_state_path : Option String
  pub halt_file : HaltFile
  pub disk_works : Bool
  pub hooks : List Hook
  pub realized_cost_drift : ℤ
  pub realized_cost_samples : ℕ

abbrev pub hour_ms : ℕ
hour_ms = 3_600_000

abbrev pub day_ms : ℕ
day_ms = 86_400_000

abbrev pub portfolio_account_len : ℕ
portfolio_account_len = 9347

abbrev pub portfolio_rent_lamports : ℕ
portfolio_rent_lamports = (128 + portfolio_account_len) * 3480 * 2

abbrev pub min_viable_cycle_cap_lamports : ℕ
min_viable_cycle_cap_lamports = 10_000 + 200_000 + portfolio_rent_lamports

-- 0.7 as a fraction.
abbrev pub defaults : Config
defaults = record {
  max_sol_per_cycle = 200_000_000;
  max_sol_per_hour = 500_000_000;
  max_sol_per_day = 3_000_000_000;
  max_tx_per_cycle = 60;
  reserved_critical_tx_per_cycle = 10;
  cycle_window_ms = 30_000;
  tx_success_rate_window = 60_000;
  tx_success_rate_threshold = record { num = 7; den = 10 };
  tx_success_rate_min_samples = 10;
}

abbrev pub empty_ledger : Ledger
empty_ledger = record { events = []; sum = pos 0 }

abbrev pub empty_window : TxWindow
empty_window = record { records = []; successes = 0; failures = 0 }

-- The fields as the class initialises them.
abbrev pub fresh : Config → Option String → HaltFile → Bool → Budget
fresh config path file disk_works = record {
  config = config;
  cycle_spend = 0;
  cycle_tx_count = 0;
  cycle_start_ms = 0;
  hour = empty_ledger;
  day = empty_ledger;
  tx_window = empty_window;
  reserved_lamports = 0;
  reserved_tx_count = 0;
  is_halted = false;
  halt_kind = none;
  halt_reason = none;
  halt_state_path = path;
  halt_file = file;
  disk_works = disk_works;
  hooks = [];
  realized_cost_drift = pos 0;
  realized_cost_samples = 0;
}
