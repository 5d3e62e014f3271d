-- ===== src/Budget/Rolling/Bound.antt =====
-- src/lib/budget.ts: the drain bound. What is admitted stays within the rolling caps, counted over
-- the whole history of bookings.
use Prim.Native.String.{String}
use percolator_keeper.Prelude.{
  ℕ, ◌≤◌, ◌≡◌, ◌∙◌, subst, pos, ◌+ℤ◌, ◌≤ℤ◌, finite, Bool, true, Option, List,
}
use percolator_keeper.Budget.State.{TxType, Config, HaltFile, Budget}
use percolator_keeper.Budget.Halting.{new}
use percolator_keeper.Budget.Admission.{can_spend}
use percolator_keeper.Budget.Settlement.{refresh}
use percolator_keeper.Budget.Trace.{Call, run}
use percolator_keeper.Budget.Ledger.{total_within}
use percolator_keeper.Budget.Caps.{Fits, fits_and_rate_iff}
use percolator_keeper.Budget.Rolling.{
  Window, hourly, daily, age_of, history, IsMonotone, last_time, ledger_of,
}
use percolator_keeper.Budget.Rolling.Settings.{config-refresh, config-run, config-new}
use percolator_keeper.Budget.Rolling.Refinement.{rolling_sum}

abbrev pub cap_of : Window → Config → ℕ
cap_of hourly c = c.max_sol_per_hour
cap_of daily c = c.max_sol_per_day

Fits-window :
    (w : Window) (b : Budget) (n : ℕ) (t : TxType)
    → Fits b n t
    → ((ledger_of w b).sum +ℤ pos b.reserved_lamports +ℤ pos n) ≤ℤ pos (cap_of w b.config)
Fits-window hourly b n t f = f.hourly
Fits-window daily b n t f = f.daily

-- Whatever was called before, by a clock that does not go back: if an amount is admitted, then all
-- that was booked in the last hour (day), together with the sends in flight and the amount itself,
-- is at most the hour (day) cap of the configuration.
pub admission_bounds_history :
    (w : Window) (config : Config) (path : Option String) (file : HaltFile) (disk_works : Bool)
    (cs : List (ℕ × Call)) (now n : ℕ) (t : TxType)
    → IsMonotone 0 cs
    → last_time 0 cs ≤ now
    → let b = new config path file disk_works in
      let b' = run b cs in
      (can_spend now (finite (pos n)) t b').1 ≡ true
      → (total_within (age_of w) now (history w b cs)
          +ℤ pos (refresh now b').reserved_lamports
          +ℤ pos n)
        ≤ℤ pos (cap_of w config)
admission_bounds_history w config path file disk_works cs now n t m later ok =
    subst (λ s. (s +ℤ pos (refresh now b').reserved_lamports +ℤ pos n) ≤ℤ pos (cap_of w config))
      (rolling_sum w config path file disk_works cs now m later)
      (subst
        (λ c.
          ((ledger_of w (refresh now b')).sum +ℤ pos (refresh now b').reserved_lamports +ℤ pos n)
          ≤ℤ pos (cap_of w c))
        same (Fits-window w (refresh now b') n t ((fits_and_rate_iff b' now n t).0 ok).1))
  where
    b' : Budget
    b' = run (new config path file disk_works) cs

    same : (refresh now b').config ≡ config
    same =
        config-refresh now b'
        ∙ config-run (new config path file disk_works) cs
        ∙ config-new config path file disk_works
