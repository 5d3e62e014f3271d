-- ===== src/Budget/Restart.antt =====
-- src/lib/budget.ts: a halt outlives a restart of the process, and a resume ends it for good.
use Prim.Native.String.{String}
use percolator_keeper.Prelude.{◌≡◌, Bool, true, false, some, [], ◌∷◌, arith}
use percolator_keeper.Budget.State.{
  HaltKind, Reason, Config, missing, saved, on_halt, Budget, fresh,
}
use percolator_keeper.Budget.Halting.{
  halt, persist_halt_state, resume, clear_halt, clear_halt_state_file, is_blank, new, restore_saved,
}

halt_file-halt :
    (b : Budget) (kind : HaltKind) (reason : Reason) (path : String)
    → b.is_halted ≡ false
    → b.halt_state_path ≡ some path
    → b.disk_works ≡ true
    → (halt kind reason b).halt_file ≡ saved (some kind) (some reason)
unfolding halt persist_halt_state
halt_file-halt b kind reason path live p works = ground arith

-- A halt that is written to the file is found by the next process: it starts halted, for the same
-- kind and reason, and calls `onHalt` again. The reason must not be the empty text.
pub halt_survives_restart :
    (b : Budget) (kind : HaltKind) (reason : Reason) (path : String) (config : Config) (disk : Bool)
    → b.is_halted ≡ false
    → b.halt_state_path ≡ some path
    → b.disk_works ≡ true
    → is_blank reason ≡ false
    → let b' = new config (some path) (halt kind reason b).halt_file disk in
      (b'.is_halted ≡ true)
      × (b'.halt_kind ≡ some kind)
      × (b'.halt_reason ≡ some reason)
      × (b'.hooks ≡ on_halt kind reason ∷ [])
unfolding new restore_saved
halt_survives_restart b kind reason path config disk live p works r =
    rw (halt_file-halt b kind reason path live p works) (ground arith)

-- A resume of a halted budget removes the file: the next process starts clean.
pub resume_survives_restart :
    (b : Budget) (name path : String) (config : Config) (disk : Bool)
    → b.is_halted ≡ true
    → b.halt_state_path ≡ some path
    → b.disk_works ≡ true
    → let b' = resume name b in
      (b'.is_halted ≡ false)
      × (new config (some path) b'.halt_file disk ≡ fresh config (some path) missing disk)
unfolding resume clear_halt clear_halt_state_file new
resume_survives_restart b name path config disk halted p works = ground arith
