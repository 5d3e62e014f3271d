-- ===== src/Budget/Halting.antt =====
-- src/lib/budget.ts: `_halt`, `resume`, `haltManually`, the halt file and the constructor.
-- A log line has no effect on the state; a hook that throws is caught, so a call of it is one entry.
use Prim.Native.String.{String}
use text.Mathlib.Text.{◌==◌ as str_eq}
use percolator_keeper.Prelude.{Bool, true, false, Option, none, some, [], ◌∷◌, ◌++◌, if◌then◌else◌}
use percolator_keeper.Budget.State.{
  HaltKind, operator, Reason, message, Config, HaltFile, missing, unparsable, saved, on_halt,
  on_resume, Budget, fresh,
}

unfoldable pub persist_halt_state : Budget → Budget
persist_halt_state b = elim b.halt_state_path [
  | none ↦ b
  | some _ ↦ if b.disk_works then record b { halt_file = saved b.halt_kind b.halt_reason } else b
]

unfoldable pub clear_halt_state_file : Budget → Budget
clear_halt_state_file b = elim b.halt_state_path [
  | none ↦ b
  | some _ ↦ if b.disk_works then record b { halt_file = missing } else b
]

unfoldable pub halt : HaltKind → Reason → Budget → Budget
unfolding persist_halt_state
halt kind reason b =
    if b.is_halted
    then b
    else let latched =
        persist_halt_state
          (record b { is_halted = true; halt_kind = some kind; halt_reason = some reason }) in
      record latched { hooks = latched.hooks ++ on_halt kind reason ∷ [] }

unfoldable pub halt_manually : String → Budget → Budget
unfolding halt
halt_manually reason b = halt operator (message reason) b

-- The operator's name only reaches the log.
unfoldable pub clear_halt : Budget → Budget
unfolding clear_halt_state_file
clear_halt b =
    let cleared =
      clear_halt_state_file
        (record b { is_halted = false; halt_kind = none; halt_reason = none }) in
    record cleared { hooks = cleared.hooks ++ on_resume ∷ [] }

unfoldable pub resume : String → Budget → Budget
unfolding clear_halt
resume name b = if b.is_halted then clear_halt b else b

-- `!parsed.reason` holds of the empty text too.
abbrev pub is_blank : Reason → Bool
is_blank (message s) = str_eq s ""
is_blank _ = false

unfoldable pub restore_saved : Option HaltKind → Option Reason → Budget → Budget
restore_saved (some kind) (some reason) b = if is_blank reason then b else record b {
  is_halted = true;
  halt_kind = some kind;
  halt_reason = some reason;
  hooks = b.hooks ++ on_halt kind reason ∷ [];
}
restore_saved _ _ b = b

unfoldable pub restore_file : HaltFile → Budget → Budget
unfolding restore_saved
restore_file missing b = b
restore_file unparsable b = b
restore_file (saved kind reason) b = restore_saved kind reason b

unfoldable pub restore_halt_state : Budget → Budget
unfolding restore_file
restore_halt_state b = elim b.halt_state_path [ none ↦ b | some _ ↦ restore_file b.halt_file b ]

-- The constructor, with the configuration that the defaults, the environment and the caller give.
unfoldable pub new : Config → Option String → HaltFile → Bool → Budget
unfolding restore_halt_state
new config path file disk_works = restore_halt_state (fresh config path file disk_works)
