-- ===== src/Prelude/Maps.antt =====
-- Maps and sets keyed by numbers, as functions: a change at one key.
use Prim.Native.Nat.{ℕ}
use mathlib.Core.Bool.{Bool, false}
use percolator_keeper.Prelude.Tests.{◌==◌, if◌then◌else◌}

abbrev pub update {ℓ} : {A : Type ℓ} → (ℕ → A) → ℕ → A → ℕ → A
update f k v j = if j == k then v else f j

abbrev pub NumberSet : Type 0
NumberSet = ℕ → Bool

abbrev pub empty_set : NumberSet
empty_set k = false
