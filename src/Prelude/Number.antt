-- ===== src/Prelude/Number.antt =====
-- A JavaScript number as the keeper's guards tell it apart: an integer amount, or a value that
-- `Number.isFinite` refuses. Amounts are lamports, which the source computes by integer arithmetic.
use percolator_keeper.Prelude.Int.{ℤ}

pub data Num : Type 0 where
  finite : ℤ → Num
  nan : Num
  infinite : Num
