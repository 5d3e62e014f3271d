-- ===== src/Budget/InFlight.antt =====
-- src/lib/budget.ts: reservations against the sends in flight. A caller settles each send that was
-- admitted exactly once, with the amount that it proposed (src/lib/keeper-send.ts does).
use percolator_keeper.Prelude.{
  ℕ, ◌+◌, ◌≡◌, refl, ap, sym, ◌∙◌, pos, negsuc, Num, finite, nan, infinite, true, false, arith,
  List, [], ◌∷◌, ◌++◌, length, length-append, subst,
}
use percolator_keeper.Budget.State.{TxType, TxResult, Budget}
use percolator_keeper.Budget.Window.{roll_cycle_if_elapsed, prune_old}
use percolator_keeper.Budget.Halting.{
  halt, halt_manually, resume, clear_halt, persist_halt_state, clear_halt_state_file,
}
use percolator_keeper.Budget.Admission.{can_spend, check_cost, check_caps, reserve}
use percolator_keeper.Budget.Settlement.{
  record_tx, adjust_for_realized_cost, adjust_amounts, begin_cycle, refresh,
}
use percolator_keeper.Budget.Trace.{
  Call, spends, records, adjusts, begins_cycle, reads_stats, halts, resumes, step,
}
use percolator_keeper.Budget.Caps.{admitted_within_caps}
use percolator_keeper.Budget.Landing.{record_tx_accounts}

abbrev pub sum : List ℕ → ℕ
sum [] = 0
sum (x ∷ xs) = x + sum xs

sum-append : (xs ys : List ℕ) → sum (xs ++ ys) ≡ sum xs + sum ys
sum-append [] ys = omega arith
sum-append (x ∷ xs) ys = omega (arith, sum-append xs ys)

-- The calls that neither admit nor settle a send.
abbrev pub IsOther : Call → Type 0
IsOther (spends cost t) = ⊥
IsOther (records cost result) = ⊥
IsOther _ = Unit {0}

-- A budget with the amounts in flight, newest first, and what its callers may do next.
pub data Moves (b : Budget) (f : List ℕ) (b' : Budget) (f' : List ℕ) : Type 0 where
  admitted :
      (now n : ℕ) (t : TxType)
      → can_spend now (finite (pos n)) t b ≡ (b', true)
      → f' ≡ n ∷ f
      → Moves b f b' f'
  refused :
      (now : ℕ) (cost : Num) (t : TxType)
      → can_spend now cost t b ≡ (b', false)
      → f' ≡ f
      → Moves b f b' f'
  settled :
      (now n : ℕ) (result : TxResult) (xs ys : List ℕ)
      → f ≡ xs ++ n ∷ ys
      → f' ≡ xs ++ ys
      → b' ≡ record_tx now (finite (pos n)) result b
      → Moves b f b' f'
  other : (now : ℕ) (c : Call) → IsOther c → b' ≡ step b (now, c) → f' ≡ f → Moves b f b' f'

pub data Runs (b : Budget) (f : List ℕ) : Budget → List ℕ → Type 0 where
  here : Runs b f b f
  next :
      {b' b'' : Budget} {f' f'' : List ℕ} → Runs b f b' f' → Moves b' f' b'' f'' → Runs b f b'' f''

-- The reservations are those of the sends in flight.
pub record Matches (b : Budget) (f : List ℕ) : Type 0 where
  pub lamports : b.reserved_lamports ≡ sum f
  pub slots : b.reserved_tx_count ≡ length f

abbrev held : Budget → ℕ × ℕ
held b = (b.reserved_lamports, b.reserved_tx_count)

held-roll : (now : ℕ) (b : Budget) → held (roll_cycle_if_elapsed now b) ≡ held b
unfolding roll_cycle_if_elapsed
held-roll now b = ground arith

held-refresh : (now : ℕ) (b : Budget) → held (refresh now b) ≡ held b
unfolding refresh prune_old
held-refresh now b = held-roll now b

held-check_caps :
    (b : Budget) (n : ℕ) (t : TxType)
    → (check_caps b n t).1 ≡ false
    → held (check_caps b n t).0 ≡ held b
unfolding check_caps halt persist_halt_state
held-check_caps b n t h = ground arith

held_refused :
    (now : ℕ) (cost : Num) (t : TxType) (b : Budget)
    → (can_spend now cost t b).1 ≡ false
    → held (can_spend now cost t b).0 ≡ held b
unfolding can_spend check_cost halt persist_halt_state prune_old
held_refused now (finite (pos n)) t b h =
    ground
      (arith, held-check_caps (prune_old now (roll_cycle_if_elapsed now b)) n t, held-roll now b)
held_refused now (finite (negsuc n)) t b h = ground arith
held_refused now nan t b h = ground arith
held_refused now infinite t b h = ground arith

held_other : (b : Budget) (now : ℕ) (c : Call) → IsOther c → held (step b (now, c)) ≡ held b
unfolding step adjust_for_realized_cost adjust_amounts prune_old halt_manually halt resume
    persist_halt_state clear_halt clear_halt_state_file begin_cycle
held_other b now (spends cost t) o = absurd o
held_other b now (records cost result) o = absurd o
held_other b now (adjusts (finite (pos e)) (finite (pos r))) o = held-roll now _
held_other b now (adjusts (finite (pos e)) (finite (negsuc r))) o = refl
held_other b now (adjusts (finite (pos e)) nan) o = refl
held_other b now (adjusts (finite (pos e)) infinite) o = refl
held_other b now (adjusts (finite (negsuc e)) r) o = refl
held_other b now (adjusts nan r) o = refl
held_other b now (adjusts infinite r) o = refl
held_other b now begins_cycle o = refl
held_other b now reads_stats o = held-refresh now b
held_other b now (halts reason) o = ground arith
held_other b now (resumes name) o = ground arith

Matches-held : (b b' : Budget) (f : List ℕ) → held b' ≡ held b → Matches b f → Matches b' f
Matches-held b b' f e m = ground arith

admitted-Matches :
    (b b' : Budget) (f : List ℕ) (now n : ℕ) (t : TxType)
    → can_spend now (finite (pos n)) t b ≡ (b', true)
    → Matches b f
    → Matches b' (n ∷ f)
unfolding reserve
admitted-Matches b b' f now n t e m =
    ground (arith, (admitted_within_caps b b' now n t e).1, held-refresh now b)

settled-Matches :
    (b : Budget) (now n : ℕ) (result : TxResult) (xs ys : List ℕ)
    → Matches b (xs ++ n ∷ ys)
    → Matches (record_tx now (finite (pos n)) result b) (xs ++ ys)
settled-Matches b now n result xs ys m = ground (
  arith,
  record_tx_accounts now n result b,
  held-roll now b,
  sum-append xs (n ∷ ys),
  sum-append xs ys,
  length-append xs (n ∷ ys),
  length-append xs ys,
)

pub Moves-Matches : {b b' : Budget} {f f' : List ℕ} → Moves b f b' f' → Matches b f → Matches b' f'
Moves-Matches {b} {b'} {f} (admitted now n t e q) m =
    subst (Matches b') (sym q) (admitted-Matches b b' f now n t e m)
Moves-Matches {b} {b'} {f} (refused now cost t e q) m = subst (Matches b') (sym q) (
    Matches-held b b' f (ap (λ r. held r.0) (sym e) ∙ held_refused now cost t b (ap (λ r. r.1) e))
      m)
Moves-Matches {b} {b'} {f} {f'} (settled now n result xs ys before after e) m =
    subst (λ s. Matches s f') (sym e)
      (subst (Matches _) (sym after)
        (settled-Matches b now n result xs ys (subst (Matches b) before m)))
Moves-Matches {b} {b'} {f} (other now c o e q) m =
    subst (Matches b') (sym q) (Matches-held b b' f (ap held e ∙ held_other b now c o) m)

-- If each admitted send is settled once with its amount, then the reservations are at any time those
-- of the sends in flight, whatever else is called: none leaks, and none is given back twice.
pub reservations_match :
    {b : Budget} {f : List ℕ} {b' : Budget} {f' : List ℕ}
    → Runs b f b' f'
    → Matches b f
    → Matches b' f'
reservations_match here m = m
reservations_match (next r move) m = Moves-Matches move (reservations_match r m)
