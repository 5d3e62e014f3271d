-- ===== src/Budget/Ledger.antt =====
-- src/lib/budget.ts: an event log with its running sum against the history of all that was booked.
use percolator_keeper.Prelude.{
  ℕ, ◌+◌, ◌≤◌, ◌≡◌, refl, sym, ap, ◌∙◌, ℤ, pos, ◌+ℤ◌, ◌-ℤ◌, +ℤ_assoc, +ℤ_cancel_left, int_laws,
  List, [], ◌∷◌, ◌++◌, All, All-append, arith, ltb, if◌then◌else◌, Bool-cases, ltb→le, inl, inr,
}
use percolator_keeper.Budget.State.{SpendEvent, Ledger}
use percolator_keeper.Budget.Window.{prune_events, prune_ledger, book}

-- The amounts of a log, added up.
abbrev pub total : List SpendEvent → ℤ
total [] = pos 0
total (e ∷ es) = e.lamports +ℤ total es

-- The amounts of the last `age` milliseconds before `now`, added up.
abbrev pub total_within : ℕ → ℕ → List SpendEvent → ℤ
total_within age now [] = pos 0
total_within age now (e ∷ es) =
    let rest = total_within age now es in if ltb (e.ts + age) now then rest else e.lamports +ℤ rest

-- The times do not fall along the log, and are not below the bound.
abbrev pub IsSorted : ℕ → List SpendEvent → Type 0
IsSorted low [] = Unit {0}
IsSorted low (e ∷ es) = (low ≤ e.ts) × IsSorted e.ts es

abbrev pub IsPast : ℕ → List SpendEvent → Type 0
IsPast now = All (λ e. e.ts ≤ now)

total-append : (es fs : List SpendEvent) → total (es ++ fs) ≡ total es +ℤ total fs
total-append [] fs = omega int_laws
total-append (e ∷ es) fs =
    ap (λ (s : ℤ). e.lamports +ℤ s) (total-append es fs)
    ∙ sym (+ℤ_assoc e.lamports (total es) (total fs))

total_within-append :
    (age now : ℕ) (es fs : List SpendEvent)
    → total_within age now (es ++ fs) ≡ total_within age now es +ℤ total_within age now fs
total_within-append age now [] fs = omega int_laws
total_within-append age now (e ∷ es) fs = elim (Bool-cases (ltb (e.ts + age) now)) [
  | inl old ↦ rw old (total_within-append age now es fs)
  | inr new ↦ rw new (
      ap (λ (s : ℤ). e.lamports +ℤ s) (total_within-append age now es fs)
      ∙ sym (+ℤ_assoc e.lamports (total_within age now es) (total_within age now fs)))
]

total_within_recent :
    (age now low : ℕ) (es : List SpendEvent)
    → IsSorted low es
    → now ≤ low + age
    → total_within age now es ≡ total es
total_within_recent age now low [] s h = refl
total_within_recent age now low (e ∷ es) s h =
    ground (arith, total_within_recent age now e.ts es s.1)

-- The log tracks a history up to a time: it is sorted, its sum is exact, and it agrees with the
-- history on every window that ends later.
pub record Tracks (age time : ℕ) (history : List SpendEvent) (l : Ledger) : Type 0 where
  pub exact : l.sum ≡ total l.events
  pub sorted : IsSorted 0 l.events
  pub past : IsPast time l.events
  pub same : (now : ℕ) → time ≤ now → total_within age now l.events ≡ total_within age now history

IsPast-mono : (t t' : ℕ) (es : List SpendEvent) → t ≤ t' → IsPast t es → IsPast t' es
IsPast-mono t t' [] h p = tt
IsPast-mono t t' (e ∷ es) h p = (omega arith, IsPast-mono t t' es h p.1)

IsSorted-snoc :
    (low : ℕ) (es : List SpendEvent) (x : SpendEvent)
    → low ≤ x.ts
    → IsSorted low es
    → IsPast x.ts es
    → IsSorted low (es ++ x ∷ [])
IsSorted-snoc low [] x h s p = (h, tt)
IsSorted-snoc low (e ∷ es) x h s p = (s.0, IsSorted-snoc e.ts es x p.0 s.1 p.1)

pub Tracks-later :
    {age time time' : ℕ} {history : List SpendEvent} {l : Ledger}
    → time ≤ time'
    → Tracks age time history l
    → Tracks age time' history l
Tracks-later {time} {time'} {l} h tracked = record {
  exact = tracked.exact;
  sorted = tracked.sorted;
  past = IsPast-mono time time' l.events h tracked.past;
  same = λ now q. tracked.same now (omega arith);
}

-- Booking an amount adds it to the log and to the history.
pub Tracks-book :
    {age time : ℕ} {history : List SpendEvent} {l : Ledger} (amount : ℤ)
    → Tracks age time history l
    → Tracks age time (history ++ record { ts = time; lamports = amount } ∷ []) (book time amount l)
unfolding book
Tracks-book {age} {time} {history} {l} amount tracked =
    let new : List SpendEvent = record { ts = time; lamports = amount } ∷ [] in
    record {
      exact =
          ap (λ (s : ℤ). s +ℤ amount) tracked.exact
          ∙ omega int_laws
          ∙ sym (total-append l.events new);
      sorted = IsSorted-snoc 0 l.events _ (omega arith) tracked.sorted tracked.past;
      past = All-append (λ e. e.ts ≤ time) l.events new tracked.past (omega arith, tt);
      same = λ now q.
          total_within-append age now l.events new
          ∙ ap (λ (s : ℤ). s +ℤ total_within age now new) (tracked.same now q)
          ∙ sym (total_within-append age now history new);
    }

prune_events_exact :
    (age now : ℕ) (es : List SpendEvent) (sum : ℤ)
    → sum ≡ total es
    → (prune_events age now es sum).sum ≡ total (prune_events age now es sum).events
unfolding prune_events
prune_events_exact age now [] sum h = h
prune_events_exact age now (e ∷ es) sum h = elim (Bool-cases (ltb (e.ts + age) now)) [
  | inl old ↦
      rw old
        (prune_events_exact age now es (sum -ℤ e.lamports) (taken_off e.lamports sum (total es) h))
  | inr new ↦ rw new h
]
  where
    taken_off : (a s t : ℤ) → s ≡ a +ℤ t → s -ℤ a ≡ t
    taken_off a s t q = ap (λ (x : ℤ). x -ℤ a) q ∙ +ℤ_cancel_left a t

IsSorted-weaken :
    (low low' : ℕ) (es : List SpendEvent) → low' ≤ low → IsSorted low es → IsSorted low' es
IsSorted-weaken low low' [] h s = tt
IsSorted-weaken low low' (e ∷ es) h s = (omega arith, s.1)

prune_events-IsSorted :
    (age now : ℕ) (es : List SpendEvent) (sum : ℤ) (low : ℕ)
    → IsSorted low es
    → IsSorted low (prune_events age now es sum).events
unfolding prune_events
prune_events-IsSorted age now [] sum low s = tt
prune_events-IsSorted age now (e ∷ es) sum low s = elim (Bool-cases (ltb (e.ts + age) now)) [
  | inl old ↦ rw old (
      prune_events-IsSorted age now es (sum -ℤ e.lamports) low
        (IsSorted-weaken e.ts low es s.0 s.1))
  | inr new ↦ rw new s
]

prune_events-IsPast :
    (age now : ℕ) (es : List SpendEvent) (sum : ℤ) (time : ℕ)
    → IsPast time es
    → IsPast time (prune_events age now es sum).events
unfolding prune_events
prune_events-IsPast age now [] sum time p = tt
prune_events-IsPast age now (e ∷ es) sum time p =
    ground (arith, prune_events-IsPast age now es (sum -ℤ e.lamports) time p.1)

-- What pruning drops is outside of every window that ends later.
prune_events-same :
    (age now : ℕ) (es : List SpendEvent) (sum : ℤ) (later : ℕ)
    → now ≤ later
    → total_within age later (prune_events age now es sum).events ≡ total_within age later es
unfolding prune_events
prune_events-same age now [] sum later h = refl
prune_events-same age now (e ∷ es) sum later h =
    ground (arith, prune_events-same age now es (sum -ℤ e.lamports) later h)

-- What pruning keeps of a sorted log is inside of the window.
prune_events-recent :
    (age now : ℕ) (es : List SpendEvent) (sum : ℤ) (low : ℕ)
    → IsSorted low es
    → total_within age now (prune_events age now es sum).events
      ≡ total (prune_events age now es sum).events
unfolding prune_events
prune_events-recent age now [] sum low s = refl
prune_events-recent age now (e ∷ es) sum low s = elim (Bool-cases (ltb (e.ts + age) now)) [
  | inl old ↦ rw old (prune_events-recent age now es (sum -ℤ e.lamports) e.ts s.1)
  | inr new ↦
      rw (new, new)
        (ap (λ (x : ℤ). e.lamports +ℤ x)
          (total_within_recent age now e.ts es s.1 (ltb→le (e.ts + age) now new)))
]

pub Tracks-prune :
    {age time : ℕ} {history : List SpendEvent} {l : Ledger}
    → Tracks age time history l
    → Tracks age time history (prune_ledger age time l)
unfolding prune_ledger
Tracks-prune {age} {time} {history} {l} tracked = record {
  exact = prune_events_exact age time l.events l.sum tracked.exact;
  sorted = prune_events-IsSorted age time l.events l.sum 0 tracked.sorted;
  past = prune_events-IsPast age time l.events l.sum time tracked.past;
  same = λ now q. prune_events-same age time l.events l.sum now q ∙ tracked.same now q;
}

-- After pruning, the running sum is the sum of all that was ever booked in the last `age`
-- milliseconds.
pub Tracks-sum :
    {age time : ℕ} {history : List SpendEvent} {l : Ledger}
    → Tracks age time history l
    → (prune_ledger age time l).sum ≡ total_within age time history
Tracks-sum {age} {time} {history} {l} tracked =
    let pruned = Tracks-prune tracked in
    pruned.exact ∙ sym (recent age time l tracked.sorted) ∙ pruned.same time (omega arith)
  where
    recent :
        (age time : ℕ) (l : Ledger)
        → IsSorted 0 l.events
        → total_within age time (prune_ledger age time l).events
          ≡ total (prune_ledger age time l).events
    recent age time l s = unfold prune_ledger in prune_events-recent age time l.events l.sum 0 s
