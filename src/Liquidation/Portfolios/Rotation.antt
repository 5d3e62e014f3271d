-- ===== src/Liquidation/Portfolios/Rotation.antt =====
-- src/services/liquidation.ts: the rotating window of scanV17Portfolios reaches every portfolio.
use native.Mathlib.Nat.{mod-lt, mod-eq_of_lt, mod-eq-sub-mod}
use percolator_keeper.Prelude.{
  ℕ, zero, suc, ◌+◌, ◌-◌, ◌*◌, ◌/◌, ◌%◌, ◌≤◌, ◌<◌, ◌≡◌, sym, ap, subst, ◌∙◌, false, Option, some,
  List, arith, tests, lt→ltb, ltb→le, ltb→lt, ltb, leb, ◌==◌, ==_iff, if◌then◌else◌, length,
  get_elem?, count_if, count_if-sort, length-sort, place_of_count, Bool-cases, inl, inr,
}
use percolator_keeper.Risk.{or_zero}
use percolator_keeper.Liquidation.Portfolios.{
  ordered, start_offset, window_from, rotating_window, next_cursor,
}

-- How often a key is in a list.
abbrev pub times : ℕ → List ℕ → ℕ
times key keys = count_if (λ k. k == key) keys

-- The cursor after `n` scans of the same portfolios.
abbrev pub cursor_after : List ℕ → ℕ → Option ℕ → Option ℕ
cursor_after raw zero cursor = cursor
cursor_after raw (suc n) cursor = cursor_after raw n (next_cursor raw cursor)

sum_wraps : (s k t : ℕ) → s < t → k < t → (s + k) % t ≡ (if ltb (s + k) t then s + k else s + k - t)
sum_wraps s k t a b = elim (Bool-cases (ltb (s + k) t)) [
  | inl h ↦ rw h (mod-eq_of_lt (omega tests))
  | inr h ↦ rw h (mod-eq-sub-mod (omega tests) ∙ mod-eq_of_lt (omega tests))
]

in_window :
    (keys : List ℕ) (start n k j key : ℕ)
    → k ≤ j
    → j < k + n
    → get_elem? keys ((start + j) % length keys) ≡ some key
    → 0 < times key (window_from keys start n k)
unfolding window_from
in_window keys start zero k j key a b e = absurd (omega arith)
in_window keys start (suc n) k j key a b e = elim (Bool-cases (k == j)) [
  | inl h ↦
      let here =
        subst (λ i. get_elem? keys ((start + i) % length keys) ≡ some key) (sym ((==_iff k j).0 h))
          e in
      ground (arith, here)
  | inr h ↦ ground (arith, in_window keys start n (k + 1) j key)
]

start_offset-lt : (t : ℕ) (cursor : Option ℕ) → 0 < t → start_offset t cursor < t
unfolding start_offset
start_offset-lt t cursor h = mod-lt (or_zero cursor % t + t) h

start_offset_within : (t v : ℕ) → v < t → start_offset t (some v) ≡ v
unfolding start_offset
start_offset_within t v h =
    let e = mod-eq_of_lt h in
    rw e (mod-eq-sub-mod (omega arith) ∙ ap (λ x. x % t) (omega arith) ∙ e)

-- How far place `i` of `t` places is ahead of place `s`, going round.
abbrev ahead : ℕ → ℕ → ℕ → ℕ
ahead t s i = if leb s i then i - s else i + t - s

ahead_reaches : (t s i : ℕ) → s < t → i < t → (s + ahead t s i) % t ≡ i
ahead_reaches t s i a b = sum_wraps s (ahead t s i) t a (ground arith) ∙ ground arith

ahead_bound : (t s i : ℕ) → s < t → i < t → ahead t s i < 512 * (t / 512 + 1)
ahead_bound t s i a b = ground arith

ahead_moves :
    (t s i : ℕ)
    → 512 < t
    → s < t
    → i < t
    → 512 ≤ ahead t s i
    → ahead t ((s + 512) % t) i + 512 ≡ ahead t s i
ahead_moves t s i big a b far = rw (sum_wraps s 512 t a big) (ground arith)

next_start :
    (raw : List ℕ) (cursor : Option ℕ)
    → 512 < length raw
    → start_offset (length raw) (next_cursor raw cursor)
      ≡ (start_offset (length raw) cursor + 512) % length raw
unfolding next_cursor
next_start raw cursor big = rw (lt→ltb 512 (length raw) big) (
    start_offset_within (length raw) ((start_offset (length raw) cursor + 512) % length raw)
      (mod-lt _ (omega arith)))

length-ordered : (raw : List ℕ) → length (ordered raw) ≡ length raw
unfolding ordered
length-ordered raw = ground (arith, length-sort leb raw)

times-ordered : (key : ℕ) (raw : List ℕ) → times key (ordered raw) ≡ times key raw
unfolding ordered
times-ordered key raw = ground (arith, count_if-sort leb (λ (k : ℕ). k == key) raw)

window_reaches :
    (raw : List ℕ) (cursor : Option ℕ) (i key : ℕ)
    → 512 < length raw
    → i < length raw
    → get_elem? (ordered raw) i ≡ some key
    → ahead (length raw) (start_offset (length raw) cursor) i < 512
    → 0 < times key (rotating_window raw cursor)
unfolding rotating_window
window_reaches raw cursor i key big inside at_i near =
    let t = length raw in
    let s = start_offset t cursor in
    let same : length (ordered raw) ≡ t = length-ordered raw in
    let place = ahead_reaches t s i (start_offset-lt t cursor (omega arith)) inside in
    rw (lt→ltb 512 t big)
      (in_window (ordered raw) s 512 0 (ahead t s i) key (omega arith) near (rw (same, place) at_i))

window_of_small :
    (raw : List ℕ) (cursor : Option ℕ) (key : ℕ)
    → ltb 512 (length raw) ≡ false
    → 0 < times key raw
    → 0 < times key (rotating_window raw cursor)
unfolding rotating_window
window_of_small raw cursor key small h = rw small (omega (arith, times-ordered key raw))

cycles_reach :
    (raw : List ℕ) (cursor : Option ℕ) (i key j : ℕ)
    → 512 < length raw
    → i < length raw
    → get_elem? (ordered raw) i ≡ some key
    → ahead (length raw) (start_offset (length raw) cursor) i < 512 * (j + 1)
    → (m : ℕ) × (m ≤ j) × (0 < times key (rotating_window raw (cursor_after raw m cursor)))
cycles_reach raw cursor i key zero big inside at_i near =
    (0, omega arith, window_reaches raw cursor i key big inside at_i (omega arith))
cycles_reach raw cursor i key (suc j) big inside at_i near =
    let t = length raw in
    let s = start_offset t cursor in
    elim (Bool-cases (ltb (ahead t s i) 512)) [
      | inl h ↦ (0, omega arith, window_reaches raw cursor i key big inside at_i (omega tests))
      | inr h ↦
          let moves =
            ahead_moves t s i big (start_offset-lt t cursor (omega arith)) inside
              (ltb→le (ahead t s i) 512 h) in
          let start = next_start raw cursor big in
          let (m, le, there) =
            cycles_reach raw (next_cursor raw cursor) i key j big inside at_i
              (rw start (omega (arith, moves, near))) in
          (suc m, omega arith, there)
    ]

-- However the portfolios of a market were listed and wherever its cursor stands: while the list of
-- portfolios stays the same, each one is in the window of some scan among the next ones, at the latest
-- in the scan after as many as the number of portfolios divided by 512.
pub rotation_reaches_all :
    (raw : List ℕ) (cursor : Option ℕ) (key : ℕ)
    → 0 < times key raw
    → (m : ℕ) × (m ≤ length raw / 512)
      × (0 < times key (rotating_window raw (cursor_after raw m cursor)))
rotation_reaches_all raw cursor key h = elim (Bool-cases (ltb 512 (length raw))) [
  | inl big ↦
      let (i, v, inside, at_i, same) =
        place_of_count (λ (k : ℕ). k == key) (ordered raw) (omega (arith, times-ordered key raw)) in
      let at_key = subst (λ x. get_elem? (ordered raw) i ≡ some x) ((==_iff v key).0 same) at_i in
      cycles_reach raw cursor i key (length raw / 512) (ltb→lt 512 (length raw) big)
        (omega (arith, length-ordered raw)) at_key
        (ahead_bound (length raw) _ i (start_offset-lt (length raw) cursor (ground arith))
          (omega (arith, length-ordered raw)))
  | inr small ↦ (0, omega arith, window_of_small raw cursor key small h)
]
