-- ===== src/Fraud/LastAlerts.antt =====
-- src/services/fraud-detector.ts: the map of the last alerts, which _setLastAlert bounds.
use percolator_keeper.Prelude.{
  ℕ, ◌+◌, ◌≤◌, ◌≡◌, ◌⊎◌, inl, inr, true, some, List, [], ◌∷◌, ◌==◌, length, arith, Bool-cases, drop,
  length-drop, max,
}
use percolator_keeper.Fraud.{last_alert, put_alert, has_alert, set_last_alert}

pub last_alert-put_alert :
    (mint ts k : ℕ) (alerts : List (ℕ × ℕ))
    → (last_alert (put_alert mint ts alerts) k ≡ some ts)
      ⊎ (last_alert (put_alert mint ts alerts) k ≡ last_alert alerts k)
unfolding last_alert put_alert
last_alert-put_alert mint ts k [] = ground arith
last_alert-put_alert mint ts k ((m, t) ∷ rest) = ground (arith, last_alert-put_alert mint ts k rest)

length-put_alert :
    (mint ts : ℕ) (alerts : List (ℕ × ℕ)) → length (put_alert mint ts alerts) ≤ length alerts + 1
unfolding put_alert
length-put_alert mint ts [] = omega arith
length-put_alert mint ts ((m, t) ∷ rest) = ground (arith, length-put_alert mint ts rest)

length-put_alert-known :
    (mint ts : ℕ) (alerts : List (ℕ × ℕ))
    → has_alert alerts mint ≡ true
    → length (put_alert mint ts alerts) ≡ length alerts
unfolding last_alert put_alert
length-put_alert-known mint ts [] h = absurd (ground (arith, h))
length-put_alert-known mint ts ((m, t) ∷ rest) h = elim (Bool-cases (m == mint)) [
  | inl same ↦ ground (arith, same)
  | inr other ↦
      ground (arith, other, length-put_alert-known mint ts rest (ground (arith, other, h)))
]

pub set_last_alert-IsBounded :
    (mint ts : ℕ) (alerts : List (ℕ × ℕ))
    → length (set_last_alert mint ts alerts) ≤ max 1_000 (length alerts)
unfolding set_last_alert
set_last_alert-IsBounded mint ts alerts = elim (Bool-cases (has_alert alerts mint)) [
  | inl known ↦ ground (arith, known, length-put_alert-known mint ts alerts known)
  | inr new ↦ ground (
    arith,
    new,
    length-put_alert mint ts alerts,
    length-put_alert mint ts (drop 1 alerts),
    length-drop 1 alerts,
  )
]

pub length-set_last_alert :
    (mint ts : ℕ) (alerts : List (ℕ × ℕ))
    → length (set_last_alert mint ts alerts) ≤ length alerts + 1
unfolding set_last_alert
length-set_last_alert mint ts alerts = ground (
  arith,
  length-put_alert mint ts alerts,
  length-put_alert mint ts (drop 1 alerts),
  length-drop 1 alerts,
)
