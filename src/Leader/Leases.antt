-- ===== src/Leader/Leases.antt =====
-- src/lib/leader.ts: what Redis grants to a node, and what it keeps for the others.
use percolator_keeper.Prelude.{
  ℕ, ◌+◌, ◌≤◌, ◌≡◌, ◌≢◌, refl, sym, ap, ◌∙◌, subst, inl, inr, Option, none, some, arith, Bool-cases,
  Option-cases, ◌==◌, ==_iff,
}
use percolator_keeper.Leader.{Timing, Kind, acquire, look, claim, renew, granted}
use percolator_keeper.Leader.Server.{
  Redis, execute, expiry_ms, run_set, run_get, renew_script, renew_on, renew_if,
}

expiry_ms-ge : (t : Timing) → t.ttl_ms ≤ expiry_ms t
unfolding expiry_ms
expiry_ms-ge t = omega arith

set-grants :
    (r : Redis) (t : Timing) (now i : ℕ) (s : r.Store)
    → (run_set r t now i s).1 ≡ granted
    → r.Owned (run_set r t now i s).0 i (now + t.ttl_ms)
unfolding run_set
set-grants r t now i s h = elim (Option-cases (r.get_key now s)) [
  | inl e ↦
      r.owned_earlier _ i _ _ (omega (arith, expiry_ms-ge t)) (r.set_free s i now (expiry_ms t) e)
  | inr (j, e) ↦ absurd (ground (arith, h, ap (λ p. p.1) (r.set_taken s i j now (expiry_ms t) e)))
]

renew-grants :
    (r : Redis) (t : Timing) (now i : ℕ) (s : r.Store) (o : Option ℕ)
    → r.get_key now s ≡ o
    → (renew_on r t now i s o).1 ≡ granted
    → r.Owned (renew_on r t now i s o).0 i (now + t.ttl_ms)
renew-grants r t now i s none e h = absurd (ground (arith, h))
renew-grants r t now i s (some j) e h = elim (Bool-cases (j == i)) [
  | inl q ↦
      subst (λ b. r.Owned (renew_if r t now s b).0 i (now + t.ttl_ms)) (sym q)
        (r.pexpire_owned s i now t.ttl_ms (e ∙ ap some ((==_iff j i).0 q)))
  | inr q ↦ absurd (ground (arith, h, q))
]

get-refuses : (r : Redis) (now : ℕ) (s : r.Store) → (run_get r now s).1 ≢ granted
unfolding run_get
get-refuses r now s h = ground arith

-- A lease that Redis grants is the caller's for the whole time to live.
pub execute-grants :
    (r : Redis) (t : Timing) (now i : ℕ) (kind : Kind) (s : r.Store)
    → (execute r t now i kind s).1 ≡ granted
    → r.Owned (execute r t now i kind s).0 i (now + t.ttl_ms)
unfolding execute renew_script
execute-grants r t now i acquire s h = set-grants r t now i s h
execute-grants r t now i look s h = absurd (get-refuses r now s h)
execute-grants r t now i claim s h = set-grants r t now i s h
execute-grants r t now i renew s h = renew-grants r t now i s (r.get_key now s) refl h

-- What Redis keeps when it runs a request: every lease that is due within the time to live.
abbrev pub Keeps : (r : Redis) → Timing → ℕ → r.Store → r.Store → Type 0
Keeps r t now s s' = (j u : ℕ) → now ≤ u → u ≤ now + t.ttl_ms → r.Owned s j u → r.Owned s' j u

set-Keeps :
    (r : Redis) (t : Timing) (now i : ℕ) (s : r.Store) → Keeps r t now s (run_set r t now i s).0
unfolding run_set
set-Keeps r t now i s j u a b o =
    subst (λ p. r.Owned p.0 j u)
      (sym (r.set_taken s i j now (expiry_ms t) (r.get_owned s j now u a o))) o

renew-Keeps :
    (r : Redis) (t : Timing) (now i : ℕ) (s : r.Store)
    → Keeps r t now s (renew_script r t now i s).0
unfolding renew_script
renew-Keeps r t now i s j u a b o =
    let e = r.get_owned s j now u a o in
    subst (λ g. r.Owned (renew_on r t now i s g).0 j u) (sym e)
      (elim (Bool-cases (j == i)) [
        | inl q ↦
            subst (λ b. r.Owned (renew_if r t now s b).0 j u) (sym q)
              (subst (λ k. r.Owned (r.pexpire now t.ttl_ms s) k u) (sym ((==_iff j i).0 q))
                (r.owned_earlier _ i u _ b
                  (r.pexpire_owned s i now t.ttl_ms (e ∙ ap some ((==_iff j i).0 q)))))
        | inr q ↦ subst (λ b. r.Owned (renew_if r t now s b).0 j u) (sym q) o
      ])

get_same : (r : Redis) (now : ℕ) (s : r.Store) → (run_get r now s).0 ≡ s
unfolding run_get
get_same r now s = ground arith

get-Keeps : (r : Redis) (t : Timing) (now : ℕ) (s : r.Store) → Keeps r t now s (run_get r now s).0
get-Keeps r t now s j u a b o = subst (λ s'. r.Owned s' j u) (sym (get_same r now s)) o

pub execute-Keeps :
    (r : Redis) (t : Timing) (now i : ℕ) (kind : Kind) (s : r.Store)
    → Keeps r t now s (execute r t now i kind s).0
unfolding execute
execute-Keeps r t now i acquire s = set-Keeps r t now i s
execute-Keeps r t now i look s = get-Keeps r t now s
execute-Keeps r t now i claim s = set-Keeps r t now i s
execute-Keeps r t now i renew s = renew-Keeps r t now i s
