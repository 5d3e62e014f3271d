-- ===== src/Leader/Server.antt =====
-- The part of Redis that src/lib/leader.ts relies on, the renewal script, and the nodes around one key.
use percolator_keeper.Prelude.{
  ℕ, ◌+◌, ◌*◌, ◌/◌, ◌≤◌, ◌≡◌, Bool, true, false, Option, none, some, ◌==◌, if◌then◌else◌,
}
use percolator_keeper.Leader.{
  Timing, Kind, acquire, look, claim, renew, Answer, granted, denied, free, held,
}

-- The documented behaviour of a key with an expiry. `Owned s i t` says that the key has the value `i`
-- and does not expire before `t`.
pub record Redis : Type 1 where
  pub Store : Type 0
  pub get_key : ℕ → Store → Option ℕ
  pub set_nx : ℕ → ℕ → ℕ → Store → Store × Bool
  pub pexpire : ℕ → ℕ → Store → Store
  pub del : Store → Store
  pub Owned : Store → ℕ → ℕ → Type 0
  pub owned_earlier : (s : Store) (i t u : ℕ) → t ≤ u → Owned s i u → Owned s i t
  pub get_owned : (s : Store) (i now t : ℕ) → now ≤ t → Owned s i t → get_key now s ≡ some i
  pub set_taken :
      (s : Store) (i j now ms : ℕ) → get_key now s ≡ some j → set_nx now i ms s ≡ (s, false)
  pub set_free :
      (s : Store) (i now ms : ℕ) → get_key now s ≡ none → Owned (set_nx now i ms s).0 i (now + ms)
  pub pexpire_owned :
      (s : Store) (i now ms : ℕ) → get_key now s ≡ some i → Owned (pexpire now ms s) i (now + ms)

pub record Request : Type 0 where
  pub node : ℕ
  pub kind : Kind
  pub issued : ℕ
  pub answer : Option Answer

-- `ex: Math.ceil(ttl / 1000)`, in milliseconds.
unfoldable pub expiry_ms : Timing → ℕ
expiry_ms t = (t.ttl_ms + 999) / 1000 * 1000

-- RENEW_SCRIPT behind its GET and behind its comparison.
abbrev pub renew_if : (r : Redis) → Timing → ℕ → r.Store → Bool → r.Store × Answer
renew_if r t now s true = (r.pexpire now t.ttl_ms s, granted)
renew_if r t now s false = (s, denied)

abbrev pub renew_on : (r : Redis) → Timing → ℕ → ℕ → r.Store → Option ℕ → r.Store × Answer
renew_on r t now i s none = (s, denied)
renew_on r t now i s (some j) = renew_if r t now s (j == i)

unfoldable pub renew_script : (r : Redis) → Timing → ℕ → ℕ → r.Store → r.Store × Answer
renew_script r t now i s = renew_on r t now i s (r.get_key now s)

unfoldable pub run_set : (r : Redis) → Timing → ℕ → ℕ → r.Store → r.Store × Answer
unfolding expiry_ms
run_set r t now i s =
    let (s', ok) = r.set_nx now i (expiry_ms t) s in (s', if ok then granted else denied)

unfoldable pub run_get : (r : Redis) → ℕ → r.Store → r.Store × Answer
run_get r now s = elim (r.get_key now s) [ none ↦ (s, free) | some j ↦ (s, held) ]

-- The request as Redis runs it, at the time when it does.
unfoldable pub execute : (r : Redis) → Timing → ℕ → ℕ → Kind → r.Store → r.Store × Answer
unfolding run_set run_get renew_script
execute r t now i acquire s = run_set r t now i s
execute r t now i look s = run_get r now s
execute r t now i claim s = run_set r t now i s
execute r t now i renew s = renew_script r t now i s
