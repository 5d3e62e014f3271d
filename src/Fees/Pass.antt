-- ===== src/Fees/Pass.antt =====
-- src/services/fee-crank.ts: the pass over the markets, whose accounts are read in chunks.
use percolator_keeper.Prelude.{
  ℕ, zero, suc, ◌+◌, ◌*◌, ◌/◌, ◌≤◌, ◌≡◌, refl, sym, ap, ◌∙◌, Option, none, some, List, [], ◌∷◌,
  ◌++◌, length, take, drop, arith, take-append-drop, length-drop, length-take,
}

abbrev pub gma_chunk_size : ℕ
gma_chunk_size = 100

abbrev pub add_snapshot {ℓ} : {S : Type ℓ} → Option S → List S → List S
add_snapshot none ss = ss
add_snapshot (some s) ss = s ∷ ss

-- An account that is there, as what is built of it.
abbrev pub add_read {ℓ κ} : {A : Type ℓ} {S : Type κ} → Option A → (A → Option S) → List S → List S
add_read none build ss = ss
add_read (some a) build ss = add_snapshot (build a) ss

module _ {A : Type 0} where
  unfoldable pub join_answers :
      Option (List (Option A)) → Option (List (Option A)) → Option (List (Option A))
  join_answers (some xs) (some ys) = some (xs ++ ys)
  join_answers _ _ = none

  -- The chunks from `keys` on, with `n` rounds left. One that fails makes the whole fail.
  unfoldable pub fetch_rounds :
      (List ℕ → Option (List (Option A))) → ℕ → List ℕ → Option (List (Option A))
  unfolding join_answers
  fetch_rounds fetch zero keys = some []
  fetch_rounds fetch (suc n) keys =
      join_answers (fetch (take gma_chunk_size keys))
        (fetch_rounds fetch n (drop gma_chunk_size keys))

module _ {A S : Type 0} where
  -- `infos[i]` of market `i`; past the end it is undefined. `build` is buildSnapshot.
  unfoldable pub snapshots_of : (ℕ → A → Option S) → List ℕ → List (Option A) → List S
  snapshots_of build [] infos = []
  snapshots_of build (m ∷ ms) [] = []
  snapshots_of build (m ∷ ms) (none ∷ infos) = snapshots_of build ms infos
  snapshots_of build (m ∷ ms) (some a ∷ infos) =
      add_snapshot (build m a) (snapshots_of build ms infos)

  unfoldable pub snapshots_or_none : (ℕ → A → Option S) → List ℕ → Option (List (Option A)) → List S
  unfolding snapshots_of
  snapshots_or_none build markets none = []
  snapshots_or_none build markets (some infos) = snapshots_of build markets infos

  -- The snapshots of a pass.
  unfoldable pub load_snapshots :
      (List ℕ → Option (List (Option A))) → (ℕ → A → Option S) → List ℕ → List S
  unfolding fetch_rounds snapshots_or_none
  load_snapshots fetch build markets =
      snapshots_or_none build markets
        (fetch_rounds fetch ((length markets + 99) / gma_chunk_size) markets)

-- What single reads give: the account of each market, where it is there and can be parsed.
abbrev pub read_singly : {A S : Type 0} → (ℕ → Option A) → (ℕ → A → Option S) → List ℕ → List S
read_singly read build [] = []
read_singly read build (m ∷ ms) = add_read (read m) (build m) (read_singly read build ms)

module _ {A S : Type 0} (read : ℕ → Option A) (build : ℕ → A → Option S) where
  abbrev read_all : List ℕ → List (Option A)
  read_all [] = []
  read_all (m ∷ ms) = read m ∷ read_all ms

  read_all-append : (xs ys : List ℕ) → read_all (xs ++ ys) ≡ read_all xs ++ read_all ys
  read_all-append [] ys = refl
  read_all-append (x ∷ xs) ys = ap (λ l. read x ∷ l) (read_all-append xs ys)

  answer-snapshots :
      (m : ℕ) (ms : List ℕ) (o : Option A) (infos : List (Option A))
      → snapshots_of build (m ∷ ms) (o ∷ infos) ≡ add_read o (build m) (snapshots_of build ms infos)
  unfolding snapshots_of
  answer-snapshots m ms none infos = refl
  answer-snapshots m ms (some a) infos = refl

  snapshots-read_singly :
      (ms : List ℕ) → snapshots_of build ms (read_all ms) ≡ read_singly read build ms
  unfolding snapshots_of
  snapshots-read_singly [] = refl
  snapshots-read_singly (m ∷ ms) =
      answer-snapshots m ms (read m) (read_all ms)
      ∙ ap (add_read (read m) (build m)) (snapshots-read_singly ms)

  module _ (fetch : List ℕ → Option (List (Option A)))
      (fetch_answers : (keys : List ℕ)
        → length keys ≤ 100
        → fetch keys ≡ some (read_all keys)) where
    fetch_rounds-read_all :
        (n : ℕ) (keys : List ℕ)
        → length keys ≤ n * 100
        → fetch_rounds fetch n keys ≡ some (read_all keys)
    unfolding fetch_rounds join_answers
    fetch_rounds-read_all zero [] h = refl
    fetch_rounds-read_all zero (k ∷ ks) h = absurd (omega (arith, h))
    fetch_rounds-read_all (suc n) keys h =
        rw (fetch_answers (take gma_chunk_size keys) (length-take gma_chunk_size keys).0) (
          rw
            (fetch_rounds-read_all n (drop gma_chunk_size keys)
              (ground (arith, h, length-drop gma_chunk_size keys)))
            (ap some (
              sym (read_all-append (take gma_chunk_size keys) (drop gma_chunk_size keys))
              ∙ ap read_all (take-append-drop gma_chunk_size keys))))

    -- Where the RPC answers at most 100 keys with their accounts in their order, whatever it does with
    -- more, a pass over any number of markets pairs every market with its own account, as single
    -- reads would.
    pub chunks_read_singly :
        (markets : List ℕ) → load_snapshots fetch build markets ≡ read_singly read build markets
    unfolding load_snapshots snapshots_or_none
    chunks_read_singly markets =
        rw (fetch_rounds-read_all ((length markets + 99) / gma_chunk_size) markets (ground arith))
          (snapshots-read_singly markets)
