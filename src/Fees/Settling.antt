-- ===== src/Fees/Settling.antt =====
-- src/services/fee-crank.ts: what the fee crank sends, and that its legs do not disturb each other.
use percolator_keeper.Prelude.{
  ◌≡◌, refl, ap, ◌∙◌, Bool, true, false, Option, none, some, List, [], ◌∷◌, ◌++◌, if◌then◌else◌,
  filter, arith,
}
use percolator_keeper.Fees.Legs.{
  LegName, expire_backing_bucket, lp_vault_crank_fees, insurance_reserve_to_stake, protocol_fee,
  PendingWork, Snapshot, LegContext, detect_expire, detect_lp, detect_insurance, detect_protocol,
  detect, all_legs, LegSend, LegOutcome, send_pending_work, send_all, run_leg, run_legs_for_market,
  landed, deferred, threw,
}

abbrev pub same_leg : LegName → LegName → Bool
same_leg expire_backing_bucket expire_backing_bucket = true
same_leg lp_vault_crank_fees lp_vault_crank_fees = true
same_leg insurance_reserve_to_stake insurance_reserve_to_stake = true
same_leg protocol_fee protocol_fee = true
same_leg _ _ = false

abbrev pub of_leg : LegName → LegOutcome → Bool
of_leg leg o = same_leg o.leg leg

filter-append :
    {A : Type 0} (p : A → Bool) (xs ys : List A) → filter p (xs ++ ys) ≡ filter p xs ++ filter p ys
filter-append p [] ys = refl
filter-append p (x ∷ xs) ys = ground (arith, filter-append p xs ys)

send_pending_work-leg :
    (leg : LegName) (w : PendingWork) (r : LegSend) → (send_pending_work leg w r).leg ≡ leg
unfolding send_pending_work
send_pending_work-leg leg w (landed sig) = refl
send_pending_work-leg leg w deferred = refl
send_pending_work-leg leg w (threw code) = refl

module _ (send : PendingWork → LegSend) (leg of : LegName) where
  send_all-filtered :
      (ws : List PendingWork)
      → filter (of_leg of) (send_all send leg ws)
        ≡ (if same_leg leg of then send_all send leg ws else [])
  unfolding send_all
  send_all-filtered [] = ground arith
  send_all-filtered (w ∷ ws) =
      ground (
        arith,
        send_all-filtered ws,
        ap (λ l. same_leg l of) (send_pending_work-leg leg w (send w)),
      )

  run_leg-filtered :
      (o : Option (List PendingWork))
      → filter (of_leg of) (run_leg send leg o)
        ≡ (if same_leg leg of then run_leg send leg o else [])
  unfolding run_leg
  run_leg-filtered none = ground arith
  run_leg-filtered (some []) = ground arith
  run_leg-filtered (some (w ∷ ws)) = send_all-filtered (w ∷ ws)

append_nil : {A : Type 0} (xs : List A) → xs ++ [] ≡ xs
append_nil [] = refl
append_nil (x ∷ xs) = ap (λ l. x ∷ l) (append_nil xs)

module _ (send : LegName → PendingWork → LegSend) (ctx : LegContext) (s : Snapshot) where
  legs-filtered :
      (of leg : LegName) (legs : List LegName)
      → filter (of_leg of) (run_legs_for_market send ctx s (leg ∷ legs))
        ≡ (if same_leg leg of then run_leg (send leg) leg (detect leg ctx s) else [])
          ++ filter (of_leg of) (run_legs_for_market send ctx s legs)
  unfolding run_legs_for_market
  legs-filtered of leg legs =
      filter-append (of_leg of) (run_leg (send leg) leg (detect leg ctx s))
        (run_legs_for_market send ctx s legs)
      ∙ ap (λ l. l ++ filter (of_leg of) (run_legs_for_market send ctx s legs))
          (run_leg-filtered (send leg) leg of (detect leg ctx s))

  own_part : LegName → LegName → List LegOutcome
  own_part of leg = if same_leg leg of then run_leg (send leg) leg (detect leg ctx s) else []

  own_parts :
      (leg : LegName)
      → own_part leg expire_backing_bucket
          ++ (own_part leg lp_vault_crank_fees
              ++ (own_part leg insurance_reserve_to_stake ++ (own_part leg protocol_fee ++ [])))
        ≡ run_leg (send leg) leg (detect leg ctx s)
  unfolding own_part
  own_parts expire_backing_bucket = append_nil (run_leg _ _ (detect_expire ctx s))
  own_parts lp_vault_crank_fees = append_nil (run_leg _ _ (detect_lp ctx s))
  own_parts insurance_reserve_to_stake = append_nil (run_leg _ _ (detect_insurance ctx s))
  own_parts protocol_fee = append_nil (run_leg _ _ (detect_protocol ctx s))

  -- The outcomes of a leg on a market are those of its own run, in their order: a detection that
  -- throws, a rejection or a failed send of one leg takes nothing from the others.
  pub legs_are_independent :
      (leg : LegName)
      → filter (of_leg leg) (run_legs_for_market send ctx s all_legs)
        ≡ run_leg (send leg) leg (detect leg ctx s)
  unfolding own_part run_legs_for_market
  legs_are_independent leg =
      legs-filtered leg expire_backing_bucket
        (lp_vault_crank_fees ∷ insurance_reserve_to_stake ∷ protocol_fee ∷ [])
      ∙ ap (λ l. own_part leg expire_backing_bucket ++ l)
          (legs-filtered leg lp_vault_crank_fees (insurance_reserve_to_stake ∷ protocol_fee ∷ [])
            ∙ ap (λ l. own_part leg lp_vault_crank_fees ++ l)
                (legs-filtered leg insurance_reserve_to_stake (protocol_fee ∷ [])
                  ∙ ap (λ l. own_part leg insurance_reserve_to_stake ++ l)
                      (legs-filtered leg protocol_fee [])))
      ∙ own_parts leg
