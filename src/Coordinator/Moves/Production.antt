-- ===== src/Coordinator/Moves/Production.antt =====
-- How outcomes, production orders and observations move the claims.
use mathlib.Core.List.{append_assoc}
use mod_playerbots_economy.Prelude.{
  ℕ, ◌==◌, ◌+◌, ◌-◌, ◌≡◌, refl, ap, sym, subst, ◌∙◌, Bool, true, false, not, ◌&&◌, ◌||◌, List, [],
  ◌∷◌, ◌++◌, Option, none, some, Text, leb, is_some, if◌then◌else◌, if_elim, bool_elim,
  option_split, nat_eq, All-replace,
}
use mod_playerbots_economy.Coordinator.Types.{
  EconomyAssignment, EconomyAssignmentOutcome, EconomyProductionOutput, EconomyProductionRequest,
  EconomyProductionRecipe,
}
use mod_playerbots_economy.Coordinator.State.{Gaps, Coordinator, locked, add_claims}
use mod_playerbots_economy.Coordinator.Outcome.{is_leased, settle_claim, expire_locked}
use mod_playerbots_economy.Coordinator.Excess.{Place}
use mod_playerbots_economy.Coordinator.Capability.{begin_work, sync_and_reconcile}
use mod_playerbots_economy.Coordinator.Production.{
  place_of, end_record, record_at, record_outcome, record_output_at, record_production_output,
  record_production_inventory, snapshot, committed_with,
}
use mod_playerbots_economy.Coordinator.Orders.{
  Retention, retain_order, with_expiry, place_kept, end_retention, retain_production,
}
use mod_playerbots_economy.Coordinator.Observation.{observe_actor}
use mod_playerbots_economy.Coordinator.Moves.{
  IsOrderly, Orderly, Moves, Moves-refl, counts, adjusts, joins,
}
use mod_playerbots_economy.Coordinator.Moves.Chains.{sync_chains-Moves}
use mod_playerbots_economy.Coordinator.Moves.Claims.{
  apply_outcome-Moves, apply_outcome-claims, expire_locked-Moves,
}
use mod_playerbots_economy.Coordinator.Moves.Excess.{place_at-claims}
use mod_playerbots_economy.Coordinator.Moves.Work.{
  advance-Moves, begin_work-Moves, sync_and_reconcile-Moves,
}
use mod_playerbots_economy.Coordinator.Moves.Facts.{locked-Moves}

pub place_of-claims :
    (id : ℕ) (before claims : List EconomyAssignment) (p : Place)
    → place_of id before claims ≡ some p
    → before ++ claims ≡ p.before ++ p.claim ∷ p.after
unfolding place_of
place_of-claims id before [] p h = cc
place_of-claims id before (c ∷ cs) p e =
    if_elim (λ (o : Option Place). o ≡ some p → before ++ c ∷ cs ≡ p.before ++ p.claim ∷ p.after)
      (c.lease_id == id) here
      (λ h. sym (append_assoc before (c ∷ []) cs) ∙ place_of-claims id (before ++ c ∷ []) cs p h) e
  where
    here :
        some (record { before = before; claim = c; after = cs }) ≡ some p
        → before ++ c ∷ cs ≡ p.before ++ p.claim ∷ p.after
    here e = cc

retain_order-Moves :
    (is_open is_kept : EconomyAssignment → Bool) (now : ℕ) (claims : List EconomyAssignment) (n : ℕ)
    (before : List EconomyAssignment) (r : Retention)
    → r.state.claims ≡ before ++ claims
    → Moves r.state (retain_order is_open is_kept now n before claims r).state
unfolding retain_order
retain_order-Moves is_open is_kept now [] n before r e = Moves-refl r.state
retain_order-Moves is_open is_kept now (c ∷ after) n before r e =
    let outcome : EconomyAssignmentOutcome =
      if is_kept c
      then EconomyAssignmentOutcome.need_changed
      else EconomyAssignmentOutcome.capability_lost in
    let d : EconomyAssignment = settle_claim outcome c.committed_quantity now c in
    let behind : r.state.claims ≡ (before ++ c ∷ []) ++ after =
      e ∙ sym (append_assoc before (c ∷ []) after) in
    let moved = λ (x : Retention). Moves r.state x.state in
    bool_elim moved (is_open c)
      (bool_elim moved (not (is_some r.retained) && is_kept c)
        (retain_order-Moves is_open is_kept now after (n + 1) (before ++ c ∷ []) _ behind)
        (joins (apply_outcome-Moves before c after outcome c.committed_quantity now r.state e) (
          retain_order-Moves is_open is_kept now after (n + 1) (before ++ d ∷ []) _ (
            apply_outcome-claims before c after outcome c.committed_quantity now r.state
            ∙ sym (append_assoc before (d ∷ []) after)))))
      (retain_order-Moves is_open is_kept now after (n + 1) (before ++ c ∷ []) r behind)

-- A new expiry adds nothing to the totals.
add_claims-expiry :
    (expires_at : ℕ) (c : EconomyAssignment) (before after : List EconomyAssignment) (gaps : Gaps)
    → add_claims (before ++ record c { expires_at = expires_at } ∷ after) gaps
      ≡ add_claims (before ++ c ∷ after) gaps
unfolding add_claims
add_claims-expiry expires_at c [] after gaps = refl
add_claims-expiry expires_at c (x ∷ before) after gaps =
    add_claims-expiry expires_at c before after _

expiry-IsOrderly :
    (expires_at : ℕ) (c : EconomyAssignment)
    → IsOrderly c
    → IsOrderly (record c { expires_at = expires_at })
expiry-IsOrderly expires_at c h = record {
  positive = h.positive;
  small = h.small;
  within = h.within;
  bridged = h.bridged;
  unbridged = h.unbridged;
}

with_expiry-Moves :
    (expires_at : ℕ) (p : Place) (st : Coordinator)
    → st.claims ≡ p.before ++ p.claim ∷ p.after
    → Moves st (with_expiry expires_at p st)
unfolding with_expiry
with_expiry-Moves expires_at p st e =
    adjusts refl
      (λ o.
        All-replace IsOrderly p.before p.after (expiry-IsOrderly expires_at p.claim)
          (subst Orderly e o))
      (λ gaps.
        add_claims-expiry expires_at p.claim p.before p.after gaps
        ∙ ap (λ cs. add_claims cs gaps) (sym e))

place_kept-claims :
    (retained : Option ℕ) (claims : List EconomyAssignment) (p : Place)
    → place_kept retained claims ≡ some p
    → claims ≡ p.before ++ p.claim ∷ p.after
unfolding place_kept
place_kept-claims none claims p e = cc
place_kept-claims (some n) claims p e = place_at-claims n [] claims p e

module _ (draw : ℕ → ℕ → Text) where
  end_record-Moves :
      (expired changed : Bool) (now : ℕ) (st : Coordinator)
      → Moves st (end_record draw expired changed now st)
  unfolding end_record
  end_record-Moves expired changed now st =
      let synced : Coordinator =
        if expired || changed then sync_and_reconcile draw now st else st in
      joins
        (if_elim (Moves st) (expired || changed) (sync_and_reconcile-Moves draw now st)
          (Moves-refl st))
        (if_elim (Moves synced) changed (advance-Moves synced) (Moves-refl synced))

  record_at-Moves :
      (p : Place) (outcome : EconomyAssignmentOutcome) (committed : ℕ) (expired : Bool) (now : ℕ)
      (st : Coordinator)
      → st.claims ≡ p.before ++ p.claim ∷ p.after
      → Moves st (record_at draw p outcome committed expired now st)
  unfolding record_at
  record_at-Moves p outcome committed expired now st e =
      joins (apply_outcome-Moves p.before p.claim p.after outcome committed now st e)
        (end_record-Moves expired _ now _)

  pub record_outcome-Moves :
      (lease_id : ℕ) (outcome : EconomyAssignmentOutcome) (committed now : ℕ) (st : Coordinator)
      → Moves st (record_outcome draw lease_id outcome committed now st).0
  unfolding record_outcome
  record_outcome-Moves lease_id outcome committed now st =
      let live : Coordinator × Bool = expire_locked now true (locked st) in
      let arrives = joins (locked-Moves st) (expire_locked-Moves now true (locked st)) in
      let moved = λ (r : Coordinator × Bool). Moves st r.0 in
      let ended = joins arrives (end_record-Moves live.1 false now live.0) in
      option_split moved (place_of lease_id [] live.0.claims) (λ e. ended)
        (λ p e.
          if_elim moved (is_leased p.claim)
            (joins arrives (
              record_at-Moves p outcome committed live.1 now live.0
                (place_of-claims lease_id [] live.0.claims p e)))
            ended)

  pub record_production_output-Moves :
      (lease_id produced now : ℕ) (st : Coordinator)
      → Moves st (record_production_output draw lease_id produced now st).0
  unfolding record_production_output record_output_at
  record_production_output-Moves lease_id produced now st =
      let live : Coordinator × Bool = expire_locked now true (locked st) in
      let arrives = joins (locked-Moves st) (expire_locked-Moves now true (locked st)) in
      let moved = λ (r : Coordinator × EconomyProductionOutput). Moves st r.0 in
      let ended = joins arrives (end_record-Moves live.1 false now live.0) in
      option_split moved (place_of lease_id [] live.0.claims) (λ e. ended)
        (λ p e.
          if_elim moved _
            (joins arrives (
              record_at-Moves p _ (committed_with p.claim produced) live.1 now live.0
                (place_of-claims lease_id [] live.0.claims p e)))
            ended)

  pub record_production_inventory-Moves :
      (lease_id starting current now : ℕ) (st : Coordinator)
      → Moves st (record_production_inventory draw lease_id starting current now st).0
  unfolding record_production_inventory
  record_production_inventory-Moves lease_id starting current now st =
      if_elim (λ (r : Coordinator × EconomyProductionOutput). Moves st r.0) (leb current starting)
        (Moves-refl st) (record_production_output-Moves lease_id (current - starting) now st)

  pub snapshot-Moves : (now : ℕ) (st : Coordinator) → Moves st (snapshot draw now st).0
  unfolding snapshot
  snapshot-Moves now st = joins (begin_work-Moves draw now st) (counts (begin_work draw now st))

  pub observe_actor-Moves :
      (guid now : ℕ) (st : Coordinator) → Moves st (observe_actor draw guid now st).0
  unfolding observe_actor
  observe_actor-Moves guid now st = begin_work-Moves draw now st

  end_retention-Moves :
      (r : EconomyProductionRequest) (now : ℕ) (kept : Retention)
      → Moves kept.state (end_retention draw r now kept).0
  unfolding end_retention
  end_retention-Moves r now kept =
      let moved = λ (x : Coordinator × Option EconomyAssignment). Moves kept.state x.0 in
      option_split moved (place_kept kept.retained kept.state.claims)
        (λ e.
          if_elim (Moves kept.state) kept.is_changed
            (joins (sync_and_reconcile-Moves draw now kept.state) (advance-Moves _))
            (Moves-refl kept.state))
        (λ p e.
          let renewed : Coordinator = with_expiry r.expires_at p kept.state in
          joins
            (with_expiry-Moves r.expires_at p kept.state
              (place_kept-claims kept.retained kept.state.claims p e))
            (if_elim (Moves renewed) kept.is_changed
              (joins (sync_and_reconcile-Moves draw now renewed) (advance-Moves _))
              (if_elim (Moves renewed) (not (p.claim.expires_at == r.expires_at))
                (joins (sync_chains-Moves draw now renewed) (advance-Moves _))
                (Moves-refl renewed))))

  pub retain_production-Moves :
      (r : EconomyProductionRequest) (recipes : List EconomyProductionRecipe) (now : ℕ)
      (st : Coordinator)
      → Moves st (retain_production draw r recipes now st).0
  unfolding retain_production
  retain_production-Moves r recipes now st =
      let begun : Coordinator = begin_work draw now st in
      joins (begin_work-Moves draw now st) (
        joins
          (retain_order-Moves _ _ now begun.claims 0 []
            (record { state = begun; retained = none; is_changed = false }) refl)
          (end_retention-Moves r now _))
