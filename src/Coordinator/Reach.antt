-- ===== src/Coordinator/Reach.antt =====
-- The states that calls of the coordinator's methods reach. Each method holds the mutex while it
-- runs, so a call is one step; AssignProduction takes it three times, and its first critical
-- section is a step of its own beside the uninterrupted call, as other calls may come behind it.
use mod_playerbots_economy.Prelude.{
  ℕ, ◌==◌, ◌≡◌, ◌<◌, ◌^◌, subst, not, ◌||◌, List, [], ◌∷◌, Option, some, Text, length, is_empty,
  keep_if, if_elim, option_elim, option_split, nat_eq, arith,
}
use mod_playerbots_economy.Coordinator.Types.{
  EconomyActorFacts, EconomyMarketFacts, EconomyDemandFact, EconomyAssignment,
  EconomyAssignmentRequest, EconomyAssignmentLease, EconomyAssignmentOutcome,
  EconomyCapabilityObservation, EconomyProductionRequest, EconomyProductionRecipe, EconomyDemandGap,
  EconomyCoordinatorSnapshot,
}
use mod_playerbots_economy.Coordinator.Groups.{GapKey}
use mod_playerbots_economy.Coordinator.State.{GapTotals, Gaps, Coordinator, new_coordinator}
use mod_playerbots_economy.Coordinator.Capability.{revalidate_capabilities}
use mod_playerbots_economy.Coordinator.Lease.{lease}
use mod_playerbots_economy.Coordinator.Production.{
  record_outcome, record_production_output, record_production_inventory, gap_of, demand_gaps,
  snapshot_of, snapshot,
}
use mod_playerbots_economy.Coordinator.Orders.{
  production_request, recipe_for, choose_production, retain_production, lease_production,
  assign_production,
}
use mod_playerbots_economy.Coordinator.Facts.{
  refresh_actor, refresh_market, record_consumed_inputs, invalidate_actor, expire,
}
use mod_playerbots_economy.Coordinator.Observation.{observe_actor}
use mod_playerbots_economy.Coordinator.Moves.{Moves, Moves-refl, joins}
use mod_playerbots_economy.Coordinator.Moves.Work.{revalidate_capabilities-Moves}
use mod_playerbots_economy.Coordinator.Moves.Lease.{lease-Moves, bounded_quantity-small}
use mod_playerbots_economy.Coordinator.Moves.Production.{
  record_outcome-Moves, record_production_output-Moves, record_production_inventory-Moves,
  snapshot-Moves, observe_actor-Moves, retain_production-Moves,
}
use mod_playerbots_economy.Coordinator.Moves.Facts.{
  refresh_actor-Moves, refresh_market-Moves, record_consumed_inputs-Moves, invalidate_actor-Moves,
  expire-Moves,
}

module _ (draw : ℕ → ℕ → Text) where
  -- One call. A requested quantity has 32 bits, and a list of inputs fewer than 2^32 entries.
  pub data Step : Coordinator → Coordinator → Type 0 where
    refreshes_actor :
        (facts : EconomyActorFacts) (now : ℕ) (st : Coordinator)
        → Step st (refresh_actor draw facts now st)
    refreshes_market :
        (facts : EconomyMarketFacts) (now : ℕ) (st : Coordinator)
        → Step st (refresh_market draw facts now st)
    revalidates :
        (observations : List EconomyCapabilityObservation) (now : ℕ) (st : Coordinator)
        → Step st (revalidate_capabilities draw observations now st)
    leases :
        (r : EconomyAssignmentRequest) (now : ℕ) (st : Coordinator)
        → r.quantity < 2 ^ 32
        → Step st (lease draw r now st).0
    retains :
        (r : EconomyProductionRequest) (recipes : List EconomyProductionRecipe) (now : ℕ)
        (st : Coordinator)
        → Step st (retain_production draw r recipes now st).0
    assigns :
        (r : EconomyProductionRequest) (now : ℕ) (st : Coordinator)
        → Step st (assign_production draw r now st).0
    records_inventory :
        (lease_id starting current now : ℕ) (st : Coordinator)
        → Step st (record_production_inventory draw lease_id starting current now st).0
    records_output :
        (lease_id produced now : ℕ) (st : Coordinator)
        → Step st (record_production_output draw lease_id produced now st).0
    records_inputs :
        (guid : ℕ) (inputs : List EconomyDemandFact) (now : ℕ) (st : Coordinator)
        → length inputs < 2 ^ 32
        → Step st (record_consumed_inputs draw guid inputs now st).0
    records_outcome :
        (lease_id : ℕ) (outcome : EconomyAssignmentOutcome) (committed now : ℕ) (st : Coordinator)
        → Step st (record_outcome draw lease_id outcome committed now st).0
    invalidates :
        (guid : ℕ) (outcome : EconomyAssignmentOutcome) (now : ℕ) (st : Coordinator)
        → Step st (invalidate_actor draw guid outcome now st)
    expires : (now : ℕ) (st : Coordinator) → Step st (expire draw now st)
    snapshots : (now : ℕ) (st : Coordinator) → Step st (snapshot draw now st).0
    observes : (guid now : ℕ) (st : Coordinator) → Step st (observe_actor draw guid now st).0

  pub data Reach : Coordinator → Type 0 where
    starts : Reach new_coordinator
    steps : {s t : Coordinator} → Reach s → Step s t → Reach t

gap_of-quantity : (key : GapKey) (t : GapTotals) → (gap_of key t).remaining_quantity < 2 ^ 32
unfolding gap_of
gap_of-quantity key t = bounded_quantity-small _

production_request-quantity :
    (r : EconomyProductionRequest) (p : EconomyProductionRecipe) (gap : EconomyDemandGap)
    (q : EconomyAssignmentRequest)
    → gap.remaining_quantity < 2 ^ 32
    → some (production_request r p gap) ≡ some q
    → q.quantity < 2 ^ 32
unfolding production_request
production_request-quantity r p gap q l e =
    subst (λ (x : EconomyAssignmentRequest). x.quantity < 2 ^ 32) (inner e)
      (if_elim (λ n. n < 2 ^ 32) (p.max_quantity == 0) l (omega (arith, l)))
  where
    inner : some (production_request r p gap) ≡ some q → production_request r p gap ≡ q
    inner h = cc

-- The request of a production order asks for at most what a gap has, which has 32 bits.
choose_production-quantity :
    (r : EconomyProductionRequest) (recipes : List EconomyProductionRecipe)
    (actor : EconomyActorFacts) (gaps : Gaps) (q : EconomyAssignmentRequest)
    → choose_production r recipes actor (demand_gaps gaps) ≡ some q
    → q.quantity < 2 ^ 32
unfolding choose_production demand_gaps production_request
choose_production-quantity r recipes actor [] q e = cc
choose_production-quantity r recipes actor ((key, t) ∷ gaps) q e =
    let gap : EconomyDemandGap = gap_of key t in
    let rest = choose_production-quantity r recipes actor gaps q in
    let small = λ (o : Option EconomyAssignmentRequest). o ≡ some q → q.quantity < 2 ^ 32 in
    if_elim
      (λ (ds : List EconomyDemandGap).
        choose_production r recipes actor ds ≡ some q → q.quantity < 2 ^ 32)
      (t.demand == 0) rest
      (if_elim small (not (gap.market_id == r.market_id) || gap.remaining_quantity == 0) rest (
        option_elim small (recipe_for recipes actor gap) rest
          (λ p. production_request-quantity r p gap q (gap_of-quantity key t))))
      e

module _ (draw : ℕ → ℕ → Text) where
  assign_production-Moves :
      (r : EconomyProductionRequest) (now : ℕ) (st : Coordinator)
      → Moves st (assign_production draw r now st).0
  unfolding assign_production lease_production snapshot snapshot_of
  assign_production-Moves r now st =
      let recipes : List EconomyProductionRecipe =
        keep_if (λ p. not (p.recipe_spell_id == 0 || p.output_item_id == 0)) r.recipes in
      let kept : Coordinator × Option EconomyAssignment = retain_production draw r recipes now st in
      let seen : Coordinator × EconomyCoordinatorSnapshot = snapshot draw now kept.0 in
      let moved = λ (x : Coordinator × EconomyAssignmentLease). Moves st x.0 in
      let retained : Moves st kept.0 = retain_production-Moves draw r recipes now st in
      let looked : Moves st seen.0 = joins retained (snapshot-Moves draw now kept.0) in
      if_elim moved _ (Moves-refl st) (
        option_elim moved kept.1
          (if_elim moved (is_empty recipes) retained (
            option_elim moved _ looked (λ actor.
              option_split moved (choose_production r recipes actor seen.1.gaps) (λ e. looked)
                (λ q e. joins looked (
                  lease-Moves draw q now seen.0
                    (choose_production-quantity r recipes actor seen.0.cached_gaps q e))))))
          (λ c. retained))

  pub Step-Moves : {s t : Coordinator} → Step draw s t → Moves s t
  Step-Moves (refreshes_actor facts now st) = refresh_actor-Moves draw facts now st
  Step-Moves (refreshes_market facts now st) = refresh_market-Moves draw facts now st
  Step-Moves (revalidates observations now st) =
      revalidate_capabilities-Moves draw observations now st
  Step-Moves (leases r now st s) = lease-Moves draw r now st s
  Step-Moves (retains r recipes now st) = retain_production-Moves draw r recipes now st
  Step-Moves (assigns r now st) = assign_production-Moves r now st
  Step-Moves (records_inventory lease_id starting current now st) =
      record_production_inventory-Moves draw lease_id starting current now st
  Step-Moves (records_output lease_id produced now st) =
      record_production_output-Moves draw lease_id produced now st
  Step-Moves (records_inputs guid inputs now st l) =
      record_consumed_inputs-Moves draw guid inputs now st l
  Step-Moves (records_outcome lease_id outcome committed now st) =
      record_outcome-Moves draw lease_id outcome committed now st
  Step-Moves (invalidates guid outcome now st) = invalidate_actor-Moves draw guid outcome now st
  Step-Moves (expires now st) = expire-Moves draw now st
  Step-Moves (snapshots now st) = snapshot-Moves draw now st
  Step-Moves (observes guid now st) = observe_actor-Moves draw guid now st
