-- ===== src/Coordinator/Tests/Examples.antt =====
-- The invariants at the state that the run reaches.
use mod_playerbots_economy.Prelude.{
  refl, ◌≤◌, subst, sym, ◌==◌, ◌≡◌, ◌↔◌, ◌⊎◌, ◌&&◌, ◌<◌, ℕ, true, false, length, All, arith,
}
use mod_playerbots_economy.Coordinator.State.{GapTotals, calculate_gaps, current_gaps}
use mod_playerbots_economy.Coordinator.Production.{snapshot}
use mod_playerbots_economy.Coordinator.Moves.{IsOrderly, Orderly}
use mod_playerbots_economy.Coordinator.Types.{
  EconomyAssignmentOutcome, EconomyAssignmentOutcome.need_changed,
}
use mod_playerbots_economy.Coordinator.Outcome.{is_leased, settle_claim}
use mod_playerbots_economy.Coordinator.Lifecycle.{settle_claim-forward}
use mod_playerbots_economy.Coordinator.Invariant.{Reach-Orderly, Reach-calculate_gaps}
use mod_playerbots_economy.Coordinator.Shown.{IsExact, ShowsAll, Reach-snapshot}
use mod_playerbots_economy.Coordinator.Tests.{
  numbered, working, reached, reported, safe, craft_request, order, ore_recipe, ore_totals, miners,
  first_chain,
}
use mod_playerbots_economy.Coordinator.Tests.Runs.{granted_run, offered_run, totals_run}
use mod_playerbots_economy.Coordinator.Lease.{offer_for}
use mod_playerbots_economy.Coordinator.Supply.{IsModest, offer_fits, offer_for-fits}
use mod_playerbots_economy.Coordinator.Types.{EconomyClaimKind.purchase}
use mod_playerbots_economy.Coordinator.Groups.{GapKey, claim_kind_eq, assignment_outcome_eq}
use mod_playerbots_economy.Coordinator.Types.{
  EconomyActorFacts, EconomyWorkBlocker, EconomyWorkKind.recipe,
}
use mod_playerbots_economy.Coordinator.Request.{evaluate_work}
use mod_playerbots_economy.Coordinator.Chains.{draw_id}
use mod_playerbots_economy.Coordinator.Capability.{best_candidate}
use mod_playerbots_economy.Coordinator.Deadlines.{IsTimely, snapshot-IsTimely}
use mod_playerbots_economy.Coordinator.Grants.{
  is_safe, is_wanted, evaluate_work-none, IsGrant, lease-IsGrant,
}
use mod_playerbots_economy.Coordinator.Identities.{is_taken, Loop, Clash, draw_id-ends}
use mod_playerbots_economy.Coordinator.Owners.{Stands, LeadsAll, Unfit, best_candidate-leads}

Reach-Orderly_example : Orderly working.claims
Reach-Orderly_example = Reach-Orderly numbered reached

Reach-calculate_gaps_example :
    ((calculate_gaps working).cached_gaps ≡ (current_gaps working).0)
    × ((calculate_gaps working).cached_consumers ≡ (current_gaps working).1)
Reach-calculate_gaps_example = Reach-calculate_gaps numbered reached

working_totals-IsExact :
    All (λ (e : GapKey × GapTotals). IsExact e.1) (current_gaps (snapshot numbered 105 working).0).0
working_totals-IsExact = rw totals_run (record { demand = omega arith; met = omega arith }, tt)

Reach-snapshot_example :
    ShowsAll
      (current_gaps (snapshot numbered 105 working).0).0
      (snapshot numbered 105 working).1.gaps
Reach-snapshot_example = Reach-snapshot numbered 105 reached working_totals-IsExact

evaluate_work-none_example :
    (evaluate_work safe ≡ EconomyWorkBlocker.none) ↔ (is_safe safe && is_wanted safe ≡ true)
evaluate_work-none_example = evaluate_work-none safe

lease-IsGrant_example : IsGrant craft_request 103 order
lease-IsGrant_example = lease-IsGrant numbered craft_request 103 reported order granted_run

draw_id-ends_example :
    (Loop numbered 105 first_chain 1 (draw_id numbered (length first_chain) first_chain 1 105)
      × (is_taken first_chain (draw_id numbered (length first_chain) first_chain 1 105).0 ≡ false))
    ⊎ Clash numbered 105 1 (length first_chain)
draw_id-ends_example = draw_id-ends numbered 105 first_chain 1 (omega arith)

positive_guids : All (λ (e : ℕ × EconomyActorFacts). 0 < e.0) miners
positive_guids = (omega arith, (omega arith, tt))

best_candidate-leads_example :
    ((best_candidate ore_recipe recipe miners 0 0 ≡ 0) × Unfit ore_recipe recipe miners)
    ⊎ ((affinity : ℕ) × Stands ore_recipe recipe affinity
          (best_candidate ore_recipe recipe miners 0 0)
          miners
        × LeadsAll ore_recipe recipe affinity (best_candidate ore_recipe recipe miners 0 0) miners)
best_candidate-leads_example = best_candidate-leads ore_recipe recipe miners positive_guids

snapshot-IsTimely_example : All (IsTimely 900) (snapshot numbered 900 working).1.claims
snapshot-IsTimely_example = snapshot-IsTimely numbered 900 working

ore_totals-IsModest : IsModest ore_totals
ore_totals-IsModest = record {
  demand = omega arith;
  supply = omega arith;
  claimed = omega arith;
  auction = omega arith;
  purchases = omega arith;
  speculation = omega arith;
}

offer_for-fits_example :
    offer_fits (craft_request.kind == purchase) craft_request (offer_for craft_request 103 reported)
    ≡ true
offer_for-fits_example =
    offer_for-fits craft_request 103 reported (subst IsModest (sym offered_run) ore_totals-IsModest)

order-IsOrderly : IsOrderly order
order-IsOrderly = record {
  positive = omega arith;
  small = omega arith;
  within = omega arith;
  bridged = omega arith;
  unbridged = λ e. refl;
}

settle_claim-forward_example :
    (order.committed_quantity ≤ (settle_claim need_changed 3 200 order).committed_quantity)
    × ((settle_claim need_changed 3 200 order).quantity ≡ order.quantity)
    × ((is_leased (settle_claim need_changed 3 200 order) ≡ true)
        ↔ (is_leased order && need_changed == EconomyAssignmentOutcome.committed ≡ true))
settle_claim-forward_example = settle_claim-forward need_changed 3 200 order order-IsOrderly
