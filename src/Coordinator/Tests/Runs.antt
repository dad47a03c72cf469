-- ===== src/Coordinator/Tests/Runs.antt =====
-- What the run gives: the claim, and the gap that is left.
use mod_playerbots_economy.Prelude.{some, ◌≡◌, refl, map, List, [], ◌∷◌, ℕ, text_discrete}
use mod_playerbots_economy.Coordinator.Types.{
  EconomyAssignment, EconomyDemandGap, claim_kind_discrete, work_kind_discrete,
  claim_state_discrete, assignment_outcome_discrete,
}
use mod_playerbots_economy.Coordinator.Groups.{exact_reagent_group, code_ltb}
use mod_playerbots_economy.Coordinator.State.{new_coordinator, current_gaps}
use mod_playerbots_economy.Coordinator.Lease.{lease, offer_for, totals_at}
use mod_playerbots_economy.Coordinator.Supply.{offered_totals}
use mod_playerbots_economy.Coordinator.Facts.{refresh_actor, refresh_market}
use mod_playerbots_economy.Coordinator.Production.{record_production_output, snapshot}
use mod_playerbots_economy.Coordinator.Tests.{
  numbered, craft_request, reported, order, ore_totals, ore, working, working_totals,
}

abbrev order_of : EconomyAssignment → ℕ × ℕ
order_of c = (c.quantity, c.committed_quantity)

abbrev figures_of : EconomyDemandGap → List ℕ
figures_of g =
    g.demand_quantity ∷ g.supply_quantity ∷ g.claimed_quantity ∷ g.remaining_quantity ∷ []

-- Of the ten units the auction has three, so the order is cut to seven, of which four are made.
order_run : map order_of working.claims ≡ (7, 4) ∷ []
unfolding record_production_output lease refresh_market refresh_actor new_coordinator text_discrete
    ore exact_reagent_group code_ltb claim_kind_discrete work_kind_discrete claim_state_discrete
    assignment_outcome_discrete
order_run = refl

gap_run : map figures_of (snapshot numbered 105 working).1.gaps ≡ (10 ∷ 7 ∷ 3 ∷ 0 ∷ []) ∷ []
unfolding snapshot record_production_output lease refresh_market refresh_actor new_coordinator
    text_discrete ore exact_reagent_group code_ltb claim_kind_discrete work_kind_discrete
    claim_state_discrete assignment_outcome_discrete
gap_run = refl

pub granted_run : (lease numbered craft_request 103 reported).1.assignment ≡ some order
unfolding lease refresh_market refresh_actor new_coordinator text_discrete ore exact_reagent_group
    code_ltb claim_kind_discrete work_kind_discrete claim_state_discrete assignment_outcome_discrete
granted_run = refl

pub offered_run : offered_totals craft_request (offer_for craft_request 103 reported) ≡ ore_totals
unfolding offer_for totals_at refresh_market refresh_actor new_coordinator text_discrete ore
    exact_reagent_group code_ltb claim_kind_discrete work_kind_discrete claim_state_discrete
    assignment_outcome_discrete
offered_run = refl

pub totals_run :
    (current_gaps (snapshot numbered 105 working).0).0 ≡ ((7, ore), working_totals) ∷ []
unfolding current_gaps snapshot record_production_output lease refresh_market refresh_actor
    new_coordinator text_discrete ore exact_reagent_group code_ltb claim_kind_discrete
    work_kind_discrete claim_state_discrete assignment_outcome_discrete
totals_run = refl
