-- ===== src/Coordinator/Orders.antt =====
-- AssignProduction of `src/Bot/Economy/PlayerbotEconomyCoordinator.cpp`.
use mod_playerbots_economy.Prelude.{
  ℕ, ◌+◌, min, Bool, true, false, not, ◌&&◌, ◌||◌, List, [], ◌∷◌, ◌++◌, Option, none, some, Text,
  codes, decimal, is_empty, is_some, any_of, find_if, keep_if, contains, leb, if◌then◌else◌, ◌==◌,
  nat_eq,
}
use mod_playerbots_economy.Coordinator.Types.{
  EconomyActorFacts, EconomyClaimKind, EconomyClaimPriority, EconomyAssignmentOutcome,
  EconomyWorkKind, EconomyWorkBlocker, EconomyAssignmentRequest, EconomyAssignment,
  EconomyAssignmentLease, EconomyProductionRecipe, EconomyProductionRequest, EconomyDemandGap,
}
use mod_playerbots_economy.Coordinator.Groups.{same_group, find_at, number_code, claim_kind_eq}
use mod_playerbots_economy.Coordinator.State.{Coordinator, advance}
use mod_playerbots_economy.Coordinator.Chains.{sync_chains}
use mod_playerbots_economy.Coordinator.Outcome.{settle_claim, apply_outcome}
use mod_playerbots_economy.Coordinator.Excess.{Place, place_at}
use mod_playerbots_economy.Coordinator.Capability.{begin_work, sync_and_reconcile}
use mod_playerbots_economy.Coordinator.Lease.{lease, granted}
use mod_playerbots_economy.Coordinator.Request.{refusal}
use mod_playerbots_economy.Coordinator.Production.{is_open_production, snapshot}

-- Whether an open order of the actor is still one of the recipes that it may make.
unfoldable pub is_still_available :
    EconomyProductionRequest
    → List EconomyProductionRecipe
    → Option EconomyActorFacts
    → EconomyAssignment
    → Bool
unfolding same_group
is_still_available r recipes none c = false
is_still_available r recipes (some actor) c =
    actor.online
    && actor.autonomous
    && actor.market_id == r.market_id
    && c.market_id == r.market_id
    && contains c.recipe_spell_id actor.recipe_spell_ids
    && any_of
        (λ p.
          same_group p.group c.group
          && p.recipe_spell_id == c.recipe_spell_id
          && p.output_item_id == c.output_item_id)
        recipes

-- The loop over the claims: the first open order that is available is retained, and its position
-- stands for the pointer to it; the other open orders of the actor are released.
pub record Retention : Type 0 where
  pub state : Coordinator
  pub retained : Option ℕ
  pub is_changed : Bool

unfoldable pub retain_order :
    (EconomyAssignment → Bool)
    → (EconomyAssignment → Bool)
    → ℕ
    → ℕ
    → List EconomyAssignment
    → List EconomyAssignment
    → Retention
    → Retention
unfolding settle_claim apply_outcome
retain_order is_open is_kept now n before [] r = r
retain_order is_open is_kept now n before (c ∷ after) r =
    let outcome =
      if is_kept c
      then EconomyAssignmentOutcome.need_changed
      else EconomyAssignmentOutcome.capability_lost in
    elim (is_open c) [
      | false ↦ retain_order is_open is_kept now (n + 1) (before ++ c ∷ []) after r
      | true ↦ elim (not (is_some r.retained) && is_kept c) [
        | true ↦
            retain_order is_open is_kept now (n + 1) (before ++ c ∷ []) after
              (record r { retained = some n })
        | false ↦
            let hit = apply_outcome before c after outcome c.committed_quantity now r.state in
            retain_order is_open is_kept now (n + 1)
              (before ++ settle_claim outcome c.committed_quantity now c ∷ []) after
              (record r { state = hit.0; is_changed = hit.1 || r.is_changed })
      ]
    ]

-- The order that was retained, and the claims around it.
unfoldable pub place_kept : Option ℕ → List EconomyAssignment → Option Place
unfolding place_at
place_kept none claims = none
place_kept (some n) claims = place_at n [] claims

unfoldable pub with_expiry : ℕ → Place → Coordinator → Coordinator
with_expiry expires_at p st = record st {
  claims = p.before ++ record (p.claim) { expires_at = expires_at } ∷ p.after;
}

unfoldable pub production_request :
    EconomyProductionRequest → EconomyProductionRecipe → EconomyDemandGap → EconomyAssignmentRequest
production_request r recipe gap = record {
  character_guid = r.character_guid;
  market_id = r.market_id;
  group = recipe.group;
  quantity =
      if recipe.max_quantity == 0
      then gap.remaining_quantity
      else min gap.remaining_quantity recipe.max_quantity;
  kind = EconomyClaimKind.production;
  priority = EconomyClaimPriority.producer;
  work_kind = EconomyWorkKind.craft;
  work_identity =
      codes "craft:"
      ++ decimal recipe.recipe_spell_id
      ++ codes ":"
      ++ decimal recipe.output_item_id;
  seller_account_id = 0;
  direct_command = false;
  expires_at = r.expires_at;
  recipe_spell_id = recipe.recipe_spell_id;
  output_item_id = recipe.output_item_id;
  safeguards = r.safeguards;
  personal_equipment_purchase = false;
  personal_sustenance_purchase = false;
}

-- The first recipe of the actor for the group of a gap.
unfoldable pub recipe_for :
    List EconomyProductionRecipe
    → EconomyActorFacts
    → EconomyDemandGap
    → Option EconomyProductionRecipe
unfolding same_group
recipe_for recipes actor gap =
    find_if (λ p. same_group p.group gap.group && contains p.recipe_spell_id actor.recipe_spell_ids)
      recipes

-- The request for the first gap of the market that the actor has a recipe for.
unfoldable pub choose_production :
    EconomyProductionRequest
    → List EconomyProductionRecipe
    → EconomyActorFacts
    → List EconomyDemandGap
    → Option EconomyAssignmentRequest
unfolding recipe_for production_request
choose_production r recipes actor [] = none
choose_production r recipes actor (gap ∷ gaps) =
    let rest = choose_production r recipes actor gaps in
    if not (gap.market_id == r.market_id) || gap.remaining_quantity == 0
    then rest
    else elim (recipe_for recipes actor gap) [
      | none ↦ rest
      | some p ↦ some (production_request r p gap)
    ]

module _ (draw : ℕ → ℕ → Text) where
  -- The end of the first critical section.
  unfoldable pub end_retention :
      EconomyProductionRequest → ℕ → Retention → Coordinator × Option EconomyAssignment
  unfolding place_kept with_expiry sync_and_reconcile advance
  end_retention r now kept = elim (place_kept kept.retained kept.state.claims) [
    | none ↦ (
      if kept.is_changed then advance (sync_and_reconcile draw now kept.state) else kept.state,
      none,
    )
    | some p ↦
        let is_moved = not (p.claim.expires_at == r.expires_at) in
        let moved = with_expiry r.expires_at p kept.state in
        (
          if kept.is_changed
              then advance (sync_and_reconcile draw now moved)
              else if is_moved
              then advance (sync_chains draw now moved)
              else moved,
          some (record (p.claim) { expires_at = r.expires_at }),
        )
  ]

  unfoldable pub retain_production :
      EconomyProductionRequest
      → List EconomyProductionRecipe
      → ℕ
      → Coordinator
      → Coordinator × Option EconomyAssignment
  unfolding begin_work is_still_available retain_order end_retention
  retain_production r recipes now st =
      let begun = begin_work draw now st in
      let actor = find_at number_code r.character_guid begun.actors in
      end_retention r now (
        retain_order (λ c. c.character_guid == r.character_guid && is_open_production c)
          (is_still_available r recipes actor) now 0 [] begun.claims
          (record { state = begun; retained = none; is_changed = false }))

  -- The snapshot, and the lease of the gap that it offers.
  unfoldable pub lease_production :
      EconomyProductionRequest
      → List EconomyProductionRecipe
      → ℕ
      → Coordinator
      → Coordinator × EconomyAssignmentLease
  unfolding snapshot choose_production lease
  lease_production r recipes now st =
      let (seen, facts) = snapshot draw now st in
      elim (find_if (λ a. a.character_guid == r.character_guid) facts.actors) [
        | none ↦ (seen, refusal EconomyWorkBlocker.unknown_actor)
        | some actor ↦ elim (choose_production r recipes actor facts.gaps) [
          | none ↦ (seen, refusal EconomyWorkBlocker.no_demand)
          | some request ↦ lease draw request now seen
        ]
      ]

  unfoldable pub assign_production :
      EconomyProductionRequest → ℕ → Coordinator → Coordinator × EconomyAssignmentLease
  unfolding retain_production lease_production
  assign_production r now st =
      let recipes =
        keep_if (λ p. not (p.recipe_spell_id == 0 || p.output_item_id == 0)) r.recipes in
      if r.character_guid == 0 || r.market_id == 0 || leb r.expires_at now
      then (st, refusal EconomyWorkBlocker.illegal)
      else let (kept, order) = retain_production r recipes now st in
        elim order [
          | some c ↦ (kept, granted c)
          | none ↦
              if is_empty recipes
              then (kept, refusal EconomyWorkBlocker.no_demand)
              else lease_production r recipes now kept
        ]
