-- ===== src/Coordinator/Capability.antt =====
-- Capability blockers of `src/Bot/Economy/PlayerbotEconomyCoordinator.cpp`: demand that no actor
-- can produce, and the actor that is to learn it.
use mod_playerbots_economy.Prelude.{
  ℕ, ◌+◌, ◌-◌, ◌^◌, max, Bool, true, false, not, ◌&&◌, ◌||◌, List, [], ◌∷◌, Option, none, some,
  any_of, contains, is_some, ltb, leb, if◌then◌else◌, ◌==◌, nat_eq,
}
use mod_playerbots_economy.Coordinator.Types.{
  EconomySubstitutionKind, EconomyActorFacts, EconomyWorkKind, EconomyWorkKind.recipe,
  EconomyWorkKind.trainer, ProfessionCapabilityKind, ProfessionCapabilityKind.crafting,
  ProfessionCapabilityKind.gathering, ProfessionCapability, EconomyCapabilityRequirement,
  EconomyCapabilityObservation, EconomyCapabilityBlockerState, EconomyCapabilityBlocker,
  EconomyAssignmentRequest,
}
use mod_playerbots_economy.Coordinator.Groups.{
  GapKey, gap_code, find_at, put_at, erase_at, kind_code, same_requirement,
}
use mod_playerbots_economy.Coordinator.State.{
  u64, Gaps, Coordinator, calculate_gaps, is_unmet, advance, locked,
}
use mod_playerbots_economy.Coordinator.Chains.{sync_chains}
use mod_playerbots_economy.Coordinator.Outcome.{expire_locked}

abbrev pub affinity_minimum : ℕ
affinity_minimum = 25

abbrev pub persistence_threshold : ℕ
persistence_threshold = 2

unfoldable pub relevant_affinity : EconomyActorFacts → ProfessionCapabilityKind → ℕ
relevant_affinity actor crafting = actor.crafting_affinity
relevant_affinity actor gathering = actor.gathering_affinity

unfoldable pub work_affinity : EconomyActorFacts → EconomyAssignmentRequest → ℕ
work_affinity actor request = elim request.work_kind [
  | EconomyWorkKind.gather ↦ max actor.economy_affinity actor.gathering_affinity
  | EconomyWorkKind.craft ↦ max actor.economy_affinity actor.crafting_affinity
  | EconomyWorkKind.recipe ↦ max actor.economy_affinity actor.crafting_affinity
  | EconomyWorkKind.trainer ↦ max actor.economy_affinity actor.crafting_affinity
  | EconomyWorkKind.buy ↦
      if not (request.recipe_spell_id == 0)
        && contains request.recipe_spell_id actor.recipe_spell_ids
      then max actor.economy_affinity actor.crafting_affinity
      else actor.economy_affinity
  | _ ↦ actor.economy_affinity
]

unfoldable pub has_valid_recipe : ProfessionCapability → Bool
has_valid_recipe capability = elim capability.kind [
  | crafting ↦ not (capability.recipe_spell_id == 0)
  | gathering ↦ capability.recipe_spell_id == 0
]

unfoldable pub is_valid_requirement : EconomyCapabilityRequirement → Bool
unfolding has_valid_recipe kind_code
is_valid_requirement requirement =
    let capability = requirement.capability in
    not (requirement.market_id == 0)
    && not (capability.output_item_id == 0)
    && not (capability.profession_skill_id == 0)
    && capability.primary_profession
    && has_valid_recipe capability
    && (not (kind_code requirement.group.kind == kind_code EconomySubstitutionKind.exact_reagent)
        || requirement.group.exact_item_id == capability.output_item_id)

abbrev pub is_available : EconomyActorFacts → EconomyCapabilityRequirement → Bool
is_available actor requirement =
    actor.online && actor.autonomous && actor.market_id == requirement.market_id

abbrev pub is_gathering : ProfessionCapability → Bool
is_gathering capability = elim capability.kind [ crafting ↦ false | gathering ↦ true ]

unfoldable pub provides : EconomyCapabilityRequirement → EconomyActorFacts → Bool
provides requirement actor =
    let capability = requirement.capability in
    is_available actor requirement
    && contains capability.profession_skill_id actor.profession_skill_ids
    && (is_gathering capability || contains capability.recipe_spell_id actor.recipe_spell_ids)

unfoldable pub has_capability_provider :
    List (ℕ × EconomyActorFacts) → EconomyCapabilityRequirement → Bool
unfolding provides
has_capability_provider actors requirement = any_of (λ a. provides requirement a.1) actors

-- Who may learn the recipe, and who may take the profession up.
unfoldable pub may_learn : EconomyWorkKind → ProfessionCapability → EconomyActorFacts → Bool
may_learn recipe capability actor =
    not (is_gathering capability)
    && contains capability.profession_skill_id actor.profession_skill_ids
    && not (contains capability.recipe_spell_id actor.recipe_spell_ids)
may_learn trainer capability actor =
    not (contains capability.profession_skill_id actor.profession_skill_ids)
    && not (actor.free_primary_profession_slots == 0)
may_learn _ capability actor = false

unfoldable pub is_candidate :
    EconomyCapabilityRequirement → EconomyWorkKind → EconomyActorFacts → Bool
unfolding relevant_affinity may_learn
is_candidate requirement work actor =
    is_available actor requirement
    && leb affinity_minimum (relevant_affinity actor requirement.capability.kind)
    && may_learn work requirement.capability actor

-- bestCandidate: the guid and the affinity selected so far; guid 0 is none.
unfoldable pub best_candidate :
    EconomyCapabilityRequirement → EconomyWorkKind → List (ℕ × EconomyActorFacts) → ℕ → ℕ → ℕ
unfolding is_candidate relevant_affinity
best_candidate requirement work [] selected affinity = selected
best_candidate requirement work ((guid, actor) ∷ actors) selected affinity =
    let own = relevant_affinity actor requirement.capability.kind in
    let is_better =
      is_candidate requirement work actor
      && (selected == 0 || ltb affinity own || (own == affinity && ltb guid selected)) in
    best_candidate requirement work actors (if is_better then guid else selected)
      (if is_better then own else affinity)

abbrev pub is_persistent : EconomyCapabilityBlocker → Bool
is_persistent b = elim b.state [
  | EconomyCapabilityBlockerState.observing ↦ false
  | EconomyCapabilityBlockerState.persistent ↦ true
]

unfoldable pub assign_capability_owner :
    List (ℕ × EconomyActorFacts) → EconomyCapabilityBlocker → EconomyCapabilityBlocker
unfolding best_candidate
assign_capability_owner actors b =
    let learner = best_candidate b.requirement recipe actors 0 0 in
    let pupil = best_candidate b.requirement trainer actors 0 0 in
    if not (is_persistent b)
    then record b { assigned_actor_guid = 0; assigned_work_kind = none }
    else if not (learner == 0)
    then record b { assigned_actor_guid = learner; assigned_work_kind = some recipe }
    else if not (pupil == 0)
    then record b { assigned_actor_guid = pupil; assigned_work_kind = some trainer }
    else record b { assigned_actor_guid = 0; assigned_work_kind = none }

unfoldable pub reconcile_blockers :
    Gaps
    → List (ℕ × EconomyActorFacts)
    → List (GapKey × EconomyCapabilityBlocker)
    → List (GapKey × EconomyCapabilityBlocker)
unfolding is_unmet has_capability_provider assign_capability_owner gap_code
reconcile_blockers gaps actors [] = []
reconcile_blockers gaps actors ((key, b) ∷ blockers) =
    let rest = reconcile_blockers gaps actors blockers in
    if not (is_unmet (find_at gap_code key gaps)) || has_capability_provider actors b.requirement
    then rest
    else (key, assign_capability_owner actors b) ∷ rest

unfoldable pub reconcile_capability_blockers : Coordinator → Coordinator
unfolding calculate_gaps reconcile_blockers
reconcile_capability_blockers st =
    let counted = calculate_gaps st in
    record counted {
      work_stats = record (counted.work_stats) {
        capability_reconciliations = u64 (counted.work_stats.capability_reconciliations + 1);
      };
      capability_blockers =
          reconcile_blockers counted.cached_gaps counted.actors counted.capability_blockers;
    }

-- The blocker after one more eligible cycle.
unfoldable pub observe_blocker :
    EconomyCapabilityRequirement → ℕ → Option EconomyCapabilityBlocker → EconomyCapabilityBlocker
unfolding same_requirement
observe_blocker requirement now existing =
    let fresh : EconomyCapabilityBlocker = record {
      requirement = requirement;
      state = EconomyCapabilityBlockerState.observing;
      consecutive_eligible_cycles = 1;
      assigned_actor_guid = 0;
      assigned_work_kind = none;
      first_observed_at = now;
      last_observed_at = now;
    } in
    elim existing [
      | none ↦ fresh
      | some b ↦
          if same_requirement b.requirement requirement
          then record b {
            consecutive_eligible_cycles =
                if ltb b.consecutive_eligible_cycles (2 ^ 32 - 1)
                then b.consecutive_eligible_cycles + 1
                else b.consecutive_eligible_cycles;
            last_observed_at = now;
          }
          else fresh
    ]

unfoldable pub with_state : EconomyCapabilityBlocker → EconomyCapabilityBlocker
with_state b = record b {
  state =
      if leb persistence_threshold b.consecutive_eligible_cycles
      then EconomyCapabilityBlockerState.persistent
      else EconomyCapabilityBlockerState.observing;
}

unfoldable pub is_observed_now :
    EconomyCapabilityRequirement → ℕ → Option EconomyCapabilityBlocker → Bool
unfolding same_requirement
is_observed_now requirement now none = false
is_observed_now requirement now (some b) =
    same_requirement b.requirement requirement && b.last_observed_at == now

unfoldable pub revalidate_capability_locked :
    EconomyCapabilityObservation → ℕ → Coordinator → Coordinator × Bool
unfolding is_valid_requirement calculate_gaps is_unmet has_capability_provider is_observed_now
    observe_blocker with_state assign_capability_owner gap_code
revalidate_capability_locked observation now st =
    let requirement = observation.requirement in
    let key : GapKey = (requirement.market_id, requirement.group) in
    let counted = calculate_gaps st in
    let existing = find_at gap_code key counted.capability_blockers in
    let erased = record counted {
      capability_blockers = erase_at gap_code key counted.capability_blockers;
    } in
    let seen =
      assign_capability_owner counted.actors
        (with_state (observe_blocker requirement now existing)) in
    if not observation.eligible_cycle || not (is_valid_requirement requirement)
    then (st, false)
    else if not (is_unmet (find_at gap_code key counted.cached_gaps))
        || has_capability_provider counted.actors requirement
    then (erased, is_some existing)
    else if is_observed_now requirement now existing
    then (counted, false)
    else (
      record counted { capability_blockers = put_at gap_code key seen counted.capability_blockers },
      true,
    )

unfoldable pub revalidate_each :
    List EconomyCapabilityObservation → ℕ → Coordinator → Coordinator × Bool
unfolding revalidate_capability_locked
revalidate_each [] now st = (st, false)
revalidate_each (o ∷ os) now st =
    let (one, changed) = revalidate_capability_locked o now st in
    let (all, later) = revalidate_each os now one in (all, changed || later)

-- How most methods begin: the lock, the claims that are due, the chains.
module _ (draw : ℕ → ℕ → List ℕ) where
  unfoldable pub begin_work : ℕ → Coordinator → Coordinator
  unfolding locked expire_locked sync_chains reconcile_capability_blockers
  begin_work now st =
      let (live, expired) = expire_locked now true (locked st) in
      let synced = sync_chains draw now live in
      if expired then reconcile_capability_blockers synced else synced

  unfoldable pub sync_and_reconcile : ℕ → Coordinator → Coordinator
  unfolding sync_chains reconcile_capability_blockers
  sync_and_reconcile now st = reconcile_capability_blockers (sync_chains draw now st)

  unfoldable pub revalidate_capabilities :
      List EconomyCapabilityObservation → ℕ → Coordinator → Coordinator
  unfolding begin_work revalidate_each advance
  revalidate_capabilities observations now st =
      let (seen, changed) = revalidate_each observations now (begin_work now st) in
      if changed then advance seen else seen
