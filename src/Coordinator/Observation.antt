-- ===== src/Coordinator/Observation.antt =====
-- ObserveActor of `src/Bot/Economy/PlayerbotEconomyChains.cpp`: the chain that an actor works for.
use mod_playerbots_economy.Prelude.{
  ℕ, ◌-◌, Bool, true, false, not, ◌&&◌, ◌||◌, List, [], ◌∷◌, Option, none, some, Text, text_eq,
  is_empty, is_some, find_if, contains, ltb, if◌then◌else◌, ◌==◌, nat_eq,
}
use mod_playerbots_economy.Coordinator.Types.{
  EconomySubstitutionKind, EconomyClaimState, EconomyAssignmentOutcome, EconomyAssignment,
  EconomyCapabilityBlocker, EconomyActorChainObservation,
}
use mod_playerbots_economy.Coordinator.Groups.{GapKey, gap_code, find_at, number_code, empty_group}
use mod_playerbots_economy.Coordinator.State.{Coordinator}
use mod_playerbots_economy.Coordinator.Chains.{find_chain}
use mod_playerbots_economy.Coordinator.Outcome.{is_leased}
use mod_playerbots_economy.Coordinator.Excess.{rev_onto}
use mod_playerbots_economy.Coordinator.Capability.{begin_work}

abbrev pub no_observation : EconomyActorChainObservation
no_observation = record {
  available = false;
  chain_public_id = [];
  work_identity = [];
  market_id = 0;
  group = empty_group EconomySubstitutionKind.exact_reagent;
  remaining_quantity = 0;
  claim_age_seconds = 0;
  claim_state = EconomyClaimState.released;
  assignment_outcome = EconomyAssignmentOutcome.need_changed;
  capability_blocker = none;
}

-- The first blocker that is assigned to the actor.
unfoldable pub assigned_blocker :
    ℕ → List (GapKey × EconomyCapabilityBlocker) → Option EconomyCapabilityBlocker
assigned_blocker guid [] = none
assigned_blocker guid ((key, b) ∷ blockers) =
    if b.assigned_actor_guid == guid then some b else assigned_blocker guid blockers

-- attachCapability.
unfoldable pub attach_capability :
    Option EconomyCapabilityBlocker
    → List (GapKey × EconomyCapabilityBlocker)
    → EconomyActorChainObservation
    → EconomyActorChainObservation
unfolding gap_code
attach_capability (some b) blockers o = record o { capability_blocker = some b }
attach_capability none blockers o = record o {
  capability_blocker = find_at gap_code (o.market_id, o.group) blockers;
}

abbrev age : ℕ → ℕ → ℕ
age now since = if ltb since now then now - since else 0

abbrev is_chain_claim : ℕ → Bool → EconomyAssignment → Bool
is_chain_claim guid leased_only c =
    c.character_guid == guid && not (is_empty c.chain_public_id) && (not leased_only || is_leased c)

-- observeClaim: the newest claim of the actor with a chain.
unfoldable pub observe_claim : ℕ → Bool → ℕ → Coordinator → Option EconomyActorChainObservation
unfolding find_chain
observe_claim guid leased_only now st =
    elim (find_if (is_chain_claim guid leased_only) (rev_onto st.claims [])) [
      | none ↦ none
      | some c ↦ elim (find_chain st.chains c.chain_public_id) [
        | none ↦ none
        | some chain ↦ some (record no_observation {
          available = true;
          chain_public_id = chain.public_id;
          work_identity = c.work_identity;
          market_id = chain.market_id;
          group = chain.group;
          remaining_quantity = chain.remaining_quantity;
          claim_age_seconds = age now c.created_at;
          claim_state = c.state;
          assignment_outcome = c.last_outcome;
        })
      ]
    ]

-- The newest active chain of which the actor is a consumer.
unfoldable pub observe_chain : ℕ → ℕ → Coordinator → Option EconomyActorChainObservation
observe_chain guid now st =
    elim (find_if (λ c. c.active && contains guid c.consumer_guids) (rev_onto st.chains [])) [
      | none ↦ none
      | some chain ↦ some (record no_observation {
        available = true;
        chain_public_id = chain.public_id;
        market_id = chain.market_id;
        group = chain.group;
        remaining_quantity = chain.remaining_quantity;
        claim_age_seconds = age now chain.created_at;
      })
    ]

abbrev observe_assigned : Option EconomyCapabilityBlocker → EconomyActorChainObservation
observe_assigned none = no_observation
observe_assigned (some b) = record no_observation {
  available = true;
  market_id = b.requirement.market_id;
  group = b.requirement.group;
  capability_blocker = some b;
}

unfoldable pub observe_known_actor : ℕ → ℕ → Coordinator → EconomyActorChainObservation
unfolding assigned_blocker attach_capability observe_claim observe_chain
observe_known_actor guid now st =
    let assigned = assigned_blocker guid st.capability_blockers in
    elim (observe_claim guid true now st) [
      | some o ↦ attach_capability assigned st.capability_blockers o
      | none ↦ elim (observe_chain guid now st) [
        | some o ↦ attach_capability assigned st.capability_blockers o
        | none ↦ elim (observe_claim guid false now st) [
          | some o ↦ attach_capability assigned st.capability_blockers o
          | none ↦ observe_assigned assigned
        ]
      ]
    ]

unfoldable pub observe_actor :
    (ℕ → ℕ → Text) → ℕ → ℕ → Coordinator → Coordinator × EconomyActorChainObservation
unfolding begin_work observe_known_actor
observe_actor draw guid now st =
    let begun = begin_work draw now st in
    (
      begun,
      if is_some (find_at number_code guid begun.actors)
          then observe_known_actor guid now begun
          else no_observation,
    )
