-- ===== src/Commitment/Types.antt =====
-- The data of `src/Bot/Economy/PlayerbotMaterialCommitmentAuthority.h`, type by type.
-- Unsigned fields are numbers; the operations write the wrap-around of their width out.
use mod_playerbots_economy.Prelude.{ℕ, Bool, List, Option, Text, text_discrete, ℕ_discrete}

pub data MaterialCapacityKind : Type 0 where
  owned_item auction_listing money gathering_capacity production_capacity : MaterialCapacityKind

pub data MaterialCapacityUnit : Type 0 where
  item_units copper gathering_units production_units : MaterialCapacityUnit

pub record MaterialCapacityKey : Type 0 where
  pub kind : MaterialCapacityKind
  pub authority_identity : Text

pub record MaterialRequirement : Type 0 where
  pub item_id : ℕ
  pub quantity : ℕ

pub data MaterialCommitmentOwnerKind : Type 0 where
  profession_progression stock_maintenance supply_remediation activity_critical group_commitment :
      MaterialCommitmentOwnerKind

pub record MaterialIntent : Type 0 where
  pub origin_identity : Text
  pub owner_kind : MaterialCommitmentOwnerKind
  pub owner_revision : ℕ
  pub market_id : ℕ
  pub bounded_quantity : ℕ
  pub needed_by : Option ℕ
  pub first_observed_at : ℕ
  pub last_observed_at : ℕ
  pub requirements : List MaterialRequirement

pub record MaterialCapacityObservation : Type 0 where
  pub capacity : MaterialCapacityKey
  pub unit : MaterialCapacityUnit
  pub material_item_id : ℕ
  pub authority_revision : ℕ
  pub available_quantity : ℕ

pub record MaterialReservationRequest : Type 0 where
  pub material_item_id : ℕ
  pub capacity : MaterialCapacityKey
  pub authority_revision : ℕ
  pub backed_material_quantity : ℕ
  pub capacity_quantity : ℕ

pub data MaterialSourceKind : Type 0 where
  same_actor_gathering same_actor_hunting : MaterialSourceKind

pub data MaterialSourcePhase : Type 0 where
  selected acquiring completed released : MaterialSourcePhase

pub record MaterialSourcePath : Type 0 where
  pub kind : MaterialSourceKind
  pub phase : MaterialSourcePhase
  pub actor_guid : ℕ
  pub material_item_id : ℕ
  pub selected_quantity : ℕ
  pub gathering_skill_id : ℕ
  pub source_entry : ℕ
  pub source_map_id : ℕ
  pub route_identity : Text
  pub capacity_identity : Text
  pub source_revision : ℕ
  pub selected_at : ℕ
  pub source_travel_budget_seconds : ℕ
  pub source_action_budget_seconds : ℕ
  pub delivery_travel_budget_seconds : ℕ
  pub completion_observation_budget_seconds : ℕ
  pub destination_yield_basis_points : ℕ
  pub conservative_yield_basis_points : ℕ
  pub observed_gathered_quantity : ℕ
  pub observed_resource_attempts : ℕ
  pub observed_resource_seconds : ℕ
  pub authoritative_interaction_seconds : ℕ
  pub remaining_dedicated_activity_seconds : ℕ
  pub required_resource_count : ℕ
  pub seconds_per_resource : ℕ
  pub starting_inventory_quantity : ℕ
  pub available_resource_count : ℕ
  pub needed_by : ℕ

pub record MaterialAdmissionCandidate : Type 0 where
  pub origin_identity : Text
  pub owner_revision : ℕ
  pub reservations : List MaterialReservationRequest
  pub source_paths : List MaterialSourcePath

pub record MaterialReservationSettlement : Type 0 where
  pub capacity : MaterialCapacityKey
  pub backed_material_quantity : ℕ
  pub capacity_quantity : ℕ

pub record MaterialFulfillment : Type 0 where
  pub commitment_identity : Text
  pub quantity : ℕ
  pub observed_inventory_quantity : Option ℕ
  pub reservation_settlements : List MaterialReservationSettlement

pub data MaterialCommitmentState : Type 0 where
  admitted partially_fulfilled completed released superseded : MaterialCommitmentState

pub record MaterialReservation : Type 0 where
  pub material_item_id : ℕ
  pub capacity : MaterialCapacityKey
  pub unit : MaterialCapacityUnit
  pub authority_revision : ℕ
  pub initial_backed_material_quantity : ℕ
  pub remaining_backed_material_quantity : ℕ
  pub initial_capacity_quantity : ℕ
  pub remaining_capacity_quantity : ℕ

pub record MaterialCommitment : Type 0 where
  pub identity : Text
  pub origin_identity : Text
  pub owner_kind : MaterialCommitmentOwnerKind
  pub owner_revision : ℕ
  pub market_id : ℕ
  pub material_item_id : ℕ
  pub bounded_quantity : ℕ
  pub remaining_quantity : ℕ
  pub needed_by : ℕ
  pub state : MaterialCommitmentState
  pub reservations : List MaterialReservation
  pub source_path : Option MaterialSourcePath

pub record MaterialCommitmentOperation : Type 0 where
  pub identity : Text
  pub fingerprint : Text
  pub resulting_book_revision : ℕ
  pub commitment_identities : List Text

pub record MaterialCommitmentStartup : Type 0 where
  pub source_available : Bool
  pub book_revision : ℕ
  pub intents : List MaterialIntent
  pub commitments : List MaterialCommitment
  pub operations : List MaterialCommitmentOperation

pub data MaterialCommitmentCommandKind : Type 0 where
  observe admit start_source fulfill release supersede compact : MaterialCommitmentCommandKind

pub record MaterialSourceStart : Type 0 where
  pub commitment_identity : Text
  pub expected_source_revision : ℕ
  pub starting_inventory_quantity : ℕ

pub record MaterialCommitmentCommand : Type 0 where
  pub operation_identity : Text
  pub expected_book_revision : ℕ
  pub kind : MaterialCommitmentCommandKind
  pub intents : List MaterialIntent
  pub candidates : List MaterialAdmissionCandidate
  pub capacity_observations : List MaterialCapacityObservation
  pub source_starts : List MaterialSourceStart
  pub fulfillments : List MaterialFulfillment
  pub commitment_identities : List Text
  pub origin_identities : List Text
  pub retained_operations : ℕ

pub data MaterialCommitmentApplyStatus : Type 0 where
  pending_persistence idempotent busy : MaterialCommitmentApplyStatus
  persistence_unavailable invalid_command stale_book_revision : MaterialCommitmentApplyStatus
  stale_owner_revision stale_capacity_revision missing_horizon : MaterialCommitmentApplyStatus
  insufficient_capacity existing_commitment unknown_intent : MaterialCommitmentApplyStatus
  unknown_commitment terminal_commitment operation_conflict : MaterialCommitmentApplyStatus
  identity_collision : MaterialCommitmentApplyStatus

pub record MaterialCommitmentApplyResult : Type 0 where
  pub status : MaterialCommitmentApplyStatus
  pub write_token : ℕ
  pub commitment_identities : List Text

pub record MaterialCommitmentWrite : Type 0 where
  pub expected_book_revision : ℕ
  pub new_book_revision : ℕ
  pub changed_origin_identities : List Text
  pub changed_commitment_identities : List Text
  pub removed_origin_identities : List Text
  pub removed_commitment_identities : List Text
  pub removed_operation_identities : List Text
  pub operation : MaterialCommitmentOperation
  pub replacement : MaterialCommitmentStartup

pub record MaterialCommitmentSnapshot : Type 0 where
  pub book_revision : ℕ
  pub persistence_healthy : Bool
  pub busy : Bool
  pub operation_count : ℕ
  pub intents : List MaterialIntent
  pub commitments : List MaterialCommitment

-- The defaulted `operator==` of the types that the program compares.
unfoldable pub capacity_kind_discrete : Discrete MaterialCapacityKind
capacity_kind_discrete = hlevel

unfoldable pub capacity_unit_discrete : Discrete MaterialCapacityUnit
capacity_unit_discrete = hlevel

unfoldable pub owner_kind_discrete : Discrete MaterialCommitmentOwnerKind
owner_kind_discrete = hlevel

unfoldable pub capacity_key_discrete : Discrete MaterialCapacityKey
capacity_key_discrete = hlevel (capacity_kind_discrete, text_discrete)

unfoldable pub requirements_discrete : Discrete (List MaterialRequirement)
requirements_discrete = hlevel ℕ_discrete

unfoldable pub needed_by_discrete : Discrete (Option ℕ)
needed_by_discrete = hlevel ℕ_discrete

unfoldable pub intent_discrete : Discrete MaterialIntent
intent_discrete =
    hlevel
      (owner_kind_discrete, text_discrete, ℕ_discrete, requirements_discrete, needed_by_discrete)

unfoldable pub source_path_discrete : Discrete MaterialSourcePath
source_path_discrete = hlevel (text_discrete, ℕ_discrete)

unfoldable pub reservations_discrete : Discrete (List MaterialReservation)
reservations_discrete = hlevel (capacity_key_discrete, capacity_unit_discrete, ℕ_discrete)

unfoldable pub commitment_discrete : Discrete MaterialCommitment
commitment_discrete =
    hlevel
      (owner_kind_discrete, text_discrete, ℕ_discrete, reservations_discrete, source_path_discrete)
