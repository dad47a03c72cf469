-- ===== src/Commitment/Tests.antt =====
-- A book with one intent, and a command that admits it.
mod Runs
mod Examples
mod Observation
mod Reagents
use mod_playerbots_economy.Prelude.{
  ℕ, zero, suc, ◌+◌, ◌*◌, ◌^◌, ◌≤◌, ◌<◌, ◌≡◌, refl, ◌⊎◌, inl, inr, Bool, true, false, List, [], ◌∷◌,
  Option, none, some, Text, codes, arith, text_discrete, ℕ_discrete, decimal, not, all_of, keep_if,
  nat_eq, ◌==◌,
}
use mod_playerbots_economy.Commitment.Types.{
  MaterialCapacityKind.owned_item, MaterialCapacityKind.gathering_capacity,
  MaterialCapacityUnit.item_units, MaterialCapacityKey, MaterialRequirement,
  MaterialCommitmentOwnerKind.profession_progression, MaterialIntent, MaterialCapacityObservation,
  MaterialReservationRequest, MaterialSourceKind.same_actor_gathering, MaterialSourcePath,
  MaterialAdmissionCandidate, MaterialReservationSettlement, MaterialFulfillment,
  MaterialCommitmentState, MaterialReservation, MaterialCommitment, MaterialCommitmentOperation,
  MaterialCommitmentStartup, MaterialCommitmentCommandKind, MaterialCommitmentCommand,
  MaterialCommitmentWrite, capacity_kind_discrete, capacity_unit_discrete, owner_kind_discrete,
  capacity_key_discrete, requirements_discrete, needed_by_discrete, intent_discrete,
  commitment_discrete, source_path_discrete,
}
use mod_playerbots_economy.Commitment.Encoding.{commitment_identity, fingerprint, fnv1a, u64}
use mod_playerbots_economy.Commitment.Outcome.{
  Outcome, ok, ◌>>=◌, ◌>>◌, fail_if, or_fail, or_fault, find_operation, find_commitment,
}
use mod_playerbots_economy.Commitment.Path.{
  SameActorGatheringPathInput, build_same_actor_gathering_path, backed_quantity, resources_for,
}
use mod_playerbots_economy.Commitment.Validity.{
  valid_startup, valid_selected_source_path, phase_discrete, state_discrete,
  requirement_key_discrete,
}
use mod_playerbots_economy.Commitment.Admission.{reservation_key_discrete, find_observation}
use mod_playerbots_economy.Commitment.Admit.{admit_candidates}
use mod_playerbots_economy.Commitment.Authority.{
  Authority, new_authority, restore, apply, apply_kind, apply_to_replacement, complete_write,
  logged,
}

abbrev pub bag : MaterialCapacityKey
bag = record { kind = owned_item; authority_identity = codes "bag" }

abbrev pub bar : MaterialRequirement
bar = record { item_id = 7; quantity = 5 }

abbrev pub smelting : MaterialIntent
smelting = record {
  origin_identity = codes "smelt";
  owner_kind = profession_progression;
  owner_revision = 1;
  market_id = 2;
  bounded_quantity = 5;
  needed_by = some 100;
  first_observed_at = 1;
  last_observed_at = 1;
  requirements = bar ∷ [];
}

abbrev pub seed : MaterialCommitmentOperation
seed = record {
  identity = codes "seed";
  fingerprint = codes "f";
  resulting_book_revision = 1;
  commitment_identities = [];
}

abbrev pub book : MaterialCommitmentStartup
book = record {
  source_available = true;
  book_revision = 1;
  intents = smelting ∷ [];
  commitments = [];
  operations = seed ∷ [];
}

abbrev pub request : MaterialReservationRequest
request = record {
  material_item_id = 7;
  capacity = bag;
  authority_revision = 3;
  backed_material_quantity = 5;
  capacity_quantity = 5;
}

abbrev pub observation : MaterialCapacityObservation
observation = record {
  capacity = bag;
  unit = item_units;
  material_item_id = 7;
  authority_revision = 3;
  available_quantity = 8;
}

abbrev pub empty_command : MaterialCommitmentCommandKind → Text → ℕ → MaterialCommitmentCommand
empty_command kind identity revision = record {
  operation_identity = identity;
  expected_book_revision = revision;
  kind = kind;
  intents = [];
  candidates = [];
  capacity_observations = [];
  source_starts = [];
  fulfillments = [];
  commitment_identities = [];
  origin_identities = [];
  retained_operations = 0;
}

abbrev pub admit_bars : MaterialCommitmentCommand
admit_bars = record (empty_command MaterialCommitmentCommandKind.admit (codes "admit") 1) {
  candidates =
      record {
        origin_identity = codes "smelt";
        owner_revision = 1;
        reservations = request ∷ [];
        source_paths = [];
      }
      ∷ [];
  capacity_observations = observation ∷ [];
}

abbrev pub started : Authority
started = record {
  has_writer = true;
  durable = book;
  pending = none;
  next_write_token = 1;
  persistence_healthy = true;
}

abbrev pub reservation : MaterialReservation
reservation = record {
  material_item_id = 7;
  capacity = bag;
  unit = item_units;
  authority_revision = 3;
  initial_backed_material_quantity = 5;
  remaining_backed_material_quantity = 5;
  initial_capacity_quantity = 5;
  remaining_capacity_quantity = 5;
}

abbrev pub admitted_bars : Text → MaterialCommitment
admitted_bars identity = record {
  identity = identity;
  origin_identity = codes "smelt";
  owner_kind = profession_progression;
  owner_revision = 1;
  market_id = 2;
  material_item_id = 7;
  bounded_quantity = 5;
  remaining_quantity = 5;
  needed_by = 100;
  state = MaterialCommitmentState.admitted;
  reservations = reservation ∷ [];
  source_path = none;
}

abbrev pub book_admitted : MaterialCommitmentStartup
book_admitted = record book { commitments = admitted_bars (codes "mc21422e8759aca138") ∷ [] }

abbrev pub admitted_identities : List Text
admitted_identities = codes "mc21422e8759aca138" ∷ []

abbrev pub release_bars : MaterialCommitmentCommand
release_bars = record (empty_command MaterialCommitmentCommandKind.release (codes "release") 2) {
  commitment_identities = codes "mc21422e8759aca138" ∷ [];
}

abbrev pub book_released : MaterialCommitmentStartup
book_released = record book {
  commitments =
      record (admitted_bars (codes "mc21422e8759aca138")) {
        state = MaterialCommitmentState.released;
        remaining_quantity = 0;
        reservations = [];
      }
      ∷ [];
}

-- Two of the five bars, from the bag.
abbrev pub two_bars : MaterialFulfillment
two_bars = record {
  commitment_identity = codes "mc21422e8759aca138";
  quantity = 2;
  observed_inventory_quantity = none;
  reservation_settlements =
      record { capacity = bag; backed_material_quantity = 2; capacity_quantity = 2 } ∷ [];
}

-- The book behind the release, and a compaction that drops its one origin.
abbrev pub operation_at : Text → ℕ → List Text → MaterialCommitmentOperation
operation_at identity revision identities = record {
  identity = identity;
  fingerprint = codes "f";
  resulting_book_revision = revision;
  commitment_identities = identities;
}

abbrev pub book_logged : MaterialCommitmentStartup
book_logged = record book_released {
  book_revision = 3;
  operations =
      seed
      ∷ operation_at (codes "admit") 2 admitted_identities
      ∷ operation_at (codes "release") 3 []
      ∷ [];
}

abbrev pub drop_smelting : MaterialCommitmentCommand
drop_smelting = record (empty_command MaterialCommitmentCommandKind.compact (codes "drop") 3) {
  origin_identities = codes "smelt" ∷ [];
}

abbrev pub book_compacted : MaterialCommitmentStartup
book_compacted = record {
  source_available = true;
  book_revision = 3;
  intents = [];
  commitments = [];
  operations = operation_at (codes "release") 3 [] ∷ [];
}

-- A herb path: ten herbs are needed for five items.
abbrev pub herbs : SameActorGatheringPathInput
herbs = record {
  kind = same_actor_gathering;
  actor_guid = 1;
  material_item_id = 7;
  selected_quantity = 5;
  gathering_skill_id = 186;
  source_entry = 1731;
  source_map_id = 0;
  route_identity = codes "r";
  capacity_identity = codes "c";
  selected_at = 100;
  source_travel_budget_seconds = 60;
  destination_conservative_yield_basis_points = 5000;
  observed_gathered_quantity = 0;
  observed_resource_attempts = 0;
  observed_resource_seconds = 0;
  authoritative_interaction_seconds = 3;
  remaining_dedicated_activity_seconds = 600;
  delivery_travel_budget_seconds = 0;
  completion_observation_budget_seconds = 30;
  starting_inventory_quantity = 0;
  available_resource_count = 20;
}

-- The authority of that book, and the book when only the released commitment is dropped.
abbrev pub closing : Authority
closing = record started { durable = book_logged }

abbrev pub drop_commitment : MaterialCommitmentCommand
drop_commitment = record drop_smelting {
  commitment_identities = codes "mc21422e8759aca138" ∷ [];
  origin_identities = [];
}

abbrev pub book_dropped : MaterialCommitmentStartup
book_dropped = record book_compacted { intents = smelting ∷ [] }
