-- ===== src/Commitment/Validity.antt =====
-- The checks that `src/Bot/Economy/PlayerbotMaterialCommitmentAuthority.cpp` makes of a stored
-- book: ValidSelectedSourcePath, ValidSourcePath, ValidIntent, ValidCommitment, ValidStartup.
pub mod Rebuild
use mod_playerbots_economy.Prelude.{
  ℕ, ◌+◌, ◌-◌, min, Bool, true, false, not, ◌&&◌, ◌||◌, List, [], ◌∷◌, Option, none, some, Text,
  text_eq, length, is_empty, is_some, all_of, find_if, contains, ltb, leb, Equality, ◌==◌, nat_eq,
  of_discrete, if◌then◌else◌, ℕ_discrete, text_discrete,
}
use mod_playerbots_economy.Commitment.Types.{
  MaterialCapacityKind, MaterialCapacityKind.owned_item, MaterialCapacityKind.auction_listing,
  MaterialCapacityKind.money, MaterialCapacityKind.gathering_capacity,
  MaterialCapacityKind.production_capacity, MaterialCapacityUnit, MaterialCapacityUnit.item_units,
  MaterialCapacityUnit.copper, MaterialCapacityUnit.gathering_units,
  MaterialCapacityUnit.production_units, MaterialCapacityKey, MaterialRequirement, MaterialIntent,
  MaterialSourcePhase, MaterialSourcePhase.selected, MaterialSourcePath, MaterialCommitmentState,
  MaterialCommitmentState.admitted, MaterialCommitmentState.partially_fulfilled,
  MaterialReservation, MaterialCommitment, MaterialCommitmentOperation, MaterialCommitmentStartup,
  MaterialCommitmentOwnerKind, capacity_kind_discrete, capacity_unit_discrete, owner_kind_discrete,
  requirements_discrete, needed_by_discrete, source_path_discrete,
}
use mod_playerbots_economy.Commitment.Encoding.{max_identity_bytes, max_fingerprint_bytes, u64}
use mod_playerbots_economy.Commitment.Outcome.{
  checked_add, Ledger, reserve, find_intent, find_commitment, capacity_key_eq,
}
use mod_playerbots_economy.Commitment.Path.{
  SameActorGatheringPathInput, build_same_actor_gathering_path, path_horizon,
}

unfoldable pub phase_discrete : Discrete MaterialSourcePhase
phase_discrete = hlevel

unfoldable pub state_discrete : Discrete MaterialCommitmentState
state_discrete = hlevel

unfoldable pub requirement_key_discrete : Discrete (Text × ℕ)
requirement_key_discrete = hlevel (text_discrete, ℕ_discrete)

instance abbrev pub capacity_kind_eq : Equality MaterialCapacityKind
capacity_kind_eq = of_discrete capacity_kind_discrete

instance abbrev pub capacity_unit_eq : Equality MaterialCapacityUnit
capacity_unit_eq = of_discrete capacity_unit_discrete

instance abbrev pub owner_kind_eq : Equality MaterialCommitmentOwnerKind
owner_kind_eq = of_discrete owner_kind_discrete

instance abbrev pub phase_eq : Equality MaterialSourcePhase
phase_eq = of_discrete phase_discrete

instance abbrev pub state_eq : Equality MaterialCommitmentState
state_eq = of_discrete state_discrete

instance abbrev pub requirements_eq : Equality (List MaterialRequirement)
requirements_eq = of_discrete requirements_discrete

instance abbrev pub needed_by_eq : Equality (Option ℕ)
needed_by_eq = of_discrete needed_by_discrete

instance abbrev pub source_path_eq : Equality MaterialSourcePath
source_path_eq = of_discrete source_path_discrete

instance abbrev pub requirement_key_eq : Equality (Text × ℕ)
requirement_key_eq = of_discrete requirement_key_discrete

unfoldable pub is_active : MaterialCommitmentState → Bool
is_active admitted = true
is_active partially_fulfilled = true
is_active _ = false

-- The input from which ValidSelectedSourcePath builds a stored path again.
unfoldable pub rebuild_input : MaterialSourcePath → SameActorGatheringPathInput
rebuild_input path = record {
  kind = path.kind;
  actor_guid = path.actor_guid;
  material_item_id = path.material_item_id;
  selected_quantity = path.selected_quantity;
  gathering_skill_id = path.gathering_skill_id;
  source_entry = path.source_entry;
  source_map_id = path.source_map_id;
  route_identity = path.route_identity;
  capacity_identity = path.capacity_identity;
  selected_at = path.selected_at;
  source_travel_budget_seconds = path.source_travel_budget_seconds;
  destination_conservative_yield_basis_points = path.destination_yield_basis_points;
  observed_gathered_quantity = path.observed_gathered_quantity;
  observed_resource_attempts = path.observed_resource_attempts;
  observed_resource_seconds = path.observed_resource_seconds;
  authoritative_interaction_seconds = path.authoritative_interaction_seconds;
  remaining_dedicated_activity_seconds = path.remaining_dedicated_activity_seconds;
  delivery_travel_budget_seconds = path.delivery_travel_budget_seconds;
  completion_observation_budget_seconds = path.completion_observation_budget_seconds;
  starting_inventory_quantity = path.starting_inventory_quantity;
  available_resource_count = path.available_resource_count;
}

-- The stored path has the rebuilt one's facts, its own action budget and the horizon of both.
unfoldable pub agrees_with_rebuilt :
    MaterialSourcePath → Option MaterialSourcePath → Option ℕ → Bool
agrees_with_rebuilt path none horizon = false
agrees_with_rebuilt path (some rebuilt) none = false
agrees_with_rebuilt path (some rebuilt) (some horizon) =
    not (path.source_action_budget_seconds == 0)
    && record rebuilt {
      source_action_budget_seconds = path.source_action_budget_seconds;
      needed_by = horizon;
    }
      == path

unfoldable pub valid_selected_source_path : MaterialSourcePath → Bool
unfolding rebuild_input agrees_with_rebuilt build_same_actor_gathering_path path_horizon
valid_selected_source_path path =
    path.phase == selected
    && path.starting_inventory_quantity == 0
    && agrees_with_rebuilt path (build_same_actor_gathering_path (rebuild_input path)) (
        path_horizon path.selected_at path.source_travel_budget_seconds
          path.source_action_budget_seconds path.delivery_travel_budget_seconds
          path.completion_observation_budget_seconds)

-- The one reservation that an active commitment with a source path has.
unfoldable pub backs_source_path : MaterialSourcePath → List MaterialReservation → Bool
backs_source_path path (reservation ∷ []) =
    (path.phase == selected || path.phase == MaterialSourcePhase.acquiring)
    && reservation.material_item_id == path.material_item_id
    && reservation.capacity.kind == gathering_capacity
    && reservation.capacity.authority_identity == path.capacity_identity
    && reservation.authority_revision == path.source_revision
    && reservation.initial_backed_material_quantity == path.selected_quantity
    && reservation.remaining_backed_material_quantity == path.selected_quantity
    && reservation.initial_capacity_quantity == path.required_resource_count
    && reservation.remaining_capacity_quantity == path.required_resource_count
backs_source_path path _ = false

-- What the state of the commitment asks of its path.
unfoldable pub phase_matches :
    MaterialSourcePath → MaterialCommitment → MaterialCommitmentState → Bool
unfolding backs_source_path
phase_matches path commitment admitted = backs_source_path path commitment.reservations
phase_matches path commitment partially_fulfilled = false
phase_matches path commitment MaterialCommitmentState.completed =
    path.phase == MaterialSourcePhase.completed
phase_matches path commitment _ = path.phase == MaterialSourcePhase.released

unfoldable pub valid_source_path : MaterialSourcePath → MaterialCommitment → Bool
unfolding valid_selected_source_path phase_matches
valid_source_path path commitment =
    valid_selected_source_path (record path { phase = selected; starting_inventory_quantity = 0 })
    && path.material_item_id == commitment.material_item_id
    && path.selected_quantity == commitment.bounded_quantity
    && path.needed_by == commitment.needed_by
    && phase_matches path commitment commitment.state

-- The items met so far are `seen`.
unfoldable pub distinct_requirements : List ℕ → List MaterialRequirement → Bool
distinct_requirements seen [] = true
distinct_requirements seen (r ∷ rs) =
    not (r.item_id == 0)
    && not (r.quantity == 0)
    && not (contains r.item_id seen)
    && distinct_requirements (r.item_id ∷ seen) rs

unfoldable pub valid_requirements : List MaterialRequirement → Bool
unfolding distinct_requirements
valid_requirements rs = not (is_empty rs) && distinct_requirements [] rs

unfoldable pub valid_intent : MaterialIntent → Bool → Bool
unfolding valid_requirements
valid_intent intent restored =
    not (is_empty intent.origin_identity)
    && leb (length intent.origin_identity) max_identity_bytes
    && not (intent.owner_revision == 0)
    && not (intent.market_id == 0)
    && not (intent.bounded_quantity == 0)
    && valid_requirements intent.requirements
    && (if restored
        then not (intent.first_observed_at == 0)
          && leb intent.first_observed_at intent.last_observed_at
        else intent.first_observed_at == 0 && intent.last_observed_at == 0)

unfoldable pub unit_for_kind : MaterialCapacityKind → MaterialCapacityUnit
unit_for_kind owned_item = item_units
unit_for_kind auction_listing = item_units
unit_for_kind money = copper
unit_for_kind gathering_capacity = gathering_units
unit_for_kind production_capacity = production_units

unfoldable pub is_item_unit_kind : MaterialCapacityKind → Bool
is_item_unit_kind owned_item = true
is_item_unit_kind auction_listing = true
is_item_unit_kind _ = false

unfoldable pub is_money : MaterialCapacityKind → Bool
is_money money = true
is_money _ = false

-- The first disjunction of the loop over the reservations, negated.
unfoldable pub valid_reservation : MaterialCommitment → MaterialReservation → Bool
unfolding unit_for_kind is_item_unit_kind is_money
valid_reservation commitment r =
    r.material_item_id == commitment.material_item_id
    && not (is_empty r.capacity.authority_identity)
    && leb (length r.capacity.authority_identity) max_identity_bytes
    && r.unit == unit_for_kind r.capacity.kind
    && not (r.authority_revision == 0)
    && not (r.initial_capacity_quantity == 0)
    && not (r.remaining_capacity_quantity == 0)
    && leb r.remaining_capacity_quantity r.initial_capacity_quantity
    && leb r.remaining_backed_material_quantity r.initial_backed_material_quantity
    && (not (is_money r.capacity.kind)
        || (r.unit == copper && r.initial_backed_material_quantity == 0))
    && (not (is_item_unit_kind r.capacity.kind)
        || (r.initial_backed_material_quantity == r.initial_capacity_quantity
            && r.remaining_backed_material_quantity == r.remaining_capacity_quantity))
    && (is_money r.capacity.kind
        || (not (r.initial_backed_material_quantity == 0)
            && not (r.remaining_backed_material_quantity == 0)))

-- The loop: the capacities met so far, and the sum of the remaining backed quantities.
unfoldable pub reserved_total :
    MaterialCommitment → List MaterialReservation → List MaterialCapacityKey → ℕ → Option ℕ
unfolding valid_reservation checked_add
reserved_total commitment [] seen reserved = some reserved
reserved_total commitment (r ∷ rs) seen reserved =
    if valid_reservation commitment r && not (contains r.capacity seen)
    then elim (checked_add reserved r.remaining_backed_material_quantity) [
      | none ↦ none
      | some total ↦ reserved_total commitment rs (r.capacity ∷ seen) total
    ]
    else none

unfoldable pub find_requirement : List MaterialRequirement → ℕ → Option MaterialRequirement
find_requirement rs item = find_if (λ r. r.item_id == item) rs

-- An active commitment has the facts of its intent.
unfoldable pub matches_intent : MaterialCommitment → MaterialIntent → Bool
unfolding find_requirement
matches_intent c intent =
    c.owner_kind == intent.owner_kind
    && c.owner_revision == intent.owner_revision
    && c.market_id == intent.market_id
    && intent.needed_by == some c.needed_by
    && elim (find_requirement intent.requirements c.material_item_id) [
      | none ↦ false
      | some r ↦ r.quantity == c.bounded_quantity
    ]

unfoldable pub valid_progress : MaterialCommitment → MaterialCommitmentState → Bool
valid_progress c admitted =
    not (c.remaining_quantity == 0)
    && not (is_empty c.reservations)
    && c.remaining_quantity == c.bounded_quantity
valid_progress c partially_fulfilled =
    not (c.remaining_quantity == 0)
    && not (is_empty c.reservations)
    && ltb c.remaining_quantity c.bounded_quantity
valid_progress c _ = c.remaining_quantity == 0 && is_empty c.reservations

unfoldable pub valid_commitment : MaterialCommitment → List MaterialIntent → Bool
unfolding find_intent is_active matches_intent valid_progress valid_source_path reserved_total
valid_commitment c intents = elim (find_intent intents c.origin_identity) [
  | none ↦ false
  | some intent ↦
      not (is_empty c.identity)
      && not (c.owner_revision == 0)
      && not (c.market_id == 0)
      && not (c.material_item_id == 0)
      && not (c.bounded_quantity == 0)
      && not (c.needed_by == 0)
      && (not (is_active c.state) || matches_intent c intent)
      && valid_progress c c.state
      && elim c.source_path [ none ↦ true | some path ↦ valid_source_path path c ]
      && elim (reserved_total c c.reservations [] 0) [
        | none ↦ false
        | some reserved ↦ not (is_active c.state) || reserved == c.remaining_quantity
      ]
]

unfoldable pub valid_intents : List MaterialIntent → List Text → Bool
unfolding valid_intent
valid_intents [] origins = true
valid_intents (intent ∷ intents) origins =
    valid_intent intent true
    && not (contains intent.origin_identity origins)
    && valid_intents intents (intent.origin_identity ∷ origins)

-- `activeCapacity[key] += remaining` for each reservation, with the overflow checked.
unfoldable pub reserve_all :
    List MaterialReservation → Ledger MaterialCapacityKey → Option (Ledger MaterialCapacityKey)
unfolding reserve
reserve_all [] ledger = some ledger
reserve_all (r ∷ rs) ledger = elim (reserve ledger r.capacity r.remaining_capacity_quantity) [
  | none ↦ none
  | some ledger' ↦ reserve_all rs ledger'
]

unfoldable pub valid_commitments :
    List MaterialIntent
    → List MaterialCommitment
    → List Text
    → List (Text × ℕ)
    → Ledger MaterialCapacityKey
    → Bool
unfolding valid_commitment is_active reserve_all
valid_commitments intents [] identities active ledger = true
valid_commitments intents (c ∷ cs) identities active ledger =
    let key : Text × ℕ = (c.origin_identity, c.material_item_id) in
    valid_commitment c intents && not (contains c.identity identities) && elim (is_active c.state) [
      | false ↦ valid_commitments intents cs (c.identity ∷ identities) active ledger
      | true ↦ not (contains key active) && elim (reserve_all c.reservations ledger) [
        | none ↦ false
        | some ledger' ↦
            valid_commitments intents cs (c.identity ∷ identities) (key ∷ active) ledger'
      ]
    ]

unfoldable pub valid_operation : MaterialCommitmentOperation → MaterialCommitmentStartup → Bool
unfolding find_commitment
valid_operation o startup =
    not (is_empty o.identity)
    && leb (length o.identity) max_identity_bytes
    && not (is_empty o.fingerprint)
    && leb (length o.fingerprint) max_fingerprint_bytes
    && not (o.resulting_book_revision == 0)
    && leb o.resulting_book_revision startup.book_revision
    && all_of (λ id. is_some (find_commitment startup.commitments id)) o.commitment_identities

unfoldable pub valid_operations :
    MaterialCommitmentStartup → List MaterialCommitmentOperation → List Text → List ℕ → Bool
unfolding valid_operation
valid_operations startup [] identities revisions = true
valid_operations startup (o ∷ os) identities revisions =
    valid_operation o startup
    && not (contains o.identity identities)
    && not (contains o.resulting_book_revision revisions)
    && valid_operations startup os (o.identity ∷ identities) (o.resulting_book_revision ∷ revisions)

-- `*operationRevisions.begin()`, the smallest of the revisions.
unfoldable pub first_revision : ℕ → List MaterialCommitmentOperation → ℕ
first_revision least [] = least
first_revision least (o ∷ os) = first_revision (min least o.resulting_book_revision) os

-- The log is a suffix of the book's history.
unfoldable pub contiguous : MaterialCommitmentStartup → List MaterialCommitmentOperation → Bool
unfolding first_revision
contiguous startup [] = true
contiguous startup (o ∷ os) =
    first_revision o.resulting_book_revision os == u64 (startup.book_revision - length (o ∷ os) + 1)

unfoldable pub valid_startup : MaterialCommitmentStartup → Bool
unfolding valid_intents valid_commitments valid_operations contiguous
valid_startup startup =
    startup.source_available
    && valid_intents startup.intents []
    && valid_commitments startup.intents startup.commitments [] [] []
    && leb (length startup.operations) startup.book_revision
    && valid_operations startup startup.operations [] []
    && contiguous startup startup.operations
