-- ===== src/Commitment/Path.antt =====
-- `BuildSameActorGatheringPath` of `src/Bot/Economy/PlayerbotMaterialCommitmentEncoding.cpp`.
-- A build result with status Path is `some` path, and one with status Invalid is `none`.
pub mod Build
pub mod Bounds
use mod_playerbots_economy.Prelude.{
  ℕ, ◌+◌, ◌-◌, ◌*◌, ◌/◌, ◌%◌, ◌^◌, min, max, Bool, true, false, not, ◌&&◌, ◌||◌, [], ◌∷◌, Option,
  none, some, Text, decimal, length, is_empty, ltb, leb, ◌==◌, nat_eq, if◌then◌else◌,
}
use mod_playerbots_economy.Commitment.Types.{
  MaterialSourceKind, MaterialSourceKind.same_actor_gathering,
  MaterialSourceKind.same_actor_hunting, MaterialSourcePhase.selected, MaterialSourcePath,
}
use mod_playerbots_economy.Commitment.Encoding.{max_identity_bytes, u64, fnv1a, colons}
use mod_playerbots_economy.Commitment.Outcome.{checked_add, u64_max}

pub record SameActorGatheringPathInput : Type 0 where
  pub kind : MaterialSourceKind
  pub actor_guid : ℕ
  pub material_item_id : ℕ
  pub selected_quantity : ℕ
  pub gathering_skill_id : ℕ
  pub source_entry : ℕ
  pub source_map_id : ℕ
  pub route_identity : Text
  pub capacity_identity : Text
  pub selected_at : ℕ
  pub source_travel_budget_seconds : ℕ
  pub destination_conservative_yield_basis_points : ℕ
  pub observed_gathered_quantity : ℕ
  pub observed_resource_attempts : ℕ
  pub observed_resource_seconds : ℕ
  pub authoritative_interaction_seconds : ℕ
  pub remaining_dedicated_activity_seconds : ℕ
  pub delivery_travel_budget_seconds : ℕ
  pub completion_observation_budget_seconds : ℕ
  pub starting_inventory_quantity : ℕ
  pub available_resource_count : ℕ

abbrev pub u32 : ℕ → ℕ
u32 n = n % 2 ^ 32

abbrev pub u32_max : ℕ
u32_max = 2 ^ 32 - 1

infixl 5 ◌>>=◌ ◌>>◌
abbrev pub ◌>>=◌ {ℓ κ} : {A : Type ℓ} {B : Type κ} → Option A → (A → Option B) → Option B
none >>= f = none
some a >>= f = f a

abbrev pub ◌>>◌ {ℓ} : {B : Type ℓ} → Option (Unit {0}) → Option B → Option B
m >> k = m >>= λ _. k

-- `if (!test) return {};`
abbrev pub require : Bool → Option (Unit {0})
require true = some tt
require false = none

unfoldable pub skill_matches_kind : MaterialSourceKind → ℕ → Bool
skill_matches_kind same_actor_hunting skill = skill == 0
skill_matches_kind same_actor_gathering skill = skill == 182 || skill == 186 || skill == 393

abbrev is_identity : Text → Bool
is_identity t = not (is_empty t) && leb (length t) max_identity_bytes

unfoldable pub valid_path_input : SameActorGatheringPathInput → Bool
unfolding skill_matches_kind
valid_path_input input =
    not (input.actor_guid == 0)
    && not (input.material_item_id == 0)
    && not (input.selected_quantity == 0)
    && not (input.source_entry == 0)
    && skill_matches_kind input.kind input.gathering_skill_id
    && is_identity input.route_identity
    && is_identity input.capacity_identity
    && not (input.selected_at == 0)
    && not (input.destination_conservative_yield_basis_points == 0)
    && not (input.authoritative_interaction_seconds == 0)
    && not (input.remaining_dedicated_activity_seconds == 0)
    && input.delivery_travel_budget_seconds == 0
    && not (input.completion_observation_budget_seconds == 0)
    && not (input.available_resource_count == 0)

abbrev has_history : SameActorGatheringPathInput → Bool
has_history input = not (input.observed_resource_attempts == 0)

unfoldable pub consistent_history : SameActorGatheringPathInput → Bool
consistent_history input =
    if has_history input
    then not (input.observed_resource_seconds == 0)
    else input.observed_gathered_quantity == 0 && input.observed_resource_seconds == 0

unfoldable pub cold_start_seconds_per_resource : SameActorGatheringPathInput → ℕ
cold_start_seconds_per_resource input =
    let yield = input.destination_conservative_yield_basis_points in
    input.remaining_dedicated_activity_seconds / (u64 (10000 + yield - 1) / yield)

-- conservativeYieldBasisPoints and throughputSecondsPerResource.
unfoldable pub path_rates : SameActorGatheringPathInput → Option (ℕ × ℕ)
unfolding cold_start_seconds_per_resource
path_rates input =
    let yield = input.destination_conservative_yield_basis_points in
    let attempts = input.observed_resource_attempts in
    let gathered = input.observed_gathered_quantity in
    let blended = u64 (yield + gathered * 10000) / u64 (attempts + 1) in
    let throughput = u64 (input.observed_resource_seconds + attempts - 1) / attempts in
    if has_history input
    then if ltb ((u64_max - yield) / 10000) gathered
      then none
      else some (min yield blended, throughput)
    else some (yield, cold_start_seconds_per_resource input)

unfoldable pub resources_for : ℕ → ℕ → ℕ
resources_for yield quantity = u64 (quantity * 10000 + yield - 1) / yield

-- The selected quantity, cut to what the resources in reach can deliver, and its resource count.
unfoldable pub backed_quantity : ℕ → ℕ → ℕ → Option (ℕ × ℕ)
unfolding resources_for
backed_quantity available yield quantity =
    let backable = u64 (available * yield) / 10000 in
    let cut = u32 (min backable quantity) in
    if ltb available (resources_for yield quantity)
    then if backable == 0 then none else some (cut, resources_for yield cut)
    else some (quantity, resources_for yield quantity)

unfoldable pub fits_path : ℕ → ℕ → ℕ → Bool
fits_path available required seconds =
    not (required == 0)
    && leb required available
    && not (seconds == 0)
    && leb required u32_max
    && leb seconds u32_max
    && leb required (u32_max / seconds)

-- The horizon: the start and the four budgets, added without overflow.
unfoldable pub path_horizon : ℕ → ℕ → ℕ → ℕ → ℕ → Option ℕ
unfolding checked_add
path_horizon selected_at travel action delivery observation = do
  t ← checked_add selected_at travel
  t ← checked_add t action
  t ← checked_add t delivery
  checked_add t observation

unfoldable pub revision_facts : SameActorGatheringPathInput → ℕ → Text
revision_facts input selected_quantity = colons (
    decimal input.actor_guid
    ∷ decimal input.material_item_id
    ∷ decimal selected_quantity
    ∷ decimal input.gathering_skill_id
    ∷ decimal input.source_entry
    ∷ decimal input.source_map_id
    ∷ input.route_identity
    ∷ input.capacity_identity
    ∷ decimal input.selected_at
    ∷ decimal input.source_travel_budget_seconds
    ∷ decimal input.destination_conservative_yield_basis_points
    ∷ decimal input.observed_gathered_quantity
    ∷ decimal input.observed_resource_attempts
    ∷ decimal input.observed_resource_seconds
    ∷ decimal input.authoritative_interaction_seconds
    ∷ decimal input.remaining_dedicated_activity_seconds
    ∷ decimal input.delivery_travel_budget_seconds
    ∷ decimal input.completion_observation_budget_seconds
    ∷ decimal input.available_resource_count
    ∷ [])

unfoldable pub path_of :
    SameActorGatheringPathInput → ℕ → ℕ → ℕ → ℕ → ℕ → ℕ → ℕ → MaterialSourcePath
path_of input quantity yield required seconds action needed_by revision = record {
  kind = input.kind;
  phase = selected;
  actor_guid = input.actor_guid;
  material_item_id = input.material_item_id;
  selected_quantity = quantity;
  gathering_skill_id = input.gathering_skill_id;
  source_entry = input.source_entry;
  source_map_id = input.source_map_id;
  route_identity = input.route_identity;
  capacity_identity = input.capacity_identity;
  source_revision = revision;
  selected_at = input.selected_at;
  source_travel_budget_seconds = input.source_travel_budget_seconds;
  source_action_budget_seconds = action;
  delivery_travel_budget_seconds = input.delivery_travel_budget_seconds;
  completion_observation_budget_seconds = input.completion_observation_budget_seconds;
  destination_yield_basis_points = input.destination_conservative_yield_basis_points;
  conservative_yield_basis_points = u32 yield;
  observed_gathered_quantity = input.observed_gathered_quantity;
  observed_resource_attempts = input.observed_resource_attempts;
  observed_resource_seconds = input.observed_resource_seconds;
  authoritative_interaction_seconds = input.authoritative_interaction_seconds;
  remaining_dedicated_activity_seconds = input.remaining_dedicated_activity_seconds;
  required_resource_count = u32 required;
  seconds_per_resource = u32 seconds;
  starting_inventory_quantity = input.starting_inventory_quantity;
  available_resource_count = input.available_resource_count;
  needed_by = needed_by;
}

-- What follows once the quantity and the rates are known.
unfoldable pub finish_path : SameActorGatheringPathInput → ℕ → ℕ → ℕ → ℕ → Option MaterialSourcePath
unfolding fits_path path_horizon revision_facts fnv1a path_of
finish_path input yield throughput quantity required = do
  let seconds = max input.authoritative_interaction_seconds throughput
  require (fits_path input.available_resource_count required seconds)
  let action = u32 (max (u64 (required * seconds)) input.remaining_dedicated_activity_seconds)
  needed_by ←
      path_horizon input.selected_at input.source_travel_budget_seconds action
        input.delivery_travel_budget_seconds input.completion_observation_budget_seconds
  let revision = fnv1a (revision_facts input quantity)
  require (not (revision == 0))
  some (path_of input quantity yield required seconds action needed_by revision)

unfoldable pub build_same_actor_gathering_path :
    SameActorGatheringPathInput → Option MaterialSourcePath
unfolding valid_path_input consistent_history cold_start_seconds_per_resource path_rates
    backed_quantity finish_path
build_same_actor_gathering_path input = do
  require (valid_path_input input && consistent_history input)
  require (not (cold_start_seconds_per_resource input == 0))
  (yield, throughput) ← path_rates input
  require (not (yield == 0))
  (quantity, required) ←
      backed_quantity input.available_resource_count yield input.selected_quantity
  finish_path input yield throughput quantity required
