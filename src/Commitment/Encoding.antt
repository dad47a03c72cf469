-- ===== src/Commitment/Encoding.antt =====
-- Identities and fingerprints of `src/Bot/Economy/PlayerbotMaterialCommitmentEncoding.cpp`:
-- what an `std::ostringstream` receives is the list of the bytes.
use Prim.Native.Nat.{bit_xor}
use mod_playerbots_economy.Prelude.{
  ℕ, ◌+◌, ◌*◌, ◌/◌, ◌%◌, ◌^◌, Option, none, some, List, [], ◌∷◌, ◌++◌, Text, codes, decimal, length,
  ltb, if◌then◌else◌,
}
use mod_playerbots_economy.Commitment.Types.{
  MaterialCapacityKind, MaterialCapacityKind.owned_item, MaterialCapacityKind.auction_listing,
  MaterialCapacityKind.money, MaterialCapacityKind.gathering_capacity,
  MaterialCapacityKind.production_capacity, MaterialCapacityUnit, MaterialCapacityKey,
  MaterialCommitmentOwnerKind, MaterialRequirement, MaterialIntent, MaterialReservationRequest,
  MaterialSourceKind, MaterialSourcePhase, MaterialSourcePath, MaterialAdmissionCandidate,
  MaterialCapacityObservation, MaterialReservationSettlement, MaterialFulfillment,
  MaterialSourceStart, MaterialCommitmentCommandKind, MaterialCommitmentCommand,
}

abbrev pub max_identity_bytes : ℕ
max_identity_bytes = 191

abbrev pub max_fingerprint_bytes : ℕ
max_fingerprint_bytes = 16777215

-- Additions and products of `std::uint64_t`.
abbrev pub u64 : ℕ → ℕ
u64 n = n % 2 ^ 64

fnv1a_from : ℕ → Text → ℕ
fnv1a_from hash [] = hash
fnv1a_from hash (byte ∷ value) = fnv1a_from (u64 (bit_xor hash byte * 1099511628211)) value

unfoldable pub fnv1a : Text → ℕ
unfolding fnv1a_from
fnv1a = fnv1a_from 14695981039346656037

-- `std::hex << std::setfill('0') << std::setw(16)` of a 64-bit number.
hex_digit : ℕ → ℕ
hex_digit d = if ltb d 10 then 48 + d else 87 + d

hex_digits : ℕ → ℕ → Text → Text
unfolding hex_digit
hex_digits ℕ.zero n rest = rest
hex_digits (ℕ.suc digits) n rest = hex_digits digits (n / 16) (hex_digit (n % 16) ∷ rest)

unfoldable pub commitment_identity : Text → ℕ → Text
unfolding hex_digits
commitment_identity operation_identity ordinal =
    codes "mc" ++ hex_digits 16 (fnv1a (operation_identity ++ codes ":" ++ decimal ordinal)) []

-- The items with `:` between them.
abbrev pub colons : List Text → Text
colons [] = []
colons (x ∷ []) = x
colons (x ∷ y ∷ rest) = x ++ b':' ∷ colons (y ∷ rest)

-- A text behind its length.
abbrev pub sized : Text → Text
sized value = decimal (length value) ++ b':' ∷ value

unfoldable pub capacity_kind_code : MaterialCapacityKind → ℕ
capacity_kind_code owned_item = 0
capacity_kind_code auction_listing = 1
capacity_kind_code money = 2
capacity_kind_code gathering_capacity = 3
capacity_kind_code production_capacity = 4

unfoldable pub capacity_unit_code : MaterialCapacityUnit → ℕ
capacity_unit_code MaterialCapacityUnit.item_units = 0
capacity_unit_code MaterialCapacityUnit.copper = 1
capacity_unit_code MaterialCapacityUnit.gathering_units = 2
capacity_unit_code MaterialCapacityUnit.production_units = 3

unfoldable pub owner_kind_code : MaterialCommitmentOwnerKind → ℕ
owner_kind_code MaterialCommitmentOwnerKind.profession_progression = 0
owner_kind_code MaterialCommitmentOwnerKind.stock_maintenance = 1
owner_kind_code MaterialCommitmentOwnerKind.supply_remediation = 2
owner_kind_code MaterialCommitmentOwnerKind.activity_critical = 3
owner_kind_code MaterialCommitmentOwnerKind.group_commitment = 4

unfoldable pub source_kind_code : MaterialSourceKind → ℕ
source_kind_code MaterialSourceKind.same_actor_gathering = 0
source_kind_code MaterialSourceKind.same_actor_hunting = 1

unfoldable pub source_phase_code : MaterialSourcePhase → ℕ
source_phase_code MaterialSourcePhase.selected = 0
source_phase_code MaterialSourcePhase.acquiring = 1
source_phase_code MaterialSourcePhase.completed = 2
source_phase_code MaterialSourcePhase.released = 3

unfoldable pub command_kind_code : MaterialCommitmentCommandKind → ℕ
command_kind_code MaterialCommitmentCommandKind.observe = 0
command_kind_code MaterialCommitmentCommandKind.admit = 1
command_kind_code MaterialCommitmentCommandKind.start_source = 2
command_kind_code MaterialCommitmentCommandKind.fulfill = 3
command_kind_code MaterialCommitmentCommandKind.release = 4
command_kind_code MaterialCommitmentCommandKind.supersede = 5
command_kind_code MaterialCommitmentCommandKind.compact = 6

unfoldable pub append_capacity : MaterialCapacityKey → Text
unfolding capacity_kind_code
append_capacity capacity =
    decimal (capacity_kind_code capacity.kind)
    ++ b':' ∷ sized capacity.authority_identity
    ++ codes ";"

unfoldable pub append_source_path : MaterialSourcePath → Text
unfolding source_kind_code source_phase_code
append_source_path path =
    colons (
      decimal (source_kind_code path.kind)
      ∷ decimal (source_phase_code path.phase)
      ∷ decimal path.actor_guid
      ∷ decimal path.material_item_id
      ∷ decimal path.selected_quantity
      ∷ decimal path.gathering_skill_id
      ∷ decimal path.source_entry
      ∷ decimal path.source_map_id
      ∷ sized path.route_identity
      ∷ sized path.capacity_identity
      ∷ decimal path.source_revision
      ∷ decimal path.selected_at
      ∷ decimal path.source_travel_budget_seconds
      ∷ decimal path.source_action_budget_seconds
      ∷ decimal path.delivery_travel_budget_seconds
      ∷ decimal path.completion_observation_budget_seconds
      ∷ decimal path.destination_yield_basis_points
      ∷ decimal path.conservative_yield_basis_points
      ∷ decimal path.observed_gathered_quantity
      ∷ decimal path.observed_resource_attempts
      ∷ decimal path.observed_resource_seconds
      ∷ decimal path.authoritative_interaction_seconds
      ∷ decimal path.remaining_dedicated_activity_seconds
      ∷ decimal path.required_resource_count
      ∷ decimal path.seconds_per_resource
      ∷ decimal path.starting_inventory_quantity
      ∷ decimal path.available_resource_count
      ∷ decimal path.needed_by
      ∷ [])
    ++ codes ";"

-- The texts of the items of a sequence, one after the other.
abbrev pub each {ℓ} : {A : Type ℓ} → (A → Text) → List A → Text
each f [] = []
each f (x ∷ xs) = f x ++ each f xs

optional_decimal : Option ℕ → Text
optional_decimal none = []
optional_decimal (some n) = decimal n

requirement_text : MaterialRequirement → Text
requirement_text r = colons (decimal r.item_id ∷ decimal r.quantity ∷ []) ++ codes ","

unfoldable pub intent_text : MaterialIntent → Text
unfolding owner_kind_code optional_decimal requirement_text
intent_text i =
    colons (
      sized i.origin_identity
      ∷ decimal (owner_kind_code i.owner_kind)
      ∷ decimal i.owner_revision
      ∷ decimal i.market_id
      ∷ decimal i.bounded_quantity
      ∷ optional_decimal i.needed_by
      ∷ [])
    ++ b'|' ∷ each requirement_text i.requirements
    ++ codes "|"

request_text : MaterialReservationRequest → Text
unfolding append_capacity
request_text r =
    decimal r.material_item_id
    ++ b':' ∷ append_capacity r.capacity
    ++ colons (
        decimal r.authority_revision
        ∷ decimal r.backed_material_quantity
        ∷ decimal r.capacity_quantity
        ∷ [])
    ++ codes ","

unfoldable pub candidate_text : MaterialAdmissionCandidate → Text
unfolding request_text append_source_path
candidate_text c =
    colons (sized c.origin_identity ∷ decimal c.owner_revision ∷ [])
    ++ b'|' ∷ each request_text c.reservations
    ++ each append_source_path c.source_paths
    ++ codes "|"

unfoldable pub observation_text : MaterialCapacityObservation → Text
unfolding append_capacity capacity_unit_code
observation_text o =
    append_capacity o.capacity
    ++ colons (
        decimal (capacity_unit_code o.unit)
        ∷ decimal o.material_item_id
        ∷ decimal o.authority_revision
        ∷ decimal o.available_quantity
        ∷ [])
    ++ codes "|"

settlement_text : MaterialReservationSettlement → Text
unfolding append_capacity
settlement_text s =
    append_capacity s.capacity
    ++ colons (decimal s.backed_material_quantity ∷ decimal s.capacity_quantity ∷ [])
    ++ codes ","

unfoldable pub fulfillment_text : MaterialFulfillment → Text
unfolding optional_decimal settlement_text
fulfillment_text f =
    colons (sized f.commitment_identity ∷ decimal f.quantity ∷ [])
    ++ b'|' ∷ optional_decimal f.observed_inventory_quantity
    ++ b'|' ∷ each settlement_text f.reservation_settlements
    ++ codes "|"

unfoldable pub start_text : MaterialSourceStart → Text
start_text s =
    colons (
      sized s.commitment_identity
      ∷ decimal s.expected_source_revision
      ∷ decimal s.starting_inventory_quantity
      ∷ [])
    ++ codes "|"

abbrev pub identity_text : Text → Text
identity_text identity = sized identity ++ codes "|"

unfoldable pub fingerprint : MaterialCommitmentCommand → Text
unfolding command_kind_code intent_text candidate_text observation_text fulfillment_text start_text
fingerprint c =
    decimal c.expected_book_revision
    ++ b'|' ∷ decimal (command_kind_code c.kind)
    ++ b'|' ∷ each intent_text c.intents
    ++ (each candidate_text c.candidates
        ++ (each observation_text c.capacity_observations
            ++ (each fulfillment_text c.fulfillments
                ++ (each start_text c.source_starts
                    ++ (each identity_text c.commitment_identities
                        ++ (each identity_text c.origin_identities
                            ++ (decimal c.retained_operations ++ codes "|")))))))
