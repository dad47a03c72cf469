-- ===== src/Commitment/Admission.antt =====
-- ValidObservation and ValidateAdmissionFacts of
-- `src/Bot/Economy/PlayerbotMaterialCommitmentAuthority.cpp`.
-- The maps keep their entries in order of insertion; the C++ maps keep them by key, and no result
-- depends on the order.
use mod_playerbots_economy.Prelude.{
  ℕ, ◌-◌, Bool, true, false, not, ◌&&◌, ◌||◌, List, [], ◌∷◌, Option, none, some, Text, text_eq,
  ℕ_discrete, length, is_empty, contains, find_if, ltb, leb, Equality, ◌==◌, nat_eq, of_discrete,
  if◌then◌else◌,
}
use mod_playerbots_economy.Commitment.Types.{
  MaterialCapacityKind.gathering_capacity, MaterialCapacityKey, capacity_key_discrete,
  MaterialRequirement, MaterialIntent, MaterialCapacityObservation, MaterialReservationRequest,
  MaterialSourcePath, MaterialAdmissionCandidate, MaterialCommitment, MaterialCommitmentStartup,
  MaterialCommitmentCommand, MaterialCommitmentApplyStatus.invalid_command,
  MaterialCommitmentApplyStatus.unknown_intent, MaterialCommitmentApplyStatus.stale_owner_revision,
  MaterialCommitmentApplyStatus.missing_horizon, MaterialCommitmentApplyStatus.existing_commitment,
  MaterialCommitmentApplyStatus.insufficient_capacity,
  MaterialCommitmentApplyStatus.stale_capacity_revision,
}
use mod_playerbots_economy.Commitment.Encoding.{max_identity_bytes}
use mod_playerbots_economy.Commitment.Outcome.{
  Outcome, ok, fail, ◌>>=◌, ◌>>◌, fail_if, or_fail, or_fault, find_intent, Ledger, reserved_at,
  reserve, capacity_key_eq,
}
use mod_playerbots_economy.Commitment.Validity.{
  is_active, is_money, is_item_unit_kind, unit_for_kind, valid_selected_source_path,
  find_requirement, reserve_all, capacity_kind_eq, capacity_unit_eq,
}
use mod_playerbots_economy.Commitment.Observe.{has_active_origin}

unfoldable pub reservation_key_discrete : Discrete (ℕ × MaterialCapacityKey)
reservation_key_discrete = hlevel (ℕ_discrete, capacity_key_discrete)

instance abbrev pub reservation_key_eq : Equality (ℕ × MaterialCapacityKey)
reservation_key_eq = of_discrete reservation_key_discrete

unfoldable pub valid_observation : MaterialCapacityObservation → Bool
unfolding unit_for_kind is_money
valid_observation o =
    not (is_empty o.capacity.authority_identity)
    && leb (length o.capacity.authority_identity) max_identity_bytes
    && not (o.authority_revision == 0)
    && o.unit == unit_for_kind o.capacity.kind
    && (if is_money o.capacity.kind then o.material_item_id == 0 else not (o.material_item_id == 0))

unfoldable pub check_observations :
    List MaterialCapacityObservation → List MaterialCapacityKey → Outcome (Unit {0})
unfolding valid_observation
check_observations [] seen = ok tt
check_observations (o ∷ os) seen = do
  fail_if (not (valid_observation o) || contains o.capacity seen) invalid_command
  check_observations os (o.capacity ∷ seen)

unfoldable pub find_observation :
    List MaterialCapacityObservation → MaterialCapacityKey → Option MaterialCapacityObservation
find_observation observations key = find_if (λ o. o.capacity == key) observations

abbrev pub is_after : ℕ → Option ℕ → Bool
is_after now none = false
is_after now (some needed_by) = ltb now needed_by

abbrev pub is_or_none : ℕ → Option ℕ → Bool
is_or_none n none = true
is_or_none n (some m) = m == n

-- The horizon of a candidate with no source path is its intent's; a source path brings its own,
-- for one requirement that one reservation backs.
unfoldable pub check_source :
    MaterialIntent
    → ℕ
    → List MaterialSourcePath
    → List MaterialRequirement
    → List MaterialReservationRequest
    → Outcome (Unit {0})
unfolding valid_selected_source_path
check_source intent now [] requirements reservations =
    fail_if (not (is_after now intent.needed_by)) missing_horizon
check_source intent now (path ∷ []) (requirement ∷ []) (reservation ∷ []) =
    fail_if
      (not (valid_selected_source_path path)
        || not (path.material_item_id == requirement.item_id)
        || not (path.selected_quantity == requirement.quantity)
        || leb path.needed_by now
        || not (is_or_none path.needed_by intent.needed_by)
        || not (reservation.material_item_id == path.material_item_id)
        || not (reservation.capacity.kind == gathering_capacity)
        || not (reservation.capacity.authority_identity == path.capacity_identity)
        || not (reservation.authority_revision == path.source_revision)
        || not (reservation.backed_material_quantity == path.selected_quantity)
        || not (reservation.capacity_quantity == path.required_resource_count))
      invalid_command
check_source intent now _ _ _ = fail invalid_command

-- The first loop over the reservations of a candidate: what backs each material.
unfoldable pub check_reservations :
    List MaterialRequirement
    → List MaterialReservationRequest
    → List (ℕ × MaterialCapacityKey)
    → Ledger ℕ
    → Outcome (Ledger ℕ)
unfolding find_requirement reserve
check_reservations requirements [] seen backing = ok backing
check_reservations requirements (r ∷ rs) seen backing = do
  fail_if
      (r.material_item_id == 0
        || is_empty r.capacity.authority_identity
        || r.authority_revision == 0
        || r.capacity_quantity == 0
        || contains (r.material_item_id, r.capacity) seen)
      invalid_command
  requirement ← or_fail (find_requirement requirements r.material_item_id) invalid_command
  backing' ← or_fail (reserve backing r.material_item_id r.backed_material_quantity) invalid_command
  check_reservations requirements rs ((r.material_item_id, r.capacity) ∷ seen) backing'

unfoldable pub check_backing : List MaterialRequirement → Ledger ℕ → Outcome (Unit {0})
unfolding reserved_at
check_backing [] backing = ok tt
check_backing (r ∷ rs) backing = do
  fail_if (ltb (reserved_at r.item_id backing) r.quantity) insufficient_capacity
  fail_if (ltb r.quantity (reserved_at r.item_id backing)) invalid_command
  check_backing rs backing

abbrev pub observes_other_count : MaterialCapacityObservation → List MaterialSourcePath → Bool
observes_other_count o [] = false
observes_other_count o (path ∷ paths) = not (o.available_quantity == path.available_resource_count)

abbrev pub misfits_observation : MaterialReservationRequest → MaterialCapacityObservation → Bool
misfits_observation r o =
    (is_money o.capacity.kind && not (r.backed_material_quantity == 0))
    || (is_item_unit_kind o.capacity.kind
        && not (r.backed_material_quantity == r.capacity_quantity))
    || (not (is_money o.capacity.kind)
        && (r.backed_material_quantity == 0 || not (o.material_item_id == r.material_item_id)))

-- The second loop over the reservations of a candidate: what is newly reserved of each capacity.
unfoldable pub reserve_requests :
    List MaterialCapacityObservation
    → List MaterialSourcePath
    → List MaterialReservationRequest
    → Ledger MaterialCapacityKey
    → Outcome (Ledger MaterialCapacityKey)
unfolding find_observation is_money is_item_unit_kind reserve
reserve_requests observations paths [] newly = ok newly
reserve_requests observations paths (r ∷ rs) newly = do
  o ← or_fail (find_observation observations r.capacity) stale_capacity_revision
  fail_if (not (o.authority_revision == r.authority_revision)) stale_capacity_revision
  fail_if (misfits_observation r o) invalid_command
  newly' ← or_fail (reserve newly r.capacity r.capacity_quantity) invalid_command
  fail_if (observes_other_count o paths) stale_capacity_revision
  reserve_requests observations paths rs newly'

-- The checks of one candidate; the ledger is newlyReserved.
unfoldable pub check_candidate :
    MaterialCommitmentStartup
    → MaterialCommitmentCommand
    → ℕ
    → MaterialAdmissionCandidate
    → Ledger MaterialCapacityKey
    → Outcome (Ledger MaterialCapacityKey)
unfolding find_intent check_source has_active_origin check_reservations check_backing
    reserve_requests
check_candidate state command now candidate newly = do
  intent ← or_fail (find_intent state.intents candidate.origin_identity) unknown_intent
  fail_if (not (candidate.owner_revision == intent.owner_revision)) stale_owner_revision
  check_source intent now candidate.source_paths intent.requirements candidate.reservations
  fail_if (has_active_origin state.commitments candidate.origin_identity) existing_commitment
  backing ← check_reservations intent.requirements candidate.reservations [] []
  check_backing intent.requirements backing
  reserve_requests command.capacity_observations candidate.source_paths candidate.reservations newly

unfoldable pub check_candidates :
    MaterialCommitmentStartup
    → MaterialCommitmentCommand
    → ℕ
    → List MaterialAdmissionCandidate
    → List Text
    → Ledger MaterialCapacityKey
    → Outcome (Ledger MaterialCapacityKey)
unfolding check_candidate
check_candidates state command now [] origins newly = ok newly
check_candidates state command now (candidate ∷ candidates) origins newly = do
  fail_if (is_empty candidate.origin_identity || contains candidate.origin_identity origins)
      invalid_command
  newly' ← check_candidate state command now candidate newly
  check_candidates state command now candidates (candidate.origin_identity ∷ origins) newly'

-- What the active commitments of the book still hold of each capacity.
unfoldable pub retained_capacity :
    List MaterialCommitment → Ledger MaterialCapacityKey → Option (Ledger MaterialCapacityKey)
unfolding is_active reserve_all
retained_capacity [] retained = some retained
retained_capacity (c ∷ cs) retained = elim (is_active c.state) [
  | false ↦ retained_capacity cs retained
  | true ↦ elim (reserve_all c.reservations retained) [
    | none ↦ none
    | some retained' ↦ retained_capacity cs retained'
  ]
]

unfoldable pub check_capacity :
    List MaterialCapacityObservation
    → Ledger MaterialCapacityKey
    → Ledger MaterialCapacityKey
    → Outcome (Unit {0})
unfolding find_observation reserved_at
check_capacity observations retained [] = ok tt
check_capacity observations retained ((key, quantity) ∷ newly) = do
  o ← or_fault (find_observation observations key)
  fail_if
      (ltb o.available_quantity (reserved_at key retained)
        || ltb (o.available_quantity - reserved_at key retained) quantity)
      insufficient_capacity
  check_capacity observations retained newly

unfoldable pub validate_admission_facts :
    MaterialCommitmentStartup → MaterialCommitmentCommand → ℕ → Outcome (Unit {0})
unfolding check_observations check_candidates retained_capacity check_capacity
validate_admission_facts state command now = do
  fail_if
      (is_empty command.candidates
        || not (is_empty command.intents)
        || not (is_empty command.source_starts)
        || not (is_empty command.fulfillments))
      invalid_command
  check_observations command.capacity_observations []
  newly ← check_candidates state command now command.candidates [] []
  retained ← or_fail (retained_capacity state.commitments []) invalid_command
  check_capacity command.capacity_observations retained newly
