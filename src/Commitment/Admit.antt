-- ===== src/Commitment/Admit.antt =====
-- AdmitCandidates of `src/Bot/Economy/PlayerbotMaterialCommitmentAuthority.cpp`.
use mod_playerbots_economy.Prelude.{
  ℕ, ◌+◌, Bool, true, false, List, [], ◌∷◌, ◌++◌, Option, none, some, Text, text_eq, update_first,
  ◌==◌, nat_eq, is_some,
}
use mod_playerbots_economy.Commitment.Types.{
  MaterialRequirement, MaterialIntent, MaterialCapacityObservation, MaterialReservationRequest,
  MaterialSourcePath, MaterialAdmissionCandidate, MaterialReservation, MaterialCommitment,
  MaterialCommitmentState.admitted, MaterialCommitmentStartup, MaterialCommitmentCommand,
  MaterialCommitmentApplyStatus.identity_collision,
}
use mod_playerbots_economy.Commitment.Encoding.{commitment_identity}
use mod_playerbots_economy.Commitment.Outcome.{
  Outcome, ok, ◌>>=◌, ◌>>◌, fail_if, or_fault, find_intent, find_commitment,
}
use mod_playerbots_economy.Commitment.Admission.{find_observation, validate_admission_facts}

abbrev pub first_path : List MaterialSourcePath → Option MaterialSourcePath
first_path [] = none
first_path (path ∷ paths) = some path

unfoldable pub reservation_of :
    MaterialReservationRequest → MaterialCapacityObservation → MaterialReservation
reservation_of r o = record {
  material_item_id = r.material_item_id;
  capacity = r.capacity;
  unit = o.unit;
  authority_revision = r.authority_revision;
  initial_backed_material_quantity = r.backed_material_quantity;
  remaining_backed_material_quantity = r.backed_material_quantity;
  initial_capacity_quantity = r.capacity_quantity;
  remaining_capacity_quantity = r.capacity_quantity;
}

-- One round of the loop over the requests: whether the item matches, and the rest of the list.
unfoldable pub add_reservation :
    Bool
    → List MaterialCapacityObservation
    → MaterialReservationRequest
    → List MaterialReservation
    → Outcome (List MaterialReservation)
unfolding find_observation reservation_of
add_reservation false observations r rest = ok rest
add_reservation true observations r rest = do
  o ← or_fault (find_observation observations r.capacity)
  ok (reservation_of r o ∷ rest)

-- The reservations of a commitment: the requests for its item.
unfoldable pub reservations_for :
    List MaterialCapacityObservation
    → ℕ
    → List MaterialReservationRequest
    → Outcome (List MaterialReservation)
unfolding add_reservation
reservations_for observations item [] = ok []
reservations_for observations item (r ∷ rs) = do
  rest ← reservations_for observations item rs
  add_reservation (r.material_item_id == item) observations r rest

unfoldable pub commitment_of :
    Text
    → MaterialIntent
    → MaterialRequirement
    → ℕ
    → List MaterialReservation
    → Option MaterialSourcePath
    → MaterialCommitment
commitment_of identity intent requirement needed_by reservations path = record {
  identity = identity;
  origin_identity = intent.origin_identity;
  owner_kind = intent.owner_kind;
  owner_revision = intent.owner_revision;
  market_id = intent.market_id;
  material_item_id = requirement.item_id;
  bounded_quantity = requirement.quantity;
  remaining_quantity = requirement.quantity;
  needed_by = needed_by;
  state = admitted;
  reservations = reservations;
  source_path = path;
}

-- The book, the next ordinal, and admittedIdentities.
pub record Admitting : Type 0 where
  pub state : MaterialCommitmentStartup
  pub ordinal : ℕ
  pub admitted_identities : List Text

-- The loop over the requirements of one intent.
unfoldable pub admit_requirements :
    MaterialCommitmentCommand
    → MaterialAdmissionCandidate
    → MaterialIntent
    → List MaterialRequirement
    → Admitting
    → Outcome Admitting
unfolding find_commitment reservations_for commitment_of commitment_identity
admit_requirements command candidate intent [] a = ok a
admit_requirements command candidate intent (requirement ∷ requirements) a = do
  let identity = commitment_identity command.operation_identity a.ordinal
  fail_if (is_some (find_commitment a.state.commitments identity)) identity_collision
  needed_by ← or_fault intent.needed_by
  reservations ←
      reservations_for command.capacity_observations requirement.item_id candidate.reservations
  let commitment =
      commitment_of identity intent requirement needed_by reservations
        (first_path candidate.source_paths)
  admit_requirements command candidate intent requirements (record {
    state = record (a.state) { commitments = a.state.commitments ++ commitment ∷ [] };
    ordinal = a.ordinal + 1;
    admitted_identities = a.admitted_identities ++ identity ∷ [];
  })

-- `intentPointer->neededBy = ...` for a candidate with a source path.
unfoldable pub take_horizon :
    MaterialCommitmentStartup → Text → Option MaterialSourcePath → MaterialCommitmentStartup
take_horizon state origin none = state
take_horizon state origin (some path) = record state {
  intents =
      update_first (λ i. i.origin_identity == origin)
        (λ i. record i { needed_by = some path.needed_by }) state.intents;
}

unfoldable pub admit_each :
    MaterialCommitmentCommand → List MaterialAdmissionCandidate → Admitting → Outcome Admitting
unfolding find_intent take_horizon admit_requirements
admit_each command [] a = ok a
admit_each command (candidate ∷ candidates) a = do
  let state = take_horizon a.state candidate.origin_identity (first_path candidate.source_paths)
  intent ← or_fault (find_intent state.intents candidate.origin_identity)
  a' ← admit_requirements command candidate intent intent.requirements (record a { state = state })
  admit_each command candidates a'

unfoldable pub admit_candidates :
    MaterialCommitmentStartup
    → MaterialCommitmentCommand
    → ℕ
    → Outcome (MaterialCommitmentStartup × List Text)
unfolding validate_admission_facts admit_each
admit_candidates state command now = do
  validate_admission_facts state command now
  a ←
      admit_each command command.candidates
        (record { state = state; ordinal = 0; admitted_identities = [] })
  ok (a.state, a.admitted_identities)
