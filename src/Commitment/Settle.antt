-- ===== src/Commitment/Settle.antt =====
-- StartSources, FulfillCommitments, TerminateCommitments and ReleaseCommitments of
-- `src/Bot/Economy/PlayerbotMaterialCommitmentAuthority.cpp`: the operations on one commitment
-- at a time. A commitment is written through the pointer that FindCommitment gives.
pub mod Conservation
use mod_playerbots_economy.Prelude.{
  ℕ, ◌+◌, ◌-◌, Bool, true, false, not, ◌&&◌, ◌||◌, List, [], ◌∷◌, Option, none, some, Text, text_eq,
  is_empty, is_some, contains, find_if, keep_if, update_first, ltb, leb, ◌==◌, nat_eq,
  if◌then◌else◌,
}
use mod_playerbots_economy.Commitment.Types.{
  MaterialCapacityKey, MaterialSourcePhase, MaterialSourcePath, MaterialReservation,
  MaterialCommitment, MaterialCommitmentState, MaterialCommitmentStartup,
  MaterialReservationSettlement, MaterialFulfillment, MaterialSourceStart,
  MaterialCommitmentCommand, MaterialCommitmentApplyStatus.invalid_command,
  MaterialCommitmentApplyStatus.unknown_commitment,
  MaterialCommitmentApplyStatus.terminal_commitment,
  MaterialCommitmentApplyStatus.stale_capacity_revision,
}
use mod_playerbots_economy.Commitment.Outcome.{
  Outcome, ok, ◌>>=◌, ◌>>◌, fail_if, or_fail, find_commitment, checked_add, capacity_key_eq,
}
use mod_playerbots_economy.Commitment.Validity.{is_active, is_item_unit_kind, phase_eq}

unfoldable pub update_commitment :
    Text
    → (MaterialCommitment → MaterialCommitment)
    → List MaterialCommitment
    → List MaterialCommitment
update_commitment identity = update_first (λ c. c.identity == identity)

abbrev at_phase : MaterialSourcePhase → MaterialSourcePath → MaterialSourcePath
at_phase phase path = record path { phase = phase }

abbrev pub path_to : MaterialSourcePhase → Option MaterialSourcePath → Option MaterialSourcePath
path_to phase none = none
path_to phase (some path) = some (at_phase phase path)

-- The checks that every loop begins with: a new identity of an active commitment.
unfoldable pub active_commitment :
    List MaterialCommitment → Text → Bool → List Text → Outcome MaterialCommitment
unfolding find_commitment is_active
active_commitment commitments identity is_invalid seen = do
  fail_if (is_empty identity || is_invalid || contains identity seen) invalid_command
  c ← or_fail (find_commitment commitments identity) unknown_commitment
  fail_if (not (is_active c.state)) terminal_commitment
  ok c

abbrev pub awaits_start : MaterialSourceStart → Option MaterialSourcePath → Bool
awaits_start start none = false
awaits_start start (some path) =
    path.phase == MaterialSourcePhase.selected
    && path.source_revision == start.expected_source_revision

unfoldable pub check_starts :
    List MaterialCommitment → List MaterialSourceStart → List Text → Outcome (Unit {0})
unfolding active_commitment
check_starts commitments [] seen = ok tt
check_starts commitments (start ∷ starts) seen = do
  c ←
      active_commitment commitments start.commitment_identity (start.expected_source_revision == 0)
        seen
  fail_if (not (awaits_start start c.source_path)) stale_capacity_revision
  check_starts commitments starts (start.commitment_identity ∷ seen)

abbrev pub begin_path : ℕ → Option MaterialSourcePath → Option MaterialSourcePath
begin_path inventory none = none
begin_path inventory (some path) =
    some (record path {
      phase = MaterialSourcePhase.acquiring;
      starting_inventory_quantity = inventory;
    })

unfoldable pub begin_source : ℕ → MaterialCommitment → MaterialCommitment
begin_source inventory c = record c { source_path = begin_path inventory c.source_path }

unfoldable pub start_each :
    List MaterialSourceStart → List MaterialCommitment → List MaterialCommitment
unfolding update_commitment begin_source
start_each [] commitments = commitments
start_each (start ∷ starts) commitments = start_each starts (
    update_commitment start.commitment_identity (begin_source start.starting_inventory_quantity)
      commitments)

unfoldable pub start_sources :
    MaterialCommitmentStartup → MaterialCommitmentCommand → Outcome MaterialCommitmentStartup
unfolding check_starts start_each
start_sources state command = do
  fail_if
      (is_empty command.source_starts
        || not (is_empty command.intents)
        || not (is_empty command.candidates)
        || not (is_empty command.capacity_observations)
        || not (is_empty command.fulfillments)
        || not (is_empty command.commitment_identities))
      invalid_command
  check_starts state.commitments command.source_starts []
  ok (record state { commitments = start_each command.source_starts state.commitments })

-- What a source path asks of its fulfillment; without one no inventory may be reported.
unfoldable pub settles_path :
    MaterialFulfillment → MaterialCommitment → Option MaterialSourcePath → Option ℕ → Bool
settles_path f c none none = true
settles_path f c none (some observed) = false
settles_path f c (some path) none = false
settles_path f c (some path) (some observed) =
    path.phase == MaterialSourcePhase.acquiring
    && f.quantity == c.remaining_quantity
    && leb path.starting_inventory_quantity observed
    && leb path.selected_quantity (observed - path.starting_inventory_quantity)

unfoldable pub find_reservation :
    List MaterialReservation → MaterialCapacityKey → Option MaterialReservation
find_reservation reservations key = find_if (λ r. r.capacity == key) reservations

-- The loop over the settlements: the capacities met so far and totalRelease.
unfoldable pub check_releases :
    List MaterialReservation
    → List MaterialReservationSettlement
    → List MaterialCapacityKey
    → ℕ
    → Outcome ℕ
unfolding find_reservation is_item_unit_kind checked_add
check_releases reservations [] seen total = ok total
check_releases reservations (s ∷ ss) seen total = do
  fail_if
      (is_empty s.capacity.authority_identity
        || s.capacity_quantity == 0
        || contains s.capacity seen)
      invalid_command
  r ← or_fail (find_reservation reservations s.capacity) invalid_command
  fail_if
      (ltb r.remaining_backed_material_quantity s.backed_material_quantity
        || ltb r.remaining_capacity_quantity s.capacity_quantity
        || (is_item_unit_kind r.capacity.kind
            && not (s.backed_material_quantity == s.capacity_quantity)))
      invalid_command
  total' ← or_fail (checked_add total s.backed_material_quantity) invalid_command
  check_releases reservations ss (s.capacity ∷ seen) total'

unfoldable pub release_reservation :
    MaterialReservationSettlement → MaterialReservation → MaterialReservation
release_reservation s r = record r {
  remaining_backed_material_quantity =
      r.remaining_backed_material_quantity - s.backed_material_quantity;
  remaining_capacity_quantity = r.remaining_capacity_quantity - s.capacity_quantity;
}

unfoldable pub release_all :
    List MaterialReservationSettlement → List MaterialReservation → List MaterialReservation
unfolding release_reservation
release_all [] reservations = reservations
release_all (s ∷ ss) reservations =
    release_all ss
      (update_first (λ r. r.capacity == s.capacity) (release_reservation s) reservations)

-- What an accepted fulfillment makes of its commitment.
unfoldable pub settle_commitment : MaterialFulfillment → MaterialCommitment → MaterialCommitment
unfolding release_all
settle_commitment f c =
    let remaining = c.remaining_quantity - f.quantity in
    if remaining == 0
    then record c {
      remaining_quantity = remaining;
      state = MaterialCommitmentState.completed;
      reservations = [];
      source_path = path_to MaterialSourcePhase.completed c.source_path;
    }
    else record c {
      remaining_quantity = remaining;
      state = MaterialCommitmentState.partially_fulfilled;
      reservations =
          keep_if (λ r. not (r.remaining_capacity_quantity == 0))
            (release_all f.reservation_settlements c.reservations);
    }

unfoldable pub check_fulfillment : MaterialFulfillment → MaterialCommitment → Outcome (Unit {0})
unfolding settles_path check_releases
check_fulfillment f c = do
  fail_if (ltb c.remaining_quantity f.quantity) invalid_command
  fail_if (not (settles_path f c c.source_path f.observed_inventory_quantity)) invalid_command
  total ← check_releases c.reservations f.reservation_settlements [] 0
  fail_if (ltb f.quantity c.remaining_quantity && not (total == f.quantity)) invalid_command

unfoldable pub fulfill_each :
    List MaterialFulfillment
    → List Text
    → List MaterialCommitment
    → Outcome (List MaterialCommitment)
unfolding active_commitment check_fulfillment settle_commitment update_commitment
fulfill_each [] seen commitments = ok commitments
fulfill_each (f ∷ fs) seen commitments = do
  c ← active_commitment commitments f.commitment_identity (f.quantity == 0) seen
  check_fulfillment f c
  fulfill_each fs (f.commitment_identity ∷ seen)
      (update_commitment f.commitment_identity (settle_commitment f) commitments)

unfoldable pub fulfill_commitments :
    MaterialCommitmentStartup → MaterialCommitmentCommand → Outcome MaterialCommitmentStartup
unfolding fulfill_each
fulfill_commitments state command = do
  fail_if
      (is_empty command.fulfillments
        || not (is_empty command.intents)
        || not (is_empty command.candidates)
        || not (is_empty command.capacity_observations)
        || not (is_empty command.source_starts)
        || not (is_empty command.commitment_identities))
      invalid_command
  commitments ← fulfill_each command.fulfillments [] state.commitments
  ok (record state { commitments = commitments })

unfoldable pub check_terminations :
    List MaterialCommitment → List Text → List Text → Outcome (Unit {0})
unfolding active_commitment
check_terminations commitments [] seen = ok tt
check_terminations commitments (identity ∷ identities) seen = do
  c ← active_commitment commitments identity false seen
  check_terminations commitments identities (identity ∷ seen)

unfoldable pub terminate : MaterialCommitmentState → MaterialCommitment → MaterialCommitment
terminate terminal c = record c {
  state = terminal;
  remaining_quantity = 0;
  reservations = [];
  source_path = path_to MaterialSourcePhase.released c.source_path;
}

unfoldable pub terminate_each :
    MaterialCommitmentState → List Text → List MaterialCommitment → List MaterialCommitment
unfolding update_commitment terminate
terminate_each terminal [] commitments = commitments
terminate_each terminal (identity ∷ identities) commitments =
    terminate_each terminal identities (update_commitment identity (terminate terminal) commitments)

unfoldable pub terminate_commitments :
    MaterialCommitmentStartup
    → List Text
    → MaterialCommitmentState
    → Outcome MaterialCommitmentStartup
unfolding check_terminations terminate_each
terminate_commitments state identities terminal = do
  fail_if (is_empty identities) invalid_command
  check_terminations state.commitments identities []
  ok (record state { commitments = terminate_each terminal identities state.commitments })

unfoldable pub release_commitments :
    MaterialCommitmentStartup → MaterialCommitmentCommand → Outcome MaterialCommitmentStartup
unfolding terminate_commitments
release_commitments state command = do
  fail_if
      (not (is_empty command.intents)
        || not (is_empty command.candidates)
        || not (is_empty command.capacity_observations)
        || not (is_empty command.source_starts)
        || not (is_empty command.fulfillments))
      invalid_command
  terminate_commitments state command.commitment_identities MaterialCommitmentState.released
