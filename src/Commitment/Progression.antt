-- ===== src/Commitment/Progression.antt =====
-- The command that observes a profession progression intent, of
-- `src/Bot/Economy/PlayerbotMaterialCommitmentEncoding.cpp`.
pub mod Requirements
pub mod Accepted
use mod_playerbots_economy.Prelude.{
  ℕ, ◌+◌, Bool, false, not, ◌&&◌, ◌||◌, List, [], ◌∷◌, ◌++◌, Option, none, some, Text, codes,
  decimal, is_empty, is_some, any_of, length, ltb, leb, if◌then◌else◌, ◌==◌, nat_eq, text_eq,
}
use mod_playerbots_economy.Commitment.Types.{
  MaterialRequirement, MaterialIntent, MaterialCommitmentOwnerKind.profession_progression,
  MaterialCommitmentSnapshot, MaterialCommitmentCommand, MaterialCommitmentCommandKind.observe,
  MaterialCommitmentApplyStatus, MaterialCommitmentWrite,
}
use mod_playerbots_economy.Commitment.Encoding.{max_identity_bytes, u64, colons}
use mod_playerbots_economy.Commitment.Outcome.{u64_max, find_intent}
use mod_playerbots_economy.Commitment.Validity.{requirements_eq, owner_kind_eq}
use mod_playerbots_economy.Commitment.Authority.{Authority, Applied, apply}

pub record ProfessionProgressionIntentInput : Type 0 where
  pub character_guid : ℕ
  pub market_id : ℕ
  pub profession_skill_id : ℕ
  pub target_skill : ℕ
  pub recipe_spell_id : ℕ
  pub output_item_id : ℕ
  pub bounded_batch : ℕ
  pub scarce_requirements : List MaterialRequirement

pub data ProfessionProgressionObserveBuildStatus : Type 0 where
  command no_change invalid : ProfessionProgressionObserveBuildStatus

pub record ProfessionProgressionObserveBuildResult : Type 0 where
  pub status : ProfessionProgressionObserveBuildStatus
  pub command : Option MaterialCommitmentCommand

pub data ProfessionProgressionObserveStatus : Type 0 where
  pending_persistence no_change busy : ProfessionProgressionObserveStatus
  stale persistence_unavailable invalid : ProfessionProgressionObserveStatus

unfoldable pub profession_progression_origin_identity : ProfessionProgressionIntentInput → Text
profession_progression_origin_identity input =
    codes "profession-progression:"
    ++ colons (
        decimal input.character_guid
        ∷ decimal input.profession_skill_id
        ∷ decimal input.target_skill
        ∷ decimal input.recipe_spell_id
        ∷ decimal input.output_item_id
        ∷ [])

unfoldable pub profession_progression_observe_operation_identity : Text → ℕ → Text
profession_progression_observe_operation_identity origin_identity owner_revision =
    origin_identity ++ codes ":observe:" ++ decimal owner_revision

unfoldable pub insert_requirement :
    MaterialRequirement → List MaterialRequirement → List MaterialRequirement
insert_requirement r [] = r ∷ []
insert_requirement r (q ∷ qs) =
    if leb r.item_id q.item_id then r ∷ q ∷ qs else q ∷ insert_requirement r qs

unfoldable pub sort_requirements : List MaterialRequirement → List MaterialRequirement
unfolding insert_requirement
sort_requirements [] = []
sort_requirements (r ∷ rs) = insert_requirement r (sort_requirements rs)

-- `adjacent_find` on the item ids.
unfoldable pub has_adjacent : List MaterialRequirement → Bool
has_adjacent [] = false
has_adjacent (r ∷ []) = false
has_adjacent (r ∷ q ∷ qs) = r.item_id == q.item_id || has_adjacent (q ∷ qs)

unfoldable pub valid_intent_input : ProfessionProgressionIntentInput → Bool
valid_intent_input input =
    not (input.character_guid == 0)
    && not (input.market_id == 0)
    && not (input.profession_skill_id == 0)
    && not (input.target_skill == 0)
    && not (input.recipe_spell_id == 0)
    && not (input.output_item_id == 0)
    && not (input.bounded_batch == 0)
    && not (is_empty input.scarce_requirements)

unfoldable pub sound_requirements : List MaterialRequirement → Bool
unfolding has_adjacent
sound_requirements requirements =
    not (any_of (λ r. r.item_id == 0 || r.quantity == 0) requirements)
    && not (has_adjacent requirements)

abbrev invalid_build : ProfessionProgressionObserveBuildResult
invalid_build = record { status = ProfessionProgressionObserveBuildStatus.invalid; command = none }

unfoldable pub observed_intent :
    ProfessionProgressionIntentInput → Text → ℕ → List MaterialRequirement → MaterialIntent
observed_intent input origin_identity owner_revision requirements = record {
  origin_identity = origin_identity;
  owner_kind = profession_progression;
  owner_revision = owner_revision;
  market_id = input.market_id;
  bounded_quantity = input.bounded_batch;
  needed_by = none;
  first_observed_at = 0;
  last_observed_at = 0;
  requirements = requirements;
}

unfoldable pub observe_command : Text → ℕ → MaterialIntent → MaterialCommitmentCommand
observe_command operation_identity expected_book_revision intent = record {
  operation_identity = operation_identity;
  expected_book_revision = expected_book_revision;
  kind = observe;
  intents = intent ∷ [];
  candidates = [];
  capacity_observations = [];
  source_starts = [];
  fulfillments = [];
  commitment_identities = [];
  origin_identities = [];
  retained_operations = 0;
}

-- The command for an owner revision, unless its identity is too long.
unfoldable pub observe_at :
    ProfessionProgressionIntentInput
    → MaterialCommitmentSnapshot
    → Text
    → List MaterialRequirement
    → ℕ
    → ProfessionProgressionObserveBuildResult
unfolding observed_intent observe_command profession_progression_observe_operation_identity
observe_at input snapshot origin requirements owner_revision =
    let operation = profession_progression_observe_operation_identity origin owner_revision in
    if ltb max_identity_bytes (length operation) then invalid_build else record {
      status = ProfessionProgressionObserveBuildStatus.command;
      command = some (
          observe_command operation snapshot.book_revision
            (observed_intent input origin owner_revision requirements));
    }

unfoldable pub already_observed :
    ProfessionProgressionIntentInput → List MaterialRequirement → MaterialIntent → Bool
already_observed input requirements existing =
    existing.owner_kind == profession_progression
    && existing.market_id == input.market_id
    && existing.bounded_quantity == input.bounded_batch
    && not (is_some existing.needed_by)
    && existing.requirements == requirements

-- What follows once the intent was looked up in the snapshot.
unfoldable pub observe_over :
    ProfessionProgressionIntentInput
    → MaterialCommitmentSnapshot
    → Text
    → List MaterialRequirement
    → Option MaterialIntent
    → ProfessionProgressionObserveBuildResult
unfolding observe_at already_observed
observe_over input snapshot origin requirements none =
    observe_at input snapshot origin requirements 1
observe_over input snapshot origin requirements (some existing) =
    if already_observed input requirements existing
    then record { status = ProfessionProgressionObserveBuildStatus.no_change; command = none }
    else if existing.owner_revision == u64_max
    then invalid_build
    else observe_at input snapshot origin requirements (u64 (existing.owner_revision + 1))

unfoldable pub build_profession_progression_observe :
    ProfessionProgressionIntentInput
    → MaterialCommitmentSnapshot
    → ProfessionProgressionObserveBuildResult
unfolding valid_intent_input sound_requirements sort_requirements
    profession_progression_origin_identity find_intent observe_over
build_profession_progression_observe input snapshot =
    let requirements = sort_requirements input.scarce_requirements in
    let origin = profession_progression_origin_identity input in
    if not (valid_intent_input input)
      || not (sound_requirements requirements)
      || ltb max_identity_bytes (length origin)
    then invalid_build
    else observe_over input snapshot origin requirements (find_intent snapshot.intents origin)

abbrev pub observe_status : MaterialCommitmentApplyStatus → ProfessionProgressionObserveStatus
observe_status MaterialCommitmentApplyStatus.pending_persistence =
    ProfessionProgressionObserveStatus.pending_persistence
observe_status MaterialCommitmentApplyStatus.idempotent =
    ProfessionProgressionObserveStatus.no_change
observe_status MaterialCommitmentApplyStatus.busy = ProfessionProgressionObserveStatus.busy
observe_status MaterialCommitmentApplyStatus.stale_book_revision =
    ProfessionProgressionObserveStatus.stale
observe_status MaterialCommitmentApplyStatus.stale_owner_revision =
    ProfessionProgressionObserveStatus.stale
observe_status MaterialCommitmentApplyStatus.persistence_unavailable =
    ProfessionProgressionObserveStatus.persistence_unavailable
observe_status _ = ProfessionProgressionObserveStatus.invalid

-- The authority after the observation, what it answered (`none` if Apply faulted), and what went
-- to the writer.
pub record Observed : Type 0 where
  pub authority : Authority
  pub status : Option ProfessionProgressionObserveStatus
  pub written : Option MaterialCommitmentWrite

abbrev answered : Applied → Observed
answered r = record {
  authority = r.authority;
  status = elim r.reply [ none ↦ none | some reply ↦ some (observe_status reply.status) ];
  written = r.written;
}

abbrev unsent : Authority → ProfessionProgressionObserveStatus → Observed
unsent a status = record { authority = a; status = some status; written = none }

unfoldable pub send_build :
    Authority
    → ProfessionProgressionObserveBuildStatus
    → Option MaterialCommitmentCommand
    → ℕ
    → Observed
unfolding apply
send_build a ProfessionProgressionObserveBuildStatus.no_change c now =
    unsent a ProfessionProgressionObserveStatus.no_change
send_build a ProfessionProgressionObserveBuildStatus.command none now =
    unsent a ProfessionProgressionObserveStatus.invalid
send_build a ProfessionProgressionObserveBuildStatus.command (some c) now = answered (apply a c now)
send_build a ProfessionProgressionObserveBuildStatus.invalid c now =
    unsent a ProfessionProgressionObserveStatus.invalid

unfoldable pub observe_profession_progression :
    Authority → ProfessionProgressionIntentInput → MaterialCommitmentSnapshot → ℕ → Observed
unfolding build_profession_progression_observe send_build
observe_profession_progression a input snapshot now =
    let build = build_profession_progression_observe input snapshot in
    send_build a build.status build.command now
