-- ===== src/Commitment/Authority.antt =====
-- ApplyToReplacement and the class PlayerbotMaterialCommitmentAuthority of
-- `src/Bot/Economy/PlayerbotMaterialCommitmentAuthority.cpp`. Each method runs under the mutex, so
-- it is one step. The writer is not part of the sources: `has_writer` says whether there is one,
-- and a call of it is the pair of the token and the write that `apply` hands out.
use mod_playerbots_economy.Prelude.{
  ℕ, ◌+◌, Bool, true, false, not, ◌||◌, List, [], ◌∷◌, ◌++◌, map, Option, none, some, Text, text_eq,
  codes, decimal, length, is_empty, is_some, keep_if, ltb, Equality, ◌==◌, nat_eq, of_discrete,
  if◌then◌else◌,
}
use mod_playerbots_economy.Commitment.Types.{
  MaterialIntent, intent_discrete, MaterialReservation, MaterialCommitment, commitment_discrete,
  MaterialCommitmentOperation, MaterialCommitmentStartup, MaterialCommitmentCommandKind,
  MaterialCommitmentCommandKind.observe, MaterialCommitmentCommandKind.admit,
  MaterialCommitmentCommandKind.start_source, MaterialCommitmentCommandKind.fulfill,
  MaterialCommitmentCommandKind.release, MaterialCommitmentCommandKind.supersede,
  MaterialCommitmentCommandKind.compact, MaterialReservationSettlement, MaterialCommitmentCommand,
  MaterialCommitmentApplyStatus, MaterialCommitmentApplyStatus.pending_persistence,
  MaterialCommitmentApplyStatus.idempotent, MaterialCommitmentApplyStatus.busy,
  MaterialCommitmentApplyStatus.persistence_unavailable,
  MaterialCommitmentApplyStatus.invalid_command, MaterialCommitmentApplyStatus.stale_book_revision,
  MaterialCommitmentApplyStatus.operation_conflict, MaterialCommitmentApplyResult,
  MaterialCommitmentWrite, MaterialCommitmentSnapshot,
}
use mod_playerbots_economy.Commitment.Encoding.{
  max_identity_bytes, max_fingerprint_bytes, u64, fingerprint,
}
use mod_playerbots_economy.Commitment.Outcome.{
  Outcome, ok, fail, fault, ◌>>=◌, ◌>>◌, fail_if, find_intent, find_commitment, find_operation,
}
use mod_playerbots_economy.Commitment.Validity.{valid_startup}
use mod_playerbots_economy.Commitment.Observe.{observe_intents}
use mod_playerbots_economy.Commitment.Admit.{admit_candidates}
use mod_playerbots_economy.Commitment.Settle.{
  start_sources, fulfill_commitments, release_commitments,
}
use mod_playerbots_economy.Commitment.Supersede.{supersede_commitments}
use mod_playerbots_economy.Commitment.Compact.{compact_book}

instance abbrev pub intent_eq : Equality MaterialIntent
intent_eq = of_discrete intent_discrete

instance abbrev pub commitment_eq : Equality MaterialCommitment
commitment_eq = of_discrete commitment_discrete

-- The operations that admit nothing leave admittedIdentities empty.
abbrev pub admitting_none :
    Outcome MaterialCommitmentStartup → Outcome (MaterialCommitmentStartup × List Text)
admitting_none m = m >>= λ state. ok (state, [])

-- The `switch` on the kind of the command.
unfoldable pub apply_kind :
    MaterialCommitmentCommandKind
    → MaterialCommitmentStartup
    → MaterialCommitmentCommand
    → ℕ
    → Outcome (MaterialCommitmentStartup × List Text)
apply_kind compact state command now = admitting_none (compact_book state command)
apply_kind observe state command now = admitting_none (observe_intents state command now)
apply_kind admit state command now = do
  fail_if (not (is_empty command.commitment_identities)) invalid_command
  admit_candidates state command now
apply_kind start_source state command now = admitting_none (start_sources state command)
apply_kind fulfill state command now = admitting_none (fulfill_commitments state command)
apply_kind release state command now = admitting_none (release_commitments state command)
apply_kind supersede state command now = supersede_commitments state command now

unfoldable pub apply_to_replacement :
    MaterialCommitmentStartup
    → MaterialCommitmentCommand
    → ℕ
    → Outcome (MaterialCommitmentStartup × List Text)
unfolding apply_kind
apply_to_replacement state command now = apply_kind command.kind state command now

pub record PendingWrite : Type 0 where
  pub token : ℕ
  pub replacement : MaterialCommitmentStartup

pub record Authority : Type 0 where
  pub has_writer : Bool
  pub durable : MaterialCommitmentStartup
  pub pending : Option PendingWrite
  pub next_write_token : ℕ
  pub persistence_healthy : Bool

abbrev pub empty_startup : MaterialCommitmentStartup
empty_startup = record {
  source_available = false;
  book_revision = 0;
  intents = [];
  commitments = [];
  operations = [];
}

-- The constructor.
unfoldable pub new_authority : Bool → Authority
new_authority has_writer = record {
  has_writer = has_writer;
  durable = empty_startup;
  pending = none;
  next_write_token = 1;
  persistence_healthy = false;
}

unfoldable pub restore : Authority → MaterialCommitmentStartup → Authority × Bool
restore a startup =
    if valid_startup startup
    then (record a { pending = none; durable = startup; persistence_healthy = true }, true)
    else (record a { pending = none; durable = empty_startup; persistence_healthy = false }, false)

-- The authority after a call of Apply, its reply (`none` if the call faulted) and the write that
-- went to the writer.
pub record Applied : Type 0 where
  pub authority : Authority
  pub reply : Option MaterialCommitmentApplyResult
  pub written : Option MaterialCommitmentWrite

abbrev pub replied : MaterialCommitmentApplyStatus → MaterialCommitmentApplyResult
replied status = record { status = status; write_token = 0; commitment_identities = [] }

-- `return {.status = status};`
abbrev pub refused : Authority → MaterialCommitmentApplyStatus → Applied
refused a status = record { authority = a; reply = some (replied status); written = none }

unfoldable pub operation_of :
    MaterialCommitmentCommand → ℕ → List Text → MaterialCommitmentOperation
operation_of command revision admitted = record {
  identity = command.operation_identity;
  fingerprint = fingerprint command;
  resulting_book_revision = revision;
  commitment_identities = admitted;
}

-- The replacement with the operation at the end of its log and the next revision.
unfoldable pub logged :
    MaterialCommitmentCommand → MaterialCommitmentStartup → List Text → MaterialCommitmentStartup
unfolding operation_of
logged command replacement admitted =
    let revision = u64 (replacement.book_revision + 1) in
    record replacement {
      book_revision = revision;
      operations = replacement.operations ++ operation_of command revision admitted ∷ [];
    }

abbrev pub differs {ℓ} : {A : Type ℓ} ⦃e : Equality A⦄ → Option A → A → Bool
differs none a = true
differs (some b) a = not (b == a)

-- The write: what the replacement changes of the durable book, and what it drops.
unfoldable pub write_of :
    MaterialCommitmentStartup
    → MaterialCommitmentOperation
    → MaterialCommitmentStartup
    → MaterialCommitmentWrite
unfolding find_intent find_commitment find_operation
write_of durable operation replacement = record {
  expected_book_revision = durable.book_revision;
  new_book_revision = replacement.book_revision;
  changed_origin_identities =
      map (λ i. i.origin_identity)
        (keep_if (λ i. differs (find_intent durable.intents i.origin_identity) i)
          replacement.intents);
  changed_commitment_identities =
      map (λ c. c.identity)
        (keep_if (λ c. differs (find_commitment durable.commitments c.identity) c)
          replacement.commitments);
  removed_origin_identities =
      map (λ i. i.origin_identity)
        (keep_if (λ i. not (is_some (find_intent replacement.intents i.origin_identity)))
          durable.intents);
  removed_commitment_identities =
      map (λ c. c.identity)
        (keep_if (λ c. not (is_some (find_commitment replacement.commitments c.identity)))
          durable.commitments);
  removed_operation_identities =
      map (λ o. o.identity)
        (keep_if (λ o. not (is_some (find_operation replacement.operations o.identity)))
          durable.operations);
  operation = operation;
  replacement = replacement;
}

-- What Apply does with the outcome of the operation on the copy of the book.
unfoldable pub submit :
    Authority
    → MaterialCommitmentCommand
    → Outcome (MaterialCommitmentStartup × List Text)
    → Applied
unfolding logged operation_of write_of
submit a command (fail status) = refused a status
submit a command fault = record { authority = a; reply = none; written = none }
submit a command (ok (changed, admitted)) =
    let replacement = logged command changed admitted in
    let token = a.next_write_token in
    if valid_startup replacement
    then record {
      authority = record a {
        pending = some (record { token = token; replacement = replacement });
        next_write_token = u64 (token + 1);
      };
      reply = some (record {
        status = pending_persistence;
        write_token = token;
        commitment_identities = [];
      });
      written = some (
          write_of a.durable (operation_of command replacement.book_revision admitted) replacement);
    }
    else refused a invalid_command

-- The answer to an operation identity that the durable log holds.
unfoldable pub answer_prior : Authority → Text → MaterialCommitmentOperation → Applied
answer_prior a print prior =
    if prior.fingerprint == print
    then record {
      authority = a;
      reply = some (record {
        status = idempotent;
        write_token = 0;
        commitment_identities = prior.commitment_identities;
      });
      written = none;
    }
    else refused a operation_conflict

unfoldable pub apply : Authority → MaterialCommitmentCommand → ℕ → Applied
unfolding find_operation answer_prior submit
apply a command now =
    if not a.persistence_healthy || not a.has_writer
    then refused a persistence_unavailable
    else if is_some a.pending
    then refused a busy
    else if is_empty command.operation_identity
        || ltb max_identity_bytes (length command.operation_identity)
    then refused a invalid_command
    else if ltb max_fingerprint_bytes (length (fingerprint command))
    then refused a invalid_command
    else elim (find_operation a.durable.operations command.operation_identity) [
      | some prior ↦ answer_prior a (fingerprint command) prior
      | none ↦
          if not (command.expected_book_revision == a.durable.book_revision)
          then refused a stale_book_revision
          else submit a command (apply_to_replacement a.durable command now)
    ]

unfoldable pub complete_pending : Authority → ℕ → Bool → Option PendingWrite → Authority
complete_pending a write_token success none = a
complete_pending a write_token success (some p) =
    if p.token == write_token
    then if success
      then record a { durable = p.replacement; pending = none }
      else record a { persistence_healthy = false; pending = none }
    else a

unfoldable pub complete_write : Authority → ℕ → Bool → Authority
unfolding complete_pending
complete_write a write_token success = complete_pending a write_token success a.pending

unfoldable pub snapshot : Authority → MaterialCommitmentSnapshot
snapshot a = record {
  book_revision = a.durable.book_revision;
  persistence_healthy = a.persistence_healthy;
  busy = is_some a.pending;
  operation_count = length a.durable.operations;
  intents = a.durable.intents;
  commitments = a.durable.commitments;
}

unfoldable pub settlement_of : MaterialReservation → MaterialReservationSettlement
settlement_of r = record {
  capacity = r.capacity;
  backed_material_quantity = r.remaining_backed_material_quantity;
  capacity_quantity = r.remaining_capacity_quantity;
}

-- The command of SettleCompletedMaterialSource, for a path of that revision.
unfoldable pub settlement_command : ℕ → MaterialCommitment → ℕ → ℕ → MaterialCommitmentCommand
unfolding settlement_of
settlement_command expected_book_revision c revision inventory = record {
  operation_identity = c.identity ++ codes ":inventory-delivered:" ++ decimal revision;
  expected_book_revision = expected_book_revision;
  kind = fulfill;
  intents = [];
  candidates = [];
  capacity_observations = [];
  source_starts = [];
  fulfillments =
      record {
        commitment_identity = c.identity;
        quantity = c.remaining_quantity;
        observed_inventory_quantity = some inventory;
        reservation_settlements = map settlement_of c.reservations;
      }
      ∷ [];
  commitment_identities = [];
  origin_identities = [];
  retained_operations = 0;
}

unfoldable pub settle_completed_material_source :
    Authority → ℕ → MaterialCommitment → ℕ → ℕ → Applied
unfolding settlement_command apply
settle_completed_material_source a expected_book_revision c inventory now = elim c.source_path [
  | none ↦ refused a invalid_command
  | some path ↦
      apply a (settlement_command expected_book_revision c path.source_revision inventory) now
]
