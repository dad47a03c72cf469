-- ===== src/Commitment/Compact.antt =====
-- CompactBook of `src/Bot/Economy/PlayerbotMaterialCommitmentAuthority.cpp`.
-- The sort is by insertion. The revisions of a valid book differ, so any sort gives the same log.
pub mod Log
use mod_playerbots_economy.Prelude.{
  ℕ, ◌+◌, ◌-◌, max, Bool, true, false, not, ◌&&◌, ◌||◌, List, [], ◌∷◌, ◌++◌, map, Option, none,
  some, Text, text_eq, length, is_empty, is_some, any_of, keep_if, contains, drop, ltb, leb, ◌==◌,
  nat_eq, if◌then◌else◌,
}
use mod_playerbots_economy.Commitment.Types.{
  MaterialIntent, MaterialCommitment, MaterialCommitmentOperation, MaterialCommitmentStartup,
  MaterialCommitmentCommand, MaterialCommitmentApplyStatus.invalid_command,
  MaterialCommitmentApplyStatus.unknown_intent, MaterialCommitmentApplyStatus.unknown_commitment,
}
use mod_playerbots_economy.Commitment.Outcome.{
  Outcome, ok, ◌>>=◌, ◌>>◌, fail_if, or_fail, find_intent, find_commitment,
}
use mod_playerbots_economy.Commitment.Validity.{is_active}

unfoldable pub check_origins : List MaterialIntent → List Text → List Text → Outcome (Unit {0})
unfolding find_intent
check_origins intents [] seen = ok tt
check_origins intents (origin ∷ origins) seen = do
  fail_if (is_empty origin || contains origin seen) invalid_command
  fail_if (not (is_some (find_intent intents origin))) unknown_intent
  check_origins intents origins (origin ∷ seen)

-- A commitment that is named on its own must be terminal.
unfoldable pub check_dropped :
    List MaterialCommitment → List Text → List Text → List Text → Outcome (Unit {0})
unfolding find_commitment is_active
check_dropped commitments origins [] seen = ok tt
check_dropped commitments origins (identity ∷ identities) seen = do
  fail_if (is_empty identity || contains identity seen) invalid_command
  c ← or_fail (find_commitment commitments identity) unknown_commitment
  fail_if (is_active c.state && not (contains c.origin_identity origins)) invalid_command
  check_dropped commitments origins identities (identity ∷ seen)

-- The set `commitments`: those named, and all of the origins that are dropped.
unfoldable pub dropped_identities : List MaterialCommitment → List Text → List Text → List Text
dropped_identities commitments origins identities =
    identities
    ++ map (λ c. c.identity) (keep_if (λ c. contains c.origin_identity origins) commitments)

unfoldable pub cut_revision : List Text → List MaterialCommitmentOperation → ℕ → ℕ
cut_revision dropped [] cut = cut
cut_revision dropped (o ∷ os) cut = cut_revision dropped os (
    if any_of (λ id. contains id dropped) o.commitment_identities
    then max cut o.resulting_book_revision
    else cut)

unfoldable pub insert_operation :
    MaterialCommitmentOperation
    → List MaterialCommitmentOperation
    → List MaterialCommitmentOperation
insert_operation o [] = o ∷ []
insert_operation o (p ∷ ps) =
    if leb o.resulting_book_revision p.resulting_book_revision
    then o ∷ p ∷ ps
    else p ∷ insert_operation o ps

unfoldable pub sort_operations : List MaterialCommitmentOperation → List MaterialCommitmentOperation
unfolding insert_operation
sort_operations [] = []
sort_operations (o ∷ os) = insert_operation o (sort_operations os)

unfoldable pub retain_newest :
    ℕ → List MaterialCommitmentOperation → List MaterialCommitmentOperation
retain_newest retained os =
    if not (retained == 0) && ltb retained (length os) then drop (length os - retained) os else os

unfoldable pub compacted_operations :
    ℕ → List Text → List MaterialCommitmentOperation → List MaterialCommitmentOperation
unfolding cut_revision sort_operations retain_newest
compacted_operations retained dropped os = retain_newest retained (
    sort_operations
      (keep_if (λ o. not (leb o.resulting_book_revision (cut_revision dropped os 0))) os))

abbrev pub book_size : MaterialCommitmentStartup → ℕ
book_size state = length state.intents + length state.commitments + length state.operations

unfoldable pub compacted :
    MaterialCommitmentStartup → MaterialCommitmentCommand → MaterialCommitmentStartup
unfolding dropped_identities compacted_operations
compacted state command =
    let dropped =
      dropped_identities state.commitments command.origin_identities
        command.commitment_identities in
    record state {
      intents =
          keep_if (λ i. not (contains i.origin_identity command.origin_identities)) state.intents;
      commitments = keep_if (λ c. not (contains c.identity dropped)) state.commitments;
      operations = compacted_operations command.retained_operations dropped state.operations;
    }

unfoldable pub compact_book :
    MaterialCommitmentStartup → MaterialCommitmentCommand → Outcome MaterialCommitmentStartup
unfolding check_origins check_dropped compacted
compact_book state command = do
  fail_if
      (not (is_empty command.intents)
        || not (is_empty command.candidates)
        || not (is_empty command.capacity_observations)
        || not (is_empty command.source_starts)
        || not (is_empty command.fulfillments))
      invalid_command
  check_origins state.intents command.origin_identities []
  check_dropped state.commitments command.origin_identities command.commitment_identities []
  fail_if (book_size state == book_size (compacted state command)) invalid_command
  ok (compacted state command)
