-- ===== src/Commitment/Compaction.antt =====
-- ProfessionProgressionOriginGuid and BuildCompaction of
-- `src/Bot/Economy/PlayerbotMaterialCommitmentEncoding.cpp`: which compaction a book needs.
use mod_playerbots_economy.Prelude.{
  ℕ, ◌+◌, ◌-◌, ◌*◌, Bool, false, not, ◌&&◌, ◌||◌, List, [], ◌∷◌, ◌++◌, map, Option, none, some,
  Text, codes, decimal, is_empty, keep_if, contains, ltb, if◌then◌else◌, ◌==◌, nat_eq, text_eq,
}
use mod_playerbots_economy.Commitment.Types.{
  MaterialIntent, MaterialCommitment, MaterialCommitmentSnapshot, MaterialCommitmentCommand,
  MaterialCommitmentCommandKind.compact,
}
use mod_playerbots_economy.Commitment.Encoding.{u64}
use mod_playerbots_economy.Commitment.Path.{u32_max, ◌>>=◌, ◌>>◌, require}
use mod_playerbots_economy.Commitment.Validity.{is_active}

-- What follows the prefix.
unfoldable pub strip_prefix : Text → Text → Option Text
strip_prefix [] text = some text
strip_prefix (p ∷ ps) [] = none
strip_prefix (p ∷ ps) (b ∷ bs) = if p == b then strip_prefix ps bs else none

-- What stands before the first colon.
unfoldable pub before_colon : Text → Option Text
before_colon [] = none
before_colon (b ∷ bs) = if b == 58 then some [] else before_colon bs >>= λ rest. some (b ∷ rest)

unfoldable pub parse_guid : Text → ℕ → Option ℕ
parse_guid [] guid = some guid
parse_guid (digit ∷ digits) guid = do
  require (not (ltb digit 48 || ltb 57 digit))
  let next = u64 (guid * 10 + (digit - 48))
  require (not (ltb u32_max next))
  parse_guid digits next

unfoldable pub profession_progression_origin_guid : Text → Option ℕ
unfolding strip_prefix before_colon parse_guid
profession_progression_origin_guid origin_identity = do
  rest ← strip_prefix (codes "profession-progression:") origin_identity
  digits ← before_colon rest
  require (not (is_empty digits))
  parse_guid digits 0

unfoldable pub is_departed : List ℕ → MaterialIntent → Bool
unfolding profession_progression_origin_guid
is_departed absent intent = elim (profession_progression_origin_guid intent.origin_identity) [
  | none ↦ false
  | some guid ↦ contains guid absent
]

-- The origins of active commitments.
unfoldable pub active_origins : List MaterialCommitment → List Text
active_origins commitments =
    map (λ c. c.origin_identity) (keep_if (λ c. is_active c.state) commitments)

unfoldable pub stale_cutoff : ℕ → ℕ → ℕ
stale_cutoff now stale_after_seconds =
    if ltb stale_after_seconds now then now - stale_after_seconds else 0

unfoldable pub dropped_origins : MaterialCommitmentSnapshot → ℕ → List ℕ → List Text
unfolding is_departed active_origins
dropped_origins snapshot cutoff absent =
    map (λ i. i.origin_identity)
      (keep_if
        (λ i.
          is_departed absent i
          || (ltb i.last_observed_at cutoff
              && not (contains i.origin_identity (active_origins snapshot.commitments))))
        snapshot.intents)

unfoldable pub expired_commitments : MaterialCommitmentSnapshot → ℕ → List Text → List Text
expired_commitments snapshot cutoff dropped =
    map (λ c. c.identity)
      (keep_if
        (λ c.
          not (is_active c.state)
          && ltb c.needed_by cutoff
          && not (contains c.origin_identity dropped))
        snapshot.commitments)

unfoldable pub compaction_command :
    MaterialCommitmentSnapshot → ℕ → List Text → List Text → MaterialCommitmentCommand
compaction_command snapshot retained_operations origins commitments = record {
  operation_identity = codes "material-book-compact:" ++ decimal snapshot.book_revision;
  expected_book_revision = snapshot.book_revision;
  kind = compact;
  intents = [];
  candidates = [];
  capacity_observations = [];
  source_starts = [];
  fulfillments = [];
  commitment_identities = commitments;
  origin_identities = origins;
  retained_operations = retained_operations;
}

unfoldable pub build_compaction :
    MaterialCommitmentSnapshot → ℕ → List ℕ → ℕ → ℕ → Option MaterialCommitmentCommand
unfolding stale_cutoff dropped_origins expired_commitments compaction_command
build_compaction snapshot now absent stale_after_seconds retained_operations =
    let cutoff = stale_cutoff now stale_after_seconds in
    let origins = dropped_origins snapshot cutoff absent in
    let commitments = expired_commitments snapshot cutoff origins in
    let log_over_cap =
      not (retained_operations == 0) && ltb retained_operations snapshot.operation_count in
    if is_empty origins && is_empty commitments && not log_over_cap
    then none
    else some (compaction_command snapshot retained_operations origins commitments)
