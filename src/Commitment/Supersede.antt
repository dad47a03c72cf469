-- ===== src/Commitment/Supersede.antt =====
-- SupersedeCommitments of `src/Bot/Economy/PlayerbotMaterialCommitmentAuthority.cpp`.
use mod_playerbots_economy.Prelude.{
  ℕ, Bool, not, ◌&&◌, ◌||◌, List, [], ◌∷◌, Text, text_eq, is_empty, any_of, contains,
}
use mod_playerbots_economy.Commitment.Types.{
  MaterialCommitment, MaterialCommitmentState.superseded, MaterialCommitmentStartup,
  MaterialCommitmentCommand, MaterialCommitmentApplyStatus.invalid_command,
  MaterialCommitmentApplyStatus.unknown_commitment,
}
use mod_playerbots_economy.Commitment.Outcome.{
  Outcome, ok, ◌>>=◌, ◌>>◌, fail_if, or_fail, find_commitment,
}
use mod_playerbots_economy.Commitment.Validity.{is_active}
use mod_playerbots_economy.Commitment.Admit.{admit_candidates}
use mod_playerbots_economy.Commitment.Settle.{terminate_commitments}

-- affectedOrigins
unfoldable pub affected_origins : List MaterialCommitment → List Text → Outcome (List Text)
unfolding find_commitment
affected_origins commitments [] = ok []
affected_origins commitments (identity ∷ identities) = do
  c ← or_fail (find_commitment commitments identity) unknown_commitment
  origins ← affected_origins commitments identities
  ok (c.origin_identity ∷ origins)

-- An active commitment of an affected origin that the command does not name.
unfoldable pub leaves_active : List MaterialCommitment → List Text → List Text → Bool
unfolding is_active
leaves_active commitments origins identities =
    any_of
      (λ c.
        is_active c.state
        && contains c.origin_identity origins
        && not (contains c.identity identities))
      commitments

unfoldable pub supersede_commitments :
    MaterialCommitmentStartup
    → MaterialCommitmentCommand
    → ℕ
    → Outcome (MaterialCommitmentStartup × List Text)
unfolding affected_origins leaves_active terminate_commitments admit_candidates
supersede_commitments state command now = do
  fail_if
      (not (is_empty command.intents)
        || not (is_empty command.source_starts)
        || not (is_empty command.fulfillments))
      invalid_command
  origins ← affected_origins state.commitments command.commitment_identities
  fail_if (leaves_active state.commitments origins command.commitment_identities) invalid_command
  state' ← terminate_commitments state command.commitment_identities superseded
  admit_candidates state' command now
