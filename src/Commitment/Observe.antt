-- ===== src/Commitment/Observe.antt =====
-- ObserveIntents of `src/Bot/Economy/PlayerbotMaterialCommitmentAuthority.cpp`.
use mod_playerbots_economy.Prelude.{
  ℕ, Bool, false, not, ◌&&◌, ◌||◌, List, [], ◌∷◌, ◌++◌, none, some, Text, text_eq, is_empty, any_of,
  contains, update_first, ltb, ◌==◌, nat_eq,
}
use mod_playerbots_economy.Commitment.Types.{
  MaterialIntent, MaterialCommitment, MaterialCommitmentStartup, MaterialCommitmentCommand,
  MaterialCommitmentApplyStatus.invalid_command, MaterialCommitmentApplyStatus.stale_owner_revision,
  MaterialCommitmentApplyStatus.existing_commitment,
}
use mod_playerbots_economy.Commitment.Outcome.{Outcome, ok, ◌>>=◌, ◌>>◌, fail_if, find_intent}
use mod_playerbots_economy.Commitment.Validity.{
  is_active, valid_intent, owner_kind_eq, requirements_eq, needed_by_eq,
}

unfoldable pub same_intent_facts : MaterialIntent → MaterialIntent → Bool
same_intent_facts left right =
    left.origin_identity == right.origin_identity
    && left.owner_revision == right.owner_revision
    && left.owner_kind == right.owner_kind
    && left.market_id == right.market_id
    && left.bounded_quantity == right.bounded_quantity
    && left.needed_by == right.needed_by
    && left.requirements == right.requirements

unfoldable pub has_active_origin : List MaterialCommitment → Text → Bool
unfolding is_active
has_active_origin commitments origin =
    any_of (λ c. c.origin_identity == origin && is_active c.state) commitments

-- An older revision, or the same revision with other facts.
unfoldable pub is_stale : MaterialIntent → MaterialIntent → Bool
is_stale intent existing =
    ltb intent.owner_revision existing.owner_revision
    || (intent.owner_revision == existing.owner_revision
        && (not (intent.owner_kind == existing.owner_kind)
            || not (intent.market_id == existing.market_id)
            || not (intent.bounded_quantity == existing.bounded_quantity)
            || not (intent.needed_by == existing.needed_by)
            || not (intent.requirements == existing.requirements)))

-- One round of the loop, for an intent whose origin is new in the command.
unfoldable pub observe_intent :
    MaterialCommitmentStartup → MaterialIntent → ℕ → Outcome MaterialCommitmentStartup
unfolding find_intent same_intent_facts has_active_origin is_stale
observe_intent state intent now = elim (find_intent state.intents intent.origin_identity) [
  | none ↦ ok (record state {
    intents =
        state.intents ++ record intent { first_observed_at = now; last_observed_at = now } ∷ [];
  })
  | some existing ↦ do
    fail_if (is_stale intent existing) stale_owner_revision
    fail_if
        (has_active_origin state.commitments intent.origin_identity
          && not (same_intent_facts intent existing))
        existing_commitment
    ok (record state {
      intents =
          update_first (λ i. i.origin_identity == intent.origin_identity)
            (λ _. record intent {
              first_observed_at = existing.first_observed_at;
              last_observed_at = now;
            })
            state.intents;
    })
]

unfoldable pub observe_each :
    MaterialCommitmentStartup
    → List MaterialIntent
    → List Text
    → ℕ
    → Outcome MaterialCommitmentStartup
unfolding valid_intent observe_intent
observe_each state [] origins now = ok state
observe_each state (intent ∷ intents) origins now = do
  fail_if (not (valid_intent intent false) || contains intent.origin_identity origins)
      invalid_command
  state' ← observe_intent state intent now
  observe_each state' intents (intent.origin_identity ∷ origins) now

unfoldable pub observe_intents :
    MaterialCommitmentStartup → MaterialCommitmentCommand → ℕ → Outcome MaterialCommitmentStartup
unfolding observe_each
observe_intents state command now = do
  fail_if
      (is_empty command.intents
        || not (is_empty command.candidates)
        || not (is_empty command.capacity_observations)
        || not (is_empty command.source_starts)
        || not (is_empty command.fulfillments)
        || not (is_empty command.commitment_identities)
        || now == 0)
      invalid_command
  observe_each state command.intents [] now
