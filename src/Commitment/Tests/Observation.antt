-- ===== src/Commitment/Tests/Observation.antt =====
-- An observation that is built, taken and known again.
use mod_playerbots_economy.Prelude.{
  ◌^◌, ◌<◌, ◌≡◌, refl, true, false, [], ◌∷◌, none, some, codes, arith, decimal, text_discrete,
}
use mod_playerbots_economy.Commitment.Types.{
  MaterialRequirement, MaterialIntent, MaterialCommitmentStartup, MaterialCommitmentSnapshot,
  MaterialCommitmentCommand, MaterialCommitmentOwnerKind.profession_progression,
  MaterialCommitmentCommandKind,
}
use mod_playerbots_economy.Commitment.Outcome.{ok, find_intent}
use mod_playerbots_economy.Commitment.Observe.{has_active_origin, observe_intents}
use mod_playerbots_economy.Commitment.Progression.{
  ProfessionProgressionIntentInput, ProfessionProgressionObserveBuildStatus,
  profession_progression_origin_identity, build_profession_progression_observe,
}
use mod_playerbots_economy.Commitment.Progression.Accepted.{observe_intents-build}
use mod_playerbots_economy.Commitment.Tests.{bar, book, empty_command}

abbrev herb : MaterialRequirement
herb = record { item_id = 3; quantity = 20 }

-- The scarce requirements stand out of order.
abbrev potion : ProfessionProgressionIntentInput
potion = record {
  character_guid = 12;
  market_id = 2;
  profession_skill_id = 171;
  target_skill = 75;
  recipe_spell_id = 2330;
  output_item_id = 118;
  bounded_batch = 10;
  scarce_requirements = bar ∷ herb ∷ [];
}

abbrev seen : MaterialCommitmentSnapshot
seen = record {
  book_revision = 1;
  persistence_healthy = true;
  busy = false;
  operation_count = 1;
  intents = book.intents;
  commitments = [];
}

abbrev observe_potion : MaterialCommitmentCommand
observe_potion =
    record (empty_command MaterialCommitmentCommandKind.observe
      (codes "profession-progression:12:171:75:2330:118:observe:1") 1) {
        intents =
            record {
              origin_identity = codes "profession-progression:12:171:75:2330:118";
              owner_kind = profession_progression;
              owner_revision = 1;
              market_id = 2;
              bounded_quantity = 10;
              needed_by = none;
              first_observed_at = 0;
              last_observed_at = 0;
              requirements = herb ∷ bar ∷ [];
            }
            ∷ [];
      }

potion_run : (build_profession_progression_observe potion seen).command ≡ some observe_potion
unfolding build_profession_progression_observe decimal text_discrete
potion_run = refl

potion_is_new : find_intent book.intents (profession_progression_origin_identity potion) ≡ none
unfolding find_intent profession_progression_origin_identity decimal text_discrete
potion_is_new = refl

potion_revision :
    (e : MaterialIntent)
    → find_intent book.intents (profession_progression_origin_identity potion) ≡ some e
    → e.owner_revision < 2 ^ 64
potion_revision e h = absurd (clash h)
  where
    clash : find_intent book.intents (profession_progression_origin_identity potion) ≡ some e → ⊥
    clash q = cc potion_is_new

potion_is_free :
    has_active_origin book.commitments (profession_progression_origin_identity potion) ≡ false
unfolding has_active_origin
potion_is_free = refl

observe_intents-build_example :
    (t : MaterialCommitmentStartup) × (observe_intents book observe_potion 50 ≡ ok t)
    × ((build_profession_progression_observe potion (record seen { intents = t.intents })).status
        ≡ ProfessionProgressionObserveBuildStatus.no_change)
observe_intents-build_example =
    observe_intents-build book potion seen observe_potion 50 refl potion_revision potion_is_free
      (omega arith) potion_run
