-- ===== src/Commitment/Tests/Reagents.antt =====
-- The scarce requirements of a craft with a vendor's reagent and a milled one.
use mod_playerbots_economy.Prelude.{◌≡◌, refl, true, false, List, [], ◌∷◌, some, arith}
use mod_playerbots_economy.Commitment.Types.{MaterialRequirement}
use mod_playerbots_economy.Commitment.Validity.{valid_requirements}
use mod_playerbots_economy.Commitment.Scarce.{
  ProfessionProgressionReagentFact, profession_progression_scarce_requirements,
}
use mod_playerbots_economy.Commitment.Scarce.Valid.{scarce_requirements-valid}

abbrev vial : ProfessionProgressionReagentFact
vial = record {
  item_id = 3371;
  per_craft_quantity = 1;
  ordinary_vendor_available = true;
  milling_input_item_id = 0;
  owned_count = 0;
}

abbrev pigment : ProfessionProgressionReagentFact
pigment = record {
  item_id = 39151;
  per_craft_quantity = 2;
  ordinary_vendor_available = false;
  milling_input_item_id = 2447;
  owned_count = 3;
}

abbrev root : ProfessionProgressionReagentFact
root = record {
  item_id = 765;
  per_craft_quantity = 1;
  ordinary_vendor_available = false;
  milling_input_item_id = 0;
  owned_count = 4;
}

abbrev bill : List MaterialRequirement
bill = record { item_id = 765; quantity = 6 } ∷ record { item_id = 2447; quantity = 45 } ∷ []

-- Seventeen pigments are short: nine castings of five herbs.
bill_run : profession_progression_scarce_requirements 10 (vial ∷ pigment ∷ root ∷ []) ≡ some bill
unfolding profession_progression_scarce_requirements
bill_run = refl

scarce_requirements-valid_example : valid_requirements bill ≡ true
scarce_requirements-valid_example =
    scarce_requirements-valid 10 (vial ∷ pigment ∷ root ∷ []) bill
      (omega arith, (omega arith, (omega arith, tt))) bill_run
