-- ===== src/Coordinator/Groups.antt =====
-- Substitution groups, their identity, and `std::map` over keys that are compared by a code.
use mod_playerbots_economy.Prelude.{
  ℕ, Bool, true, false, ◌&&◌, ◌||◌, List, [], ◌∷◌, Option, none, some, ltb, if◌then◌else◌, Equality,
  ◌==◌, nat_eq, text_eq, of_discrete,
}
use mod_playerbots_economy.Coordinator.Types.{
  EconomySubstitutionKind, EconomySubstitutionGroup, ConsumableCapability, EconomySupplySource,
  EconomyDemandFact, EconomySupplyFact, EconomyActorFacts, EconomyMarketFacts, EconomyClaimKind,
  EconomyClaimPriority, EconomyClaimState, EconomyAssignmentOutcome, EconomyWorkKind,
  ProfessionCapabilityKind, ProfessionCapability, EconomyCapabilityRequirement, claim_kind_discrete,
  claim_priority_discrete, claim_state_discrete, assignment_outcome_discrete, work_kind_discrete,
}

instance abbrev pub claim_kind_eq : Equality EconomyClaimKind
claim_kind_eq = of_discrete claim_kind_discrete

instance abbrev pub claim_priority_eq : Equality EconomyClaimPriority
claim_priority_eq = of_discrete claim_priority_discrete

instance abbrev pub claim_state_eq : Equality EconomyClaimState
claim_state_eq = of_discrete claim_state_discrete

instance abbrev pub assignment_outcome_eq : Equality EconomyAssignmentOutcome
assignment_outcome_eq = of_discrete assignment_outcome_discrete

instance abbrev pub work_kind_eq : Equality EconomyWorkKind
work_kind_eq = of_discrete work_kind_discrete

abbrev pub empty_group : EconomySubstitutionKind → EconomySubstitutionGroup
empty_group kind = record {
  kind = kind;
  exact_item_id = 0;
  equipment_slot = 0;
  role_mask = 0;
  bag_capacity = 0;
  ammunition_type = 0;
  tier = 0;
  effect_family = 0;
  enhancement_target = 0;
  enhancement_slot = 0;
  glyph_spell_id = 0;
  glyph_slot_type = 0;
  gem_color = 0;
  value_band = 0;
  glyph_item_id = 0;
}

unfoldable pub exact_reagent_group : ℕ → EconomySubstitutionGroup
exact_reagent_group item = record (empty_group EconomySubstitutionKind.exact_reagent) {
  exact_item_id = item;
}

unfoldable pub equipment_group : ℕ → ℕ → ℕ → EconomySubstitutionGroup
equipment_group slot roles item_tier = record (empty_group EconomySubstitutionKind.equipment) {
  equipment_slot = slot;
  role_mask = roles;
  tier = item_tier;
}

unfoldable pub bag_group : ℕ → EconomySubstitutionGroup
bag_group capacity = record (empty_group EconomySubstitutionKind.bag) { bag_capacity = capacity }

unfoldable pub ammunition_group : ℕ → ℕ → EconomySubstitutionGroup
ammunition_group type item_tier = record (empty_group EconomySubstitutionKind.ammunition) {
  ammunition_type = type;
  tier = item_tier;
}

unfoldable pub consumable_group : ℕ → ℕ → EconomySubstitutionGroup
consumable_group family item_tier = record (empty_group EconomySubstitutionKind.consumable) {
  effect_family = family;
  tier = item_tier;
}

unfoldable pub capability_code : ConsumableCapability → ℕ
capability_code ConsumableCapability.food = 0
capability_code ConsumableCapability.drink = 1
capability_code ConsumableCapability.health_restoration = 2
capability_code ConsumableCapability.mana_restoration = 3
capability_code ConsumableCapability.bandage = 4

-- The overload for a capability and its least utility.
unfoldable pub utility_group : ConsumableCapability → ℕ → EconomySubstitutionGroup
unfolding capability_code
utility_group capability minimum_utility = record (empty_group EconomySubstitutionKind.consumable) {
  effect_family = capability_code capability;
  value_band = minimum_utility;
}

unfoldable pub slot_enhancement_group : ℕ → ℕ → ℕ → EconomySubstitutionGroup
slot_enhancement_group target enchantment_slot band =
    record (empty_group EconomySubstitutionKind.enhancement) {
      enhancement_target = target;
      enhancement_slot = enchantment_slot;
      value_band = band;
    }

unfoldable pub enhancement_group : ℕ → ℕ → EconomySubstitutionGroup
unfolding slot_enhancement_group
enhancement_group target band = slot_enhancement_group target 0 band

unfoldable pub glyph_group : ℕ → ℕ → ℕ → EconomySubstitutionGroup
glyph_group spell slot_type item = record (empty_group EconomySubstitutionKind.glyph) {
  glyph_spell_id = spell;
  glyph_slot_type = slot_type;
  glyph_item_id = item;
}

unfoldable pub gem_group : ℕ → EconomySubstitutionGroup
gem_group color = record (empty_group EconomySubstitutionKind.gem) { gem_color = color }

unfoldable pub kind_code : EconomySubstitutionKind → ℕ
kind_code EconomySubstitutionKind.exact_reagent = 0
kind_code EconomySubstitutionKind.equipment = 1
kind_code EconomySubstitutionKind.bag = 2
kind_code EconomySubstitutionKind.ammunition = 3
kind_code EconomySubstitutionKind.consumable = 4
kind_code EconomySubstitutionKind.enhancement = 5
kind_code EconomySubstitutionKind.glyph = 6
kind_code EconomySubstitutionKind.gem = 7

-- `IdentityTuple`: all but the representative glyph item.
unfoldable pub identity_tuple : EconomySubstitutionGroup → List ℕ
unfolding kind_code
identity_tuple g =
    kind_code g.kind
    ∷ g.exact_item_id
    ∷ g.equipment_slot
    ∷ g.role_mask
    ∷ g.bag_capacity
    ∷ g.ammunition_type
    ∷ g.tier
    ∷ g.effect_family
    ∷ g.enhancement_target
    ∷ g.enhancement_slot
    ∷ g.glyph_spell_id
    ∷ g.glyph_slot_type
    ∷ g.gem_color
    ∷ g.value_band
    ∷ []

-- `operator==` of groups.
unfoldable pub same_group : EconomySubstitutionGroup → EconomySubstitutionGroup → Bool
unfolding identity_tuple
same_group a b = identity_tuple a == identity_tuple b

-- `std::pair<uint32, EconomySubstitutionGroup>` and the codes by which it is compared.
abbrev pub GapKey : Type 0
GapKey = ℕ × EconomySubstitutionGroup

unfoldable pub gap_code : GapKey → List ℕ
unfolding identity_tuple
gap_code key = key.0 ∷ identity_tuple key.1

-- The lexicographic order of tuples of numbers.
unfoldable pub code_ltb : List ℕ → List ℕ → Bool
code_ltb [] [] = false
code_ltb [] (b ∷ bs) = true
code_ltb (a ∷ as₁) [] = false
code_ltb (a ∷ as₁) (b ∷ bs) = let rest = code_ltb as₁ bs in ltb a b || (a == b && rest)

-- A `std::map` whose keys are compared by `code`, as the list of its entries in that order. A key
-- that is there already is kept as it was inserted.
module _ {K : Type 0} {V : Type 0} (code : K → List ℕ) where
  abbrev pub find_at : K → List (K × V) → Option V
  find_at key [] = none
  find_at key ((k, v) ∷ entries) = if code k == code key then some v else find_at key entries

  abbrev pub put_at : K → V → List (K × V) → List (K × V)
  put_at key value [] = (key, value) ∷ []
  put_at key value ((k, v) ∷ entries) =
      if code k == code key
      then (k, value) ∷ entries
      else if code_ltb (code key) (code k)
      then (key, value) ∷ (k, v) ∷ entries
      else (k, v) ∷ put_at key value entries

  abbrev pub erase_at : K → List (K × V) → List (K × V)
  erase_at key [] = []
  erase_at key ((k, v) ∷ entries) =
      let rest = erase_at key entries in if code k == code key then rest else (k, v) ∷ rest

abbrev pub or_else {ℓ} : {A : Type ℓ} → Option A → A → A
or_else none a = a
or_else (some b) a = b

abbrev pub number_code : ℕ → List ℕ
number_code n = n ∷ []

abbrev pub bit : Bool → ℕ
bit true = 1
bit false = 0

unfoldable pub source_code : EconomySupplySource → ℕ
source_code EconomySupplySource.inventory = 0
source_code EconomySupplySource.mail = 1
source_code EconomySupplySource.active_auction = 2
source_code EconomySupplySource.committed_purchase = 3
source_code EconomySupplySource.committed_production = 4

-- The defaulted comparisons of facts, which compare groups by their identity.
unfoldable pub same_demands : List EconomyDemandFact → List EconomyDemandFact → Bool
unfolding same_group
same_demands [] [] = true
same_demands (a ∷ as₁) (b ∷ bs) =
    same_group a.group b.group && a.quantity == b.quantity && same_demands as₁ bs
same_demands _ _ = false

unfoldable pub same_supplies : List EconomySupplyFact → List EconomySupplyFact → Bool
unfolding same_group source_code
same_supplies [] [] = true
same_supplies (a ∷ as₁) (b ∷ bs) =
    same_group a.group b.group
    && a.quantity == b.quantity
    && source_code a.source == source_code b.source
    && a.item_id == b.item_id
    && same_supplies as₁ bs
same_supplies _ _ = false

unfoldable pub same_actor : EconomyActorFacts → EconomyActorFacts → Bool
unfolding same_demands same_supplies
same_actor a b =
    a.character_guid == b.character_guid
    && a.account_id == b.account_id
    && a.market_id == b.market_id
    && bit a.online == bit b.online
    && bit a.autonomous == bit b.autonomous
    && a.crafting_affinity == b.crafting_affinity
    && a.gathering_affinity == b.gathering_affinity
    && a.economy_affinity == b.economy_affinity
    && a.free_primary_profession_slots == b.free_primary_profession_slots
    && a.profession_skill_ids == b.profession_skill_ids
    && a.recipe_spell_ids == b.recipe_spell_ids
    && same_demands a.demands b.demands
    && same_supplies a.supplies b.supplies

unfoldable pub same_market : EconomyMarketFacts → EconomyMarketFacts → Bool
unfolding same_supplies
same_market a b = a.market_id == b.market_id && same_supplies a.supplies b.supplies

abbrev capability_kind_code : ProfessionCapabilityKind → ℕ
capability_kind_code ProfessionCapabilityKind.crafting = 0
capability_kind_code ProfessionCapabilityKind.gathering = 1

unfoldable pub same_capability : ProfessionCapability → ProfessionCapability → Bool
same_capability a b =
    a.output_item_id == b.output_item_id
    && a.recipe_spell_id == b.recipe_spell_id
    && a.profession_skill_id == b.profession_skill_id
    && capability_kind_code a.kind == capability_kind_code b.kind
    && bit a.primary_profession == bit b.primary_profession

unfoldable pub same_requirement : EconomyCapabilityRequirement → EconomyCapabilityRequirement → Bool
unfolding same_group same_capability
same_requirement a b =
    a.market_id == b.market_id
    && same_group a.group b.group
    && same_capability a.capability b.capability
