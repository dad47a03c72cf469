-- ===== src/Coordinator/Tests.antt =====
-- A market with an actor that needs ten units of a reagent, one that can craft them, and an
-- auction of three.
mod Runs
mod Examples
use mod_playerbots_economy.Prelude.{
  ◌≡◌, ℕ, Bool, true, false, List, [], ◌∷◌, Text, codes, ◌^◌, ◌<◌, ◌%◌, arith,
}
use mod_playerbots_economy.Coordinator.Types.{
  EconomySubstitutionGroup, EconomySupplySource, EconomyActorFacts, EconomyMarketFacts,
  EconomyClaimKind, EconomyClaimPriority, EconomyWorkKind, EconomyWorkPolicyInput,
  EconomyAssignmentRequest, EconomyAssignmentOutcome, EconomyAssignment, EconomyClaimState,
  EconomyCapabilityRequirement, ProfessionCapabilityKind, EconomyChain,
}
use mod_playerbots_economy.Coordinator.Groups.{exact_reagent_group}
use mod_playerbots_economy.Coordinator.State.{GapTotals, Coordinator, new_coordinator}
use mod_playerbots_economy.Coordinator.Chains.{new_chain}
use mod_playerbots_economy.Coordinator.Lease.{lease}
use mod_playerbots_economy.Coordinator.Production.{record_production_output, snapshot}
use mod_playerbots_economy.Coordinator.Facts.{refresh_actor, refresh_market}
use mod_playerbots_economy.Coordinator.Reach.{
  Reach, starts, steps, refreshes_actor, refreshes_market, leases, records_output,
}

-- Identities of one byte, from the sequence number alone.
abbrev pub numbered : ℕ → ℕ → Text
numbered sequence now = sequence % 256 ∷ []

unfoldable pub ore : EconomySubstitutionGroup
ore = exact_reagent_group 2770

abbrev pub consumer : EconomyActorFacts
consumer = record {
  character_guid = 1;
  account_id = 11;
  market_id = 7;
  online = true;
  autonomous = true;
  crafting_affinity = 10;
  gathering_affinity = 10;
  economy_affinity = 50;
  free_primary_profession_slots = 2;
  profession_skill_ids = [];
  recipe_spell_ids = [];
  demands = record { group = ore; quantity = 10 } ∷ [];
  supplies = [];
}

abbrev pub crafter : EconomyActorFacts
crafter = record consumer {
  character_guid = 2;
  account_id = 12;
  crafting_affinity = 80;
  recipe_spell_ids = 900 ∷ [];
  demands = [];
}

abbrev pub auctions : EconomyMarketFacts
auctions = record {
  market_id = 7;
  supplies =
      record {
        group = ore;
        quantity = 3;
        source = EconomySupplySource.active_auction;
        item_id = 2770;
      }
      ∷ [];
}

abbrev pub safe : EconomyWorkPolicyInput
safe = record {
  kind = EconomyWorkKind.craft;
  economy_affinity = 0;
  affinity_relaxed = false;
  necessary_purchase = false;
  direct_command = false;
  legal = true;
  within_budget = true;
  same_account_purchase = false;
  live_object = true;
  path_available = true;
  has_skill = true;
  phase_allowed = true;
  transaction_safe = true;
}

-- The crafter offers twenty units.
abbrev pub craft_request : EconomyAssignmentRequest
craft_request = record {
  character_guid = 2;
  market_id = 7;
  group = ore;
  quantity = 20;
  kind = EconomyClaimKind.production;
  priority = EconomyClaimPriority.producer;
  work_kind = EconomyWorkKind.craft;
  work_identity = codes "craft:900:2770";
  seller_account_id = 0;
  direct_command = false;
  expires_at = 500;
  recipe_spell_id = 900;
  output_item_id = 2770;
  safeguards = safe;
  personal_equipment_purchase = false;
  personal_sustenance_purchase = false;
}

abbrev pub reported : Coordinator
reported =
    refresh_market numbered auctions 102
      (refresh_actor numbered crafter 101 (refresh_actor numbered consumer 100 new_coordinator))

-- The order is leased, and four units of it are made.
abbrev pub ordered : Coordinator
ordered = (lease numbered craft_request 103 reported).0

abbrev pub working : Coordinator
working = (record_production_output numbered 1 4 104 ordered).0

pub small_request : craft_request.quantity < 2 ^ 32
small_request = omega arith

pub reached : Reach numbered working
reached =
    steps
      (steps
        (steps
          (steps (steps starts (refreshes_actor consumer 100 _)) (refreshes_actor crafter 101 _))
          (refreshes_market auctions 102 _))
        (leases craft_request 103 _ small_request))
      (records_output 1 4 104 _)

-- What the crafter is granted.
abbrev pub order : EconomyAssignment
order = record {
  lease_id = 1;
  chain_public_id = 1 ∷ [];
  character_guid = 2;
  market_id = 7;
  group = ore;
  quantity = 7;
  committed_quantity = 0;
  kind = EconomyClaimKind.production;
  priority = EconomyClaimPriority.producer;
  state = EconomyClaimState.leased;
  direct_command = false;
  work_identity = codes "craft:900:2770";
  created_at = 103;
  expires_at = 500;
  settled_at = 0;
  bridged_quantity = 0;
  recipe_spell_id = 900;
  output_item_id = 2770;
  last_outcome = EconomyAssignmentOutcome.committed;
  personal_equipment_purchase = false;
  personal_sustenance_purchase = false;
}

-- The recipe that the crafter knows and the consumer does not.
abbrev pub ore_recipe : EconomyCapabilityRequirement
ore_recipe = record {
  market_id = 7;
  group = ore;
  capability = record {
    output_item_id = 2770;
    recipe_spell_id = 901;
    profession_skill_id = 186;
    kind = ProfessionCapabilityKind.crafting;
    primary_profession = true;
  };
}

abbrev pub miners : List (ℕ × EconomyActorFacts)
miners =
    (1, record consumer { crafting_affinity = 60; profession_skill_ids = 186 ∷ [] })
    ∷ (2, record crafter { profession_skill_ids = 186 ∷ [] })
    ∷ []

-- A chain that holds the first identity.
abbrev pub first_chain : List EconomyChain
first_chain = new_chain (1 ∷ []) (7, ore) 100 ∷ []

-- The totals of the gap when the order is offered.
abbrev pub ore_totals : GapTotals
ore_totals = record {
  demand = 10;
  supply = 3;
  claimed = 0;
  non_auction_supply = 0;
  auction_supply = 3;
  purchase_claimed = 0;
  speculation_claimed = 0;
}

-- The totals when four of the seven units ordered are made.
abbrev pub working_totals : GapTotals
working_totals = record {
  demand = 10;
  supply = 7;
  claimed = 3;
  non_auction_supply = 7;
  auction_supply = 3;
  purchase_claimed = 0;
  speculation_claimed = 0;
}
