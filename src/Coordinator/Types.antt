-- ===== src/Coordinator/Types.antt =====
-- The data of `src/Bot/Economy/PlayerbotEconomyCoordinator.h`, and what it takes of the policy and
-- of the profession capabilities.
use mod_playerbots_economy.Prelude.{ℕ, Bool, List, Option, Text}

pub data EconomySubstitutionKind : Type 0 where
  exact_reagent equipment bag ammunition : EconomySubstitutionKind
  consumable enhancement glyph gem : EconomySubstitutionKind

pub record EconomySubstitutionGroup : Type 0 where
  pub kind : EconomySubstitutionKind
  pub exact_item_id : ℕ
  pub equipment_slot : ℕ
  pub role_mask : ℕ
  pub bag_capacity : ℕ
  pub ammunition_type : ℕ
  pub tier : ℕ
  pub effect_family : ℕ
  pub enhancement_target : ℕ
  pub enhancement_slot : ℕ
  pub glyph_spell_id : ℕ
  pub glyph_slot_type : ℕ
  pub gem_color : ℕ
  pub value_band : ℕ
  pub glyph_item_id : ℕ

pub data ConsumableCapability : Type 0 where
  food drink health_restoration mana_restoration bandage : ConsumableCapability

pub data EconomySupplySource : Type 0 where
  inventory mail active_auction committed_purchase committed_production : EconomySupplySource

pub record EconomyDemandFact : Type 0 where
  pub group : EconomySubstitutionGroup
  pub quantity : ℕ

pub record EconomySupplyFact : Type 0 where
  pub group : EconomySubstitutionGroup
  pub quantity : ℕ
  pub source : EconomySupplySource
  pub item_id : ℕ

pub record EconomyActorFacts : Type 0 where
  pub character_guid : ℕ
  pub account_id : ℕ
  pub market_id : ℕ
  pub online : Bool
  pub autonomous : Bool
  pub crafting_affinity : ℕ
  pub gathering_affinity : ℕ
  pub economy_affinity : ℕ
  pub free_primary_profession_slots : ℕ
  pub profession_skill_ids : List ℕ
  pub recipe_spell_ids : List ℕ
  pub demands : List EconomyDemandFact
  pub supplies : List EconomySupplyFact

pub record EconomyMarketFacts : Type 0 where
  pub market_id : ℕ
  pub supplies : List EconomySupplyFact

pub data EconomyClaimKind : Type 0 where
  production purchase resource : EconomyClaimKind

pub data EconomyClaimPriority : Type 0 where
  speculation producer consumer : EconomyClaimPriority

pub data EconomyClaimState : Type 0 where
  leased released completed : EconomyClaimState

pub data EconomyAssignmentOutcome : Type 0 where
  committed completed inventory_received failed_travel : EconomyAssignmentOutcome
  failed_purchase capability_lost need_changed : EconomyAssignmentOutcome
  logged_out disabled : EconomyAssignmentOutcome

pub data EconomyWorkKind : Type 0 where
  craft gather buy sell recipe trainer market_making : EconomyWorkKind

pub data EconomyWorkBlocker : Type 0 where
  none unknown_actor offline not_autonomous wrong_market no_demand : EconomyWorkBlocker
  affinity_too_low autonomous_only illegal budget : EconomyWorkBlocker
  account_identity_unavailable same_account_purchase : EconomyWorkBlocker
  missing_live_object missing_path missing_skill wrong_phase : EconomyWorkBlocker
  unsafe_transaction capacity : EconomyWorkBlocker

pub record EconomyWorkPolicyInput : Type 0 where
  pub kind : EconomyWorkKind
  pub economy_affinity : ℕ
  pub affinity_relaxed : Bool
  pub necessary_purchase : Bool
  pub direct_command : Bool
  pub legal : Bool
  pub within_budget : Bool
  pub same_account_purchase : Bool
  pub live_object : Bool
  pub path_available : Bool
  pub has_skill : Bool
  pub phase_allowed : Bool
  pub transaction_safe : Bool

pub record EconomyAssignmentRequest : Type 0 where
  pub character_guid : ℕ
  pub market_id : ℕ
  pub group : EconomySubstitutionGroup
  pub quantity : ℕ
  pub kind : EconomyClaimKind
  pub priority : EconomyClaimPriority
  pub work_kind : EconomyWorkKind
  pub work_identity : Text
  pub seller_account_id : ℕ
  pub direct_command : Bool
  pub expires_at : ℕ
  pub recipe_spell_id : ℕ
  pub output_item_id : ℕ
  pub safeguards : EconomyWorkPolicyInput
  pub personal_equipment_purchase : Bool
  pub personal_sustenance_purchase : Bool

pub record EconomyAssignment : Type 0 where
  pub lease_id : ℕ
  pub chain_public_id : Text
  pub character_guid : ℕ
  pub market_id : ℕ
  pub group : EconomySubstitutionGroup
  pub quantity : ℕ
  pub committed_quantity : ℕ
  pub kind : EconomyClaimKind
  pub priority : EconomyClaimPriority
  pub state : EconomyClaimState
  pub direct_command : Bool
  pub work_identity : Text
  pub created_at : ℕ
  pub expires_at : ℕ
  pub settled_at : ℕ
  pub bridged_quantity : ℕ
  pub recipe_spell_id : ℕ
  pub output_item_id : ℕ
  pub last_outcome : EconomyAssignmentOutcome
  pub personal_equipment_purchase : Bool
  pub personal_sustenance_purchase : Bool

pub record EconomyAssignmentLease : Type 0 where
  pub assignment : Option EconomyAssignment
  pub blocker : EconomyWorkBlocker

pub record EconomyProductionRecipe : Type 0 where
  pub group : EconomySubstitutionGroup
  pub recipe_spell_id : ℕ
  pub output_item_id : ℕ
  pub max_quantity : ℕ

pub record EconomyProductionRequest : Type 0 where
  pub character_guid : ℕ
  pub market_id : ℕ
  pub recipes : List EconomyProductionRecipe
  pub expires_at : ℕ
  pub safeguards : EconomyWorkPolicyInput

pub record EconomyProductionOutput : Type 0 where
  pub recorded : Bool
  pub completed : Bool
  pub produced_quantity : ℕ
  pub committed_quantity : ℕ

pub record EconomyDemandGap : Type 0 where
  pub market_id : ℕ
  pub group : EconomySubstitutionGroup
  pub demand_quantity : ℕ
  pub supply_quantity : ℕ
  pub claimed_quantity : ℕ
  pub remaining_quantity : ℕ

pub record EconomyBlockerCount : Type 0 where
  pub blocker : EconomyWorkBlocker
  pub count : ℕ

pub data ProfessionCapabilityKind : Type 0 where
  crafting gathering : ProfessionCapabilityKind

pub record ProfessionCapability : Type 0 where
  pub output_item_id : ℕ
  pub recipe_spell_id : ℕ
  pub profession_skill_id : ℕ
  pub kind : ProfessionCapabilityKind
  pub primary_profession : Bool

pub record EconomyCapabilityRequirement : Type 0 where
  pub market_id : ℕ
  pub group : EconomySubstitutionGroup
  pub capability : ProfessionCapability

pub record EconomyCapabilityObservation : Type 0 where
  pub requirement : EconomyCapabilityRequirement
  pub eligible_cycle : Bool

pub data EconomyCapabilityBlockerState : Type 0 where
  observing persistent : EconomyCapabilityBlockerState

pub record EconomyCapabilityBlocker : Type 0 where
  pub requirement : EconomyCapabilityRequirement
  pub state : EconomyCapabilityBlockerState
  pub consecutive_eligible_cycles : ℕ
  pub assigned_actor_guid : ℕ
  pub assigned_work_kind : Option EconomyWorkKind
  pub first_observed_at : ℕ
  pub last_observed_at : ℕ

pub data EconomyChainStage : Type 0 where
  demand claim commit deliver release blocked complete : EconomyChainStage

pub data EconomyChainOutcome : Type 0 where
  progress released failed blocked completed : EconomyChainOutcome

pub record EconomyChainEvent : Type 0 where
  pub sequence : ℕ
  pub occurred_at : ℕ
  pub actor_guid : ℕ
  pub stage : EconomyChainStage
  pub outcome : EconomyChainOutcome
  pub claim_kind : EconomyClaimKind
  pub assignment_outcome : EconomyAssignmentOutcome
  pub blocker : EconomyWorkBlocker
  pub quantity : ℕ
  pub remaining_quantity : ℕ
  pub work_identity : Text

pub record EconomyChain : Type 0 where
  pub public_id : Text
  pub market_id : ℕ
  pub group : EconomySubstitutionGroup
  pub created_at : ℕ
  pub updated_at : ℕ
  pub completed_at : ℕ
  pub demand_quantity : ℕ
  pub supply_quantity : ℕ
  pub claimed_quantity : ℕ
  pub remaining_quantity : ℕ
  pub active : Bool
  pub consumer_guids : List ℕ
  pub history : List EconomyChainEvent
  pub total_history_count : ℕ
  pub history_truncated : Bool

pub record EconomyActorChainObservation : Type 0 where
  pub available : Bool
  pub chain_public_id : Text
  pub work_identity : Text
  pub market_id : ℕ
  pub group : EconomySubstitutionGroup
  pub remaining_quantity : ℕ
  pub claim_age_seconds : ℕ
  pub claim_state : EconomyClaimState
  pub assignment_outcome : EconomyAssignmentOutcome
  pub capability_blocker : Option EconomyCapabilityBlocker

pub record EconomyCoordinatorSnapshot : Type 0 where
  pub generation : ℕ
  pub actors : List EconomyActorFacts
  pub gaps : List EconomyDemandGap
  pub claims : List EconomyAssignment
  pub blockers : List EconomyBlockerCount
  pub capability_blockers : List EconomyCapabilityBlocker
  pub chains : List EconomyChain

pub record EconomyCoordinatorWorkStats : Type 0 where
  pub lock_acquisitions : ℕ
  pub gap_rebuilds : ℕ
  pub chain_sync_executions : ℕ
  pub capability_reconciliations : ℕ

-- The comparisons of enumerations.
unfoldable pub claim_kind_discrete : Discrete EconomyClaimKind
claim_kind_discrete = hlevel

unfoldable pub claim_priority_discrete : Discrete EconomyClaimPriority
claim_priority_discrete = hlevel

unfoldable pub claim_state_discrete : Discrete EconomyClaimState
claim_state_discrete = hlevel

unfoldable pub assignment_outcome_discrete : Discrete EconomyAssignmentOutcome
assignment_outcome_discrete = hlevel

unfoldable pub work_kind_discrete : Discrete EconomyWorkKind
work_kind_discrete = hlevel
