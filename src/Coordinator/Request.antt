-- ===== src/Coordinator/Request.antt =====
-- What Lease checks first, and RejectLocked, of `src/Bot/Economy/PlayerbotEconomyCoordinator.cpp`;
-- EvaluateWork of `src/Bot/Economy/PlayerbotEconomyPolicy.cpp`.
use mod_playerbots_economy.Prelude.{
  ℕ, ◌+◌, Bool, true, false, not, ◌&&◌, ◌||◌, [], ◌∷◌, Option, none, some, Text, text_eq, codes,
  is_empty, is_some, all_of, ltb, leb, if◌then◌else◌, ◌==◌, nat_eq,
}
use mod_playerbots_economy.Commitment.Compaction.{strip_prefix}
use mod_playerbots_economy.Coordinator.Types.{
  EconomySubstitutionKind, ConsumableCapability, EconomyActorFacts, EconomyClaimKind.purchase,
  EconomyClaimPriority, EconomyWorkKind, EconomyWorkBlocker, EconomyWorkPolicyInput,
  EconomyAssignmentRequest, EconomyAssignmentLease, EconomyChainStage, EconomyChainOutcome,
  EconomyChain,
}
use mod_playerbots_economy.Coordinator.Groups.{
  GapKey, gap_code, find_at, put_at, kind_code, capability_code, claim_kind_eq, claim_priority_eq,
  work_kind_eq,
}
use mod_playerbots_economy.Coordinator.State.{u64, GapBlockerCondition, Coordinator, advance}
use mod_playerbots_economy.Coordinator.Chains.{
  find_chain, update_chain, append_chain_event, plain_event,
}
use mod_playerbots_economy.Coordinator.Capability.{work_affinity}

abbrev pub affinity_relaxation_seconds : ℕ
affinity_relaxation_seconds = 600

abbrev pub sustenance_carrying_budget : ℕ
sustenance_carrying_budget = 40

unfoldable pub evaluate_work : EconomyWorkPolicyInput → EconomyWorkBlocker
evaluate_work input =
    if not input.legal
    then EconomyWorkBlocker.illegal
    else if not input.within_budget
    then EconomyWorkBlocker.budget
    else if input.same_account_purchase
    then EconomyWorkBlocker.same_account_purchase
    else if not input.live_object
    then EconomyWorkBlocker.missing_live_object
    else if not input.path_available
    then EconomyWorkBlocker.missing_path
    else if not input.has_skill
    then EconomyWorkBlocker.missing_skill
    else if not input.phase_allowed
    then EconomyWorkBlocker.wrong_phase
    else if not input.transaction_safe
    then EconomyWorkBlocker.unsafe_transaction
    else if input.kind == EconomyWorkKind.market_making
    then if input.direct_command
      then EconomyWorkBlocker.autonomous_only
      else if leb 75 input.economy_affinity
      then EconomyWorkBlocker.none
      else EconomyWorkBlocker.affinity_too_low
    else if input.kind == EconomyWorkKind.buy && input.necessary_purchase
    then EconomyWorkBlocker.none
    else if not input.direct_command && ltb input.economy_affinity 25 && not input.affinity_relaxed
    then EconomyWorkBlocker.affinity_too_low
    else EconomyWorkBlocker.none

unfoldable pub blocker_code : EconomyWorkBlocker → ℕ
blocker_code EconomyWorkBlocker.none = 0
blocker_code EconomyWorkBlocker.unknown_actor = 1
blocker_code EconomyWorkBlocker.offline = 2
blocker_code EconomyWorkBlocker.not_autonomous = 3
blocker_code EconomyWorkBlocker.wrong_market = 4
blocker_code EconomyWorkBlocker.no_demand = 5
blocker_code EconomyWorkBlocker.affinity_too_low = 6
blocker_code EconomyWorkBlocker.autonomous_only = 7
blocker_code EconomyWorkBlocker.illegal = 8
blocker_code EconomyWorkBlocker.budget = 9
blocker_code EconomyWorkBlocker.account_identity_unavailable = 10
blocker_code EconomyWorkBlocker.same_account_purchase = 11
blocker_code EconomyWorkBlocker.missing_live_object = 12
blocker_code EconomyWorkBlocker.missing_path = 13
blocker_code EconomyWorkBlocker.missing_skill = 14
blocker_code EconomyWorkBlocker.wrong_phase = 15
blocker_code EconomyWorkBlocker.unsafe_transaction = 16
blocker_code EconomyWorkBlocker.capacity = 17

abbrev pub refusal : EconomyWorkBlocker → EconomyAssignmentLease
refusal blocker = record { assignment = none; blocker = blocker }

abbrev pub is_personal_request : EconomyAssignmentRequest → Bool
is_personal_request r = r.personal_equipment_purchase || r.personal_sustenance_purchase

-- The condition of a gap that turns work away; a new reason starts a new time.
unfoldable pub note_condition :
    EconomyWorkBlocker → ℕ → Option GapBlockerCondition → GapBlockerCondition × Bool
unfolding blocker_code
note_condition blocker now none = (record { blocker = blocker; first_observed_at = now }, true)
note_condition blocker now (some c) =
    if blocker_code c.blocker == blocker_code blocker
    then (c, false)
    else (record { blocker = blocker; first_observed_at = now }, true)

-- The chain of the request's gap, if there is one.
unfoldable pub active_chain : GapKey → Coordinator → Option EconomyChain
unfolding find_chain gap_code
active_chain key st = elim (find_at gap_code key st.active_chain_ids) [
  | none ↦ none
  | some id ↦ find_chain st.chains id
]

unfoldable pub note_block :
    EconomyWorkBlocker
    → EconomyAssignmentRequest
    → ℕ
    → Option EconomyChain
    → Coordinator
    → Coordinator
unfolding update_chain append_chain_event
note_block blocker r now none st = st
note_block blocker r now (some chain) st = record st {
  chains =
      update_chain chain.public_id
        (append_chain_event
          (record (plain_event EconomyChainStage.blocked EconomyChainOutcome.blocked now) {
            actor_guid = r.character_guid;
            claim_kind = r.kind;
            blocker = blocker;
            quantity = r.quantity;
            remaining_quantity = chain.remaining_quantity;
            work_identity = r.work_identity;
          }))
        st.chains;
}

-- RejectLocked for a request that is reported.
unfoldable pub reject_reported :
    EconomyWorkBlocker → EconomyAssignmentRequest → ℕ → Coordinator → Coordinator
unfolding note_condition active_chain note_block advance gap_code blocker_code
reject_reported blocker r now st =
    let key : GapKey = (r.market_id, r.group) in
    let (condition, changed) = note_condition blocker now (find_at gap_code key st.gap_blockers) in
    let chain = active_chain key st in
    let noted =
      note_block blocker r now chain
        (record st { gap_blockers = put_at gap_code key condition st.gap_blockers }) in
    if is_personal_request r || blocker_code blocker == blocker_code EconomyWorkBlocker.no_demand
    then st
    else if changed || is_some chain
    then advance noted
    else noted

abbrev pub is_digit : ℕ → Bool
is_digit b = leb 48 b && leb b 57

-- `auction:` and a number that does not begin with 0.
unfoldable pub is_auction_identity : Text → Bool
unfolding strip_prefix
is_auction_identity identity = elim (strip_prefix (codes "auction:") identity) [
  | none ↦ false
  | some [] ↦ false
  | some (◌∷◌ b bs) ↦ not (b == 48) && all_of is_digit (b ∷ bs)
]

unfoldable pub is_personal_purchase : EconomyAssignmentRequest → Bool
unfolding is_auction_identity
is_personal_purchase r =
    r.kind == purchase
    && r.priority == EconomyClaimPriority.consumer
    && r.work_kind == EconomyWorkKind.buy
    && is_auction_identity r.work_identity

unfoldable pub is_equipment_purchase : EconomyAssignmentRequest → Bool
unfolding is_personal_purchase kind_code
is_equipment_purchase r =
    is_personal_purchase r
    && kind_code r.group.kind == kind_code EconomySubstitutionKind.equipment
    && r.quantity == 1

unfoldable pub is_sustenance_purchase : EconomyAssignmentRequest → Bool
unfolding is_personal_purchase kind_code capability_code
is_sustenance_purchase r =
    not r.personal_equipment_purchase
    && is_personal_purchase r
    && kind_code r.group.kind == kind_code EconomySubstitutionKind.consumable
    && (r.group.effect_family == capability_code ConsumableCapability.food
        || r.group.effect_family == capability_code ConsumableCapability.drink)
    && leb r.quantity sustenance_carrying_budget

-- The checks before the policy: the blocker, and whether the refusal is reported.
unfoldable pub check_request :
    EconomyAssignmentRequest → ℕ → EconomyActorFacts → Option (EconomyWorkBlocker × Bool)
unfolding is_equipment_purchase is_sustenance_purchase
check_request r now actor =
    if not actor.online
    then some (EconomyWorkBlocker.offline, true)
    else if not actor.autonomous && not r.direct_command
    then some (EconomyWorkBlocker.not_autonomous, true)
    else if r.market_id == 0 || not (actor.market_id == r.market_id)
    then some (EconomyWorkBlocker.wrong_market, true)
    else if r.quantity == 0 || is_empty r.work_identity || r.expires_at == 0 || leb r.expires_at now
    then some (EconomyWorkBlocker.illegal, true)
    else if r.kind == purchase && (actor.account_id == 0 || r.seller_account_id == 0)
    then some (EconomyWorkBlocker.account_identity_unavailable, true)
    else if r.personal_equipment_purchase && not (is_equipment_purchase r)
    then some (EconomyWorkBlocker.illegal, false)
    else if r.personal_sustenance_purchase && not (is_sustenance_purchase r)
    then some (EconomyWorkBlocker.illegal, false)
    else none

-- A gap that has been starved of affinity for the whole window.
unfoldable pub is_relaxed : ℕ → Option GapBlockerCondition → Bool
unfolding blocker_code
is_relaxed now none = false
is_relaxed now (some c) =
    blocker_code c.blocker == blocker_code EconomyWorkBlocker.affinity_too_low
    && leb (u64 (c.first_observed_at + affinity_relaxation_seconds)) now

unfoldable pub policy_of :
    EconomyAssignmentRequest → EconomyActorFacts → Bool → EconomyWorkPolicyInput
unfolding work_affinity
policy_of r actor relaxed = record (r.safeguards) {
  kind = r.work_kind;
  economy_affinity = work_affinity actor r;
  necessary_purchase = r.priority == EconomyClaimPriority.consumer;
  direct_command = r.direct_command;
  same_account_purchase = r.kind == purchase && r.seller_account_id == actor.account_id;
  affinity_relaxed = relaxed;
}
