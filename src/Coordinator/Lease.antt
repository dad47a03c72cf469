-- ===== src/Coordinator/Lease.antt =====
-- Lease of `src/Bot/Economy/PlayerbotEconomyCoordinator.cpp`, behind the checks of the request.
use mod_playerbots_economy.Prelude.{
  ℕ, ◌+◌, ◌-◌, min, max, Bool, false, not, ◌&&◌, ◌||◌, [], ◌∷◌, ◌++◌, Option, none, some, Text,
  text_eq, length, is_some, any_of, keep_if, ltb, leb, if◌then◌else◌, ◌==◌, nat_eq,
}
use mod_playerbots_economy.Coordinator.Types.{
  EconomyActorFacts, EconomyClaimKind.purchase, EconomyClaimPriority, EconomyClaimState.leased,
  EconomyAssignmentOutcome, EconomyWorkBlocker, EconomyAssignmentRequest, EconomyAssignment,
  EconomyAssignmentLease, EconomyChainStage, EconomyChainOutcome,
}
use mod_playerbots_economy.Coordinator.Groups.{
  GapKey, gap_code, find_at, erase_at, or_else, number_code, claim_kind_eq, claim_priority_eq,
  work_kind_eq,
}
use mod_playerbots_economy.Coordinator.State.{
  u64, sub64, GapTotals, no_totals, Coordinator, is_personal, calculate_gaps, bounded_quantity,
  remaining_demand, invalidate_gap_cache, advance,
}
use mod_playerbots_economy.Coordinator.Chains.{chain_capacity, append_claim_event, ensure_chain}
use mod_playerbots_economy.Coordinator.Outcome.{is_leased, release_speculation}
use mod_playerbots_economy.Coordinator.Excess.{purchase_need}
use mod_playerbots_economy.Coordinator.Capability.{begin_work, sync_and_reconcile}
use mod_playerbots_economy.Coordinator.Request.{
  evaluate_work, blocker_code, refusal, is_personal_request, reject_reported, check_request,
  is_relaxed, policy_of,
}

-- A purchase of an auction that a leased claim holds, when one of the two is personal.
abbrev pub holds_same_auction : EconomyAssignmentRequest → EconomyAssignment → Bool
holds_same_auction r c =
    c.kind == purchase
    && is_leased c
    && c.market_id == r.market_id
    && c.work_identity == r.work_identity
    && (is_personal_request r || is_personal c)

-- A claim for the request, without what only some kinds of claim carry.
unfoldable pub assignment_of : ℕ → Text → EconomyAssignmentRequest → ℕ → ℕ → EconomyAssignment
assignment_of lease_id chain r quantity now = record {
  lease_id = lease_id;
  chain_public_id = chain;
  character_guid = r.character_guid;
  market_id = r.market_id;
  group = r.group;
  quantity = quantity;
  committed_quantity = 0;
  kind = r.kind;
  priority = r.priority;
  state = leased;
  direct_command = r.direct_command;
  work_identity = r.work_identity;
  created_at = now;
  expires_at = r.expires_at;
  settled_at = 0;
  bridged_quantity = 0;
  recipe_spell_id = 0;
  output_item_id = 0;
  last_outcome = EconomyAssignmentOutcome.committed;
  personal_equipment_purchase = false;
  personal_sustenance_purchase = false;
}

unfoldable pub push_claim : EconomyAssignment → Coordinator → Coordinator
push_claim c st = record st {
  claims = st.claims ++ c ∷ [];
  next_lease_id = u64 (st.next_lease_id + 1);
}

abbrev pub granted : EconomyAssignment → EconomyAssignmentLease
granted c = record { assignment = some c; blocker = EconomyWorkBlocker.none }

unfoldable pub lease_personal :
    EconomyAssignmentRequest → ℕ → Coordinator → Coordinator × EconomyAssignmentLease
unfolding assignment_of push_claim advance
lease_personal r now st =
    let held = length (keep_if (λ c. is_personal c && is_leased c) st.claims) in
    let c = record (assignment_of st.next_lease_id [] r r.quantity now) {
      personal_equipment_purchase = r.personal_equipment_purchase;
      personal_sustenance_purchase = r.personal_sustenance_purchase;
    } in
    if leb chain_capacity held
    then (st, refusal EconomyWorkBlocker.capacity)
    else (advance (push_claim c st), granted c)

-- The totals of the gap, what of it is available, and whether speculation was released for it.
pub record Offer : Type 0 where
  pub state : Coordinator
  pub available : ℕ
  pub is_released : Bool

unfoldable pub totals_at : GapKey → Coordinator → GapTotals
unfolding gap_code
totals_at key st = or_else (find_at gap_code key st.cached_gaps) no_totals

abbrev pub speculative_supply : GapTotals → ℕ
speculative_supply t =
    let protected = max (purchase_need t) t.purchase_claimed in
    if ltb (u64 (protected + t.speculation_claimed)) t.auction_supply
    then sub64 (sub64 t.auction_supply protected) t.speculation_claimed
    else 0

abbrev pub unclaimed_need : GapTotals → ℕ
unclaimed_need t =
    if ltb t.purchase_claimed (purchase_need t) then purchase_need t - t.purchase_claimed else 0

abbrev pub free_supply : GapTotals → ℕ
free_supply t =
    if ltb (u64 (t.purchase_claimed + t.speculation_claimed)) t.auction_supply
    then sub64 (sub64 t.auction_supply t.purchase_claimed) t.speculation_claimed
    else 0

abbrev pub free_without_speculation : GapTotals → ℕ
free_without_speculation t =
    if ltb t.purchase_claimed t.auction_supply then t.auction_supply - t.purchase_claimed else 0

-- What a purchase may take. A purchase for use takes it from speculation when it must.
unfoldable pub offer_purchase : EconomyAssignmentRequest → ℕ → Coordinator → Offer
unfolding calculate_gaps totals_at release_speculation
offer_purchase r now st =
    let key : GapKey = (r.market_id, r.group) in
    let counted = calculate_gaps st in
    let t = totals_at key counted in
    let (freed, is_released) = release_speculation key now counted in
    let recounted = calculate_gaps freed in
    if r.priority == EconomyClaimPriority.speculation
    then record { state = counted; available = speculative_supply t; is_released = false }
    else if ltb (free_supply t) (unclaimed_need t) && not (t.speculation_claimed == 0)
    then record {
      state = recounted;
      available = min (unclaimed_need t) (free_without_speculation (totals_at key recounted));
      is_released = is_released;
    }
    else record {
      state = counted;
      available = min (unclaimed_need t) (free_supply t);
      is_released = false;
    }

-- What other work may take of the demand.
unfoldable pub offer_work : EconomyAssignmentRequest → ℕ → Coordinator → Offer
unfolding calculate_gaps remaining_demand release_speculation gap_code
offer_work r now st =
    let key : GapKey = (r.market_id, r.group) in
    let counted = calculate_gaps st in
    let remaining = remaining_demand (find_at gap_code key counted.cached_gaps) in
    let (freed, is_released) = release_speculation key now counted in
    let recounted = calculate_gaps freed in
    if remaining == 0 && not (r.priority == EconomyClaimPriority.speculation)
    then record {
      state = recounted;
      available = remaining_demand (find_at gap_code key recounted.cached_gaps);
      is_released = is_released;
    }
    else record { state = counted; available = remaining; is_released = false }

unfoldable pub offer_for : EconomyAssignmentRequest → ℕ → Coordinator → Offer
unfolding offer_purchase offer_work
offer_for r now st = if r.kind == purchase then offer_purchase r now st else offer_work r now st

-- The claim of a shared lease. Only production carries its recipe.
unfoldable pub shared_assignment :
    ℕ → Option Text → EconomyAssignmentRequest → ℕ → ℕ → EconomyAssignment
unfolding assignment_of bounded_quantity
shared_assignment lease_id chain r available now =
    let c =
      assignment_of lease_id (or_else chain []) r (bounded_quantity (min r.quantity available))
        now in
    if r.kind == purchase
    then c
    else record c { recipe_spell_id = r.recipe_spell_id; output_item_id = r.output_item_id }

module _ (draw : ℕ → ℕ → Text) where
  unfoldable pub grant_shared :
      EconomyAssignmentRequest → EconomyAssignment → ℕ → Coordinator → Coordinator
  unfolding push_claim invalidate_gap_cache append_claim_event sync_and_reconcile advance gap_code
  grant_shared r c now st =
      let pushed = invalidate_gap_cache (push_claim c st) in
      let cleared = record pushed {
        gap_blockers = erase_at gap_code (r.market_id, r.group) pushed.gap_blockers;
      } in
      advance (
        sync_and_reconcile draw now (
          append_claim_event c EconomyChainStage.claim EconomyChainOutcome.progress
            EconomyWorkBlocker.none now cleared))

  unfoldable pub lease_offer :
      EconomyAssignmentRequest → Option Text → ℕ → Offer → Coordinator × EconomyAssignmentLease
  unfolding shared_assignment grant_shared sync_and_reconcile advance reject_reported
  lease_offer r chain now offer =
      let st = offer.state in
      let c = shared_assignment st.next_lease_id chain r offer.available now in
      let settled = if offer.is_released then advance (sync_and_reconcile draw now st) else st in
      if offer.available == 0
      then (
        reject_reported EconomyWorkBlocker.no_demand r now settled,
        refusal EconomyWorkBlocker.no_demand,
      )
      else (grant_shared r c now st, granted c)

  -- A lease of a part of a gap that actors share.
  unfoldable pub lease_shared :
      EconomyAssignmentRequest → ℕ → Coordinator → Coordinator × EconomyAssignmentLease
  unfolding calculate_gaps totals_at ensure_chain offer_for lease_offer reject_reported
  lease_shared r now st =
      let key : GapKey = (r.market_id, r.group) in
      let counted = calculate_gaps st in
      let (ensured, chain) =
        ensure_chain draw key now (not ((totals_at key counted).demand == 0)) counted in
      if not (is_some chain) && not (r.priority == EconomyClaimPriority.speculation)
      then (
        reject_reported EconomyWorkBlocker.capacity r now ensured,
        refusal EconomyWorkBlocker.capacity,
      )
      else lease_offer r chain now (offer_for r now ensured)

  -- What follows the checks of the request.
  unfoldable pub lease_checked :
      EconomyAssignmentRequest
      → EconomyActorFacts
      → ℕ
      → Coordinator
      → Coordinator × EconomyAssignmentLease
  unfolding policy_of evaluate_work is_relaxed blocker_code reject_reported lease_personal
      lease_shared gap_code
  lease_checked r actor now st =
      let relaxed = is_relaxed now (find_at gap_code (r.market_id, r.group) st.gap_blockers) in
      let blocker = evaluate_work (policy_of r actor relaxed) in
      if not (blocker_code blocker == blocker_code EconomyWorkBlocker.none)
      then (reject_reported blocker r now st, refusal blocker)
      else if r.kind == purchase && any_of (holds_same_auction r) st.claims
      then (st, refusal EconomyWorkBlocker.capacity)
      else if is_personal_request r
      then lease_personal r now st
      else lease_shared r now st

  unfoldable pub lease_begun :
      EconomyAssignmentRequest → ℕ → Coordinator → Coordinator × EconomyAssignmentLease
  unfolding check_request reject_reported lease_checked
  lease_begun r now st = elim (find_at number_code r.character_guid st.actors) [
    | none ↦ (
      reject_reported EconomyWorkBlocker.unknown_actor r now st,
      refusal EconomyWorkBlocker.unknown_actor,
    )
    | some actor ↦ elim (check_request r now actor) [
      | none ↦ lease_checked r actor now st
      | some (blocker, is_reported) ↦
          (if is_reported then reject_reported blocker r now st else st, refusal blocker)
    ]
  ]

  unfoldable pub lease :
      EconomyAssignmentRequest → ℕ → Coordinator → Coordinator × EconomyAssignmentLease
  unfolding begin_work lease_begun
  lease r now st = lease_begun r now (begin_work draw now st)
