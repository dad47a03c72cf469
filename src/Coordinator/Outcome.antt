-- ===== src/Coordinator/Outcome.antt =====
-- How claims settle: ApplyOutcomeLocked and the loops that call it, of
-- `src/Bot/Economy/PlayerbotEconomyCoordinator.cpp`. A claim is changed in place: `before` and
-- `after` are the claims around it.
use mod_playerbots_economy.Prelude.{
  ℕ, ◌+◌, min, max, Bool, true, false, not, ◌&&◌, ◌||◌, List, [], ◌∷◌, ◌++◌, length, keep_if, leb,
  if◌then◌else◌, ◌==◌, nat_eq,
}
use mod_playerbots_economy.Coordinator.Types.{
  EconomyClaimKind.purchase, EconomyClaimPriority.speculation, EconomyClaimState,
  EconomyClaimState.leased, EconomyAssignmentOutcome, EconomyWorkBlocker, EconomyAssignment,
  EconomyChainStage, EconomyChainOutcome,
}
use mod_playerbots_economy.Coordinator.Groups.{
  GapKey, same_group, claim_kind_eq, claim_priority_eq, claim_state_eq, assignment_outcome_eq,
}
use mod_playerbots_economy.Coordinator.State.{u64, Coordinator, invalidate_gap_cache, advance}
use mod_playerbots_economy.Coordinator.Chains.{append_claim_event}

abbrev pub claim_retention_seconds : ℕ
claim_retention_seconds = 300

abbrev pub is_leased : EconomyAssignment → Bool
is_leased c = c.state == leased

-- The state of a claim after an outcome.
unfoldable pub state_after : EconomyAssignmentOutcome → EconomyClaimState → EconomyClaimState
state_after EconomyAssignmentOutcome.committed state = state
state_after EconomyAssignmentOutcome.completed state = EconomyClaimState.completed
state_after _ state = EconomyClaimState.released

unfoldable pub stage_of : EconomyAssignmentOutcome → EconomyChainStage
stage_of EconomyAssignmentOutcome.committed = EconomyChainStage.commit
stage_of EconomyAssignmentOutcome.completed = EconomyChainStage.deliver
stage_of EconomyAssignmentOutcome.inventory_received = EconomyChainStage.deliver
stage_of _ = EconomyChainStage.release

unfoldable pub chain_outcome_of : EconomyAssignmentOutcome → EconomyChainOutcome
chain_outcome_of EconomyAssignmentOutcome.committed = EconomyChainOutcome.progress
chain_outcome_of EconomyAssignmentOutcome.completed = EconomyChainOutcome.progress
chain_outcome_of EconomyAssignmentOutcome.inventory_received = EconomyChainOutcome.progress
chain_outcome_of EconomyAssignmentOutcome.failed_travel = EconomyChainOutcome.failed
chain_outcome_of EconomyAssignmentOutcome.failed_purchase = EconomyChainOutcome.failed
chain_outcome_of EconomyAssignmentOutcome.capability_lost = EconomyChainOutcome.failed
chain_outcome_of _ = EconomyChainOutcome.released

-- The committed output that a settled claim leaves for its producer to report.
unfoldable pub bridge_of : EconomyAssignmentOutcome → EconomyAssignment → ℕ → ℕ
bridge_of EconomyAssignmentOutcome.completed c committed = 0
bridge_of EconomyAssignmentOutcome.inventory_received c committed = 0
bridge_of _ c committed = if c.kind == purchase then 0 else committed

-- The claim after an outcome.
unfoldable pub settle_claim :
    EconomyAssignmentOutcome → ℕ → ℕ → EconomyAssignment → EconomyAssignment
unfolding state_after bridge_of
settle_claim outcome committed_quantity now c =
    let committed = max c.committed_quantity (min committed_quantity c.quantity) in
    let settles = is_leased c && not (outcome == EconomyAssignmentOutcome.committed) in
    record c {
      committed_quantity =
          if outcome == EconomyAssignmentOutcome.completed then c.quantity else committed;
      last_outcome = outcome;
      settled_at = if settles then now else c.settled_at;
      bridged_quantity = if settles then bridge_of outcome c committed else c.bridged_quantity;
      state = state_after outcome c.state;
    }

-- The comparison with the prior values.
unfoldable pub is_settled_alike : EconomyAssignment → EconomyAssignment → Bool
is_settled_alike c d =
    c.committed_quantity == d.committed_quantity
    && c.state == d.state
    && c.last_outcome == d.last_outcome
    && c.settled_at == d.settled_at
    && c.bridged_quantity == d.bridged_quantity

-- ApplyOutcomeLocked on the claim between `before` and `after`.
unfoldable pub apply_outcome :
    List EconomyAssignment
    → EconomyAssignment
    → List EconomyAssignment
    → EconomyAssignmentOutcome
    → ℕ
    → ℕ
    → Coordinator
    → Coordinator × Bool
unfolding settle_claim is_settled_alike stage_of chain_outcome_of invalidate_gap_cache
    append_claim_event
apply_outcome before c after outcome committed_quantity now st =
    let d = settle_claim outcome committed_quantity now c in
    let placed = record st { claims = before ++ d ∷ after } in
    if is_settled_alike c d then (placed, false) else (
      append_claim_event d (stage_of outcome) (chain_outcome_of outcome) EconomyWorkBlocker.none now
          (invalidate_gap_cache placed),
      true,
    )

-- A loop over the claims that settles those that pass a test, with what they have committed. The
-- claims behind it are `before`, and its result says whether one of them changed.
unfoldable pub settle_where :
    (EconomyAssignment → Bool)
    → EconomyAssignmentOutcome
    → ℕ
    → List EconomyAssignment
    → List EconomyAssignment
    → Coordinator
    → Coordinator × Bool
unfolding apply_outcome
settle_where test outcome now before [] st = (st, false)
settle_where test outcome now before (c ∷ after) st = elim (test c) [
  | false ↦ settle_where test outcome now (before ++ c ∷ []) after st
  | true ↦
      let hit = apply_outcome before c after outcome c.committed_quantity now st in
      let d = settle_claim outcome c.committed_quantity now c in
      let behind = settle_where test outcome now (before ++ d ∷ []) after hit.0 in
      (behind.0, hit.1 || behind.1)
]

abbrev pub is_due : ℕ → EconomyAssignment → Bool
is_due now c = is_leased c && not (c.expires_at == 0) && leb c.expires_at now

-- Settled, and behind the retention window.
abbrev pub is_stale : ℕ → EconomyAssignment → Bool
is_stale now c =
    not (is_leased c)
    && not (c.settled_at == 0)
    && leb (u64 (c.settled_at + claim_retention_seconds)) now

unfoldable pub erase_stale : ℕ → Coordinator → Coordinator × Bool
unfolding invalidate_gap_cache
erase_stale now st =
    let kept = keep_if (λ c. not (is_stale now c)) st.claims in
    if length kept == length st.claims
    then (st, false)
    else (invalidate_gap_cache (record st { claims = kept }), true)

-- ExpireLocked, and whether it changed a claim.
unfoldable pub expire_locked : ℕ → Bool → Coordinator → Coordinator × Bool
unfolding settle_where erase_stale advance
expire_locked now advances st =
    let (settled, due) =
      settle_where (is_due now) EconomyAssignmentOutcome.need_changed now [] st.claims st in
    let (kept, erased) = erase_stale now settled in
    let is_changed = due || erased in
    (if is_changed && advances then advance kept else kept, is_changed)

abbrev pub is_of_actor : ℕ → EconomyAssignment → Bool
is_of_actor guid c = c.character_guid == guid && is_leased c

unfoldable pub invalidate_actor_locked :
    ℕ → EconomyAssignmentOutcome → ℕ → Coordinator → Coordinator × Bool
unfolding settle_where
invalidate_actor_locked guid outcome now st =
    settle_where (is_of_actor guid) outcome now [] st.claims st

abbrev pub is_speculation_at : GapKey → EconomyAssignment → Bool
is_speculation_at key c =
    c.market_id == key.0 && same_group c.group key.1 && c.priority == speculation && is_leased c

unfoldable pub release_speculation : GapKey → ℕ → Coordinator → Coordinator × Bool
unfolding settle_where same_group
release_speculation key now st =
    settle_where (is_speculation_at key) EconomyAssignmentOutcome.need_changed now [] st.claims st
