-- ===== src/Coordinator/Chains.antt =====
-- The chain history of `src/Bot/Economy/PlayerbotEconomyChains.cpp`. ChainPublicId hashes the
-- sequence number, the time and two random numbers, and prints the hash; the random numbers, the
-- hash and the formatting are not in the repository, so `draw` gives the identity for a sequence
-- number and a time. Each draw has a sequence number of its own.
use mod_playerbots_economy.Prelude.{
  ℕ, zero, suc, ◌+◌, max, Bool, true, false, not, ◌&&◌, ◌||◌, List, [], ◌∷◌, ◌++◌, Option, none,
  some, Text, text_eq, length, is_empty, is_some, find_if, keep_if, update_first, drop, leb,
  if◌then◌else◌, ◌==◌, nat_eq,
}
use mod_playerbots_economy.Coordinator.Types.{
  EconomyClaimKind, EconomyAssignmentOutcome, EconomyWorkBlocker, EconomyAssignment,
  EconomyChainStage, EconomyChainOutcome, EconomyChainEvent, EconomyChain,
}
use mod_playerbots_economy.Coordinator.Groups.{GapKey, gap_code, find_at, put_at, erase_at, or_else}
use mod_playerbots_economy.Coordinator.State.{
  u64, GapTotals, Gaps, Coordinator, calculate_gaps, bounded_quantity, is_unmet, remaining_demand,
}

abbrev pub chain_capacity : ℕ
chain_capacity = 256

abbrev pub history_capacity : ℕ
history_capacity = 64

unfoldable pub find_chain : List EconomyChain → Text → Option EconomyChain
find_chain chains public_id = find_if (λ c. c.public_id == public_id) chains

-- A write through the pointer that FindChainLocked gives.
unfoldable pub update_chain :
    Text → (EconomyChain → EconomyChain) → List EconomyChain → List EconomyChain
update_chain public_id change chains = update_first (λ c. c.public_id == public_id) change chains

unfoldable pub append_chain_event : EconomyChainEvent → EconomyChain → EconomyChain
append_chain_event event chain =
    let is_full = length chain.history == history_capacity in
    let count = u64 (chain.total_history_count + 1) in
    record chain {
      updated_at = max chain.updated_at event.occurred_at;
      total_history_count = count;
      history =
          (if is_full then drop 1 chain.history else chain.history)
          ++ record event { sequence = count } ∷ [];
      history_truncated = is_full || chain.history_truncated;
    }

-- The event with the members that a designated initializer leaves out.
abbrev pub plain_event : EconomyChainStage → EconomyChainOutcome → ℕ → EconomyChainEvent
plain_event stage outcome now = record {
  sequence = 0;
  occurred_at = now;
  actor_guid = 0;
  stage = stage;
  outcome = outcome;
  claim_kind = EconomyClaimKind.production;
  assignment_outcome = EconomyAssignmentOutcome.committed;
  blocker = EconomyWorkBlocker.none;
  quantity = 0;
  remaining_quantity = 0;
  work_identity = [];
}

abbrev pub claim_event :
    EconomyAssignment
    → EconomyChainStage
    → EconomyChainOutcome
    → EconomyWorkBlocker
    → ℕ
    → ℕ
    → EconomyChainEvent
claim_event c stage outcome blocker remaining now = record {
  sequence = 0;
  occurred_at = now;
  actor_guid = c.character_guid;
  stage = stage;
  outcome = outcome;
  claim_kind = c.kind;
  assignment_outcome = c.last_outcome;
  blocker = blocker;
  quantity = c.quantity;
  remaining_quantity = remaining;
  work_identity = c.work_identity;
}

unfoldable pub append_claim_event :
    EconomyAssignment
    → EconomyChainStage
    → EconomyChainOutcome
    → EconomyWorkBlocker
    → ℕ
    → Coordinator
    → Coordinator
unfolding find_chain calculate_gaps gap_code bounded_quantity remaining_demand append_chain_event
    update_chain
append_claim_event c stage outcome blocker now st =
    let counted = calculate_gaps st in
    let remaining =
      bounded_quantity
        (remaining_demand (find_at gap_code (c.market_id, c.group) counted.cached_gaps)) in
    if is_empty c.chain_public_id || not (is_some (find_chain st.chains c.chain_public_id))
    then st
    else record counted {
      chains =
          update_chain c.chain_public_id
            (append_chain_event (claim_event c stage outcome blocker remaining now)) st.chains;
    }

abbrev pub new_chain : Text → GapKey → ℕ → EconomyChain
new_chain public_id key now = record {
  public_id = public_id;
  market_id = key.0;
  group = key.1;
  created_at = now;
  updated_at = now;
  completed_at = 0;
  demand_quantity = 0;
  supply_quantity = 0;
  claimed_quantity = 0;
  remaining_quantity = 0;
  active = true;
  consumer_guids = [];
  history = [];
  total_history_count = 0;
  history_truncated = false;
}

-- Room for one more chain: at capacity the oldest inactive one goes, if there is one.
unfoldable pub remove_inactive : List EconomyChain → Option (List EconomyChain)
remove_inactive [] = none
remove_inactive (c ∷ cs) = elim (remove_inactive cs) [
  | none ↦ if c.active then none else some cs
  | some rest ↦ if c.active then some (c ∷ rest) else some cs
]

unfoldable pub room_for_chain : List EconomyChain → Option (List EconomyChain)
unfolding remove_inactive
room_for_chain chains =
    if leb chain_capacity (length chains) then remove_inactive chains else some chains

module _ (draw : ℕ → ℕ → Text) where
  -- The `do` loop: the identity and the sequence number behind it. `fuel` bounds the draws.
  unfoldable pub draw_id : ℕ → List EconomyChain → ℕ → ℕ → Text × ℕ
  unfolding find_chain
  draw_id zero chains sequence now = (draw sequence now, u64 (sequence + 1))
  draw_id (suc fuel) chains sequence now =
      let again = draw_id fuel chains (u64 (sequence + 1)) now in
      if is_some (find_chain chains (draw sequence now))
      then again
      else (draw sequence now, u64 (sequence + 1))

  -- A chain for the key behind the chains that are kept.
  unfoldable pub create_chain : GapKey → ℕ → List EconomyChain → Coordinator → Coordinator
  unfolding draw_id append_chain_event gap_code
  create_chain key now kept st =
      let drawn = draw_id (length kept) kept st.next_chain_sequence now in
      record st {
        chains =
            kept
            ++ append_chain_event
                (plain_event EconomyChainStage.demand EconomyChainOutcome.progress now)
                (new_chain drawn.0 key now)
              ∷ [];
        active_chain_ids = put_at gap_code key drawn.0 st.active_chain_ids;
        next_chain_sequence = drawn.1;
      }

  -- EnsureChainLocked; its pointer is the identity of the chain.
  unfoldable pub ensure_chain : GapKey → ℕ → Bool → Coordinator → Coordinator × Option Text
  unfolding find_chain room_for_chain create_chain gap_code
  ensure_chain key now has_demand st = elim (find_at gap_code key st.active_chain_ids) [
    | some id ↦ (st, if is_some (find_chain st.chains id) then some id else none)
    | none ↦ if not has_demand then (st, none) else elim (room_for_chain st.chains) [
      | none ↦ (st, none)
      | some kept ↦
          let made = create_chain key now kept st in
          (made, find_at gap_code key made.active_chain_ids)
    ]
  ]

-- `history.back()` of a chain whose only event was its demand takes the new figures.
unfoldable pub refresh_last : ℕ → ℕ → List EconomyChainEvent → List EconomyChainEvent
refresh_last demanded remaining [] = []
refresh_last demanded remaining (e ∷ []) = elim e.stage [
  | EconomyChainStage.demand ↦ record e { quantity = demanded; remaining_quantity = remaining } ∷ []
  | _ ↦ e ∷ []
]
refresh_last demanded remaining (e ∷ f ∷ es) = e ∷ refresh_last demanded remaining (f ∷ es)

unfoldable pub refresh_history : EconomyChain → List EconomyChainEvent
unfolding refresh_last
refresh_history chain =
    if chain.total_history_count == 1
    then refresh_last chain.demand_quantity chain.remaining_quantity chain.history
    else chain.history

unfoldable pub sync_chain : GapTotals → List ℕ → ℕ → EconomyChain → EconomyChain
unfolding bounded_quantity remaining_demand refresh_history
sync_chain totals consumers now chain =
    let demanded = bounded_quantity totals.demand in
    let supplied = bounded_quantity totals.supply in
    let promised = bounded_quantity (u64 (totals.claimed + totals.purchase_claimed)) in
    let remaining = bounded_quantity (remaining_demand (some totals)) in
    let is_same =
      chain.demand_quantity == demanded
      && chain.supply_quantity == supplied
      && chain.claimed_quantity == promised
      && chain.remaining_quantity == remaining
      && chain.consumer_guids == consumers in
    let synced = record chain {
      demand_quantity = demanded;
      supply_quantity = supplied;
      claimed_quantity = promised;
      remaining_quantity = remaining;
      consumer_guids = consumers;
      updated_at = if is_same then chain.updated_at else now;
    } in
    record synced { history = refresh_history synced }

unfoldable pub close_chain : ℕ → EconomyChain → EconomyChain
unfolding append_chain_event
close_chain now chain =
    append_chain_event
      (plain_event EconomyChainStage.complete
        (if chain.remaining_quantity == 0
          then EconomyChainOutcome.completed
          else EconomyChainOutcome.released)
        now)
      (record chain {
        active = false;
        updated_at = now;
        completed_at = now;
        remaining_quantity = 0;
      })

abbrev pub has_demand : Option GapTotals → Bool
has_demand none = false
has_demand (some t) = not (t.demand == 0)

-- The loop over the active chains: those whose key has no demand left are closed.
unfoldable pub close_chains : ℕ → Gaps → List (GapKey × Text) → Coordinator → Coordinator
unfolding close_chain update_chain gap_code
close_chains now gaps [] st = st
close_chains now gaps ((key, id) ∷ entries) st = close_chains now gaps entries (
    if has_demand (find_at gap_code key gaps) then st else record st {
      chains = update_chain id (close_chain now) st.chains;
      active_chain_ids = erase_at gap_code key st.active_chain_ids;
    })

-- The conditions that describe work that is no longer stuck go.
unfoldable pub prune_blockers : Coordinator → Coordinator
unfolding is_unmet gap_code
prune_blockers st = record st {
  work_stats = record (st.work_stats) {
    chain_sync_executions = u64 (st.work_stats.chain_sync_executions + 1);
  };
  gap_blockers = keep_if (λ b. is_unmet (find_at gap_code b.0 st.cached_gaps)) st.gap_blockers;
}

module _ (draw : ℕ → ℕ → Text) where
  -- The loop over the totals: a chain with current figures for every key with demand.
  unfoldable pub sync_gaps : ℕ → Gaps → Coordinator → Coordinator
  unfolding ensure_chain sync_chain update_chain gap_code
  sync_gaps now [] st = st
  sync_gaps now ((key, totals) ∷ gaps) st =
      let (ensured, chain) = ensure_chain draw key now true st in
      let consumers = or_else (find_at gap_code key st.cached_consumers) [] in
      sync_gaps now gaps (
        if totals.demand == 0 then st else elim chain [
          | none ↦ ensured
          | some id ↦ record ensured {
            chains = update_chain id (sync_chain totals consumers now) ensured.chains;
          }
        ])

  -- What SyncChainsLocked does when the chains are out of date.
  unfoldable pub resync_chains : ℕ → Coordinator → Coordinator
  unfolding calculate_gaps prune_blockers sync_gaps close_chains
  resync_chains now st =
      let pruned = prune_blockers (calculate_gaps st) in
      let gaps = pruned.cached_gaps in
      let synced = sync_gaps now gaps pruned in
      record (close_chains now gaps synced.active_chain_ids synced) { chains_dirty = false }

  unfoldable pub sync_chains : ℕ → Coordinator → Coordinator
  unfolding resync_chains
  sync_chains now st = if st.chains_dirty then resync_chains now st else st
