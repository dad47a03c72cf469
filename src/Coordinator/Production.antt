-- ===== src/Coordinator/Production.antt =====
-- Outcomes and snapshots of `src/Bot/Economy/PlayerbotEconomyCoordinator.cpp`: RecordOutcome,
-- RecordProductionOutput, RecordProductionInventory and Snapshot.
use mod_playerbots_economy.Prelude.{
  ℕ, ◌+◌, ◌-◌, min, Bool, true, false, not, ◌&&◌, ◌||◌, List, [], ◌∷◌, ◌++◌, map, Option, none,
  some, Text, leb, if◌then◌else◌, ◌==◌, nat_eq,
}
use mod_playerbots_economy.Coordinator.Types.{
  EconomyClaimKind, EconomyAssignmentOutcome, EconomyWorkBlocker, EconomyAssignment,
  EconomyProductionOutput, EconomyDemandGap, EconomyBlockerCount, EconomyCoordinatorSnapshot,
}
use mod_playerbots_economy.Coordinator.Groups.{GapKey, find_at, put_at, or_else, claim_kind_eq}
use mod_playerbots_economy.Coordinator.State.{
  Gaps, GapTotals, GapBlockerCondition, Coordinator, locked, calculate_gaps, bounded_quantity,
  remaining_demand, advance,
}
use mod_playerbots_economy.Coordinator.Outcome.{is_leased, apply_outcome, expire_locked}
use mod_playerbots_economy.Coordinator.Excess.{Place}
use mod_playerbots_economy.Coordinator.Capability.{begin_work, sync_and_reconcile}
use mod_playerbots_economy.Coordinator.Request.{blocker_code}

-- The first claim with a lease identity, and the claims around it.
unfoldable pub place_of : ℕ → List EconomyAssignment → List EconomyAssignment → Option Place
place_of lease_id before [] = none
place_of lease_id before (c ∷ cs) =
    if c.lease_id == lease_id
    then some (record { before = before; claim = c; after = cs })
    else place_of lease_id (before ++ c ∷ []) cs

abbrev pub no_output : EconomyProductionOutput
no_output = record {
  recorded = false;
  completed = false;
  produced_quantity = 0;
  committed_quantity = 0;
}

abbrev pub is_open_production : EconomyAssignment → Bool
is_open_production c = c.kind == EconomyClaimKind.production && is_leased c

unfoldable pub committed_with : EconomyAssignment → ℕ → ℕ
unfolding bounded_quantity
committed_with c produced = bounded_quantity (min c.quantity (c.committed_quantity + produced))

module _ (draw : ℕ → ℕ → Text) where
  -- How the methods that record something end, after an expiry or a change.
  unfoldable pub end_record : Bool → Bool → ℕ → Coordinator → Coordinator
  unfolding sync_and_reconcile advance
  end_record expired changed now st =
      let synced = if expired || changed then sync_and_reconcile draw now st else st in
      if changed then advance synced else synced

  unfoldable pub record_at :
      Place → EconomyAssignmentOutcome → ℕ → Bool → ℕ → Coordinator → Coordinator
  unfolding apply_outcome end_record
  record_at p outcome committed expired now st =
      let (done, changed) = apply_outcome p.before p.claim p.after outcome committed now st in
      end_record expired changed now done

  unfoldable pub record_outcome :
      ℕ → EconomyAssignmentOutcome → ℕ → ℕ → Coordinator → Coordinator × Bool
  unfolding locked expire_locked place_of record_at end_record
  record_outcome lease_id outcome committed now st =
      let (live, expired) = expire_locked now true (locked st) in
      elim (place_of lease_id [] live.claims) [
        | none ↦ (end_record expired false now live, false)
        | some p ↦
            if is_leased p.claim
            then (record_at p outcome committed expired now live, true)
            else (end_record expired false now live, false)
      ]

  unfoldable pub record_output_at :
      Place → ℕ → Bool → ℕ → Coordinator → Coordinator × EconomyProductionOutput
  unfolding committed_with record_at
  record_output_at p produced expired now st =
      let committed = committed_with p.claim produced in
      let is_completed = leb p.claim.quantity committed in
      let outcome =
        if is_completed
        then EconomyAssignmentOutcome.completed
        else EconomyAssignmentOutcome.committed in
      (
        record_at p outcome committed expired now st,
        record {
          recorded = true;
          completed = is_completed;
          produced_quantity = produced;
          committed_quantity = committed;
        },
      )

  unfoldable pub record_production_output :
      ℕ → ℕ → ℕ → Coordinator → Coordinator × EconomyProductionOutput
  unfolding locked expire_locked place_of record_output_at end_record
  record_production_output lease_id produced now st =
      let (live, expired) = expire_locked now true (locked st) in
      elim (place_of lease_id [] live.claims) [
        | none ↦ (end_record expired false now live, no_output)
        | some p ↦
            if not (produced == 0) && is_open_production p.claim
            then record_output_at p produced expired now live
            else (end_record expired false now live, no_output)
      ]

  unfoldable pub record_production_inventory :
      ℕ → ℕ → ℕ → ℕ → Coordinator → Coordinator × EconomyProductionOutput
  unfolding record_production_output
  record_production_inventory lease_id starting current now st =
      if leb current starting
      then (st, no_output)
      else record_production_output lease_id (current - starting) now st

unfoldable pub gap_of : GapKey → GapTotals → EconomyDemandGap
unfolding bounded_quantity remaining_demand
gap_of key t = record {
  market_id = key.0;
  group = key.1;
  demand_quantity = bounded_quantity t.demand;
  supply_quantity = bounded_quantity t.supply;
  claimed_quantity = bounded_quantity t.claimed;
  remaining_quantity = bounded_quantity (remaining_demand (some t));
}

unfoldable pub demand_gaps : Gaps → List EconomyDemandGap
unfolding gap_of
demand_gaps [] = []
demand_gaps ((key, t) ∷ gaps) =
    let rest = demand_gaps gaps in if t.demand == 0 then rest else gap_of key t ∷ rest

unfoldable pub count_blockers :
    List (GapKey × GapBlockerCondition)
    → List (EconomyWorkBlocker × ℕ)
    → List (EconomyWorkBlocker × ℕ)
unfolding blocker_code
count_blockers [] counts = counts
count_blockers ((key, c) ∷ conditions) counts =
    let code = λ (b : EconomyWorkBlocker). blocker_code b ∷ [] in
    count_blockers conditions
      (put_at code c.blocker (or_else (find_at code c.blocker counts) 0 + 1) counts)

abbrev blocker_counts : List (EconomyWorkBlocker × ℕ) → List EconomyBlockerCount
blocker_counts [] = []
blocker_counts ((blocker, count) ∷ counts) =
    record { blocker = blocker; count = count } ∷ blocker_counts counts

-- The result of Snapshot over a state whose totals are calculated.
unfoldable pub snapshot_of : Coordinator → EconomyCoordinatorSnapshot
unfolding demand_gaps count_blockers
snapshot_of st = record {
  generation = st.generation;
  actors = map (λ a. a.1) st.actors;
  gaps = demand_gaps st.cached_gaps;
  claims = st.claims;
  blockers = blocker_counts (count_blockers st.gap_blockers []);
  capability_blockers = map (λ b. b.1) st.capability_blockers;
  chains = st.chains;
}

module _ (draw : ℕ → ℕ → Text) where
  unfoldable pub snapshot : ℕ → Coordinator → Coordinator × EconomyCoordinatorSnapshot
  unfolding begin_work calculate_gaps snapshot_of
  snapshot now st =
      let counted = calculate_gaps (begin_work draw now st) in (counted, snapshot_of counted)
