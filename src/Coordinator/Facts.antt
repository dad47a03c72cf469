-- ===== src/Coordinator/Facts.antt =====
-- What actors and markets report: RefreshActor, RefreshMarket, RecordConsumedInputs,
-- InvalidateActor and Expire of `src/Bot/Economy/PlayerbotEconomyCoordinator.cpp`.
use mod_playerbots_economy.Prelude.{
  ℕ, ◌+◌, ◌-◌, min, Bool, true, false, not, ◌&&◌, ◌||◌, List, [], ◌∷◌, Option, none, some, Text,
  is_empty, is_some, ltb, leb, if◌then◌else◌, ◌==◌, nat_eq,
}
use mod_playerbots_economy.Coordinator.Types.{
  EconomySubstitutionGroup, EconomySupplySource, EconomyDemandFact, EconomySupplyFact,
  EconomyActorFacts, EconomyMarketFacts, EconomyClaimState.released, EconomyAssignmentOutcome,
  EconomyAssignment,
}
use mod_playerbots_economy.Coordinator.Groups.{
  identity_tuple, find_at, put_at, erase_at, or_else, number_code, same_actor, same_market,
  claim_state_eq,
}
use mod_playerbots_economy.Coordinator.State.{
  u64, Credits, Coordinator, locked, advance, invalidate_gap_cache, bounded_quantity,
}
use mod_playerbots_economy.Coordinator.Chains.{sync_chains}
use mod_playerbots_economy.Coordinator.Outcome.{expire_locked, invalidate_actor_locked}
use mod_playerbots_economy.Coordinator.Excess.{release_excess_claims}
use mod_playerbots_economy.Coordinator.Capability.{
  reconcile_capability_blockers, sync_and_reconcile,
}

abbrev pub is_held : EconomySupplyFact → Bool
is_held s = elim s.source [
  | EconomySupplySource.inventory ↦ true
  | EconomySupplySource.mail ↦ true
  | _ ↦ false
]

-- `sums[group] += quantity`.
unfoldable pub add_quantity : EconomySubstitutionGroup → ℕ → Credits → Credits
unfolding identity_tuple
add_quantity group quantity sums =
    put_at identity_tuple group (u64 (or_else (find_at identity_tuple group sums) 0 + quantity))
      sums

unfoldable pub reported_supply : List EconomySupplyFact → Credits → Credits
unfolding add_quantity
reported_supply [] sums = sums
reported_supply (s ∷ ss) sums =
    reported_supply ss (if is_held s then add_quantity s.group s.quantity sums else sums)

abbrev pub is_bridged : EconomyActorFacts → EconomyAssignment → Bool
is_bridged facts c =
    c.character_guid == facts.character_guid
    && c.market_id == facts.market_id
    && c.state == released
    && not (c.bridged_quantity == 0)

-- The reported goods are taken off the bridges of released claims, in the order of the claims.
unfoldable pub consume_bridges :
    EconomyActorFacts → Credits → List EconomyAssignment → List EconomyAssignment × Bool
unfolding identity_tuple
consume_bridges facts sums [] = ([], false)
consume_bridges facts sums (c ∷ cs) =
    let available = or_else (find_at identity_tuple c.group sums) 0 in
    let consumed = min c.bridged_quantity available in
    elim (is_bridged facts c) [
      | false ↦ let (rest, changed) = consume_bridges facts sums cs in (c ∷ rest, changed)
      | true ↦
          let (rest, changed) =
            consume_bridges facts (put_at identity_tuple c.group (available - consumed) sums) cs in
          (
            record c { bridged_quantity = c.bridged_quantity - consumed } ∷ rest,
            not (consumed == 0) || changed,
          )
    ]

-- What makes an actor's claims void.
unfoldable pub is_invalidated : EconomyActorFacts → EconomyActorFacts → Bool
is_invalidated old new =
    not (old.market_id == new.market_id)
    || (old.online && not new.online)
    || (old.autonomous && not new.autonomous)

unfoldable pub is_new_or_changed : Option EconomyActorFacts → EconomyActorFacts → Bool
unfolding same_actor
is_new_or_changed none facts = true
is_new_or_changed (some old) facts = not (same_actor old facts)

unfoldable pub invalidate_if_changed :
    Option EconomyActorFacts → EconomyActorFacts → ℕ → Coordinator → Coordinator
unfolding is_invalidated invalidate_actor_locked
invalidate_if_changed none facts now st = st
invalidate_if_changed (some old) facts now st =
    if is_invalidated old facts
    then (invalidate_actor_locked facts.character_guid EconomyAssignmentOutcome.capability_lost now
        st).0
    else st

module _ (draw : ℕ → ℕ → Text) where
  -- RefreshActor, for facts of an actor with a guid.
  unfoldable pub refresh_known_actor : EconomyActorFacts → ℕ → Coordinator → Coordinator
  unfolding locked invalidate_if_changed expire_locked reported_supply consume_bridges
      is_new_or_changed invalidate_gap_cache release_excess_claims sync_chains
      reconcile_capability_blockers advance
  refresh_known_actor facts now st =
      let guid = facts.character_guid in
      let had_credit = is_some (find_at number_code guid st.consumed_input_credits) in
      let existing = find_at number_code guid st.actors in
      let uncredited = record st {
        consumed_input_credits = erase_at number_code guid st.consumed_input_credits;
      } in
      let (live, expired) =
        expire_locked now false (invalidate_if_changed existing facts now uncredited) in
      let (bridged, bridge_changed) =
        consume_bridges facts (reported_supply facts.supplies []) live.claims in
      let is_changed = is_new_or_changed existing facts in
      let placed = record live {
        claims = bridged;
        actors = if is_changed then put_at number_code guid facts live.actors else live.actors;
      } in
      let is_touched = is_changed || bridge_changed || had_credit in
      let marked = if is_touched then invalidate_gap_cache placed else placed in
      let trimmed = if marked.gap_cache_dirty then release_excess_claims now marked else marked in
      let synced = sync_chains draw now trimmed in
      let reconciled =
        if marked.gap_cache_dirty then reconcile_capability_blockers synced else synced in
      if is_touched || expired then advance reconciled else reconciled

  unfoldable pub refresh_actor : EconomyActorFacts → ℕ → Coordinator → Coordinator
  unfolding locked refresh_known_actor
  refresh_actor facts now st =
      if facts.character_guid == 0 then locked st else refresh_known_actor facts now (locked st)

  unfoldable pub place_market : EconomyMarketFacts → ℕ → Coordinator → Coordinator
  unfolding invalidate_gap_cache release_excess_claims sync_and_reconcile advance
  place_market facts now st = advance (
      sync_and_reconcile draw now (
        release_excess_claims now (
          invalidate_gap_cache
            (record st { markets = put_at number_code facts.market_id facts st.markets }))))

  unfoldable pub is_known_market : EconomyMarketFacts → Option EconomyMarketFacts → Bool
  unfolding same_market
  is_known_market facts none = false
  is_known_market facts (some old) = same_market old facts

  unfoldable pub refresh_market : EconomyMarketFacts → ℕ → Coordinator → Coordinator
  unfolding locked expire_locked is_known_market sync_and_reconcile place_market
  refresh_market facts now st =
      let (live, expired) = expire_locked now true (locked st) in
      if facts.market_id == 0
      then locked st
      else if is_known_market facts (find_at number_code facts.market_id live.markets)
      then (if expired then sync_and_reconcile draw now live else live)
      else place_market facts now live

unfoldable pub published_demand : List EconomyDemandFact → Credits → Credits
unfolding add_quantity
published_demand [] sums = sums
published_demand (d ∷ ds) sums = published_demand ds (add_quantity d.group d.quantity sums)

unfoldable pub published_supply : List EconomySupplyFact → Credits → Credits
unfolding add_quantity
published_supply [] sums = sums
published_supply (s ∷ ss) sums = published_supply ss (add_quantity s.group s.quantity sums)

-- What the facts leave uncovered of a demand.
abbrev pub uncovered : EconomySubstitutionGroup → Credits → Credits → ℕ
uncovered group demand supply =
    let wanted = or_else (find_at identity_tuple group demand) 0 in
    let held = or_else (find_at identity_tuple group supply) 0 in
    if ltb held wanted then wanted - held else 0

-- The loop over the requested credits: the credits of the actor, and how much was credited.
unfoldable pub credit_inputs : Credits → Credits → Credits → Credits → ℕ → Credits × ℕ
unfolding identity_tuple bounded_quantity
credit_inputs demand supply [] credits credited = (credits, credited)
credit_inputs demand supply ((group, requested) ∷ requests) credits credited =
    let existing = or_else (find_at identity_tuple group credits) 0 in
    let bounded =
      bounded_quantity (min (uncovered group demand supply) (u64 (existing + requested))) in
    if leb bounded existing
    then credit_inputs demand supply requests credits credited
    else credit_inputs demand supply requests (put_at identity_tuple group bounded credits)
        (u64 (credited + (bounded - existing)))

abbrev pub is_autonomous_online : EconomyActorFacts → Bool
is_autonomous_online a = a.online && a.autonomous

module _ (draw : ℕ → ℕ → Text) where
  -- How RecordConsumedInputs ends when it credits nothing.
  unfoldable pub end_uncredited : Bool → ℕ → Coordinator → Coordinator
  unfolding sync_and_reconcile advance
  end_uncredited expired now st = if expired then advance (sync_and_reconcile draw now st) else st

  unfoldable pub credit_actor :
      EconomyActorFacts → ℕ → List EconomyDemandFact → Bool → ℕ → Coordinator → Coordinator × ℕ
  unfolding published_demand published_supply credit_inputs end_uncredited invalidate_gap_cache
      sync_and_reconcile advance bounded_quantity
  credit_actor actor guid inputs expired now st =
      let prior = or_else (find_at number_code guid st.consumed_input_credits) [] in
      let (credits, credited) =
        credit_inputs (published_demand actor.demands []) (published_supply actor.supplies [])
          (published_demand inputs []) prior 0 in
      let stored = record st {
        consumed_input_credits = put_at number_code guid credits st.consumed_input_credits;
      } in
      let dropped = record st {
        consumed_input_credits = erase_at number_code guid st.consumed_input_credits;
      } in
      if credited == 0
      then (end_uncredited expired now (if is_empty credits then dropped else stored), 0)
      else (
        advance (sync_and_reconcile draw now (invalidate_gap_cache stored)),
        bounded_quantity credited,
      )

  unfoldable pub record_consumed_inputs :
      ℕ → List EconomyDemandFact → ℕ → Coordinator → Coordinator × ℕ
  unfolding locked expire_locked credit_actor end_uncredited
  record_consumed_inputs guid inputs now st =
      let (live, expired) = expire_locked now false (locked st) in
      elim (find_at number_code guid live.actors) [
        | none ↦ (end_uncredited expired now live, 0)
        | some actor ↦
            if is_autonomous_online actor
            then credit_actor actor guid inputs expired now live
            else (end_uncredited expired now live, 0)
      ]

  unfoldable pub invalidate_actor : ℕ → EconomyAssignmentOutcome → ℕ → Coordinator → Coordinator
  unfolding locked invalidate_actor_locked invalidate_gap_cache sync_and_reconcile advance
  invalidate_actor guid outcome now st =
      let had_credit = is_some (find_at number_code guid st.consumed_input_credits) in
      let uncredited = record (locked st) {
        consumed_input_credits = erase_at number_code guid st.consumed_input_credits;
      } in
      let (settled, changed) = invalidate_actor_locked guid outcome now uncredited in
      if had_credit || changed
      then advance (
          sync_and_reconcile draw now
            (if had_credit then invalidate_gap_cache settled else settled))
      else settled

  unfoldable pub expire : ℕ → Coordinator → Coordinator
  unfolding locked expire_locked sync_and_reconcile
  expire now st =
      let (live, expired) = expire_locked now true (locked st) in
      if expired then sync_and_reconcile draw now live else live
