-- ===== src/Coordinator/Moves/Facts.antt =====
-- How the reports of actors and markets move the claims.
use mod_playerbots_economy.Prelude.{
  ℕ, ◌==◌, ◌-◌, ◌≡◌, ◌<◌, ◌^◌, refl, ap, sym, ◌∙◌, Bool, true, false, not, ◌||◌, List, [], ◌∷◌,
  Option, none, some, Text, min, length, is_some, is_empty, if◌then◌else◌, if_elim, if_split,
  bool_elim, option_elim, nat_eq, arith, All-cons, or_false, nat_beq_iff,
}
use mod_playerbots_economy.Coordinator.Types.{
  EconomyActorFacts, EconomyMarketFacts, EconomyDemandFact, EconomyAssignment,
  EconomyAssignmentOutcome,
}
use mod_playerbots_economy.Coordinator.Groups.{
  identity_tuple, find_at, put_at, erase_at, or_else, number_code,
}
use mod_playerbots_economy.Coordinator.State.{Credits, Coordinator, locked, invalidate_gap_cache}
use mod_playerbots_economy.Coordinator.Chains.{sync_chains}
use mod_playerbots_economy.Coordinator.Outcome.{is_of_actor, expire_locked, invalidate_actor_locked}
use mod_playerbots_economy.Coordinator.Excess.{release_excess_claims}
use mod_playerbots_economy.Coordinator.Capability.{reconcile_capability_blockers}
use mod_playerbots_economy.Coordinator.Facts.{
  is_bridged, reported_supply, consume_bridges, is_invalidated, is_new_or_changed,
  invalidate_if_changed, refresh_known_actor, refresh_actor, place_market, refresh_market,
  published_demand, published_supply, credit_inputs, end_uncredited, credit_actor,
  record_consumed_inputs, invalidate_actor, expire, is_autonomous_online,
}
use mod_playerbots_economy.Coordinator.Credits.{erase_at-Alike, put_at-Alike, credited_nothing}
use mod_playerbots_economy.Coordinator.Moves.{
  core, IsOrderly, Orderly, Moves, Moves-refl, Moves-Orderly, still, edits, rereads, joins,
}
use mod_playerbots_economy.Coordinator.Moves.Chains.{sync_chains-Moves}
use mod_playerbots_economy.Coordinator.Moves.Claims.{expire_locked-Moves, settle_where-Moves}
use mod_playerbots_economy.Coordinator.Moves.Excess.{release_excess_claims-Moves}
use mod_playerbots_economy.Coordinator.Moves.Work.{
  advance-Moves, reconcile-Moves, sync_and_reconcile-Moves,
}

pub locked-Moves : (st : Coordinator) → Moves st (locked st)
unfolding locked
locked-Moves st = still refl

invalidate_actor_locked-Moves :
    (guid : ℕ) (outcome : EconomyAssignmentOutcome) (now : ℕ) (st : Coordinator)
    → Moves st (invalidate_actor_locked guid outcome now st).0
unfolding invalidate_actor_locked
invalidate_actor_locked-Moves guid outcome now st =
    settle_where-Moves (is_of_actor guid) outcome now [] st.claims st refl

invalidate_if_changed-Moves :
    (existing : Option EconomyActorFacts) (facts : EconomyActorFacts) (now : ℕ) (st : Coordinator)
    → Moves st (invalidate_if_changed existing facts now st)
unfolding invalidate_if_changed
invalidate_if_changed-Moves none facts now st = Moves-refl st
invalidate_if_changed-Moves (some old) facts now st =
    if_elim (Moves st) (is_invalidated old facts)
      (invalidate_actor_locked-Moves facts.character_guid EconomyAssignmentOutcome.capability_lost
        now st)
      (Moves-refl st)

consumed-IsOrderly :
    (c : EconomyAssignment) (n : ℕ)
    → IsOrderly c
    → IsOrderly (record c { bridged_quantity = c.bridged_quantity - n })
consumed-IsOrderly c n h = record {
  positive = h.positive;
  small = h.small;
  within = h.within;
  bridged = omega (arith, h.bridged);
  unbridged = λ e. omega (arith, h.unbridged e);
}

consume_bridges-Orderly :
    (facts : EconomyActorFacts) (sums : Credits) (cs : List EconomyAssignment)
    → Orderly cs
    → Orderly (consume_bridges facts sums cs).0
unfolding consume_bridges
consume_bridges-Orderly facts sums [] o = tt
consume_bridges-Orderly facts sums (c ∷ cs) o =
    let available : ℕ = or_else (find_at identity_tuple c.group sums) 0 in
    let consumed : ℕ = min c.bridged_quantity available in
    let left : Credits = put_at identity_tuple c.group (available - consumed) sums in
    let hit : List EconomyAssignment × Bool = consume_bridges facts left cs in
    let miss : List EconomyAssignment × Bool = consume_bridges facts sums cs in
    let d : EconomyAssignment = record c { bridged_quantity = c.bridged_quantity - consumed } in
    bool_elim (λ (r : List EconomyAssignment × Bool). Orderly r.0) (is_bridged facts c)
      {x = (d ∷ hit.0, not (consumed == 0) || hit.1)} {y = (c ∷ miss.0, miss.1)}
      (All-cons IsOrderly hit.0 (consumed-IsOrderly c consumed o.0)
        (consume_bridges-Orderly facts left cs o.1))
      (All-cons IsOrderly miss.0 o.0 (consume_bridges-Orderly facts sums cs o.1))

consume_bridges_unchanged :
    (facts : EconomyActorFacts) (sums : Credits) (cs : List EconomyAssignment)
    → (consume_bridges facts sums cs).1 ≡ false
    → (consume_bridges facts sums cs).0 ≡ cs
unfolding consume_bridges
consume_bridges_unchanged facts sums [] e = refl
consume_bridges_unchanged facts sums (c ∷ cs) e =
    let available : ℕ = or_else (find_at identity_tuple c.group sums) 0 in
    let consumed : ℕ = min c.bridged_quantity available in
    let left : Credits = put_at identity_tuple c.group (available - consumed) sums in
    let hit : List EconomyAssignment × Bool = consume_bridges facts left cs in
    let miss : List EconomyAssignment × Bool = consume_bridges facts sums cs in
    let d : EconomyAssignment = record c { bridged_quantity = c.bridged_quantity - consumed } in
    bool_elim (λ (r : List EconomyAssignment × Bool). r.1 ≡ false → r.0 ≡ c ∷ cs)
      (is_bridged facts c) {x = (d ∷ hit.0, not (consumed == 0) || hit.1)}
      {y = (c ∷ miss.0, miss.1)}
      (λ t.
        let none_of = or_false (not (consumed == 0)) hit.1 t in
        untouched c consumed hit.0 (nothing consumed none_of.0)
          (consume_bridges_unchanged facts left cs none_of.1))
      (λ t. ap (λ ds. c ∷ ds) (consume_bridges_unchanged facts sums cs t)) e
  where
    nothing : (n : ℕ) → not (n == 0) ≡ false → n ≡ 0
    nothing n h = ground arith

    less_nothing : (m n : ℕ) → n ≡ 0 → m - n ≡ m
    less_nothing m n z = omega (arith, z)

    untouched :
        (c : EconomyAssignment) (n : ℕ) (ds : List EconomyAssignment)
        → n ≡ 0
        → ds ≡ cs
        → record c { bridged_quantity = c.bridged_quantity - n } ∷ ds ≡ c ∷ cs
    untouched c n ds z h =
        ap (λ m. record c { bridged_quantity = m } ∷ ds) (less_nothing c.bridged_quantity n z)
        ∙ ap (λ es. c ∷ es) h

module _ (draw : ℕ → ℕ → Text) where
  end_uncredited-Moves :
      (expired : Bool) (now : ℕ) (st : Coordinator) → Moves st (end_uncredited draw expired now st)
  unfolding end_uncredited
  end_uncredited-Moves expired now st =
      if_elim (Moves st) expired (joins (sync_and_reconcile-Moves draw now st) (advance-Moves _))
        (Moves-refl st)

  place_market-Moves :
      (facts : EconomyMarketFacts) (now : ℕ) (st : Coordinator)
      → Moves st (place_market draw facts now st)
  unfolding place_market invalidate_gap_cache
  place_market-Moves facts now st =
      let placed : Coordinator = record st {
        markets = put_at number_code facts.market_id facts st.markets;
      } in
      joins (edits {t = invalidate_gap_cache placed} refl (λ o. o)) (
        joins (release_excess_claims-Moves now _)
          (joins (sync_and_reconcile-Moves draw now _) (advance-Moves _)))

  pub refresh_market-Moves :
      (facts : EconomyMarketFacts) (now : ℕ) (st : Coordinator)
      → Moves st (refresh_market draw facts now st)
  unfolding refresh_market
  refresh_market-Moves facts now st =
      let live : Coordinator × Bool = expire_locked now true (locked st) in
      let arrives = joins (locked-Moves st) (expire_locked-Moves now true (locked st)) in
      if_elim (Moves st) (facts.market_id == 0) (locked-Moves st) (
        if_elim (Moves st) _
          (if_elim (Moves st) live.1 (joins arrives (sync_and_reconcile-Moves draw now live.0))
            arrives)
          (joins arrives (place_market-Moves facts now live.0)))

  pub expire-Moves : (now : ℕ) (st : Coordinator) → Moves st (expire draw now st)
  unfolding expire
  expire-Moves now st =
      let live : Coordinator × Bool = expire_locked now true (locked st) in
      let arrives = joins (locked-Moves st) (expire_locked-Moves now true (locked st)) in
      if_elim (Moves st) live.1 (joins arrives (sync_and_reconcile-Moves draw now live.0)) arrives

  credit_actor-Moves :
      (actor : EconomyActorFacts) (guid : ℕ) (inputs : List EconomyDemandFact) (expired : Bool)
      (now : ℕ) (st : Coordinator)
      → length inputs < 2 ^ 32
      → Moves st (credit_actor draw actor guid inputs expired now st).0
  unfolding credit_actor invalidate_gap_cache
  credit_actor-Moves actor guid inputs expired now st l =
      let own : Credits = or_else (find_at number_code guid st.consumed_input_credits) [] in
      let demand : Credits = published_demand actor.demands [] in
      let supply : Credits = published_supply actor.supplies [] in
      let r : Credits × ℕ = credit_inputs demand supply (published_demand inputs []) own 0 in
      let stored : Coordinator = record st {
        consumed_input_credits = put_at number_code guid r.0 st.consumed_input_credits;
      } in
      let dropped : Coordinator = record st {
        consumed_input_credits = erase_at number_code guid st.consumed_input_credits;
      } in
      if_split (λ (x : Coordinator × ℕ). Moves st x.0) (r.1 == 0)
        (λ z.
          let same : r.0 ≡ own =
            credited_nothing demand supply own inputs l ((nat_beq_iff r.1 0).0 z) in
          joins
            (if_split (Moves st) (is_empty r.0) {x = dropped} {y = stored}
              (λ t.
                rereads refl
                  (erase_at-Alike st.consumed_input_credits guid (sym same ∙ empty r.0 t)))
              (λ t. rereads refl (put_at-Alike st.consumed_input_credits guid r.0 (sym same))))
            (end_uncredited-Moves expired now _))
        (λ z.
          joins (edits {t = invalidate_gap_cache stored} refl (λ o. o))
            (joins (sync_and_reconcile-Moves draw now _) (advance-Moves _)))
    where
      empty : (xs : Credits) → is_empty xs ≡ true → xs ≡ []
      empty [] t = refl
      empty (x ∷ xs) t = cc

  pub record_consumed_inputs-Moves :
      (guid : ℕ) (inputs : List EconomyDemandFact) (now : ℕ) (st : Coordinator)
      → length inputs < 2 ^ 32
      → Moves st (record_consumed_inputs draw guid inputs now st).0
  unfolding record_consumed_inputs
  record_consumed_inputs-Moves guid inputs now st l =
      let live : Coordinator × Bool = expire_locked now false (locked st) in
      let arrives = joins (locked-Moves st) (expire_locked-Moves now false (locked st)) in
      let moved = λ (r : Coordinator × ℕ). Moves st r.0 in
      let ended = joins arrives (end_uncredited-Moves live.1 now live.0) in
      option_elim moved (find_at number_code guid live.0.actors) ended (λ actor.
        if_elim moved (is_autonomous_online actor)
          (joins arrives (credit_actor-Moves actor guid inputs live.1 now live.0 l)) ended)

  -- The credits of an actor that has none are dropped without a trace.
  uncredited-Moves :
      (guid : ℕ) (st : Coordinator)
      → is_some (find_at number_code guid st.consumed_input_credits) ≡ false
      → Moves st (record st {
        consumed_input_credits = erase_at number_code guid st.consumed_input_credits;
      })
  uncredited-Moves guid st e =
      rereads refl (erase_at-Alike st.consumed_input_credits guid (absent _ e))
    where
      absent : (o : Option Credits) → is_some o ≡ false → or_else o [] ≡ []
      absent none t = refl
      absent (some x) t = cc

  pub invalidate_actor-Moves :
      (guid : ℕ) (outcome : EconomyAssignmentOutcome) (now : ℕ) (st : Coordinator)
      → Moves st (invalidate_actor draw guid outcome now st)
  unfolding invalidate_actor locked invalidate_gap_cache
  invalidate_actor-Moves guid outcome now st =
      let had : Bool = is_some (find_at number_code guid st.consumed_input_credits) in
      let uncredited : Coordinator = record (locked st) {
        consumed_input_credits = erase_at number_code guid st.consumed_input_credits;
      } in
      let settled : Coordinator × Bool = invalidate_actor_locked guid outcome now uncredited in
      let settles : Moves uncredited settled.0 =
        invalidate_actor_locked-Moves guid outcome now uncredited in
      let arrives : had ≡ false → Moves st settled.0 =
        λ e. joins (locked-Moves st) (joins (uncredited-Moves guid (locked st) e) settles) in
      if_split (Moves st) (had || settled.1)
        (λ t.
          joins
            (if_split (Moves st) had
              (λ e. edits {t = invalidate_gap_cache settled.0} refl (Moves-Orderly settles))
              arrives)
            (joins (sync_and_reconcile-Moves draw now _) (advance-Moves _)))
        (λ f. arrives (or_false had settled.1 f).0)

  refresh_known_actor-Moves :
      (facts : EconomyActorFacts) (now : ℕ) (st : Coordinator)
      → Moves st (refresh_known_actor draw facts now st)
  unfolding refresh_known_actor invalidate_gap_cache
  refresh_known_actor-Moves facts now st =
      let guid : ℕ = facts.character_guid in
      let had : Bool = is_some (find_at number_code guid st.consumed_input_credits) in
      let existing : Option EconomyActorFacts = find_at number_code guid st.actors in
      let uncredited : Coordinator = record st {
        consumed_input_credits = erase_at number_code guid st.consumed_input_credits;
      } in
      let checked : Coordinator = invalidate_if_changed existing facts now uncredited in
      let live : Coordinator × Bool = expire_locked now false checked in
      let arrives : Moves uncredited live.0 =
        joins (invalidate_if_changed-Moves existing facts now uncredited)
          (expire_locked-Moves now false checked) in
      let r : List EconomyAssignment × Bool =
        consume_bridges facts (reported_supply facts.supplies []) live.0.claims in
      let is_changed : Bool = is_new_or_changed existing facts in
      let actors : List (ℕ × EconomyActorFacts) =
        if is_changed then put_at number_code guid facts live.0.actors else live.0.actors in
      let placed : Coordinator = record (live.0) { claims = r.0; actors = actors } in
      let is_touched : Bool = is_changed || r.1 || had in
      let marked : Coordinator = if is_touched then invalidate_gap_cache placed else placed in
      let trimmed : Coordinator =
        if marked.gap_cache_dirty then release_excess_claims now marked else marked in
      let synced : Coordinator = sync_chains draw now trimmed in
      let reconciled : Coordinator =
        if marked.gap_cache_dirty then reconcile_capability_blockers synced else synced in
      let marks : Moves st marked =
        if_split (Moves st) is_touched
          (λ t. edits {t = invalidate_gap_cache placed} refl (λ o.
            consume_bridges-Orderly facts (reported_supply facts.supplies []) live.0.claims
              (Moves-Orderly arrives o)))
          (λ f.
            let calm = or_false (is_changed || r.1) had f in
            let quiet = or_false is_changed r.1 calm.0 in
            joins (uncredited-Moves guid st calm.1) (
              joins arrives (
                still {t = placed} (
                  placed-core live.0 r.0 actors
                    (consume_bridges_unchanged facts _ live.0.claims quiet.1)
                    (kept is_changed quiet.0 (put_at number_code guid facts live.0.actors)
                      live.0.actors))))) in
      joins marks (
        joins
          (if_elim (Moves marked) marked.gap_cache_dirty (release_excess_claims-Moves now marked)
            (Moves-refl marked))
          (joins (sync_chains-Moves draw now trimmed) (
            joins
              (if_elim (Moves synced) marked.gap_cache_dirty (reconcile-Moves synced)
                (Moves-refl synced))
              (if_elim (Moves reconciled) (is_touched || live.1) (advance-Moves reconciled)
                (Moves-refl reconciled)))))
    where
      kept :
          (b : Bool)
          → b ≡ false
          → (xs ys : List (ℕ × EconomyActorFacts)) → (if b then xs else ys) ≡ ys
      kept b e xs ys = simp e

      placed-core :
          (s : Coordinator) (claims : List EconomyAssignment)
          (actors : List (ℕ × EconomyActorFacts))
          → claims ≡ s.claims
          → actors ≡ s.actors
          → core (record s { claims = claims; actors = actors }) ≡ core s
      placed-core s claims actors e f =
          ap (λ x. core (record s { claims = x; actors = actors })) e
          ∙ ap (λ x. core (record s { actors = x })) f

  pub refresh_actor-Moves :
      (facts : EconomyActorFacts) (now : ℕ) (st : Coordinator)
      → Moves st (refresh_actor draw facts now st)
  unfolding refresh_actor
  refresh_actor-Moves facts now st =
      if_elim (Moves st) (facts.character_guid == 0) (locked-Moves st)
        (joins (locked-Moves st) (refresh_known_actor-Moves facts now (locked st)))
