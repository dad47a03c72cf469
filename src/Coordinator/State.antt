-- ===== src/Coordinator/State.antt =====
-- The state of PlayerbotEconomyCoordinator, and CalculateGapsLocked with its cache.
use mod_playerbots_economy.Prelude.{
  ℕ, ◌+◌, ◌-◌, ◌%◌, ◌^◌, min, Bool, true, false, not, ◌&&◌, ◌||◌, List, [], ◌∷◌, ◌++◌, Option, none,
  some, Text, ltb, if◌then◌else◌, ◌==◌, nat_eq,
}
use mod_playerbots_economy.Coordinator.Types.{
  EconomySubstitutionGroup, EconomyDemandFact, EconomySupplyFact, EconomyActorFacts,
  EconomyMarketFacts, EconomyClaimKind.purchase, EconomyClaimPriority.speculation,
  EconomyClaimState.leased, EconomyClaimState.released, EconomyAssignment, EconomyWorkBlocker,
  EconomyCapabilityBlocker, EconomyChain, EconomyCoordinatorWorkStats,
}
use mod_playerbots_economy.Coordinator.Groups.{
  GapKey, identity_tuple, gap_code, find_at, put_at, or_else, number_code, claim_kind_eq,
  claim_priority_eq, claim_state_eq,
}

abbrev pub u64 : ℕ → ℕ
u64 n = n % 2 ^ 64

abbrev pub u32 : ℕ → ℕ
u32 n = n % 2 ^ 32

-- Differences of 64-bit and of 32-bit numbers.
abbrev pub sub64 : ℕ → ℕ → ℕ
sub64 a b = u64 (a + 2 ^ 64 - b)

abbrev pub sub32 : ℕ → ℕ → ℕ
sub32 a b = u32 (a + 2 ^ 32 - b)

unfoldable pub bounded_quantity : ℕ → ℕ
bounded_quantity quantity = min quantity (2 ^ 32 - 1)

pub record GapTotals : Type 0 where
  pub demand : ℕ
  pub supply : ℕ
  pub claimed : ℕ
  pub non_auction_supply : ℕ
  pub auction_supply : ℕ
  pub purchase_claimed : ℕ
  pub speculation_claimed : ℕ

abbrev pub no_totals : GapTotals
no_totals = record {
  demand = 0;
  supply = 0;
  claimed = 0;
  non_auction_supply = 0;
  auction_supply = 0;
  purchase_claimed = 0;
  speculation_claimed = 0;
}

pub record GapBlockerCondition : Type 0 where
  pub blocker : EconomyWorkBlocker
  pub first_observed_at : ℕ

abbrev pub Gaps : Type 0
Gaps = List (GapKey × GapTotals)

abbrev pub Credits : Type 0
Credits = List (EconomySubstitutionGroup × ℕ)

pub record Coordinator : Type 0 where
  pub actors : List (ℕ × EconomyActorFacts)
  pub markets : List (ℕ × EconomyMarketFacts)
  pub consumed_input_credits : List (ℕ × Credits)
  pub claims : List EconomyAssignment
  pub capability_blockers : List (GapKey × EconomyCapabilityBlocker)
  pub chains : List EconomyChain
  pub active_chain_ids : List (GapKey × Text)
  pub gap_blockers : List (GapKey × GapBlockerCondition)
  pub cached_gaps : Gaps
  pub cached_consumers : List (GapKey × List ℕ)
  pub gap_cache_dirty : Bool
  pub chains_dirty : Bool
  pub work_stats : EconomyCoordinatorWorkStats
  pub next_lease_id : ℕ
  pub next_chain_sequence : ℕ
  pub generation : ℕ

-- The default member initializers.
unfoldable pub new_coordinator : Coordinator
new_coordinator = record {
  actors = [];
  markets = [];
  consumed_input_credits = [];
  claims = [];
  capability_blockers = [];
  chains = [];
  active_chain_ids = [];
  gap_blockers = [];
  cached_gaps = [];
  cached_consumers = [];
  gap_cache_dirty = true;
  chains_dirty = true;
  work_stats = record {
    lock_acquisitions = 0;
    gap_rebuilds = 0;
    chain_sync_executions = 0;
    capability_reconciliations = 0;
  };
  next_lease_id = 1;
  next_chain_sequence = 1;
  generation = 0;
}

-- Each public method takes the mutex once.
unfoldable pub locked : Coordinator → Coordinator
locked st = record st {
  work_stats = record (st.work_stats) {
    lock_acquisitions = u64 (st.work_stats.lock_acquisitions + 1);
  };
}

unfoldable pub advance : Coordinator → Coordinator
advance st = record st { generation = u64 (st.generation + 1) }

unfoldable pub invalidate_gap_cache : Coordinator → Coordinator
invalidate_gap_cache st = record st { gap_cache_dirty = true; chains_dirty = true }

-- A change of the totals at a key, which are 0 when there are none.
unfoldable pub add_totals : GapKey → (GapTotals → GapTotals) → Gaps → Gaps
unfolding gap_code
add_totals key change gaps =
    put_at gap_code key (change (or_else (find_at gap_code key gaps) no_totals)) gaps

abbrev pub more_demand : ℕ → GapTotals → GapTotals
more_demand n t = record t { demand = u64 (t.demand + n) }

abbrev pub more_own_supply : ℕ → GapTotals → GapTotals
more_own_supply n t = record t {
  supply = u64 (t.supply + n);
  non_auction_supply = u64 (t.non_auction_supply + n);
}

abbrev pub more_auction_supply : ℕ → GapTotals → GapTotals
more_auction_supply n t = record t {
  supply = u64 (t.supply + n);
  auction_supply = u64 (t.auction_supply + n);
}

-- The loop over the demands of one actor: the totals and the set consumerKeys.
unfoldable pub add_demands :
    ℕ
    → Credits
    → List EconomyDemandFact
    → Gaps
    → List (GapKey × Unit {0})
    → Gaps × List (GapKey × Unit {0})
unfolding add_totals
add_demands market credits [] gaps keys = (gaps, keys)
add_demands market credits (d ∷ ds) gaps keys =
    let credit = or_else (find_at identity_tuple d.group credits) 0 in
    let applied = min credit d.quantity in
    let remaining = d.quantity - applied in
    let key : GapKey = (market, d.group) in
    add_demands market (put_at identity_tuple d.group (credit - applied) credits) ds
      (add_totals key (more_demand remaining) gaps)
      (if remaining == 0 then keys else put_at gap_code key tt keys)

unfoldable pub add_consumers :
    ℕ → List (GapKey × Unit {0}) → List (GapKey × List ℕ) → List (GapKey × List ℕ)
add_consumers guid [] consumers = consumers
add_consumers guid ((key, u) ∷ keys) consumers =
    add_consumers guid keys
      (put_at gap_code key (or_else (find_at gap_code key consumers) [] ++ guid ∷ []) consumers)

unfoldable pub add_supplies : (ℕ → GapTotals → GapTotals) → ℕ → List EconomySupplyFact → Gaps → Gaps
unfolding add_totals
add_supplies more market [] gaps = gaps
add_supplies more market (s ∷ ss) gaps =
    add_supplies more market ss (add_totals (market, s.group) (more s.quantity) gaps)

-- One actor: demands when it is online and autonomous, supplies in any case.
unfoldable pub add_actor :
    List (ℕ × Credits)
    → ℕ
    → EconomyActorFacts
    → Gaps × List (GapKey × List ℕ)
    → Gaps × List (GapKey × List ℕ)
unfolding add_demands add_consumers add_supplies
add_actor credits guid actor (gaps, consumers) =
    let own = or_else (find_at number_code guid credits) [] in
    let (wanted, keys) = add_demands actor.market_id own actor.demands gaps [] in
    if actor.online && actor.autonomous
    then (
      add_supplies more_own_supply actor.market_id actor.supplies wanted,
      add_consumers guid keys consumers,
    )
    else (add_supplies more_own_supply actor.market_id actor.supplies gaps, consumers)

unfoldable pub add_actors :
    List (ℕ × Credits)
    → List (ℕ × EconomyActorFacts)
    → Gaps × List (GapKey × List ℕ)
    → Gaps × List (GapKey × List ℕ)
unfolding add_actor
add_actors credits [] r = r
add_actors credits ((guid, actor) ∷ actors) r =
    add_actors credits actors (add_actor credits guid actor r)

unfoldable pub add_markets : List (ℕ × EconomyMarketFacts) → Gaps → Gaps
unfolding add_supplies
add_markets [] gaps = gaps
add_markets ((market_id, market) ∷ markets) gaps =
    add_markets markets (add_supplies more_auction_supply market_id market.supplies gaps)

-- What one claim adds to the totals of its key.
unfoldable pub claim_totals : EconomyAssignment → GapTotals → GapTotals
claim_totals c t =
    if c.kind == purchase
    then if c.state == leased
      then if c.priority == speculation
        then record t { speculation_claimed = u64 (t.speculation_claimed + c.quantity) }
        else record t { purchase_claimed = u64 (t.purchase_claimed + c.quantity) }
      else t
    else if c.state == leased
    then record t {
      supply = u64 (t.supply + c.committed_quantity);
      claimed = u64 (t.claimed + sub32 c.quantity c.committed_quantity);
      non_auction_supply = u64 (t.non_auction_supply + c.quantity);
    }
    else if c.state == released && not (c.bridged_quantity == 0)
    then record t {
      supply = u64 (t.supply + c.bridged_quantity);
      non_auction_supply = u64 (t.non_auction_supply + c.bridged_quantity);
    }
    else t

abbrev pub is_personal : EconomyAssignment → Bool
is_personal c = c.personal_equipment_purchase || c.personal_sustenance_purchase

unfoldable pub add_claims : List EconomyAssignment → Gaps → Gaps
unfolding add_totals claim_totals
add_claims [] gaps = gaps
add_claims (c ∷ cs) gaps =
    add_claims cs
      (if is_personal c then gaps else add_totals (c.market_id, c.group) (claim_totals c) gaps)

-- The totals and the consumers that the facts and the claims have now.
unfoldable pub current_gaps : Coordinator → Gaps × List (GapKey × List ℕ)
unfolding add_actors add_markets add_claims
current_gaps st =
    let r = add_actors st.consumed_input_credits st.actors ([], []) in
    (add_claims st.claims (add_markets st.markets r.0), r.1)

unfoldable pub calculate_gaps : Coordinator → Coordinator
unfolding current_gaps
calculate_gaps st =
    let r = current_gaps st in
    if st.gap_cache_dirty
    then record st {
      work_stats = record (st.work_stats) { gap_rebuilds = u64 (st.work_stats.gap_rebuilds + 1) };
      cached_gaps = r.0;
      cached_consumers = r.1;
      gap_cache_dirty = false;
    }
    else st

-- `demand > supply + claimed` of an entry, if there is one.
unfoldable pub is_unmet : Option GapTotals → Bool
is_unmet none = false
is_unmet (some t) = ltb (u64 (t.supply + t.claimed)) t.demand

unfoldable pub remaining_demand : Option GapTotals → ℕ
unfolding is_unmet
remaining_demand none = 0
remaining_demand (some t) =
    if is_unmet (some t) then sub64 (sub64 t.demand t.supply) t.claimed else 0
