-- ===== src/Coordinator/Shown.antt =====
-- What Snapshot reports of the gaps.
use mod_playerbots_economy.Prelude.{
  ℕ, ◌+◌, ◌-◌, ◌≡◌, ◌<◌, ◌^◌, min, refl, List, [], ◌∷◌, Text, All, if_split, some, ◌==◌, nat_eq,
  arith,
}
use mod_playerbots_economy.Coordinator.Types.{EconomyDemandGap}
use mod_playerbots_economy.Coordinator.Groups.{GapKey}
use mod_playerbots_economy.Coordinator.State.{
  Gaps, GapTotals, Coordinator, current_gaps, bounded_quantity, remaining_demand, is_unmet,
}
use mod_playerbots_economy.Coordinator.Production.{demand_gaps, gap_of, snapshot}
use mod_playerbots_economy.Coordinator.Reach.{Reach}
use mod_playerbots_economy.Coordinator.Invariant.{Reach-gaps}

-- Totals whose sums do not wrap around.
pub record IsExact (t : GapTotals) : Type 0 where
  pub demand : t.demand < 2 ^ 64
  pub met : t.supply + t.claimed < 2 ^ 64

-- A quantity as a field of 32 bits shows it.
abbrev pub capped : ℕ → ℕ
capped n = min n (2 ^ 32 - 1)

-- A gap shows the totals of a key: what is wanted, what there is, what is claimed, and what neither
-- of these meets. The subtraction stops at 0.
pub record Shows (key : GapKey) (t : GapTotals) (g : EconomyDemandGap) : Type 0 where
  pub wanted : 0 < t.demand
  pub market : g.market_id ≡ key.0
  pub group : g.group ≡ key.1
  pub demand : g.demand_quantity ≡ capped t.demand
  pub supply : g.supply_quantity ≡ capped t.supply
  pub claimed : g.claimed_quantity ≡ capped t.claimed
  pub remaining : g.remaining_quantity ≡ capped (t.demand - (t.supply + t.claimed))

-- One gap for each entry of the totals that has demand, in their order.
pub data ShowsAll : Gaps → List EconomyDemandGap → Type 0 where
  shows_nothing : ShowsAll [] []
  leaves_out :
      {key : GapKey} {t : GapTotals} {gaps : Gaps} {shown : List EconomyDemandGap}
      → t.demand ≡ 0
      → ShowsAll gaps shown
      → ShowsAll ((key, t) ∷ gaps) shown
  shows :
      {key : GapKey} {t : GapTotals} {g : EconomyDemandGap} {gaps : Gaps}
      {shown : List EconomyDemandGap}
      → Shows key t g
      → ShowsAll gaps shown
      → ShowsAll ((key, t) ∷ gaps) (g ∷ shown)

remaining_demand-exact :
    (t : GapTotals) → IsExact t → remaining_demand (some t) ≡ t.demand - (t.supply + t.claimed)
unfolding remaining_demand is_unmet
remaining_demand-exact t h = ground (arith, h.demand, h.met)

gap_of-Shows :
    (key : GapKey) (t : GapTotals) → IsExact t → 0 < t.demand → Shows key t (gap_of key t)
unfolding gap_of bounded_quantity
gap_of-Shows key t h w = record {
  wanted = w;
  market = refl;
  group = refl;
  demand = refl;
  supply = refl;
  claimed = refl;
  remaining = rw (remaining_demand-exact t h) refl;
}

demand_gaps-ShowsAll :
    (gaps : Gaps)
    → All (λ (e : GapKey × GapTotals). IsExact e.1) gaps
    → ShowsAll gaps (demand_gaps gaps)
unfolding demand_gaps
demand_gaps-ShowsAll [] h = shows_nothing
demand_gaps-ShowsAll ((key, t) ∷ gaps) h =
    if_split (ShowsAll ((key, t) ∷ gaps)) (t.demand == 0)
      (λ e. leaves_out ((nat_eq.equals_iff _ _).0 e) (demand_gaps-ShowsAll gaps h.1))
      (λ e. shows (gap_of-Shows key t h.0 (ground arith)) (demand_gaps-ShowsAll gaps h.1))

module _ (draw : ℕ → ℕ → Text) where
  -- In every state that calls reach, a snapshot shows one gap for each key with demand in what the
  -- facts and the claims behind the snapshot add up to, in the order of the keys: its demand, its
  -- supply, what is claimed of it, and the demand that neither meets, each at most 2 ^ 32 - 1. The
  -- totals may not be so large that they wrap around.
  pub Reach-snapshot :
      {st : Coordinator} (now : ℕ)
      → Reach draw st
      → All (λ (e : GapKey × GapTotals). IsExact e.1) (current_gaps (snapshot draw now st).0).0
      → ShowsAll (current_gaps (snapshot draw now st).0).0 (snapshot draw now st).1.gaps
  Reach-snapshot {st} now r h =
      rw (Reach-gaps draw now r) (demand_gaps-ShowsAll (current_gaps (snapshot draw now st).0).0 h)
