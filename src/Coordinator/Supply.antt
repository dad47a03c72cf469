-- ===== src/Coordinator/Supply.antt =====
-- What Lease offers of a gap.
use mod_playerbots_economy.Prelude.{
  ℕ, ◌+◌, not, ◌&&◌, ◌≡◌, ◌<◌, ◌^◌, refl, Bool, true, false, ◌||◌, Option, none, some,
  if◌then◌else◌, if_elim, ltb, leb, ◌==◌, nat_eq, min, arith,
}
use mod_playerbots_economy.Coordinator.Types.{
  EconomyAssignmentRequest, EconomyClaimKind.purchase, EconomyClaimPriority,
}
use mod_playerbots_economy.Coordinator.Groups.{
  GapKey, gap_code, find_at, or_else, claim_kind_eq, claim_priority_eq,
}
use mod_playerbots_economy.Coordinator.State.{
  GapTotals, no_totals, Coordinator, calculate_gaps, is_unmet, remaining_demand,
}
use mod_playerbots_economy.Coordinator.Outcome.{release_speculation}
use mod_playerbots_economy.Coordinator.Lease.{
  Offer, totals_at, speculative_supply, unclaimed_need, free_supply, free_without_speculation,
  offer_purchase, offer_work, offer_for,
}

-- Totals whose sums do not wrap around.
pub record IsModest (t : GapTotals) : Type 0 where
  pub demand : t.demand < 2 ^ 62
  pub supply : t.supply < 2 ^ 62
  pub claimed : t.claimed < 2 ^ 62
  pub auction : t.auction_supply < 2 ^ 62
  pub purchases : t.purchase_claimed < 2 ^ 62
  pub speculation : t.speculation_claimed < 2 ^ 62

-- Nothing is offered, or as much as is left of a total beside what is used.
abbrev pub fits : ℕ → ℕ → ℕ → Bool
fits offered used total = offered == 0 || leb (offered + used) total

speculative-fits :
    (t : GapTotals)
    → IsModest t
    → fits (speculative_supply t) t.purchase_claimed t.auction_supply ≡ true
speculative-fits t h = ground (arith, h.demand, h.auction, h.purchases, h.speculation)

free-fits :
    (t : GapTotals) (n : ℕ)
    → IsModest t
    → fits (min n (free_supply t)) t.purchase_claimed t.auction_supply ≡ true
free-fits t n h = ground (arith, h.auction, h.purchases, h.speculation)

unspeculative-fits :
    (t : GapTotals) (n : ℕ)
    → fits (min n (free_without_speculation t)) t.purchase_claimed t.auction_supply ≡ true
unspeculative-fits t n = ground arith

remaining-fits :
    (o : Option GapTotals)
    → IsModest (or_else o no_totals)
    → fits
        (remaining_demand o)
        ((or_else o no_totals).supply + (or_else o no_totals).claimed)
        (or_else o no_totals).demand
      ≡ true
unfolding remaining_demand is_unmet
remaining-fits none h = refl
remaining-fits (some t) h = ground (arith, h.demand, h.supply, h.claimed)

abbrev pub offered_totals : EconomyAssignmentRequest → Offer → GapTotals
offered_totals r o = totals_at (r.market_id, r.group) o.state

-- A purchase is offered what purchases have left of the auctions, other work what supply and
-- claims have left of the demand.
abbrev pub offer_fits : Bool → EconomyAssignmentRequest → Offer → Bool
offer_fits is_purchase r o =
    let t = offered_totals r o in
    if is_purchase
    then fits o.available t.purchase_claimed t.auction_supply
    else fits o.available (t.supply + t.claimed) t.demand

offer_purchase-fits :
    (r : EconomyAssignmentRequest) (now : ℕ) (st : Coordinator)
    → IsModest (offered_totals r (offer_purchase r now st))
    → fits
        (offer_purchase r now st).available
        (offered_totals r (offer_purchase r now st)).purchase_claimed
        (offered_totals r (offer_purchase r now st)).auction_supply
      ≡ true
unfolding offer_purchase
offer_purchase-fits r now st =
    let key : GapKey = (r.market_id, r.group) in
    let counted : Coordinator = calculate_gaps st in
    let recounted : Coordinator = calculate_gaps (release_speculation key now counted).0 in
    let t : GapTotals = totals_at key counted in
    let good = λ (o : Offer).
      IsModest (offered_totals r o)
      → fits o.available (offered_totals r o).purchase_claimed (offered_totals r o).auction_supply
        ≡ true in
    if_elim good (r.priority == EconomyClaimPriority.speculation) (speculative-fits t) (
      if_elim good (ltb (free_supply t) (unclaimed_need t) && not (t.speculation_claimed == 0))
        (λ h. unspeculative-fits (totals_at key recounted) (unclaimed_need t))
        (free-fits t (unclaimed_need t)))

offer_work-fits :
    (r : EconomyAssignmentRequest) (now : ℕ) (st : Coordinator)
    → IsModest (offered_totals r (offer_work r now st))
    → fits
        (offer_work r now st).available
        ((offered_totals r (offer_work r now st)).supply
          + (offered_totals r (offer_work r now st)).claimed)
        (offered_totals r (offer_work r now st)).demand
      ≡ true
unfolding offer_work totals_at
offer_work-fits r now st =
    let key : GapKey = (r.market_id, r.group) in
    let counted : Coordinator = calculate_gaps st in
    let recounted : Coordinator = calculate_gaps (release_speculation key now counted).0 in
    let remaining : ℕ = remaining_demand (find_at gap_code key counted.cached_gaps) in
    let good = λ (o : Offer).
      IsModest (offered_totals r o)
      → fits o.available ((offered_totals r o).supply + (offered_totals r o).claimed)
          (offered_totals r o).demand
        ≡ true in
    if_elim good (remaining == 0 && not (r.priority == EconomyClaimPriority.speculation))
      (remaining-fits (find_at gap_code key recounted.cached_gaps))
      (remaining-fits (find_at gap_code key counted.cached_gaps))

choice-fits :
    (r : EconomyAssignmentRequest) (b : Bool) (p w : Offer)
    → (IsModest (offered_totals r p)
        → fits p.available (offered_totals r p).purchase_claimed (offered_totals r p).auction_supply
          ≡ true)
    → (IsModest (offered_totals r w)
        → fits w.available
            ((offered_totals r w).supply + (offered_totals r w).claimed)
            (offered_totals r w).demand
          ≡ true)
    → IsModest (offered_totals r (if b then p else w))
    → offer_fits b r (if b then p else w) ≡ true
choice-fits r true p w f g h = f h
choice-fits r false p w f g h = g h

-- When the totals of a gap are below 2^62, a purchase is offered nothing or at most what purchases
-- have left of the auctions, and other work nothing or at most what supply and claims have left of
-- the demand, also when speculation was released for it.
pub offer_for-fits :
    (r : EconomyAssignmentRequest) (now : ℕ) (st : Coordinator)
    → IsModest (offered_totals r (offer_for r now st))
    → offer_fits (r.kind == purchase) r (offer_for r now st) ≡ true
unfolding offer_for
offer_for-fits r now st =
    choice-fits r (r.kind == purchase) (offer_purchase r now st) (offer_work r now st)
      (offer_purchase-fits r now st) (offer_work-fits r now st)
