-- ===== src/Coordinator/Moves/Lease.antt =====
-- How Lease moves the claims.
use mod_playerbots_economy.Prelude.{
  ℕ, ◌==◌, ◌≡◌, ◌<◌, ◌^◌, refl, Bool, true, false, not, List, [], ◌∷◌, ◌++◌, Option, none, some,
  Text, min, if◌then◌else◌, if_elim, if_split, option_elim, option_split, nat_eq, text_eq, arith,
  All-push,
}
use mod_playerbots_economy.Coordinator.Types.{
  EconomyActorFacts, EconomyAssignment, EconomyAssignmentRequest, EconomyAssignmentLease,
  EconomyClaimKind.purchase, EconomyChainStage, EconomyChain, EconomyChainOutcome,
  EconomyWorkBlocker,
}
use mod_playerbots_economy.Coordinator.Groups.{
  GapKey, find_at, number_code, claim_kind_eq, claim_priority_eq,
}
use mod_playerbots_economy.Coordinator.State.{
  Gaps, Coordinator, advance, calculate_gaps, bounded_quantity, invalidate_gap_cache, is_personal,
  add_claims,
}
use mod_playerbots_economy.Coordinator.Chains.{ensure_chain}
use mod_playerbots_economy.Coordinator.Capability.{begin_work, sync_and_reconcile}
use mod_playerbots_economy.Coordinator.Lease.{
  assignment_of, push_claim, lease_personal, Offer, offer_purchase, offer_work, offer_for,
  shared_assignment, grant_shared, lease_offer, lease_shared, lease_checked, lease_begun, lease,
  totals_at,
}
use mod_playerbots_economy.Coordinator.Request.{
  check_request, reject_reported, note_block, active_chain, is_personal_request,
}
use mod_playerbots_economy.Coordinator.Moves.{
  core, IsOrderly, Moves, Moves-refl, still, counts, edits, adjusts, joins,
}
use mod_playerbots_economy.Coordinator.Moves.Chains.{append_claim_event-Moves, ensure_chain-core}
use mod_playerbots_economy.Coordinator.Moves.Work.{
  advance-Moves, release_speculation-Moves, begin_work-Moves, sync_and_reconcile-Moves,
}

note_block-core :
    (blocker : EconomyWorkBlocker) (r : EconomyAssignmentRequest) (now : ℕ)
    (chain : Option EconomyChain) (st : Coordinator)
    → core (note_block blocker r now chain st) ≡ core st
unfolding note_block
note_block-core blocker r now none st = refl
note_block-core blocker r now (some chain) st = refl

pub reject_reported-Moves :
    (blocker : EconomyWorkBlocker) (r : EconomyAssignmentRequest) (now : ℕ) (st : Coordinator)
    → Moves st (reject_reported blocker r now st)
unfolding reject_reported advance
reject_reported-Moves blocker r now st =
    let chain : Option EconomyChain = active_chain (r.market_id, r.group) st in
    if_elim (Moves st) _ (Moves-refl st) (
      if_elim (Moves st) _ (still (note_block-core blocker r now chain _))
        (still (note_block-core blocker r now chain _)))

check_request-quantity :
    (r : EconomyAssignmentRequest) (now : ℕ) (actor : EconomyActorFacts)
    → check_request r now actor ≡ none
    → 0 < r.quantity
unfolding check_request
check_request-quantity r now actor h = ground arith

fresh-IsOrderly :
    (c : EconomyAssignment)
    → 0 < c.quantity
    → c.quantity < 2 ^ 32
    → c.committed_quantity ≡ 0
    → c.bridged_quantity ≡ 0
    → IsOrderly c
fresh-IsOrderly c p s m b = record {
  positive = p;
  small = s;
  within = omega (arith, m);
  bridged = omega (arith, b);
  unbridged = λ e. b;
}

-- A personal claim adds nothing to the totals.
add_claims-personal :
    (cs : List EconomyAssignment) (c : EconomyAssignment)
    → is_personal c ≡ true
    → (gaps : Gaps) → add_claims (cs ++ c ∷ []) gaps ≡ add_claims cs gaps
unfolding add_claims
add_claims-personal [] c p gaps = simp p
add_claims-personal (x ∷ cs) c p gaps = add_claims-personal cs c p _

lease_personal-Moves :
    (r : EconomyAssignmentRequest) (now : ℕ) (st : Coordinator)
    → is_personal_request r ≡ true
    → 0 < r.quantity
    → r.quantity < 2 ^ 32
    → Moves st (lease_personal r now st).0
unfolding lease_personal push_claim advance assignment_of
lease_personal-Moves r now st p l s =
    if_elim (λ (x : Coordinator × EconomyAssignmentLease). Moves st x.0) _ (Moves-refl st)
      (adjusts refl (All-push IsOrderly st.claims (fresh-IsOrderly _ l s refl refl))
        (add_claims-personal st.claims _ p))

offer_purchase-Moves :
    (r : EconomyAssignmentRequest) (now : ℕ) (st : Coordinator)
    → Moves st (offer_purchase r now st).state
unfolding offer_purchase
offer_purchase-Moves r now st =
    if_elim (λ (x : Offer). Moves st x.state) _ (counts st)
      (if_elim (λ (x : Offer). Moves st x.state) _
        (joins (counts st) (
          joins (release_speculation-Moves (r.market_id, r.group) now (calculate_gaps st))
            (counts _)))
        (counts st))

offer_work-Moves :
    (r : EconomyAssignmentRequest) (now : ℕ) (st : Coordinator)
    → Moves st (offer_work r now st).state
unfolding offer_work
offer_work-Moves r now st =
    if_elim (λ (x : Offer). Moves st x.state) _
      (joins (counts st) (
        joins (release_speculation-Moves (r.market_id, r.group) now (calculate_gaps st))
          (counts _)))
      (counts st)

offer_for-Moves :
    (r : EconomyAssignmentRequest) (now : ℕ) (st : Coordinator)
    → Moves st (offer_for r now st).state
unfolding offer_for
offer_for-Moves r now st =
    if_elim (λ (x : Offer). Moves st x.state) (r.kind == purchase) (offer_purchase-Moves r now st)
      (offer_work-Moves r now st)

pub shared_quantity : (n m : ℕ) → 0 < n → (m == 0) ≡ false → 0 < bounded_quantity (min n m)
unfolding bounded_quantity
shared_quantity n m l a = ground arith

pub bounded_quantity-small : (n : ℕ) → bounded_quantity n < 2 ^ 32
unfolding bounded_quantity
bounded_quantity-small n = omega arith

shared_assignment-IsOrderly :
    (id : ℕ) (chain : Option Text) (r : EconomyAssignmentRequest) (available now : ℕ)
    → 0 < r.quantity
    → (available == 0) ≡ false
    → IsOrderly (shared_assignment id chain r available now)
unfolding shared_assignment assignment_of
shared_assignment-IsOrderly id chain r available now l a =
    let positive = shared_quantity r.quantity available l a in
    let small = bounded_quantity-small (min r.quantity available) in
    if_elim IsOrderly (r.kind == purchase) (fresh-IsOrderly _ positive small refl refl)
      (fresh-IsOrderly _ positive small refl refl)

module _ (draw : ℕ → ℕ → Text) where
  grant_shared-Moves :
      (r : EconomyAssignmentRequest) (c : EconomyAssignment) (now : ℕ) (st : Coordinator)
      → IsOrderly c
      → Moves st (grant_shared draw r c now st)
  unfolding grant_shared push_claim invalidate_gap_cache
  grant_shared-Moves r c now st h = joins (edits refl (All-push IsOrderly st.claims h)) (
      joins
        (append_claim_event-Moves c EconomyChainStage.claim EconomyChainOutcome.progress
          EconomyWorkBlocker.none now _)
        (joins (sync_and_reconcile-Moves draw now _) (advance-Moves _)))

  lease_offer-Moves :
      (r : EconomyAssignmentRequest) (chain : Option Text) (now : ℕ) (offer : Offer)
      → 0 < r.quantity
      → Moves offer.state (lease_offer draw r chain now offer).0
  unfolding lease_offer
  lease_offer-Moves r chain now offer l =
      let st : Coordinator = offer.state in
      let settled : Coordinator =
        if offer.is_released then advance (sync_and_reconcile draw now st) else st in
      if_split (λ (x : Coordinator × EconomyAssignmentLease). Moves st x.0) (offer.available == 0)
        (λ a.
          joins
            (if_elim (Moves st) offer.is_released
              (joins (sync_and_reconcile-Moves draw now st) (advance-Moves _)) (Moves-refl st))
            (reject_reported-Moves EconomyWorkBlocker.no_demand r now settled))
        (λ a.
          grant_shared-Moves r _ now st
            (shared_assignment-IsOrderly st.next_lease_id chain r offer.available now l a))

  lease_shared-Moves :
      (r : EconomyAssignmentRequest) (now : ℕ) (st : Coordinator)
      → 0 < r.quantity
      → Moves st (lease_shared draw r now st).0
  unfolding lease_shared
  lease_shared-Moves r now st l =
      let key : GapKey = (r.market_id, r.group) in
      let counted : Coordinator = calculate_gaps st in
      let wanted : Bool = not ((totals_at key counted).demand == 0) in
      let ensured : Coordinator × Option Text = ensure_chain draw key now wanted counted in
      joins (counts st) (
        joins {t = ensured.0} (still (ensure_chain-core draw key now wanted counted)) (
          if_elim (λ (x : Coordinator × EconomyAssignmentLease). Moves ensured.0 x.0) _
            (reject_reported-Moves EconomyWorkBlocker.capacity r now ensured.0)
            (joins (offer_for-Moves r now ensured.0)
              (lease_offer-Moves r ensured.1 now (offer_for r now ensured.0) l))))

  lease_checked-Moves :
      (r : EconomyAssignmentRequest) (actor : EconomyActorFacts) (now : ℕ) (st : Coordinator)
      → 0 < r.quantity
      → r.quantity < 2 ^ 32
      → Moves st (lease_checked draw r actor now st).0
  unfolding lease_checked
  lease_checked-Moves r actor now st l s =
      let moved = λ (x : Coordinator × EconomyAssignmentLease). Moves st x.0 in
      if_elim moved _ (reject_reported-Moves _ r now st) (
        if_elim moved _ (Moves-refl st) (
          if_split moved (is_personal_request r) (λ p. lease_personal-Moves r now st p l s)
            (λ p. lease_shared-Moves r now st l)))

  pub lease_begun-Moves :
      (r : EconomyAssignmentRequest) (now : ℕ) (st : Coordinator)
      → r.quantity < 2 ^ 32
      → Moves st (lease_begun draw r now st).0
  unfolding lease_begun
  lease_begun-Moves r now st s =
      let moved = λ (x : Coordinator × EconomyAssignmentLease). Moves st x.0 in
      option_elim moved (find_at number_code r.character_guid st.actors)
        (reject_reported-Moves EconomyWorkBlocker.unknown_actor r now st)
        (λ actor.
          option_split moved (check_request r now actor)
            (λ e. lease_checked-Moves r actor now st (check_request-quantity r now actor e) s)
            (λ no e. if_elim (Moves st) no.1 (reject_reported-Moves no.0 r now st) (Moves-refl st)))

  pub lease-Moves :
      (r : EconomyAssignmentRequest) (now : ℕ) (st : Coordinator)
      → r.quantity < 2 ^ 32
      → Moves st (lease draw r now st).0
  unfolding lease
  lease-Moves r now st s =
      joins (begin_work-Moves draw now st) (lease_begun-Moves r now (begin_work draw now st) s)
