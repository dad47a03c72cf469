-- ===== src/Coordinator/Grants.antt =====
-- What EvaluateWork lets through, and what a lease grants.
use mod_playerbots_economy.Prelude.{
  ℕ, ◌==◌, ◌≡◌, ◌≤◌, ◌<◌, ◌↔◌, refl, subst, Bool, true, false, not, ◌&&◌, ◌||◌, [], Option, none,
  some, Text, min, length, keep_if, is_some, any_of, leb, if◌then◌else◌, if_elim, if_split,
  option_elim, option_split, nat_eq, text_eq, arith,
}
use mod_playerbots_economy.Coordinator.Types.{
  EconomyActorFacts, EconomyAssignment, EconomyAssignmentRequest, EconomyAssignmentLease,
  EconomyWorkPolicyInput, EconomyWorkKind, EconomyClaimKind.purchase, EconomyClaimPriority,
  EconomyWorkBlocker, claim_state_discrete,
}
use mod_playerbots_economy.Coordinator.Groups.{
  GapKey, gap_code, find_at, or_else, number_code, claim_kind_eq, claim_priority_eq, work_kind_eq,
}
use mod_playerbots_economy.Coordinator.State.{
  Coordinator, advance, calculate_gaps, bounded_quantity, is_personal,
}
use mod_playerbots_economy.Coordinator.Chains.{ensure_chain, chain_capacity}
use mod_playerbots_economy.Coordinator.Outcome.{is_leased}
use mod_playerbots_economy.Coordinator.Capability.{begin_work}
use mod_playerbots_economy.Coordinator.Moves.Lease.{shared_quantity}
use mod_playerbots_economy.Coordinator.Lease.{
  lease, assignment_of, lease_personal, Offer, offer_for, shared_assignment, lease_offer,
  lease_shared, lease_checked, lease_begun, granted, holds_same_auction, totals_at, push_claim,
}
use mod_playerbots_economy.Coordinator.Request.{
  evaluate_work, check_request, refusal, reject_reported, is_relaxed, policy_of, blocker_code,
  is_personal_request,
}

-- The safeguards that all work must meet.
abbrev pub is_safe : EconomyWorkPolicyInput → Bool
is_safe i =
    i.legal
    && i.within_budget
    && not i.same_account_purchase
    && i.live_object
    && i.path_available
    && i.has_skill
    && i.phase_allowed
    && i.transaction_safe

-- Whether the affinity of an actor, a command or a need justifies work of a kind.
abbrev pub is_wanted : EconomyWorkPolicyInput → Bool
is_wanted i =
    if i.kind == EconomyWorkKind.market_making
    then not i.direct_command && leb 75 i.economy_affinity
    else (i.kind == EconomyWorkKind.buy && i.necessary_purchase)
      || i.direct_command
      || leb 25 i.economy_affinity
      || i.affinity_relaxed

-- EvaluateWork lets work through exactly when every safeguard holds and it is wanted: market
-- making by an affinity of 75 and no command, other work as a necessary purchase, by a command, by
-- an affinity of 25 or when affinity is relaxed.
pub evaluate_work-none :
    (i : EconomyWorkPolicyInput)
    → (evaluate_work i ≡ EconomyWorkBlocker.none) ↔ (is_safe i && is_wanted i ≡ true)
unfolding evaluate_work
evaluate_work-none i = ground arith

-- A claim that a request may be granted at a time.
pub record IsGrant (r : EconomyAssignmentRequest) (now : ℕ) (c : EconomyAssignment) : Type 0 where
  pub positive : 0 < c.quantity
  pub bounded : c.quantity ≤ r.quantity
  pub leased : is_leased c ≡ true
  pub uncommitted : c.committed_quantity ≡ 0
  pub expires : now < c.expires_at
  pub owner : c.character_guid ≡ r.character_guid
  pub market : c.market_id ≡ r.market_id
  pub group : c.group ≡ r.group
  pub identity : c.work_identity ≡ r.work_identity

-- An answer that grants nothing else.
record Grants (r : EconomyAssignmentRequest) (now : ℕ) (x : Coordinator × EconomyAssignmentLease)
    : Type 0 where
  pub grant : (c : EconomyAssignment) → x.1.assignment ≡ some c → IsGrant r now c

refused :
    (r : EconomyAssignmentRequest) (now : ℕ) {st : Coordinator} (blocker : EconomyWorkBlocker)
    → Grants r now (st, refusal blocker)
refused r now blocker = record { grant = λ c e. cc }

check_request-live :
    (r : EconomyAssignmentRequest) (now : ℕ) (actor : EconomyActorFacts)
    → check_request r now actor ≡ none
    → (0 < r.quantity) × (now < r.expires_at)
unfolding check_request
check_request-live r now actor h = (ground arith, ground arith)

granted-IsGrant :
    (r : EconomyAssignmentRequest) (now : ℕ) {st : Coordinator} (d : EconomyAssignment)
    → IsGrant r now d
    → Grants r now (st, granted d)
granted-IsGrant r now d h = record { grant = λ c e. subst (IsGrant r now) (inner c e) h }
  where
    inner : (c : EconomyAssignment) → some d ≡ some c → d ≡ c
    inner c p = cc

shared_bound : (n m : ℕ) → bounded_quantity (min n m) ≤ n
unfolding bounded_quantity
shared_bound n m = omega arith

shared_assignment-IsGrant :
    (id : ℕ) (chain : Option Text) (r : EconomyAssignmentRequest) (available now : ℕ)
    → 0 < r.quantity
    → now < r.expires_at
    → (available == 0) ≡ false
    → IsGrant r now (shared_assignment id chain r available now)
unfolding shared_assignment assignment_of claim_state_discrete
shared_assignment-IsGrant id chain r available now p l a =
    let positive = shared_quantity r.quantity available p a in
    let bounded = shared_bound r.quantity available in
    let d : EconomyAssignment =
      assignment_of id (or_else chain []) r (bounded_quantity (min r.quantity available)) now in
    if_elim (IsGrant r now) (r.kind == purchase) {x = d}
      {y = record d { recipe_spell_id = r.recipe_spell_id; output_item_id = r.output_item_id }}
      (record {
        positive = positive;
        bounded = bounded;
        leased = refl;
        uncommitted = refl;
        expires = l;
        owner = refl;
        market = refl;
        group = refl;
        identity = refl;
      })
      (record {
        positive = positive;
        bounded = bounded;
        leased = refl;
        uncommitted = refl;
        expires = l;
        owner = refl;
        market = refl;
        group = refl;
        identity = refl;
      })

module _ (draw : ℕ → ℕ → Text) where
  lease_offer-Grants :
      (r : EconomyAssignmentRequest) (chain : Option Text) (now : ℕ) (offer : Offer)
      → 0 < r.quantity
      → now < r.expires_at
      → Grants r now (lease_offer draw r chain now offer)
  unfolding lease_offer
  lease_offer-Grants r chain now offer p l =
      if_split (Grants r now) (offer.available == 0)
        (λ a. refused r now EconomyWorkBlocker.no_demand)
        (λ a.
          granted-IsGrant r now _
            (shared_assignment-IsGrant offer.state.next_lease_id chain r offer.available now p l a))

  lease_shared-Grants :
      (r : EconomyAssignmentRequest) (now : ℕ) (st : Coordinator)
      → 0 < r.quantity
      → now < r.expires_at
      → Grants r now (lease_shared draw r now st)
  unfolding lease_shared
  lease_shared-Grants r now st p l =
      let key : GapKey = (r.market_id, r.group) in
      let counted : Coordinator = calculate_gaps st in
      let ensured : Coordinator × Option Text =
        ensure_chain draw key now (not ((totals_at key counted).demand == 0)) counted in
      if_elim (Grants r now)
        (not (is_some ensured.1) && not (r.priority == EconomyClaimPriority.speculation))
        (refused r now {st = reject_reported EconomyWorkBlocker.capacity r now ensured.0}
          EconomyWorkBlocker.capacity)
        (lease_offer-Grants r ensured.1 now (offer_for r now ensured.0) p l)

  lease_personal-Grants :
      (r : EconomyAssignmentRequest) (now : ℕ) (st : Coordinator)
      → 0 < r.quantity
      → now < r.expires_at
      → Grants r now (lease_personal r now st)
  unfolding lease_personal assignment_of claim_state_discrete
  lease_personal-Grants r now st p l =
      let d : EconomyAssignment = record (assignment_of st.next_lease_id [] r r.quantity now) {
        personal_equipment_purchase = r.personal_equipment_purchase;
        personal_sustenance_purchase = r.personal_sustenance_purchase;
      } in
      if_elim (Grants r now)
        (leb chain_capacity (length (keep_if (λ c. is_personal c && is_leased c) st.claims)))
        (refused r now {st = st} EconomyWorkBlocker.capacity)
        (granted-IsGrant r now {st = advance (push_claim d st)} d (record {
          positive = p;
          bounded = omega arith;
          leased = refl;
          uncommitted = refl;
          expires = l;
          owner = refl;
          market = refl;
          group = refl;
          identity = refl;
        }))

  lease_checked-Grants :
      (r : EconomyAssignmentRequest) (actor : EconomyActorFacts) (now : ℕ) (st : Coordinator)
      → 0 < r.quantity
      → now < r.expires_at
      → Grants r now (lease_checked draw r actor now st)
  unfolding lease_checked
  lease_checked-Grants r actor now st p l =
      let relaxed : Bool =
        is_relaxed now (find_at gap_code (r.market_id, r.group) st.gap_blockers) in
      let blocker : EconomyWorkBlocker = evaluate_work (policy_of r actor relaxed) in
      if_elim (Grants r now) (not (blocker_code blocker == blocker_code EconomyWorkBlocker.none))
        (refused r now {st = reject_reported blocker r now st} blocker)
        (if_elim (Grants r now) (r.kind == purchase && any_of (holds_same_auction r) st.claims)
          (refused r now {st = st} EconomyWorkBlocker.capacity)
          (if_elim (Grants r now) (is_personal_request r) (lease_personal-Grants r now st p l)
            (lease_shared-Grants r now st p l)))

  lease-Grants :
      (r : EconomyAssignmentRequest) (now : ℕ) (st : Coordinator)
      → Grants r now (lease draw r now st)
  unfolding lease lease_begun
  lease-Grants r now st =
      option_elim (Grants r now)
        (find_at number_code r.character_guid (begin_work draw now st).actors)
        (refused r now EconomyWorkBlocker.unknown_actor)
        (λ actor.
          option_split (Grants r now) (check_request r now actor)
            (λ e.
              let live = check_request-live r now actor e in
              lease_checked-Grants r actor now (begin_work draw now st) live.0 live.1)
            (λ no e. refused r now no.0))

  -- What Lease grants is a leased claim of the caller for the market, the group and the work of the
  -- request, for a positive part of its quantity, uncommitted, and not yet due.
  pub lease-IsGrant :
      (r : EconomyAssignmentRequest) (now : ℕ) (st : Coordinator) (c : EconomyAssignment)
      → (lease draw r now st).1.assignment ≡ some c
      → IsGrant r now c
  lease-IsGrant r now st = (lease-Grants r now st).grant
