-- ===== src/Coordinator/Excess.antt =====
-- ReleaseExcessClaimsLocked of `src/Bot/Economy/PlayerbotEconomyCoordinator.cpp`: claims that a
-- smaller gap no longer needs are shrunk or released.
use mod_playerbots_economy.Prelude.{
  ℕ, zero, suc, ◌+◌, ◌-◌, min, Bool, true, false, not, ◌&&◌, List, [], ◌∷◌, ◌++◌, Option, none,
  some, ltb, leb, if◌then◌else◌, ◌==◌, nat_eq,
}
use mod_playerbots_economy.Coordinator.Types.{
  EconomyClaimKind.purchase, EconomyClaimPriority.speculation,
  EconomyAssignmentOutcome.need_changed, EconomyAssignment,
}
use mod_playerbots_economy.Coordinator.Groups.{GapKey, same_group, claim_kind_eq, claim_priority_eq}
use mod_playerbots_economy.Coordinator.State.{
  sub32, GapTotals, Gaps, Coordinator, is_personal, invalidate_gap_cache, calculate_gaps,
}
use mod_playerbots_economy.Coordinator.Outcome.{is_leased, settle_claim, apply_outcome}

abbrev pub rev_onto {ℓ} : {A : Type ℓ} → List A → List A → List A
rev_onto [] ys = ys
rev_onto (x ∷ xs) ys = rev_onto xs (x ∷ ys)

abbrev pub is_at : GapKey → EconomyAssignment → Bool
is_at key c = c.market_id == key.0 && same_group c.group key.1

abbrev pub is_speculative_purchase : GapKey → EconomyAssignment → Bool
is_speculative_purchase key c =
    is_at key c && c.kind == purchase && c.priority == speculation && is_leased c

abbrev pub is_shared_purchase : GapKey → EconomyAssignment → Bool
is_shared_purchase key c =
    is_at key c
    && c.kind == purchase
    && not (is_personal c)
    && not (c.priority == speculation)
    && is_leased c

abbrev pub is_trimmable : GapKey → EconomyAssignment → Bool
is_trimmable key c = is_at key c && not (c.kind == purchase) && is_leased c

-- The newest claims that pass the test are released until the excess is gone. The claims still to
-- be visited stand in `ahead`, the newest first.
unfoldable pub release_newest :
    (EconomyAssignment → Bool)
    → ℕ
    → ℕ
    → List EconomyAssignment
    → List EconomyAssignment
    → Coordinator
    → Coordinator
unfolding settle_claim apply_outcome
release_newest test now excess [] after st = st
release_newest test now excess (c ∷ ahead) after st = elim (excess == 0) [
  | true ↦ st
  | false ↦ elim (test c) [
    | false ↦ release_newest test now excess ahead (c ∷ after) st
    | true ↦
        release_newest test now (if ltb c.quantity excess then excess - c.quantity else 0) ahead
          (settle_claim need_changed c.committed_quantity now c ∷ after)
          (apply_outcome (rev_onto ahead []) c after need_changed c.committed_quantity now st).0
  ]
]

-- The position of a claim stands for the pointer to it.
unfoldable pub positions :
    (EconomyAssignment → Bool) → ℕ → List EconomyAssignment → List (ℕ × EconomyAssignment)
positions test n [] = []
positions test n (c ∷ cs) =
    let rest = positions test (n + 1) cs in if test c then (n, c) ∷ rest else rest

-- The order in which claims are trimmed: the least progress first, then the newest.
abbrev pub trims_before : ℕ × EconomyAssignment → ℕ × EconomyAssignment → Bool
trims_before (m, a) (n, b) =
    if a.committed_quantity == b.committed_quantity
    then ltb b.created_at a.created_at
    else ltb a.committed_quantity b.committed_quantity

unfoldable pub insert_trimmable :
    ℕ × EconomyAssignment → List (ℕ × EconomyAssignment) → List (ℕ × EconomyAssignment)
insert_trimmable p [] = p ∷ []
insert_trimmable p (q ∷ qs) = if trims_before q p then q ∷ insert_trimmable p qs else p ∷ q ∷ qs

unfoldable pub sort_trimmable : List (ℕ × EconomyAssignment) → List (ℕ × EconomyAssignment)
unfolding insert_trimmable
sort_trimmable [] = []
sort_trimmable (p ∷ ps) = insert_trimmable p (sort_trimmable ps)

-- A claim with the claims around it.
pub record Place : Type 0 where
  pub before : List EconomyAssignment
  pub claim : EconomyAssignment
  pub after : List EconomyAssignment

unfoldable pub place_at : ℕ → List EconomyAssignment → List EconomyAssignment → Option Place
place_at n before [] = none
place_at zero before (c ∷ cs) = some (record { before = before; claim = c; after = cs })
place_at (suc n) before (c ∷ cs) = place_at n (before ++ c ∷ []) cs

-- What is still uncommitted of a claim.
abbrev pub transferable : EconomyAssignment → ℕ
transferable c = sub32 c.quantity c.committed_quantity

-- A claim that gives up all that it has not committed settles with what it has.
unfoldable pub settle_rest : ℕ → Place → Coordinator → Coordinator
unfolding invalidate_gap_cache apply_outcome
settle_rest now p st =
    if p.claim.committed_quantity == 0
    then (apply_outcome p.before p.claim p.after need_changed p.claim.committed_quantity now st).0
    else (apply_outcome p.before (record (p.claim) { quantity = p.claim.committed_quantity })
        p.after need_changed p.claim.committed_quantity now (invalidate_gap_cache st)).0

-- One claim gives up to `excess` of what it has not committed.
unfoldable pub trim_claim : ℕ → ℕ → Place → Coordinator → Coordinator
unfolding invalidate_gap_cache settle_rest
trim_claim now excess p st =
    let reduction = min (transferable p.claim) excess in
    if transferable p.claim == 0
    then st
    else if ltb reduction (transferable p.claim)
    then invalidate_gap_cache (record st {
      claims =
          p.before ++ record (p.claim) { quantity = sub32 p.claim.quantity reduction } ∷ p.after;
    })
    else settle_rest now p st

unfoldable pub trim_claims : ℕ → ℕ → List (ℕ × EconomyAssignment) → Coordinator → Coordinator
unfolding place_at trim_claim
trim_claims now excess [] st = st
trim_claims now excess ((n, c) ∷ places) st = elim (excess == 0) [
  | true ↦ st
  | false ↦ elim (place_at n [] st.claims) [
    | none ↦ trim_claims now excess places st
    | some p ↦
        trim_claims now (excess - min (transferable p.claim) excess) places
          (trim_claim now excess p st)
  ]
]

abbrev pub purchase_need : GapTotals → ℕ
purchase_need t = if ltb t.non_auction_supply t.demand then t.demand - t.non_auction_supply else 0

abbrev pub speculation_capacity : GapTotals → ℕ
speculation_capacity t =
    if ltb (purchase_need t) t.auction_supply then t.auction_supply - purchase_need t else 0

abbrev pub purchase_capacity : GapTotals → ℕ
purchase_capacity t = min (purchase_need t) t.auction_supply

abbrev pub needed : GapTotals → ℕ
needed t = if ltb t.supply t.demand then t.demand - t.supply else 0

-- The three parts of the loop, for one key.
unfoldable pub release_speculative : ℕ → GapKey → GapTotals → Coordinator → Coordinator
unfolding release_newest same_group
release_speculative now key t st =
    if ltb (speculation_capacity t) t.speculation_claimed
    then release_newest (is_speculative_purchase key) now
        (t.speculation_claimed - speculation_capacity t) (rev_onto st.claims []) [] st
    else st

unfoldable pub release_shared : ℕ → GapKey → GapTotals → Coordinator → Coordinator
unfolding release_newest same_group
release_shared now key t st =
    if ltb (purchase_capacity t) t.purchase_claimed
    then release_newest (is_shared_purchase key) now (t.purchase_claimed - purchase_capacity t)
        (rev_onto st.claims []) [] st
    else st

unfoldable pub trim_production : ℕ → GapKey → GapTotals → Coordinator → Coordinator
unfolding positions sort_trimmable trim_claims same_group
trim_production now key t st =
    if leb t.claimed (needed t)
    then st
    else trim_claims now (t.claimed - needed t)
        (sort_trimmable (positions (is_trimmable key) 0 st.claims)) st

unfoldable pub release_excess_at : ℕ → Gaps → Coordinator → Coordinator
unfolding release_speculative release_shared trim_production
release_excess_at now [] st = st
release_excess_at now ((key, t) ∷ gaps) st =
    release_excess_at now gaps
      (trim_production now key t (release_shared now key t (release_speculative now key t st)))

unfoldable pub release_excess_claims : ℕ → Coordinator → Coordinator
unfolding calculate_gaps release_excess_at
release_excess_claims now st =
    let counted = calculate_gaps st in release_excess_at now counted.cached_gaps counted
