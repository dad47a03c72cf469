-- ===== src/Coordinator/Moves/Excess.antt =====
-- How ReleaseExcessClaimsLocked moves the claims.
use mathlib.Core.List.{append_assoc, append-nil}
use mod_playerbots_economy.Prelude.{
  ℕ, zero, suc, ◌==◌, ◌-◌, ◌≡◌, ◌≤◌, ◌<◌, ◌^◌, refl, sym, subst, ◌∙◌, Bool, false, List, [], ◌∷◌,
  ◌++◌, some, min, ltb, leb, ltb→lt, if_elim, if_split, bool_elim, option_split, nat_eq, arith,
  All-replace,
}
use mod_playerbots_economy.Coordinator.Types.{
  EconomyAssignment, EconomyAssignmentOutcome.need_changed,
}
use mod_playerbots_economy.Coordinator.Groups.{GapKey}
use mod_playerbots_economy.Coordinator.State.{
  sub32, GapTotals, Gaps, Coordinator, invalidate_gap_cache, calculate_gaps,
}
use mod_playerbots_economy.Coordinator.Outcome.{apply_outcome}
use mod_playerbots_economy.Coordinator.Excess.{
  rev_onto, release_newest, positions, sort_trimmable, Place, place_at, transferable, settle_rest,
  trim_claim, trim_claims, release_speculative, release_shared, trim_production, release_excess_at,
  release_excess_claims, is_speculative_purchase, is_shared_purchase, is_trimmable,
  speculation_capacity, purchase_capacity, needed,
}
use mod_playerbots_economy.Coordinator.Moves.{
  IsOrderly, Orderly, Moves, Moves-refl, counts, edits, joins,
}
use mod_playerbots_economy.Coordinator.Moves.Claims.{apply_outcome-Moves, apply_outcome-claims}

rev_onto-append : (xs ys : List EconomyAssignment) → rev_onto xs [] ++ ys ≡ rev_onto xs ys
rev_onto-append xs ys = go xs []
  where
    go : (xs zs : List EconomyAssignment) → rev_onto xs zs ++ ys ≡ rev_onto xs (zs ++ ys)
    go [] zs = refl
    go (x ∷ xs) zs = go xs (x ∷ zs)

rev_onto_twice :
    (xs ys zs : List EconomyAssignment) → rev_onto (rev_onto xs ys) zs ≡ rev_onto ys (xs ++ zs)
rev_onto_twice [] ys zs = refl
rev_onto_twice (x ∷ xs) ys zs = rev_onto_twice xs (x ∷ ys) zs

rev_onto-rev_onto : (xs : List EconomyAssignment) → xs ≡ rev_onto (rev_onto xs []) []
rev_onto-rev_onto xs = sym (append-nil xs) ∙ sym (rev_onto_twice xs [] [])

pub release_newest-Moves :
    (test : EconomyAssignment → Bool) (now : ℕ) (ahead : List EconomyAssignment) (excess : ℕ)
    (after : List EconomyAssignment) (st : Coordinator)
    → st.claims ≡ rev_onto ahead after
    → Moves st (release_newest test now excess ahead after st)
unfolding release_newest
release_newest-Moves test now [] excess after st e = Moves-refl st
release_newest-Moves test now (c ∷ ahead) excess after st e =
    bool_elim (Moves st) (excess == 0) (Moves-refl st) (
      bool_elim (Moves st) (test c)
        (joins
          (apply_outcome-Moves (rev_onto ahead []) c after need_changed c.committed_quantity now st
            (e ∙ sym (rev_onto-append ahead (c ∷ after))))
          (release_newest-Moves test now ahead _ _ _ (
            apply_outcome-claims (rev_onto ahead []) c after need_changed c.committed_quantity now
              st
            ∙ rev_onto-append ahead _)))
        (release_newest-Moves test now ahead excess (c ∷ after) st e))

pub place_at-claims :
    (n : ℕ) (before claims : List EconomyAssignment) (p : Place)
    → place_at n before claims ≡ some p
    → before ++ claims ≡ p.before ++ p.claim ∷ p.after
unfolding place_at
place_at-claims n before [] p h = cc
place_at-claims zero before (c ∷ cs) p h = go h
  where
    go :
        some (record { before = before; claim = c; after = cs }) ≡ some p
        → before ++ c ∷ cs ≡ p.before ++ p.claim ∷ p.after
    go e = cc
place_at-claims (suc n) before (c ∷ cs) p h =
    sym (append_assoc before (c ∷ []) cs) ∙ place_at-claims n (before ++ c ∷ []) cs p h

sub32-exact : (a b : ℕ) → a < 2 ^ 32 → b ≤ a → sub32 a b ≡ a - b
sub32-exact a b h l = omega arith

shrink-IsOrderly :
    (c : EconomyAssignment) (n : ℕ)
    → n < transferable c
    → IsOrderly c
    → IsOrderly (record c { quantity = sub32 c.quantity n })
shrink-IsOrderly c n l h =
    let left : transferable c ≡ c.quantity - c.committed_quantity =
      sub32-exact c.quantity c.committed_quantity h.small h.within in
    let rest : sub32 c.quantity n ≡ c.quantity - n =
      sub32-exact c.quantity n h.small (omega (arith, l, left)) in
    record {
      positive = omega (arith, l, left, rest);
      small = omega (arith, rest, h.small);
      within = omega (arith, l, left, rest, h.within);
      bridged = h.bridged;
      unbridged = h.unbridged;
    }

nat_positive : (n : ℕ) → (n == 0) ≡ false → 0 < n
nat_positive n h = ground arith

closed-IsOrderly :
    (c : EconomyAssignment)
    → 0 < c.committed_quantity
    → IsOrderly c
    → IsOrderly (record c { quantity = c.committed_quantity })
closed-IsOrderly c l h = record {
  positive = l;
  small = omega (arith, h.small, h.within);
  within = omega arith;
  bridged = h.bridged;
  unbridged = h.unbridged;
}

settle_rest-Moves :
    (now : ℕ) (p : Place) (st : Coordinator)
    → st.claims ≡ p.before ++ p.claim ∷ p.after
    → Moves st (settle_rest now p st)
unfolding settle_rest apply_outcome invalidate_gap_cache
settle_rest-Moves now p st e =
    let c : EconomyAssignment = record (p.claim) { quantity = p.claim.committed_quantity } in
    let shrunk : Coordinator = record (invalidate_gap_cache st) {
      claims = p.before ++ c ∷ p.after;
    } in
    if_split (Moves st) (p.claim.committed_quantity == 0)
      (λ z.
        apply_outcome-Moves p.before p.claim p.after need_changed p.claim.committed_quantity now st
          e)
      (λ z.
        joins
          (edits {t = shrunk} refl (λ o.
            All-replace IsOrderly p.before p.after
              (closed-IsOrderly p.claim (nat_positive p.claim.committed_quantity z))
              (subst Orderly e o)))
          (apply_outcome-Moves p.before c p.after need_changed p.claim.committed_quantity now shrunk
            refl))

trim_claim-Moves :
    (now excess : ℕ) (p : Place) (st : Coordinator)
    → st.claims ≡ p.before ++ p.claim ∷ p.after
    → Moves st (trim_claim now excess p st)
unfolding trim_claim invalidate_gap_cache
trim_claim-Moves now excess p st e =
    let reduction : ℕ = min (transferable p.claim) excess in
    if_elim (Moves st) (transferable p.claim == 0) (Moves-refl st) (
      if_split (Moves st) (ltb reduction (transferable p.claim))
        (λ l. edits refl (λ o.
          All-replace IsOrderly p.before p.after
            (shrink-IsOrderly p.claim reduction (ltb→lt reduction (transferable p.claim) l))
            (subst Orderly e o)))
        (λ l. settle_rest-Moves now p st e))

pub trim_claims-Moves :
    (now : ℕ) (places : List (ℕ × EconomyAssignment)) (excess : ℕ) (st : Coordinator)
    → Moves st (trim_claims now excess places st)
unfolding trim_claims
trim_claims-Moves now [] excess st = Moves-refl st
trim_claims-Moves now ((n, c) ∷ places) excess st =
    bool_elim (Moves st) (excess == 0) (Moves-refl st) (
      option_split (Moves st) (place_at n [] st.claims)
        (λ e. trim_claims-Moves now places excess st)
        (λ p e.
          joins (trim_claim-Moves now excess p st (place_at-claims n [] st.claims p e))
            (trim_claims-Moves now places _ _)))

release_speculative-Moves :
    (now : ℕ) (key : GapKey) (t : GapTotals) (st : Coordinator)
    → Moves st (release_speculative now key t st)
unfolding release_speculative
release_speculative-Moves now key t st =
    if_elim (Moves st) (ltb (speculation_capacity t) t.speculation_claimed)
      (release_newest-Moves (is_speculative_purchase key) now (rev_onto st.claims []) _ [] st
        (rev_onto-rev_onto st.claims))
      (Moves-refl st)

release_shared-Moves :
    (now : ℕ) (key : GapKey) (t : GapTotals) (st : Coordinator)
    → Moves st (release_shared now key t st)
unfolding release_shared
release_shared-Moves now key t st =
    if_elim (Moves st) (ltb (purchase_capacity t) t.purchase_claimed)
      (release_newest-Moves (is_shared_purchase key) now (rev_onto st.claims []) _ [] st
        (rev_onto-rev_onto st.claims))
      (Moves-refl st)

trim_production-Moves :
    (now : ℕ) (key : GapKey) (t : GapTotals) (st : Coordinator)
    → Moves st (trim_production now key t st)
unfolding trim_production
trim_production-Moves now key t st =
    if_elim (Moves st) (leb t.claimed (needed t)) (Moves-refl st)
      (trim_claims-Moves now (sort_trimmable (positions (is_trimmable key) 0 st.claims)) _ st)

release_excess_at-Moves :
    (now : ℕ) (gaps : Gaps) (st : Coordinator) → Moves st (release_excess_at now gaps st)
unfolding release_excess_at
release_excess_at-Moves now [] st = Moves-refl st
release_excess_at-Moves now ((key, t) ∷ gaps) st =
    let freed : Coordinator = release_speculative now key t st in
    let shared : Coordinator = release_shared now key t freed in
    joins (release_speculative-Moves now key t st) (
      joins (release_shared-Moves now key t freed)
        (joins (trim_production-Moves now key t shared) (release_excess_at-Moves now gaps _)))

pub release_excess_claims-Moves :
    (now : ℕ) (st : Coordinator) → Moves st (release_excess_claims now st)
unfolding release_excess_claims
release_excess_claims-Moves now st =
    joins (counts st)
      (release_excess_at-Moves now (calculate_gaps st).cached_gaps (calculate_gaps st))
