-- ===== src/Coordinator/Moves/Claims.antt =====
-- How an outcome, an expiry and the loops over the claims move the claims.
use mod_playerbots_economy.Prelude.{
  ℕ, ◌==◌, ◌≡◌, refl, sym, ap, subst, ◌∙◌, Bool, true, not, ◌&&◌, ◌||◌, List, [], ◌∷◌, ◌++◌, length,
  keep_if, if_elim, if_split, bool_elim, nat_eq, arith, All-replace, All-keep_if,
}
use mathlib.Core.List.{append_assoc}
use mod_playerbots_economy.Coordinator.Types.{
  EconomyAssignment, EconomyAssignmentOutcome, EconomyWorkBlocker,
}
use mod_playerbots_economy.Coordinator.Groups.{claim_state_eq, claim_kind_eq, assignment_outcome_eq}
use mod_playerbots_economy.Coordinator.State.{Coordinator, invalidate_gap_cache, advance}
use mod_playerbots_economy.Coordinator.Outcome.{
  state_after, bridge_of, settle_claim, is_settled_alike, apply_outcome, settle_where, erase_stale,
  expire_locked, is_due, is_stale, stage_of, chain_outcome_of,
}
use mod_playerbots_economy.Coordinator.Moves.{
  core, IsOrderly, Orderly, Moves, Moves-refl, still, edits, joins,
}
use mod_playerbots_economy.Coordinator.Moves.Chains.{
  append_claim_event-Moves, append_claim_event-claims,
}

pub settle_claim-IsOrderly :
    (outcome : EconomyAssignmentOutcome) (q now : ℕ) (c : EconomyAssignment)
    → IsOrderly c
    → IsOrderly (settle_claim outcome q now c)
unfolding settle_claim state_after bridge_of
settle_claim-IsOrderly outcome q now c h = record {
  positive = h.positive;
  small = h.small;
  within = ground (arith, h.within);
  bridged = ground (arith, h.within, h.bridged);
  unbridged = λ e. ground (arith, h.unbridged);
}

settle_claim-alike :
    (outcome : EconomyAssignmentOutcome) (q now : ℕ) (c : EconomyAssignment)
    → is_settled_alike c (settle_claim outcome q now c) ≡ true
    → settle_claim outcome q now c ≡ c
unfolding settle_claim is_settled_alike
settle_claim-alike outcome q now c h = ground arith

-- ApplyOutcomeLocked on one of the claims. The second result is false when nothing changed.
pub apply_outcome-Moves :
    (before : List EconomyAssignment) (c : EconomyAssignment) (after : List EconomyAssignment)
    (outcome : EconomyAssignmentOutcome) (q now : ℕ) (st : Coordinator)
    → st.claims ≡ before ++ c ∷ after
    → Moves st (apply_outcome before c after outcome q now st).0
unfolding apply_outcome invalidate_gap_cache
apply_outcome-Moves before c after outcome q now st e =
    if_split (λ (r : Coordinator × Bool). Moves st r.0)
      (is_settled_alike c (settle_claim outcome q now c))
      (λ a. still (
        ap (λ cs. record (core st) { claims = cs })
          (ap (λ d. before ++ d ∷ after) (settle_claim-alike outcome q now c a) ∙ sym e)))
      (λ a.
        joins
          (edits refl (λ o.
            All-replace IsOrderly before after (settle_claim-IsOrderly outcome q now c)
              (subst Orderly e o)))
          (append_claim_event-Moves (settle_claim outcome q now c) (stage_of outcome)
            (chain_outcome_of outcome) EconomyWorkBlocker.none now _))

pub apply_outcome-claims :
    (before : List EconomyAssignment) (c : EconomyAssignment) (after : List EconomyAssignment)
    (outcome : EconomyAssignmentOutcome) (q now : ℕ) (st : Coordinator)
    → (apply_outcome before c after outcome q now st).0.claims
      ≡ before ++ settle_claim outcome q now c ∷ after
unfolding apply_outcome invalidate_gap_cache
apply_outcome-claims before c after outcome q now st =
    if_elim
      (λ (r : Coordinator × Bool). r.0.claims ≡ before ++ settle_claim outcome q now c ∷ after)
      (is_settled_alike c (settle_claim outcome q now c)) refl
      (append_claim_event-claims (settle_claim outcome q now c) (stage_of outcome)
        (chain_outcome_of outcome) EconomyWorkBlocker.none now _)

pub settle_where-Moves :
    (test : EconomyAssignment → Bool) (outcome : EconomyAssignmentOutcome) (now : ℕ)
    (before claims : List EconomyAssignment) (st : Coordinator)
    → st.claims ≡ before ++ claims
    → Moves st (settle_where test outcome now before claims st).0
unfolding settle_where
settle_where-Moves test outcome now before [] st e = Moves-refl st
settle_where-Moves test outcome now before (c ∷ after) st e =
    bool_elim (λ (r : Coordinator × Bool). Moves st r.0) (test c)
      (joins (apply_outcome-Moves before c after outcome c.committed_quantity now st e) (
        settle_where-Moves test outcome now _ after _ (
          apply_outcome-claims before c after outcome c.committed_quantity now st
          ∙ sym
              (append_assoc before (settle_claim outcome c.committed_quantity now c ∷ []) after))))
      (settle_where-Moves test outcome now (before ++ c ∷ []) after st
        (e ∙ sym (append_assoc before (c ∷ []) after)))

pub erase_stale-Moves : (now : ℕ) (st : Coordinator) → Moves st (erase_stale now st).0
unfolding erase_stale invalidate_gap_cache
erase_stale-Moves now st =
    if_elim (λ (r : Coordinator × Bool). Moves st r.0)
      (length (keep_if (λ c. not (is_stale now c)) st.claims) == length st.claims) (Moves-refl st)
      (edits refl (All-keep_if IsOrderly (λ c. not (is_stale now c)) st.claims))

pub expire_locked-Moves :
    (now : ℕ) (advances : Bool) (st : Coordinator) → Moves st (expire_locked now advances st).0
unfolding expire_locked advance
expire_locked-Moves now advances st =
    let due : Coordinator × Bool =
      settle_where (is_due now) EconomyAssignmentOutcome.need_changed now [] st.claims st in
    let kept : Coordinator × Bool = erase_stale now due.0 in
    joins
      (settle_where-Moves (is_due now) EconomyAssignmentOutcome.need_changed now [] st.claims st
        refl)
      (joins (erase_stale-Moves now due.0)
        (if_elim (Moves kept.0) ((due.1 || kept.1) && advances) (still refl) (Moves-refl kept.0)))
