-- ===== src/Coordinator/Deadlines.antt =====
-- Claims that are due or kept for too long do not outlive the next call.
use mathlib.Core.List.{append_assoc}
use mod_playerbots_economy.Prelude.{
  ℕ, ◌+◌, ◌≡◌, ◌≤◌, refl, sym, ap, subst, ◌∙◌, Bool, true, false, not, ◌&&◌, ◌||◌, List, [], ◌∷◌,
  ◌++◌, map, Text, length, keep_if, ◌==◌, nat_eq, nat_beq_iff, if_elim, if_split, bool_both,
  not-true, All, arith,
}
use mod_playerbots_economy.Coordinator.Types.{EconomyAssignment, EconomyAssignmentOutcome}
use mod_playerbots_economy.Coordinator.Groups.{claim_state_eq}
use mod_playerbots_economy.Coordinator.State.{Coordinator, locked, advance, invalidate_gap_cache}
use mod_playerbots_economy.Coordinator.Chains.{sync_chains}
use mod_playerbots_economy.Coordinator.Outcome.{
  is_due, is_stale, state_after, settle_claim, settle_where, apply_outcome, erase_stale,
  expire_locked,
}
use mod_playerbots_economy.Coordinator.Capability.{begin_work, reconcile_capability_blockers}
use mod_playerbots_economy.Coordinator.Production.{snapshot, snapshot_of}
use mod_playerbots_economy.Coordinator.Moves.Chains.{calculate_gaps-claims, sync_chains-claims}
use mod_playerbots_economy.Coordinator.Moves.Claims.{apply_outcome-claims}

-- What a loop makes of one claim.
abbrev settled_if :
    (EconomyAssignment → Bool)
    → EconomyAssignmentOutcome
    → ℕ
    → EconomyAssignment
    → EconomyAssignment
settled_if test outcome now c = elim (test c) [
  | true ↦ settle_claim outcome c.committed_quantity now c
  | false ↦ c
]

settle_where-claims :
    (test : EconomyAssignment → Bool) (outcome : EconomyAssignmentOutcome) (now : ℕ)
    (before claims : List EconomyAssignment) (st : Coordinator)
    → st.claims ≡ before ++ claims
    → (settle_where test outcome now before claims st).0.claims
      ≡ before ++ map (settled_if test outcome now) claims
unfolding settle_where
settle_where-claims test outcome now before [] st e = e
settle_where-claims test outcome now before (c ∷ after) st e =
    let d : EconomyAssignment = settle_claim outcome c.committed_quantity now c in
    let rest : List EconomyAssignment = map (settled_if test outcome now) after in
    let hit : Coordinator × Bool =
      apply_outcome before c after outcome c.committed_quantity now st in
    let behind : Coordinator × Bool =
      settle_where test outcome now (before ++ d ∷ []) after hit.0 in
    bool_both (λ (r : Coordinator × Bool) (x : EconomyAssignment). r.0.claims ≡ before ++ x ∷ rest)
      (test c) {x = (behind.0, hit.1 || behind.1)}
      {y = settle_where test outcome now (before ++ c ∷ []) after st}
      (settle_where-claims test outcome now (before ++ d ∷ []) after hit.0 (
          apply_outcome-claims before c after outcome c.committed_quantity now st
          ∙ sym (append_assoc before (d ∷ []) after))
        ∙ append_assoc before (d ∷ []) rest)
      (settle_where-claims test outcome now (before ++ c ∷ []) after st
          (e ∙ sym (append_assoc before (c ∷ []) after))
        ∙ append_assoc before (c ∷ []) rest)

-- A claim that an expiry settles is no longer leased.
settled-due :
    (now : ℕ) (c : EconomyAssignment)
    → is_due now (settled_if (is_due now) EconomyAssignmentOutcome.need_changed now c) ≡ false
unfolding settle_claim state_after
settled-due now c = ground arith

-- Neither due nor kept beyond the retention window.
abbrev pub IsTimely : ℕ → EconomyAssignment → Type 0
IsTimely now c = (is_due now c ≡ false) × (is_stale now c ≡ false)

kept-IsTimely :
    (now : ℕ) (cs : List EconomyAssignment)
    → All (λ c. is_due now c ≡ false) cs
    → All (IsTimely now) (keep_if (λ c. not (is_stale now c)) cs)
kept-IsTimely now [] h = tt
kept-IsTimely now (c ∷ cs) h =
    if_split (All (IsTimely now)) (not (is_stale now c))
      (λ e. ((h.0, not-true (is_stale now c) e), kept-IsTimely now cs h.1))
      (λ e. kept-IsTimely now cs h.1)

settled_each-due :
    (now : ℕ) (cs : List EconomyAssignment)
    → All
        (λ c. is_due now c ≡ false)
        (map (settled_if (is_due now) EconomyAssignmentOutcome.need_changed now) cs)
settled_each-due now [] = tt
settled_each-due now (c ∷ cs) = (settled-due now c, settled_each-due now cs)

keep_if-length :
    (p : EconomyAssignment → Bool) (cs : List EconomyAssignment) → length (keep_if p cs) ≤ length cs
keep_if-length p [] = omega arith
keep_if-length p (c ∷ cs) = ground (arith, keep_if-length p cs)

too_long : (m n : ℕ) → m ≤ n → m ≡ n + 1 → ⊥
too_long m n l e = omega (arith, l, e)

keep_if_whole :
    (p : EconomyAssignment → Bool) (cs : List EconomyAssignment)
    → length (keep_if p cs) ≡ length cs
    → keep_if p cs ≡ cs
keep_if_whole p [] e = refl
keep_if_whole p (c ∷ cs) e =
    if_split (λ ds. length ds ≡ length cs + 1 → ds ≡ c ∷ cs) (p c)
      (λ t h. ap (λ ds. c ∷ ds) (keep_if_whole p cs (omega (arith, h))))
      (λ t h. absurd (too_long _ _ (keep_if-length p cs) h)) (omega (arith, e))

erase_stale-claims :
    (now : ℕ) (st : Coordinator)
    → (erase_stale now st).0.claims ≡ keep_if (λ c. not (is_stale now c)) st.claims
unfolding erase_stale invalidate_gap_cache
erase_stale-claims now st =
    let kept : List EconomyAssignment = keep_if (λ c. not (is_stale now c)) st.claims in
    if_split (λ (r : Coordinator × Bool). r.0.claims ≡ kept) (length kept == length st.claims)
      (λ e. sym (
        keep_if_whole (λ c. not (is_stale now c)) st.claims
          ((nat_beq_iff (length kept) (length st.claims)).0 e)))
      (λ e. refl)

expire_locked-IsTimely :
    (now : ℕ) (advances : Bool) (st : Coordinator)
    → All (IsTimely now) (expire_locked now advances st).0.claims
unfolding expire_locked advance
expire_locked-IsTimely now advances st =
    let settled : Coordinator × Bool =
      settle_where (is_due now) EconomyAssignmentOutcome.need_changed now [] st.claims st in
    let kept : Coordinator × Bool = erase_stale now settled.0 in
    let e : settled.0.claims
        ≡ map (settled_if (is_due now) EconomyAssignmentOutcome.need_changed now) st.claims =
      settle_where-claims (is_due now) EconomyAssignmentOutcome.need_changed now [] st.claims st
        refl in
    let timely : All (IsTimely now) kept.0.claims =
      subst (All (IsTimely now)) (sym (erase_stale-claims now settled.0)) (
        kept-IsTimely now settled.0.claims
          (subst (All (λ c. is_due now c ≡ false)) (sym e) (settled_each-due now st.claims))) in
    if_elim (λ (x : Coordinator). All (IsTimely now) x.claims) ((settled.1 || kept.1) && advances)
      timely timely

module _ (draw : ℕ → ℕ → Text) where
  begin_work-IsTimely :
      (now : ℕ) (st : Coordinator) → All (IsTimely now) (begin_work draw now st).claims
  unfolding begin_work reconcile_capability_blockers
  begin_work-IsTimely now st =
      let live : Coordinator × Bool = expire_locked now true (locked st) in
      let synced : Coordinator = sync_chains draw now live.0 in
      let timely : All (IsTimely now) synced.claims =
        subst (All (IsTimely now)) (sym (sync_chains-claims draw now live.0))
          (expire_locked-IsTimely now true (locked st)) in
      if_elim (λ (x : Coordinator). All (IsTimely now) x.claims) live.1
        (subst (All (IsTimely now)) (sym (calculate_gaps-claims synced)) timely) timely

  -- Whatever happened before, a snapshot shows no leased claim whose expiry has come and no settled
  -- claim whose retention is over.
  pub snapshot-IsTimely :
      (now : ℕ) (st : Coordinator) → All (IsTimely now) (snapshot draw now st).1.claims
  unfolding snapshot snapshot_of
  snapshot-IsTimely now st =
      subst (All (IsTimely now)) (sym (calculate_gaps-claims (begin_work draw now st)))
        (begin_work-IsTimely now st)
