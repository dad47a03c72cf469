-- ===== src/Coordinator/Moves/Chains.antt =====
-- The chain history changes neither the claims nor the totals.
use mod_playerbots_economy.Prelude.{
  ℕ, ◌==◌, ◌≡◌, refl, ap, ◌∙◌, Bool, true, not, ◌||◌, List, [], ◌∷◌, Option, Text, is_empty,
  is_some, Bool-cases, if_elim, option_elim, nat_eq, inl, inr,
}
use mod_playerbots_economy.Coordinator.Types.{
  EconomyWorkBlocker, EconomyAssignment, EconomyChainStage, EconomyChainOutcome,
}
use mod_playerbots_economy.Coordinator.Groups.{GapKey, gap_code, find_at}
use mod_playerbots_economy.Coordinator.State.{Gaps, Coordinator, calculate_gaps}
use mod_playerbots_economy.Coordinator.Chains.{
  find_chain, append_claim_event, create_chain, ensure_chain, close_chains, sync_gaps,
  prune_blockers, resync_chains, sync_chains, has_demand, room_for_chain,
}
use mod_playerbots_economy.Coordinator.Moves.{Core, core, Moves, Moves-refl, still, counts, joins}

pub append_claim_event-Moves :
    (c : EconomyAssignment) (stage : EconomyChainStage) (outcome : EconomyChainOutcome)
    (blocker : EconomyWorkBlocker) (now : ℕ) (st : Coordinator)
    → Moves st (append_claim_event c stage outcome blocker now st)
unfolding append_claim_event
append_claim_event-Moves c stage outcome blocker now st =
    elim (Bool-cases
      (is_empty c.chain_public_id || not (is_some (find_chain st.chains c.chain_public_id)))) [
        | inl e ↦ still (simp e)
        | inr e ↦ joins (counts st) (still (simp e))
      ]

pub calculate_gaps-claims : (st : Coordinator) → (calculate_gaps st).claims ≡ st.claims
unfolding calculate_gaps
calculate_gaps-claims st =
    if_elim (λ (x : Coordinator). x.claims ≡ st.claims) st.gap_cache_dirty refl refl

pub append_claim_event-claims :
    (c : EconomyAssignment) (stage : EconomyChainStage) (outcome : EconomyChainOutcome)
    (blocker : EconomyWorkBlocker) (now : ℕ) (st : Coordinator)
    → (append_claim_event c stage outcome blocker now st).claims ≡ st.claims
unfolding append_claim_event
append_claim_event-claims c stage outcome blocker now st =
    if_elim (λ (x : Coordinator). x.claims ≡ st.claims)
      (is_empty c.chain_public_id || not (is_some (find_chain st.chains c.chain_public_id))) refl
      (calculate_gaps-claims st)

close_chains-core :
    (now : ℕ) (gaps : Gaps) (entries : List (GapKey × Text)) (st : Coordinator)
    → core (close_chains now gaps entries st) ≡ core st
unfolding close_chains
close_chains-core now gaps [] st = refl
close_chains-core now gaps ((key, id) ∷ entries) st =
    elim (Bool-cases (has_demand (find_at gap_code key gaps))) [
      | inl e ↦ close_chains-core now gaps entries _ ∙ simp e
      | inr e ↦ close_chains-core now gaps entries _ ∙ simp e
    ]

module _ (draw : ℕ → ℕ → Text) where
  pub ensure_chain-core :
      (key : GapKey) (now : ℕ) (wanted : Bool) (st : Coordinator)
      → core (ensure_chain draw key now wanted st).0 ≡ core st
  unfolding ensure_chain create_chain
  ensure_chain-core key now wanted st =
      option_elim (λ (r : Coordinator × Option Text). core r.0 ≡ core st)
        (find_at gap_code key st.active_chain_ids)
        (if_elim (λ (r : Coordinator × Option Text). core r.0 ≡ core st) (not wanted) refl
          (option_elim (λ (r : Coordinator × Option Text). core r.0 ≡ core st)
            (room_for_chain st.chains) refl (λ kept. refl)))
        (λ id. refl)

  sync_gaps-core :
      (now : ℕ) (gaps : Gaps) (st : Coordinator) → core (sync_gaps draw now gaps st) ≡ core st
  unfolding sync_gaps
  sync_gaps-core now [] st = refl
  sync_gaps-core now ((key, totals) ∷ gaps) st =
      sync_gaps-core now gaps _
      ∙ if_elim (λ x. core x ≡ core st) (totals.demand == 0) refl
          (option_elim (λ x. core x ≡ core st) (ensure_chain draw key now true st).1
            (ensure_chain-core key now true st) (λ id. ensure_chain-core key now true st))

  resync_chains-Moves : (now : ℕ) (st : Coordinator) → Moves st (resync_chains draw now st)
  unfolding resync_chains prune_blockers
  resync_chains-Moves now st =
      let pruned : Coordinator = prune_blockers (calculate_gaps st) in
      let synced : Coordinator = sync_gaps draw now pruned.cached_gaps pruned in
      joins (counts st) (
        still {s = calculate_gaps st} {t = resync_chains draw now st} (
          close_chains-core now pruned.cached_gaps synced.active_chain_ids synced
          ∙ sync_gaps-core now pruned.cached_gaps pruned))

  pub sync_chains-Moves : (now : ℕ) (st : Coordinator) → Moves st (sync_chains draw now st)
  unfolding sync_chains
  sync_chains-Moves now st =
      if_elim (Moves st) st.chains_dirty (resync_chains-Moves now st) (Moves-refl st)

  pub sync_chains-claims :
      (now : ℕ) (st : Coordinator) → (sync_chains draw now st).claims ≡ st.claims
  unfolding sync_chains resync_chains prune_blockers
  sync_chains-claims now st =
      let pruned : Coordinator = prune_blockers (calculate_gaps st) in
      let synced : Coordinator = sync_gaps draw now pruned.cached_gaps pruned in
      if_elim (λ (x : Coordinator). x.claims ≡ st.claims) st.chains_dirty
        (ap (λ (c : Core). c.claims)
            (close_chains-core now pruned.cached_gaps synced.active_chain_ids synced
              ∙ sync_gaps-core now pruned.cached_gaps pruned)
          ∙ calculate_gaps-claims st)
        refl
