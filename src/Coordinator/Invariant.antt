-- ===== src/Coordinator/Invariant.antt =====
-- What holds of the claims and of the totals in every state that calls of the coordinator reach.
use mod_playerbots_economy.Prelude.{
  ℕ, ◌≡◌, refl, ap, ◌∙◌, false, Text, Bool-cases, if_elim, inl, inr,
}
use mod_playerbots_economy.Coordinator.State.{
  Coordinator, new_coordinator, calculate_gaps, current_gaps,
}
use mod_playerbots_economy.Coordinator.Capability.{begin_work}
use mod_playerbots_economy.Coordinator.Production.{demand_gaps, snapshot_of, snapshot}
use mod_playerbots_economy.Coordinator.Moves.{
  core, Orderly, IsCoherent, counts, true≢false, Moves-Orderly, Moves-IsCoherent,
}
use mod_playerbots_economy.Coordinator.Moves.Work.{begin_work-Moves}
use mod_playerbots_economy.Coordinator.Reach.{Reach, starts, steps, Step-Moves}

module _ (draw : ℕ → ℕ → Text) where
  -- In every state that calls reach, each claim wants a positive quantity of 32 bits, has
  -- committed at most that quantity and bridges at most what it committed, and a leased claim
  -- bridges nothing.
  pub Reach-Orderly : {st : Coordinator} → Reach draw st → Orderly st.claims
  unfolding new_coordinator
  Reach-Orderly starts = tt
  Reach-Orderly (steps r s) = Moves-Orderly (Step-Moves draw s) (Reach-Orderly r)

  new-IsCoherent : IsCoherent (core new_coordinator)
  unfolding new_coordinator
  new-IsCoherent = record {
    gaps = λ e. absurd (true≢false e);
    consumers = λ e. absurd (true≢false e);
  }

  Reach-IsCoherent : {st : Coordinator} → Reach draw st → IsCoherent (core st)
  Reach-IsCoherent starts = new-IsCoherent
  Reach-IsCoherent (steps r s) = Moves-IsCoherent (Step-Moves draw s) (Reach-IsCoherent r)

  clean : (st : Coordinator) → (calculate_gaps st).gap_cache_dirty ≡ false
  unfolding calculate_gaps
  clean st = elim (Bool-cases st.gap_cache_dirty) [ inl e ↦ simp e | inr e ↦ simp e ]

  calculated-current :
      (st : Coordinator)
      → IsCoherent (core st)
      → ((calculate_gaps st).cached_gaps ≡ (current_gaps (calculate_gaps st)).0)
        × ((calculate_gaps st).cached_consumers ≡ (current_gaps (calculate_gaps st)).1)
  unfolding current_gaps
  calculated-current st h =
      let k : IsCoherent (core (calculate_gaps st)) = Moves-IsCoherent (counts st) h in
      (k.gaps (clean st), k.consumers (clean st))

  calculate_gaps-current : (st : Coordinator) → current_gaps (calculate_gaps st) ≡ current_gaps st
  unfolding calculate_gaps current_gaps
  calculate_gaps-current st =
      if_elim (λ x. current_gaps x ≡ current_gaps st) st.gap_cache_dirty refl refl

  -- In every state that calls reach, CalculateGapsLocked gives the totals and the consumers that
  -- a calculation from the facts and the claims gives, whether it reads its cache or not.
  pub Reach-calculate_gaps :
      {st : Coordinator}
      → Reach draw st
      → ((calculate_gaps st).cached_gaps ≡ (current_gaps st).0)
        × ((calculate_gaps st).cached_consumers ≡ (current_gaps st).1)
  Reach-calculate_gaps {st} r =
      let c = calculated-current st (Reach-IsCoherent r) in
      (
        c.0 ∙ ap (λ t. t.0) (calculate_gaps-current st),
        c.1 ∙ ap (λ t. t.1) (calculate_gaps-current st),
      )

  -- The gaps of a snapshot are those of the totals that the facts and the claims behind it have.
  pub Reach-gaps :
      {st : Coordinator} (now : ℕ)
      → Reach draw st
      → (snapshot draw now st).1.gaps ≡ demand_gaps (current_gaps (snapshot draw now st).0).0
  unfolding snapshot snapshot_of
  Reach-gaps {st} now r =
      ap demand_gaps
        (calculated-current (begin_work draw now st)
          (Moves-IsCoherent (begin_work-Moves draw now st) (Reach-IsCoherent r))).0
