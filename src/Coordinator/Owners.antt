-- ===== src/Coordinator/Owners.antt =====
-- Whom AssignCapabilityOwnerLocked picks.
use mod_playerbots_economy.Prelude.{
  ℕ, ◌≡◌, ◌<◌, ◌⊎◌, inl, inr, refl, sym, subst, Bool, true, false, ◌&&◌, ◌||◌, List, [], ◌∷◌, ltb,
  leb, ◌==◌, nat_eq, if◌then◌else◌, All, arith,
}
use mod_playerbots_economy.Coordinator.Types.{
  EconomyActorFacts, EconomyCapabilityRequirement, EconomyWorkKind,
}
use mod_playerbots_economy.Coordinator.Capability.{relevant_affinity, is_candidate, best_candidate}

-- An entry with an affinity comes before an entry with another one: it has more, or as much and a
-- guid that is no larger.
abbrev pub leads : ℕ → ℕ → ℕ → ℕ → Bool
leads affinity guid other other_guid =
    ltb other affinity || (affinity == other && leb guid other_guid)

leads_trans : (a g b h c k : ℕ) → leads a g b h ≡ true → leads b h c k ≡ true → leads a g c k ≡ true
leads_trans a g b h c k p q = ground arith

leads_refl : (a g : ℕ) → leads a g a g ≡ true
leads_refl a g = ground arith

-- The test of the loop, for a candidate with an affinity and a guid.
abbrev is_better : Bool → ℕ → ℕ → ℕ → ℕ → Bool
is_better fit selected affinity own guid =
    fit && (selected == 0 || ltb affinity own || (own == affinity && ltb guid selected))

better-fit :
    (fit : Bool) (selected affinity own guid : ℕ)
    → is_better fit selected affinity own guid ≡ true
    → fit ≡ true
better-fit fit selected affinity own guid e = ground arith

better-leads :
    (fit : Bool) (selected affinity own guid : ℕ)
    → is_better fit selected affinity own guid ≡ true
    → 0 < selected
    → leads own guid affinity selected ≡ true
better-leads fit selected affinity own guid e p = ground arith

worse-selected :
    (fit : Bool) (selected affinity own guid : ℕ)
    → is_better fit selected affinity own guid ≡ false
    → fit ≡ true
    → 0 < selected
worse-selected fit selected affinity own guid e f = ground arith

worse-leads :
    (fit : Bool) (selected affinity own guid : ℕ)
    → is_better fit selected affinity own guid ≡ false
    → fit ≡ true
    → leads affinity selected own guid ≡ true
worse-leads fit selected affinity own guid e f = ground arith

worse-unfit :
    (fit : Bool) (selected affinity own guid : ℕ)
    → is_better fit selected affinity own guid ≡ false
    → selected ≡ 0
    → fit ≡ false
worse-unfit fit selected affinity own guid e z = ground arith

module _ (r : EconomyCapabilityRequirement) (work : EconomyWorkKind) where
  abbrev pub affinity_of : EconomyActorFacts → ℕ
  affinity_of actor = relevant_affinity actor r.capability.kind

  -- No candidate of the list comes before the guid with the affinity.
  abbrev pub LeadsAll : ℕ → ℕ → List (ℕ × EconomyActorFacts) → Type 0
  LeadsAll affinity guid =
      All (λ e. is_candidate r work e.1 ≡ true → leads affinity guid (affinity_of e.1) e.0 ≡ true)

  -- The guid stands in the list with a candidate of the affinity.
  abbrev pub Stands : ℕ → ℕ → List (ℕ × EconomyActorFacts) → Type 0
  Stands affinity guid [] = ⊥
  Stands affinity guid ((g, actor) ∷ actors) =
      ((g ≡ guid) × (affinity_of actor ≡ affinity) × (is_candidate r work actor ≡ true))
      ⊎ Stands affinity guid actors

  abbrev pub Unfit : List (ℕ × EconomyActorFacts) → Type 0
  Unfit = All (λ e. is_candidate r work e.1 ≡ false)

  -- What the loop makes of what it has selected so far: it keeps it, as no candidate comes before
  -- it, or it picks a candidate that comes before it and before all others.
  record Keeps (selected affinity : ℕ) (actors : List (ℕ × EconomyActorFacts)) (picked : ℕ)
      : Type 0 where
    pub same : picked ≡ selected
    pub first : 0 < selected → LeadsAll affinity selected actors
    pub unfit : selected ≡ 0 → Unfit actors

  record Picks (selected affinity : ℕ) (actors : List (ℕ × EconomyActorFacts)) (picked own : ℕ)
      : Type 0 where
    pub stands : Stands own picked actors
    pub first : LeadsAll own picked actors
    pub before : 0 < selected → leads own picked affinity selected ≡ true

  abbrev Picked : ℕ → ℕ → List (ℕ × EconomyActorFacts) → ℕ → Type 0
  Picked selected affinity actors picked =
      Keeps selected affinity actors picked
      ⊎ ((own : ℕ) × Picks selected affinity actors picked own)

  after_better :
      (guid : ℕ) (actor : EconomyActorFacts) (actors : List (ℕ × EconomyActorFacts))
      (selected affinity picked : ℕ)
      → 0 < guid
      → is_better (is_candidate r work actor) selected affinity (affinity_of actor) guid ≡ true
      → Picked guid (affinity_of actor) actors picked
      → Picked selected affinity ((guid, actor) ∷ actors) picked
  after_better guid actor actors selected affinity picked p b (inl k) =
      let own : ℕ = affinity_of actor in
      inr (
        own,
        subst (λ x. Picks selected affinity ((guid, actor) ∷ actors) x own) (sym k.same)
            (record {
              stands = inl (refl, refl, better-fit _ selected affinity own guid b);
              first = (λ f. leads_refl own guid, k.first p);
              before = better-leads _ selected affinity own guid b;
            }),
      )
  after_better guid actor actors selected affinity picked p b (inr (own, k)) = inr (
    own,
    record {
      stands = inr k.stands;
      first = (λ f. k.before p, k.first);
      before = λ q.
          leads_trans own picked (affinity_of actor) guid affinity selected (k.before p)
            (better-leads _ selected affinity (affinity_of actor) guid b q);
    },
  )

  after_worse :
      (guid : ℕ) (actor : EconomyActorFacts) (actors : List (ℕ × EconomyActorFacts))
      (selected affinity picked : ℕ)
      → is_better (is_candidate r work actor) selected affinity (affinity_of actor) guid ≡ false
      → Picked selected affinity actors picked
      → Picked selected affinity ((guid, actor) ∷ actors) picked
  after_worse guid actor actors selected affinity picked b (inl k) = inl (record {
    same = k.same;
    first = λ p. (λ f. worse-leads _ selected affinity (affinity_of actor) guid b f, k.first p);
    unfit = λ z. (worse-unfit _ selected affinity (affinity_of actor) guid b z, k.unfit z);
  })
  after_worse guid actor actors selected affinity picked b (inr (own, k)) = inr (
    own,
    record {
      stands = inr k.stands;
      first = (
        λ f.
            leads_trans own picked affinity selected (affinity_of actor) guid
              (k.before (worse-selected _ selected affinity (affinity_of actor) guid b f))
              (worse-leads _ selected affinity (affinity_of actor) guid b f),
        k.first,
      );
      before = k.before;
    },
  )

  best_candidate-Picked :
      (actors : List (ℕ × EconomyActorFacts)) (selected affinity : ℕ)
      → All (λ e. 0 < e.0) actors
      → Picked selected affinity actors (best_candidate r work actors selected affinity)
  unfolding best_candidate
  best_candidate-Picked [] selected affinity p =
      inl (record { same = refl; first = λ q. tt; unfit = λ z. tt })
  best_candidate-Picked ((guid, actor) ∷ actors) selected affinity p =
      let own : ℕ = affinity_of actor in
      let better : Bool = is_better (is_candidate r work actor) selected affinity own guid in
      chosen better refl (best_candidate-Picked actors guid own p.1)
        (best_candidate-Picked actors selected affinity p.1)
    where
      chosen :
          (b : Bool)
          → is_better (is_candidate r work actor) selected affinity (affinity_of actor) guid ≡ b
          → Picked guid
              (affinity_of actor)
              actors
              (best_candidate r work actors guid (affinity_of actor))
          → Picked selected affinity actors (best_candidate r work actors selected affinity)
          → Picked selected affinity ((guid, actor) ∷ actors) (
              best_candidate r work actors
                (if b then guid else selected)
                (if b then affinity_of actor else affinity))
      chosen true e k m = after_better guid actor actors selected affinity _ p.0 e k
      chosen false e k m = after_worse guid actor actors selected affinity _ e m

  -- Over actors whose guids are not 0, bestCandidate gives the guid of a candidate with the highest
  -- affinity, and among those the lowest guid; or it gives 0, and no actor is a candidate.
  pub best_candidate-leads :
      (actors : List (ℕ × EconomyActorFacts))
      → All (λ e. 0 < e.0) actors
      → ((best_candidate r work actors 0 0 ≡ 0) × Unfit actors)
        ⊎ ((affinity : ℕ) × Stands affinity (best_candidate r work actors 0 0) actors
            × LeadsAll affinity (best_candidate r work actors 0 0) actors)
  best_candidate-leads actors p = finished (best_candidate-Picked actors 0 0 p)
    where
      finished :
          Picked 0 0 actors (best_candidate r work actors 0 0)
          → ((best_candidate r work actors 0 0 ≡ 0) × Unfit actors)
            ⊎ ((affinity : ℕ) × Stands affinity (best_candidate r work actors 0 0) actors
                × LeadsAll affinity (best_candidate r work actors 0 0) actors)
      finished (inl k) = inl (k.same, k.unfit refl)
      finished (inr (own, k)) = inr (own, k.stands, k.first)
