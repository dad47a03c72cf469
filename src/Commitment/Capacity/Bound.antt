-- ===== src/Commitment/Capacity/Bound.antt =====
-- No over-commitment: AdmitCandidates, and Apply, against the observations of the command.
use mod_playerbots_economy.Prelude.{
  ℕ, ◌+◌, ◌≤◌, ◌<◌, ◌≡◌, refl, sym, subst, ◌⊎◌, inl, inr, true, List, [], some, Text, arith,
}
use mod_playerbots_economy.Commitment.Types.{
  MaterialCapacityKey, MaterialCapacityObservation, MaterialCommitmentStartup,
  MaterialCommitmentCommand, MaterialCommitmentCommandKind, MaterialCommitmentCommandKind.admit,
  MaterialCommitmentCommandKind.supersede,
}
use mod_playerbots_economy.Commitment.Outcome.{
  Outcome, ok, >>=-eq-ok, fail_if-eq-ok, test-eq-ok, or_fail-eq-ok, reserved_at, capacity_key_eq,
}
use mod_playerbots_economy.Commitment.Validity.{valid_intents, valid_startup}
use mod_playerbots_economy.Commitment.Admission.{find_observation, validate_admission_facts}
use mod_playerbots_economy.Commitment.Admit.{Admitting, admit_candidates}
use mod_playerbots_economy.Commitment.Supersede.{supersede_commitments}
use mod_playerbots_economy.Commitment.Authority.{Authority, apply_kind, apply_to_replacement}
use mod_playerbots_economy.Commitment.Frame.{terminate_commitments-frame}
use mod_playerbots_economy.Commitment.Soundness.{Accepted}
use mod_playerbots_economy.Commitment.Invariant.{IsSound}
use mod_playerbots_economy.Commitment.Capacity.{held, requested_by, reserved_at-retained_capacity}
use mod_playerbots_economy.Commitment.Capacity.Held.{
  AllDistinct, AllDistinct-valid_intents, held-admit_each,
}
use mod_playerbots_economy.Commitment.Capacity.Admission.{
  reserved_at-check_candidates, check_capacity-le,
}

module _ (k : MaterialCapacityKey) (c : MaterialCommitmentCommand) (now : ℕ)
    (o : MaterialCapacityObservation)
    (observed : find_observation c.capacity_observations k ≡ some o)
    (wanted : 0 < requested_by k c.candidates) where
  -- The checks bound what is held and what is requested together.
  validate_admission_facts-le :
      (s : MaterialCommitmentStartup)
      → validate_admission_facts s c now ≡ ok tt
      → held k s.commitments + requested_by k c.candidates ≤ o.available_quantity
  unfolding validate_admission_facts
  validate_admission_facts-le s h =
      let (_, h₁) = fail_if-eq-ok _ _ _ h in
      let (_, h₂) = test-eq-ok _ _ h₁ in
      let (newly, e, h₃) = >>=-eq-ok _ _ h₂ in
      let (retained, f, h₄) = >>=-eq-ok _ _ h₃ in
      let kept = reserved_at-retained_capacity k s.commitments [] retained (or_fail-eq-ok _ _ f) in
      let new = reserved_at-check_candidates k s c now c.candidates [] [] newly e in
      let empty : reserved_at {K = MaterialCapacityKey} k [] ≡ 0 = unfold reserved_at in refl in
      let fits =
        check_capacity-le k c.capacity_observations retained newly o observed h₄
          (omega (arith, new, empty, wanted)) in
      omega (arith, kept, new, empty, fits)

  admit_candidates-le :
      (s t : MaterialCommitmentStartup) (ids : List Text)
      → AllDistinct s.intents
      → admit_candidates s c now ≡ ok (t, ids)
      → held k t.commitments ≤ o.available_quantity
  unfolding admit_candidates
  admit_candidates-le s t ids d h =
      let (checked, h₁) = test-eq-ok _ _ h in
      let (a, e, h₂) = >>=-eq-ok _ _ h₁ in
      let bound = validate_admission_facts-le s checked in
      let grown = held-admit_each k c c.candidates _ a d e in
      let total : held k a.state.commitments ≤ o.available_quantity = omega (arith, bound, grown) in
      subst (λ (b : MaterialCommitmentStartup). held k b.commitments ≤ o.available_quantity)
        (same a h₂) total
    where
      same :
          (a : Admitting)
          → ◌≡◌ {A = Outcome (MaterialCommitmentStartup × List Text)}
              (ok (a.state, a.admitted_identities))
              (ok (t, ids))
          → a.state ≡ t
      same a h = cc

  supersede_commitments-le :
      (s t : MaterialCommitmentStartup) (ids : List Text)
      → AllDistinct s.intents
      → supersede_commitments s c now ≡ ok (t, ids)
      → held k t.commitments ≤ o.available_quantity
  unfolding supersede_commitments
  supersede_commitments-le s t ids d h =
      let (_, h₁) = fail_if-eq-ok _ _ _ h in
      let (_, _, h₂) = >>=-eq-ok _ _ h₁ in
      let (_, h₃) = fail_if-eq-ok _ _ _ h₂ in
      let (s', e, h₄) = >>=-eq-ok _ _ h₃ in
      let same = (terminate_commitments-frame s _ _ s' e).1 in
      admit_candidates-le s' t ids (subst AllDistinct (sym same) d) h₄

-- The two kinds of command that admit candidates.
abbrev pub Admits : MaterialCommitmentCommandKind → Type 0
Admits kind = (kind ≡ admit) ⊎ (kind ≡ supersede)

valid_startup-intents :
    (s : MaterialCommitmentStartup) → valid_startup s ≡ true → valid_intents s.intents [] ≡ true
unfolding valid_startup
valid_startup-intents s h = ground arith

-- An Admit or Supersede command that is accepted by a sound authority over-commits no capacity: for
-- every capacity that its candidates request, what all active commitments of the new book hold is
-- at most the quantity that the command observed as available.
pub apply_no_overcommit :
    (a : Authority) (c : MaterialCommitmentCommand) (now : ℕ) (k : MaterialCapacityKey)
    (o : MaterialCapacityObservation)
    → IsSound a
    → (x : Accepted a c now) → Admits c.kind
    → find_observation c.capacity_observations k ≡ some o
    → 0 < requested_by k c.candidates
    → held k x.changed.commitments ≤ o.available_quantity
unfolding apply_to_replacement apply_kind
apply_no_overcommit a c now k o s x m observed wanted =
    let d = AllDistinct-valid_intents _ [] (valid_startup-intents a.durable (s.valid x.healthy)) in
    admitted d m
  where
    admitted :
        AllDistinct a.durable.intents
        → Admits c.kind
        → held k x.changed.commitments ≤ o.available_quantity
    admitted d (inl e) =
        let (_, h) =
          fail_if-eq-ok _ _ _
            (subst (λ q. apply_kind q a.durable c now ≡ ok (x.changed, x.admitted)) e x.changes) in
        admit_candidates-le k c now o observed wanted a.durable x.changed x.admitted d h
    admitted d (inr e) =
        supersede_commitments-le k c now o observed wanted a.durable x.changed x.admitted d
          (subst (λ q. apply_kind q a.durable c now ≡ ok (x.changed, x.admitted)) e x.changes)
