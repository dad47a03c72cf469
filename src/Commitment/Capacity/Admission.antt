-- ===== src/Commitment/Capacity/Admission.antt =====
-- An admission never reserves more of a capacity than was observed of it.
use mod_playerbots_economy.Prelude.{
  ℕ, ◌+◌, ◌-◌, ◌≤◌, ◌<◌, ◌≡◌, sym, ap, ◌∙◌, inl, inr, true, false, ◌||◌, List, [], ◌∷◌, some, Text,
  arith, Bool-cases, ◌==◌, nat_eq, text_eq, ltb, if◌then◌else◌,
}
use mod_playerbots_economy.Commitment.Types.{
  MaterialCapacityKey, MaterialCapacityObservation, MaterialReservationRequest, MaterialSourcePath,
  MaterialAdmissionCandidate, MaterialCommitmentStartup, MaterialCommitmentCommand,
}
use mod_playerbots_economy.Commitment.Outcome.{
  ok, >>=-eq-ok, fail_if-eq-ok, test-eq-ok, or_fail-eq-ok, or_fault-eq-ok, Ledger, reserved_at,
  capacity_key_eq,
}
use mod_playerbots_economy.Commitment.Admission.{
  find_observation, reserve_requests, check_candidate, check_candidates, check_capacity,
}
use mod_playerbots_economy.Commitment.Capacity.{requested, requested_by, reserved_at-reserve}

reserved_at-reserve_requests :
    (k : MaterialCapacityKey) (observations : List MaterialCapacityObservation)
    (paths : List MaterialSourcePath) (rs : List MaterialReservationRequest)
    (newly newly' : Ledger MaterialCapacityKey)
    → reserve_requests observations paths rs newly ≡ ok newly'
    → reserved_at k newly' ≡ reserved_at k newly + requested k rs
unfolding reserve_requests
reserved_at-reserve_requests k observations paths [] newly newly' h = ground arith
reserved_at-reserve_requests k observations paths (r ∷ rs) newly newly' h =
    let (_, _, h₁) = >>=-eq-ok _ _ h in
    let (_, h₂) = fail_if-eq-ok _ _ _ h₁ in
    let (_, h₃) = fail_if-eq-ok _ _ _ h₂ in
    let (middle, e, h₄) = >>=-eq-ok _ _ h₃ in
    let (_, h₅) = fail_if-eq-ok _ _ _ h₄ in
    let first =
      reserved_at-reserve k r.capacity r.capacity_quantity newly middle (or_fail-eq-ok _ _ e) in
    let rest = reserved_at-reserve_requests k observations paths rs middle newly' h₅ in
    omega (arith, first, rest)

reserved_at-check_candidate :
    (k : MaterialCapacityKey) (s : MaterialCommitmentStartup) (c : MaterialCommitmentCommand)
    (now : ℕ) (candidate : MaterialAdmissionCandidate) (newly newly' : Ledger MaterialCapacityKey)
    → check_candidate s c now candidate newly ≡ ok newly'
    → reserved_at k newly' ≡ reserved_at k newly + requested k candidate.reservations
unfolding check_candidate
reserved_at-check_candidate k s c now candidate newly newly' h =
    let (_, _, h₁) = >>=-eq-ok _ _ h in
    let (_, h₂) = fail_if-eq-ok _ _ _ h₁ in
    let (_, h₃) = test-eq-ok _ _ h₂ in
    let (_, h₄) = fail_if-eq-ok _ _ _ h₃ in
    let (_, _, h₅) = >>=-eq-ok _ _ h₄ in
    let (_, h₆) = test-eq-ok _ _ h₅ in
    reserved_at-reserve_requests k c.capacity_observations candidate.source_paths
      candidate.reservations newly newly' h₆

pub reserved_at-check_candidates :
    (k : MaterialCapacityKey) (s : MaterialCommitmentStartup) (c : MaterialCommitmentCommand)
    (now : ℕ) (cs : List MaterialAdmissionCandidate) (origins : List Text)
    (newly newly' : Ledger MaterialCapacityKey)
    → check_candidates s c now cs origins newly ≡ ok newly'
    → reserved_at k newly' ≡ reserved_at k newly + requested_by k cs
unfolding check_candidates
reserved_at-check_candidates k s c now [] origins newly newly' h = ground arith
reserved_at-check_candidates k s c now (x ∷ xs) origins newly newly' h =
    let (_, h₁) = fail_if-eq-ok _ _ _ h in
    let (middle, e, h₂) = >>=-eq-ok _ _ h₁ in
    let first = reserved_at-check_candidate k s c now x newly middle e in
    let rest = reserved_at-check_candidates k s c now xs _ middle newly' h₂ in
    omega (arith, first, rest)

-- A capacity that is newly reserved is within what its observation leaves.
pub check_capacity-le :
    (k : MaterialCapacityKey) (observations : List MaterialCapacityObservation)
    (retained newly : Ledger MaterialCapacityKey) (o : MaterialCapacityObservation)
    → find_observation observations k ≡ some o
    → check_capacity observations retained newly ≡ ok tt
    → 0 < reserved_at k newly
    → reserved_at k retained + reserved_at k newly ≤ o.available_quantity
unfolding check_capacity reserved_at
check_capacity-le k observations retained [] o f h p = absurd (omega arith)
check_capacity-le k observations retained ((key, quantity) ∷ newly) o f h p =
    let (o', e, h₁) = >>=-eq-ok _ _ h in
    let (t, h₂) = fail_if-eq-ok _ _ _ h₁ in
    elim (Bool-cases (key == k)) [
      | inl same ↦ fits same o' (or_fault-eq-ok _ e) t
      | inr other ↦
          rw other (check_capacity-le k observations retained newly o f h₂ (rw other at p))
    ]
  where
    fits :
        (key == k) ≡ true
        → (o' : MaterialCapacityObservation) → find_observation observations key ≡ some o'
        → (ltb o'.available_quantity (reserved_at key retained)
            || ltb (o'.available_quantity - reserved_at key retained) quantity)
          ≡ false
        → reserved_at k retained + (if key == k then quantity else reserved_at k newly)
          ≤ o.available_quantity
    fits same o' e t =
        let p : key ≡ k = (capacity_key_eq.equals_iff key k).0 same in
        let q : o' ≡ o = some-injective (sym e ∙ ap (find_observation observations) p ∙ f) in
        rw (same, ← p, ← q) (within _ _ _ t)
      where
        some-injective : some o' ≡ some o → o' ≡ o
        some-injective h = cc

        within : (a r n : ℕ) → (ltb a r || ltb (a - r) n) ≡ false → r + n ≤ a
        within a r n t = ground arith
