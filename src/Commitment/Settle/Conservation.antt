-- ===== src/Commitment/Settle/Conservation.antt =====
-- What a partial fulfillment takes from the backing of the reservations.
use mod_playerbots_economy.Prelude.{
  ℕ, ◌+◌, ◌-◌, ◌≤◌, ◌<◌, ◌≡◌, refl, sym, ◌∙◌, inl, inr, Bool, true, false, not, ◌&&◌, ◌||◌, List,
  [], ◌∷◌, some, arith, sum_of, find_if, update_first, contains, keep_if, Bool-cases, is_empty, ltb,
  ◌==◌, nat_eq,
}
use mod_playerbots_economy.Commitment.Types.{
  MaterialCapacityKey, MaterialReservation, MaterialReservationSettlement, MaterialFulfillment,
  MaterialCommitment, MaterialCommitmentApplyStatus.invalid_command,
}
use mod_playerbots_economy.Commitment.Outcome.{
  ok, fail_if, >>=-ok, fail_if-false, >>=-eq-ok, fail_if-eq-ok, or_fail-eq-ok, checked_add,
  capacity_key_eq,
}
use mod_playerbots_economy.Commitment.Settle.{
  find_reservation, check_releases, release_reservation, release_all, settle_commitment,
  check_fulfillment,
}

-- The backing that is left in the reservations.
abbrev pub backing : List MaterialReservation → ℕ
backing = sum_of (λ r. r.remaining_backed_material_quantity)

key_eq : (a b : MaterialCapacityKey) → (a == b) ≡ true → a ≡ b
key_eq a b = (capacity_key_eq.equals_iff a b).0

-- One release lowers the backing by its quantity, where the reservation has as much.
backing-release :
    (s : MaterialReservationSettlement) (rs : List MaterialReservation) (r : MaterialReservation)
    → find_reservation rs s.capacity ≡ some r
    → s.backed_material_quantity ≤ r.remaining_backed_material_quantity
    → backing (update_first (λ q. q.capacity == s.capacity) (release_reservation s) rs)
        + s.backed_material_quantity
      ≡ backing rs
unfolding find_reservation release_reservation
backing-release s [] r h le = cc
backing-release s (q ∷ qs) r h le = elim (Bool-cases (q.capacity == s.capacity)) [
  | inl e ↦ rw e (taken (found e))
  | inr e ↦ rw e (omega (arith, backing-release s qs r (later e) le))
]
  where
    found : (q.capacity == s.capacity) ≡ true → q ≡ r
    found e = ground arith

    later : (q.capacity == s.capacity) ≡ false → find_if (λ p. p.capacity == s.capacity) qs ≡ some r
    later e = ground arith

    taken :
        q ≡ r
        → q.remaining_backed_material_quantity
            - s.backed_material_quantity
            + backing qs
            + s.backed_material_quantity
          ≡ q.remaining_backed_material_quantity + backing qs
    taken e =
        let le' : s.backed_material_quantity ≤ q.remaining_backed_material_quantity = rw e le in
        omega arith

-- A release of another capacity leaves a search alone.
find-release_ne :
    (s : MaterialReservationSettlement) (key : MaterialCapacityKey) (rs : List MaterialReservation)
    → (key == s.capacity) ≡ false
    → find_reservation (update_first (λ q. q.capacity == s.capacity) (release_reservation s) rs) key
      ≡ find_reservation rs key
unfolding find_reservation release_reservation
find-release_ne s key [] n = refl
find-release_ne s key (q ∷ qs) n = elim (Bool-cases (q.capacity == s.capacity)) [
  | inl e ↦ rw (e, other e)
  | inr e ↦ rw (e, find-release_ne s key qs n)
]
  where
    other : (q.capacity == s.capacity) ≡ true → (q.capacity == key) ≡ false
    other e = elim (Bool-cases (q.capacity == key)) [
      | inr t ↦ t
      | inl t ↦ absurd (
          clash ((capacity_key_eq.equals_iff key s.capacity).1 (sym (key_eq _ _ t) ∙ key_eq _ _ e)))
    ]
      where
        clash : (key == s.capacity) ≡ true → ⊥
        clash t = cc

key_ne :
    (a b : MaterialCapacityKey) (seen : List MaterialCapacityKey)
    → contains a seen ≡ true
    → contains b seen ≡ false
    → (b == a) ≡ false
key_ne a b seen p q = elim (Bool-cases (b == a)) [
  | inl e ↦ absurd (clash (key_eq b a e))
  | inr e ↦ e
]
  where
    clash : b ≡ a → ⊥
    clash e = let t : contains b seen ≡ true = rw e p in cc

last_false : (x y z : Bool) → (x || y || z) ≡ false → z ≡ false
last_false x y z e = ground arith

-- The checks of the later settlements do not see a release of a capacity that was met before.
check_releases-release :
    (s : MaterialReservationSettlement) (rs : List MaterialReservation)
    (ss : List MaterialReservationSettlement) (seen : List MaterialCapacityKey) (total n : ℕ)
    → contains s.capacity seen ≡ true
    → check_releases rs ss seen total ≡ ok n
    → check_releases
        (update_first (λ q. q.capacity == s.capacity) (release_reservation s) rs)
        ss
        seen
        total
      ≡ ok n
unfolding check_releases
check_releases-release s rs [] seen total n met h = h
check_releases-release s rs (x ∷ xs) seen total n met h =
    let (t, h₁) = fail_if-eq-ok _ _ _ h in
    let (r, e, h₂) = >>=-eq-ok _ _ h₁ in
    let (u, h₃) = fail_if-eq-ok _ _ _ h₂ in
    let (m, f, h₄) = >>=-eq-ok _ _ h₃ in
    let unmet =
      last_false (is_empty x.capacity.authority_identity) (x.capacity_quantity == 0) _ t in
    let ne = key_ne s.capacity x.capacity seen met unmet in
    let rest = check_releases-release s rs xs (x.capacity ∷ seen) m n (still met) h₄ in
    rw (t, fail_if-false, find-release_ne s x.capacity rs ne, e, >>=-ok)
      (rw (u, fail_if-false, f, >>=-ok) rest)
  where
    still :
        contains s.capacity seen ≡ true
        → (s.capacity == x.capacity || contains s.capacity seen) ≡ true
    still m = ground arith

-- All releases together lower the backing by their total.
backing-release_all :
    (rs : List MaterialReservation) (ss : List MaterialReservationSettlement)
    (seen : List MaterialCapacityKey) (total n : ℕ)
    → check_releases rs ss seen total ≡ ok n
    → backing (release_all ss rs) + n ≡ backing rs + total
unfolding check_releases release_all
backing-release_all rs [] seen total n h = ground arith
backing-release_all rs (s ∷ ss) seen total n h =
    let (t, h₁) = fail_if-eq-ok _ _ _ h in
    let (r, e, h₂) = >>=-eq-ok _ _ h₁ in
    let (u, h₃) = fail_if-eq-ok _ _ _ h₂ in
    let (m, f, h₄) = >>=-eq-ok _ _ h₃ in
    let first =
      backing-release s rs r (or_fail-eq-ok _ _ e)
        (within r.remaining_backed_material_quantity s.backed_material_quantity _ _ u) in
    let later = check_releases-release s rs ss (s.capacity ∷ seen) m n met h₄ in
    let rest =
      backing-release_all (update_first (λ q. q.capacity == s.capacity) (release_reservation s) rs)
        ss (s.capacity ∷ seen) m n later in
    omega (arith, first, rest, sum total s.backed_material_quantity m (or_fail-eq-ok _ _ f))
  where
    met : (s.capacity == s.capacity || contains s.capacity seen) ≡ true
    met = rw ((capacity_key_eq.equals_iff s.capacity s.capacity).1 refl)

    within : (a b : ℕ) (x y : Bool) → (ltb a b || x || y) ≡ false → b ≤ a
    within a b x y u = ground arith

    sum : (a b m : ℕ) → checked_add a b ≡ some m → m ≡ a + b
    sum a b m e = unfold checked_add in ground arith

-- The reservations whose capacity the releases have used up. The code drops them, and with them
-- what backing they still have.
abbrev pub used_up : MaterialFulfillment → MaterialCommitment → List MaterialReservation
used_up f c =
    keep_if (λ r. r.remaining_capacity_quantity == 0)
      (release_all f.reservation_settlements c.reservations)

backing-keep_if :
    (p : MaterialReservation → Bool) (rs : List MaterialReservation)
    → backing (keep_if (λ r. not (p r)) rs) + backing (keep_if p rs) ≡ backing rs
backing-keep_if p [] = refl
backing-keep_if p (r ∷ rs) = ground (arith, backing-keep_if p rs)

-- When a fulfillment that leaves something open is accepted, the remaining quantity falls by exactly
-- the quantity fulfilled. The backing of the reservations that the commitment then holds, the
-- backing still in those that it dropped because their capacity is used up, and the quantity
-- fulfilled are together the backing before. The commitment holds the released reservations that
-- still have capacity.
pub settle_conserves :
    (f : MaterialFulfillment) (c : MaterialCommitment)
    → check_fulfillment f c ≡ ok tt
    → f.quantity < c.remaining_quantity
    → ((settle_commitment f c).remaining_quantity + f.quantity ≡ c.remaining_quantity)
      × (backing (settle_commitment f c).reservations + backing (used_up f c) + f.quantity
          ≡ backing c.reservations)
      × ((settle_commitment f c).reservations
          ≡ keep_if
              (λ r. not (r.remaining_capacity_quantity == 0))
              (release_all f.reservation_settlements c.reservations))
unfolding check_fulfillment settle_commitment
settle_conserves f c h leaves =
    let (_, h₁) = fail_if-eq-ok _ _ _ h in
    let (_, h₂) = fail_if-eq-ok _ _ _ h₁ in
    let (total, e, h₃) = >>=-eq-ok _ _ h₂ in
    let spent = backing-release_all c.reservations f.reservation_settlements [] 0 total e in
    let same : total ≡ f.quantity = exact total (passes _ h₃) in
    let unfinished : (c.remaining_quantity - f.quantity == 0) ≡ false = ground arith in
    let split =
      backing-keep_if (λ r. r.remaining_capacity_quantity == 0)
        (release_all f.reservation_settlements c.reservations) in
    (rw unfinished (omega arith), rw unfinished (omega (arith, spent, same, split)), rw unfinished)
  where
    passes : (test : Bool) → fail_if test invalid_command ≡ ok tt → test ≡ false
    passes test g = unfold fail_if in ground arith

    exact :
        (total : ℕ)
        → (ltb f.quantity c.remaining_quantity && not (total == f.quantity)) ≡ false
        → total ≡ f.quantity
    exact total g = ground arith
