-- ===== src/Commitment/Capacity.antt =====
-- How much of a capacity is held: the ledgers of ValidateAdmissionFacts and ValidStartup against
-- plain sums over the reservations.
pub mod Held
pub mod Bound
pub mod Admission
use mod_playerbots_economy.Prelude.{
  ℕ, ◌+◌, ◌≤◌, ◌<◌, ◌≡◌, refl, sym, ap, ◌∙◌, ◌⊎◌, inl, inr, Bool, true, false, List, [], ◌∷◌, ◌++◌,
  Option, none, some, arith, sum_of, Bool-cases, Option-cases, Equality, ◌==◌, if◌then◌else◌,
}
use mod_playerbots_economy.Commitment.Types.{
  MaterialCapacityKey, MaterialReservation, MaterialReservationRequest, MaterialAdmissionCandidate,
  MaterialCommitment,
}
use mod_playerbots_economy.Commitment.Outcome.{
  checked_add, Ledger, reserved_at, write_at, reserve, capacity_key_eq,
}
use mod_playerbots_economy.Commitment.Validity.{is_active, reserve_all}
use mod_playerbots_economy.Commitment.Admission.{retained_capacity}

-- A quantity that counts at one key.
abbrev pub at_key {ℓ} : {K : Type ℓ} ⦃e : Equality K⦄ → K → K → ℕ → ℕ
at_key k key n = if key == k then n else 0

-- What the reservations of one commitment hold of a capacity.
abbrev pub held_of : MaterialCapacityKey → List MaterialReservation → ℕ
held_of k = sum_of (λ r. at_key k r.capacity r.remaining_capacity_quantity)

-- What the active commitments hold of a capacity.
abbrev pub held : MaterialCapacityKey → List MaterialCommitment → ℕ
held k = sum_of (λ c. if is_active c.state then held_of k c.reservations else 0)

-- What the requests of one candidate, and of all candidates, ask of a capacity.
abbrev pub requested : MaterialCapacityKey → List MaterialReservationRequest → ℕ
requested k = sum_of (λ r. at_key k r.capacity r.capacity_quantity)

abbrev pub requested_by : MaterialCapacityKey → List MaterialAdmissionCandidate → ℕ
requested_by k = sum_of (λ c. requested k c.reservations)

module _ {K : Type 0} ⦃e : Equality K⦄ where
  reserved_at-write_at :
      (k key : K) (total : ℕ) (ledger : Ledger K)
      → reserved_at k (write_at key total ledger)
        ≡ (if key == k then total else reserved_at k ledger)
  unfolding reserved_at write_at
  reserved_at-write_at k key total [] = refl
  reserved_at-write_at k key total ((j, old) ∷ ledger) = ground (
    arith,
    e.equals_iff j key,
    e.equals_iff j k,
    e.equals_iff key k,
    reserved_at-write_at k key total ledger,
  )

  -- A reservation adds its quantity at its key.
  pub reserved_at-reserve :
      (k key : K) (quantity : ℕ) (ledger ledger' : Ledger K)
      → reserve ledger key quantity ≡ some ledger'
      → reserved_at k ledger' ≡ reserved_at k ledger + at_key k key quantity
  unfolding reserve checked_add
  reserved_at-reserve k key quantity ledger ledger' h = ground (
    arith,
    e.equals_iff key k,
    reserved_at-write_at k key (reserved_at key ledger + quantity) ledger,
  )

pub reserved_at-reserve_all :
    (k : MaterialCapacityKey) (rs : List MaterialReservation)
    (ledger ledger' : Ledger MaterialCapacityKey)
    → reserve_all rs ledger ≡ some ledger'
    → reserved_at k ledger' ≡ reserved_at k ledger + held_of k rs
unfolding reserve_all
reserved_at-reserve_all k [] ledger ledger' h = ground arith
reserved_at-reserve_all k (r ∷ rs) ledger ledger' h =
    elim (Option-cases (reserve ledger r.capacity r.remaining_capacity_quantity)) [
      | inl e ↦ ground arith
      | inr (middle, e) ↦ ground (
        arith,
        reserved_at-reserve k r.capacity r.remaining_capacity_quantity ledger middle e,
        reserved_at-reserve_all k rs middle ledger',
      )
    ]

-- The ledger that the active commitments leave is the sum of what they hold.
pub reserved_at-retained_capacity :
    (k : MaterialCapacityKey) (cs : List MaterialCommitment)
    (ledger ledger' : Ledger MaterialCapacityKey)
    → retained_capacity cs ledger ≡ some ledger'
    → reserved_at k ledger' ≡ reserved_at k ledger + held k cs
unfolding retained_capacity
reserved_at-retained_capacity k [] ledger ledger' h = ground arith
reserved_at-retained_capacity k (c ∷ cs) ledger ledger' h =
    elim (Option-cases (reserve_all c.reservations ledger)) [
      | inl e ↦ ground (arith, reserved_at-retained_capacity k cs ledger ledger')
      | inr (middle, e) ↦ ground (
        arith,
        reserved_at-reserve_all k c.reservations ledger middle e,
        reserved_at-retained_capacity k cs middle ledger',
        reserved_at-retained_capacity k cs ledger ledger',
      )
    ]
