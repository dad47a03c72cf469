-- ===== src/Commitment/Capacity/Held.antt =====
-- What the admitted commitments hold of a capacity is at most what their candidates requested.
use mod_playerbots_economy.Prelude.{
  ℕ, ◌+◌, ◌≤◌, ◌≡◌, refl, sym, ap, subst, inl, inr, Bool, true, false, List, [], ◌∷◌, ◌++◌, Option,
  none, some, Text, arith, sum_of, All, contains, update_first, Bool-cases, ◌==◌, nat_eq, text_eq,
  if◌then◌else◌,
}
use mod_playerbots_economy.Commitment.Types.{
  MaterialCapacityKey, MaterialRequirement, MaterialIntent, MaterialCapacityObservation,
  MaterialReservationRequest, MaterialSourcePath, MaterialReservation, MaterialAdmissionCandidate,
  MaterialCommitment, MaterialCommitmentStartup, MaterialCommitmentCommand,
}
use mod_playerbots_economy.Commitment.Outcome.{
  ok, >>=-eq-ok, fail_if-eq-ok, or_fault-eq-ok, find_intent, capacity_key_eq,
}
use mod_playerbots_economy.Commitment.Validity.{
  is_active, distinct_requirements, valid_requirements, valid_intent, valid_intents,
}
use mod_playerbots_economy.Commitment.Admit.{
  first_path, add_reservation, reservation_of, reservations_for, commitment_of, Admitting,
  admit_requirements, take_horizon, admit_each,
}
use mod_playerbots_economy.Commitment.Frame.{admit_requirements-SameLog}
use mod_playerbots_economy.Commitment.Capacity.{at_key, held_of, held, requested, requested_by}

-- What the requests for one item ask of a capacity.
abbrev requested_for : MaterialCapacityKey → ℕ → List MaterialReservationRequest → ℕ
requested_for k item =
    sum_of (λ r. if r.material_item_id == item then at_key k r.capacity r.capacity_quantity else 0)

held_of-add_reservation :
    (k : MaterialCapacityKey) (matches : Bool) (observations : List MaterialCapacityObservation)
    (r : MaterialReservationRequest) (rest out : List MaterialReservation)
    → add_reservation matches observations r rest ≡ ok out
    → held_of k out
      ≡ (if matches then at_key k r.capacity r.capacity_quantity else 0) + held_of k rest
unfolding add_reservation reservation_of
held_of-add_reservation k false observations r rest out h = ground arith
held_of-add_reservation k true observations r rest out h =
    let (o, _, h₁) = >>=-eq-ok _ _ h in ap (held_of k) (sym (ok-injective h₁))
  where
    ok-injective : {x y : List MaterialReservation} → ok x ≡ ok y → x ≡ y
    ok-injective e = cc

held_of-reservations_for :
    (k : MaterialCapacityKey) (observations : List MaterialCapacityObservation) (item : ℕ)
    (rs : List MaterialReservationRequest) (out : List MaterialReservation)
    → reservations_for observations item rs ≡ ok out
    → held_of k out ≡ requested_for k item rs
unfolding reservations_for
held_of-reservations_for k observations item [] out h = ground arith
held_of-reservations_for k observations item (r ∷ rs) out h =
    let (rest, e, h₁) = >>=-eq-ok _ _ h in
    let tail = held_of-reservations_for k observations item rs rest e in
    let head = held_of-add_reservation k (r.material_item_id == item) observations r rest out h₁ in
    omega (arith, head, tail)

module _ (k : MaterialCapacityKey) where
  -- One request, over the requirements of an intent.
  abbrev counted : ℕ → ℕ → List MaterialRequirement → ℕ
  counted item n = sum_of (λ r. if item == r.item_id then n else 0)

  counted_seen :
      (item n : ℕ) (seen : List ℕ) (rs : List MaterialRequirement)
      → contains item seen ≡ true
      → distinct_requirements seen rs ≡ true
      → counted item n rs ≡ 0
  unfolding distinct_requirements
  counted_seen item n seen [] m h = refl
  counted_seen item n seen (r ∷ rs) m h = ground (arith, counted_seen item n (r.item_id ∷ seen) rs)

  counted-le :
      (item n : ℕ) (seen : List ℕ) (rs : List MaterialRequirement)
      → distinct_requirements seen rs ≡ true
      → counted item n rs ≤ n
  unfolding distinct_requirements
  counted-le item n seen [] h = omega arith
  counted-le item n seen (r ∷ rs) h =
      ground
        (arith, counted_seen item n (r.item_id ∷ seen) rs, counted-le item n (r.item_id ∷ seen) rs)

sum_of-add {ℓ} :
    {A : Type ℓ} (f g : A → ℕ) (xs : List A)
    → sum_of (λ a. f a + g a) xs ≡ sum_of f xs + sum_of g xs
sum_of-add f g [] = omega arith
sum_of-add f g (x ∷ xs) = omega (arith, sum_of-add f g xs)

sum_of-zero {ℓ} : {A : Type ℓ} (xs : List A) → sum_of (λ (a : A). 0) xs ≡ 0
sum_of-zero [] = refl
sum_of-zero (x ∷ xs) = omega (arith, sum_of-zero xs)

-- Each request serves at most one of the requirements, whose items differ.
requested_for-le :
    (k : MaterialCapacityKey) (rs : List MaterialRequirement) (qs : List MaterialReservationRequest)
    → distinct_requirements [] rs ≡ true
    → sum_of (λ r. requested_for k r.item_id qs) rs ≤ requested k qs
requested_for-le k rs [] h = omega (arith, sum_of-zero rs)
requested_for-le k rs (q ∷ qs) h =
    let n = at_key k q.capacity q.capacity_quantity in
    let split =
      sum_of-add (λ (r : MaterialRequirement). if q.material_item_id == r.item_id then n else 0)
        (λ r. requested_for k r.item_id qs) rs in
    omega (arith, split, counted-le k q.material_item_id n [] rs h, requested_for-le k rs qs h)

held-append :
    (k : MaterialCapacityKey) (cs ds : List MaterialCommitment)
    → held k (cs ++ ds) ≡ held k cs + held k ds
held-append k [] ds = omega arith
held-append k (c ∷ cs) ds = omega (arith, held-append k cs ds)

held-admit_requirements :
    (k : MaterialCapacityKey) (command : MaterialCommitmentCommand)
    (candidate : MaterialAdmissionCandidate) (intent : MaterialIntent)
    (rs : List MaterialRequirement) (a b : Admitting)
    → admit_requirements command candidate intent rs a ≡ ok b
    → held k b.state.commitments
      ≡ held k a.state.commitments
        + sum_of (λ r. requested_for k r.item_id candidate.reservations) rs
unfolding admit_requirements commitment_of is_active
held-admit_requirements k command candidate intent [] a b h = ground arith
held-admit_requirements k command candidate intent (r ∷ rs) a b h =
    let (_, h₁) = fail_if-eq-ok _ _ _ h in
    let (_, _, h₂) = >>=-eq-ok _ _ h₁ in
    let (out, e, h₃) = >>=-eq-ok _ _ h₂ in
    let first =
      held_of-reservations_for k command.capacity_observations r.item_id candidate.reservations out
        e in
    let rest = held-admit_requirements k command candidate intent rs _ b h₃ in
    omega (arith, first, rest, held-append k a.state.commitments)

-- The requirements of every intent name different items.
abbrev pub AllDistinct : List MaterialIntent → Type 0
AllDistinct = All (λ i. distinct_requirements [] i.requirements ≡ true)

pub AllDistinct-valid_intents :
    (is : List MaterialIntent) (seen : List Text) → valid_intents is seen ≡ true → AllDistinct is
unfolding valid_intents valid_intent valid_requirements
AllDistinct-valid_intents [] seen h = tt
AllDistinct-valid_intents (i ∷ is) seen h =
    (ground arith, AllDistinct-valid_intents is (i.origin_identity ∷ seen) (ground arith))

AllDistinct-take_horizon :
    (s : MaterialCommitmentStartup) (origin : Text) (path : Option MaterialSourcePath)
    → AllDistinct s.intents
    → AllDistinct (take_horizon s origin path).intents
unfolding take_horizon
AllDistinct-take_horizon s origin none h = h
AllDistinct-take_horizon s origin (some path) h = go s.intents h
  where
    go :
        (is : List MaterialIntent)
        → AllDistinct is
        → AllDistinct (
            update_first
              (λ i. i.origin_identity == origin)
              (λ i. record i { needed_by = some path.needed_by })
              is)
    go [] h = tt
    go (i ∷ is) h = elim (Bool-cases (i.origin_identity == origin)) [
      | inl e ↦ rw e (h.0, h.1)
      | inr e ↦ rw e (h.0, go is h.1)
    ]

find_intent-AllDistinct :
    (is : List MaterialIntent) (origin : Text) (i : MaterialIntent)
    → AllDistinct is
    → find_intent is origin ≡ some i
    → distinct_requirements [] i.requirements ≡ true
unfolding find_intent
find_intent-AllDistinct [] origin i d h = cc
find_intent-AllDistinct (x ∷ xs) origin i d h =
    ground (arith, d.0, find_intent-AllDistinct xs origin i d.1)

take_horizon-commitments :
    (s : MaterialCommitmentStartup) (origin : Text) (path : Option MaterialSourcePath)
    → (take_horizon s origin path).commitments ≡ s.commitments
unfolding take_horizon
take_horizon-commitments s origin none = refl
take_horizon-commitments s origin (some path) = refl

-- The loop over the candidates.
pub held-admit_each :
    (k : MaterialCapacityKey) (command : MaterialCommitmentCommand)
    (cs : List MaterialAdmissionCandidate) (a b : Admitting)
    → AllDistinct a.state.intents
    → admit_each command cs a ≡ ok b
    → held k b.state.commitments ≤ held k a.state.commitments + requested_by k cs
unfolding admit_each
held-admit_each k command [] a b d h = ground arith
held-admit_each k command (c ∷ cs) a b d h =
    let (intent, e, h₁) = >>=-eq-ok _ _ h in
    let (a', f, h₂) = >>=-eq-ok _ _ h₁ in
    let path = first_path c.source_paths in
    let d₁ = AllDistinct-take_horizon a.state c.origin_identity path d in
    let found = find_intent-AllDistinct _ c.origin_identity intent d₁ (or_fault-eq-ok _ e) in
    let (_, same) = admit_requirements-SameLog command c intent intent.requirements _ a' f in
    let first = held-admit_requirements k command c intent intent.requirements _ a' f in
    let kept = ap (held k) (take_horizon-commitments a.state c.origin_identity path) in
    let fair = requested_for-le k intent.requirements c.reservations found in
    let rest = held-admit_each k command cs a' b (subst AllDistinct (sym same) d₁) h₂ in
    omega (arith, first, kept, fair, rest)
