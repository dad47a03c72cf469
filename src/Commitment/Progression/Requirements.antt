-- ===== src/Commitment/Progression/Requirements.antt =====
-- Sorted requirements without equal neighbours pass the check of ValidRequirements.
use mod_playerbots_economy.Prelude.{
  ℕ, ◌≤◌, ◌<◌, ◌≡◌, refl, inl, inr, Bool, true, false, not, ◌&&◌, ◌||◌, List, [], ◌∷◌, arith,
  is_empty, any_of, contains, leb, Bool-cases, ◌==◌, nat_eq,
}
use mod_playerbots_economy.Commitment.Types.{MaterialRequirement}
use mod_playerbots_economy.Commitment.Validity.{distinct_requirements}
use mod_playerbots_economy.Commitment.Progression.{
  insert_requirement, sort_requirements, has_adjacent,
}

-- The item ids do not fall, from a bound on.
abbrev Ascends : ℕ → List MaterialRequirement → Type 0
Ascends low [] = Unit
Ascends low (r ∷ rs) = (low ≤ r.item_id) × Ascends r.item_id rs

-- The item ids grow, from a bound on.
abbrev pub Climbs : ℕ → List MaterialRequirement → Type 0
Climbs low [] = Unit
Climbs low (r ∷ rs) = (low < r.item_id) × Climbs r.item_id rs

insert_requirement-Ascends :
    (r : MaterialRequirement) (rs : List MaterialRequirement) (low : ℕ)
    → Ascends low rs
    → low ≤ r.item_id
    → Ascends low (insert_requirement r rs)
unfolding insert_requirement
insert_requirement-Ascends r [] low a le = (le, tt)
insert_requirement-Ascends r (q ∷ qs) low a le = elim (Bool-cases (leb r.item_id q.item_id)) [
  | inl e ↦ rw e (le, (ground arith, a.1))
  | inr e ↦ rw e (a.0, insert_requirement-Ascends r qs q.item_id a.1 (ground arith))
]

sort_requirements-Ascends : (rs : List MaterialRequirement) → Ascends 0 (sort_requirements rs)
unfolding sort_requirements
sort_requirements-Ascends [] = tt
sort_requirements-Ascends (r ∷ rs) =
    insert_requirement-Ascends r (sort_requirements rs) 0 (sort_requirements-Ascends rs)
      (omega arith)

has_adjacent-Climbs :
    (r : MaterialRequirement) (rs : List MaterialRequirement)
    → Ascends r.item_id rs
    → has_adjacent (r ∷ rs) ≡ false
    → Climbs r.item_id rs
unfolding has_adjacent
has_adjacent-Climbs r [] a h = tt
has_adjacent-Climbs r (q ∷ qs) a h = (ground arith, has_adjacent-Climbs q qs a.1 (ground arith))

abbrev pub is_bad : MaterialRequirement → Bool
is_bad r = r.item_id == 0 || r.quantity == 0

pub distinct_requirements-Climbs :
    (seen : List ℕ) (low : ℕ) (rs : List MaterialRequirement)
    → ((n : ℕ) → low < n → contains n seen ≡ false)
    → Climbs low rs
    → any_of is_bad rs ≡ false
    → distinct_requirements seen rs ≡ true
unfolding distinct_requirements
distinct_requirements-Climbs seen low [] fresh c h = refl
distinct_requirements-Climbs seen low (r ∷ rs) fresh c h =
    let new : contains r.item_id seen ≡ false = fresh r.item_id c.0 in
    let rest =
      distinct_requirements-Climbs (r.item_id ∷ seen) r.item_id rs later c.1 (ground arith) in
    passes r.item_id r.quantity _ _ new rest h
  where
    later : (n : ℕ) → r.item_id < n → contains n (r.item_id ∷ seen) ≡ false
    later n lt =
        let old : contains n seen ≡ false = fresh n (omega (arith, c.0, lt)) in ground arith

    passes :
        (id quantity : ℕ) (x y : Bool)
        → x ≡ false
        → y ≡ true
        → (id == 0 || quantity == 0 || any_of is_bad rs) ≡ false
        → (not (id == 0) && not (quantity == 0) && not x && y) ≡ true
    passes id quantity x y ex ey g = ground arith

-- What BuildProfessionProgressionObserve tests of its sorted requirements is enough.
pub sort_requirements-distinct :
    (rs : List MaterialRequirement)
    → any_of is_bad (sort_requirements rs) ≡ false
    → has_adjacent (sort_requirements rs) ≡ false
    → distinct_requirements [] (sort_requirements rs) ≡ true
sort_requirements-distinct rs h d = sorted (sort_requirements rs) (sort_requirements-Ascends rs) h d
  where
    sorted :
        (qs : List MaterialRequirement)
        → Ascends 0 qs
        → any_of is_bad qs ≡ false
        → has_adjacent qs ≡ false
        → distinct_requirements [] qs ≡ true
    sorted [] a bad adjacent = unfold distinct_requirements in refl
    sorted (q ∷ qs) a bad adjacent =
        distinct_requirements-Climbs [] 0 (q ∷ qs) (λ n lt. refl)
          (ground arith, has_adjacent-Climbs q qs a.1 adjacent) bad

pub insert_requirement-nonempty :
    (r : MaterialRequirement) (rs : List MaterialRequirement)
    → is_empty (insert_requirement r rs) ≡ false
unfolding insert_requirement
insert_requirement-nonempty r [] = refl
insert_requirement-nonempty r (q ∷ qs) = ground arith

pub is_empty-sort_requirements :
    (rs : List MaterialRequirement) → is_empty rs ≡ false → is_empty (sort_requirements rs) ≡ false
unfolding sort_requirements
is_empty-sort_requirements [] h = h
is_empty-sort_requirements (r ∷ rs) h = insert_requirement-nonempty r (sort_requirements rs)
