-- ===== src/Commitment/Scarce/Valid.antt =====
-- The scarce requirements of a craft pass the check of ValidRequirements.
use native.Mathlib.Nat.{mod-eq_of_lt}
use mod_playerbots_economy.Prelude.{
  ℕ, ◌+◌, ◌-◌, ◌*◌, ◌/◌, ◌^◌, ◌<◌, ◌≡◌, refl, sym, subst, ◌∙◌, inl, inr, true, false, not, ◌&&◌,
  ◌||◌, List, [], ◌∷◌, none, some, arith, is_empty, any_of, ltb, leb, All, Bool-cases, Option-cases,
  if◌then◌else◌, ◌==◌, nat_eq,
}
use mod_playerbots_economy.Commitment.Types.{MaterialRequirement}
use mod_playerbots_economy.Commitment.Encoding.{u64}
use mod_playerbots_economy.Commitment.Outcome.{checked_add}
use mod_playerbots_economy.Commitment.Path.{u32_max}
use mod_playerbots_economy.Commitment.Validity.{valid_requirements, distinct_requirements}
use mod_playerbots_economy.Commitment.Scarce.{
  ProfessionProgressionReagentFact, Bill, billed_at, write_bill, milled, billed, shortfall,
  add_reagent, reagent_bill, bill_requirements, profession_progression_scarce_requirements,
}
use mod_playerbots_economy.Commitment.Progression.Requirements.{
  Climbs, is_bad, distinct_requirements-Climbs,
}

-- The items grow from a bound on, and something is required of each.
abbrev Ordered : ℕ → Bill → Type 0
Ordered low [] = Unit
Ordered low ((key, required) ∷ bill) = (low < key) × (0 < required) × Ordered key bill

write_bill-Ordered :
    (item total : ℕ) (bill : Bill) (low : ℕ)
    → Ordered low bill
    → low < item
    → 0 < total
    → Ordered low (write_bill item total bill)
unfolding write_bill
write_bill-Ordered item total [] low o lt pos = (lt, pos, tt)
write_bill-Ordered item total ((key, old) ∷ bill) low o lt pos = elim (Bool-cases (key == item)) [
  | inl e ↦ rw e (lt, pos, subst (λ k. Ordered k bill) ((nat_eq.equals_iff key item).0 e) o.2)
  | inr e ↦ elim (Bool-cases (ltb item key)) [
    | inl f ↦ rw (e, f) (lt, pos, (ground arith, o.1, o.2))
    | inr f ↦ rw (e, f) (o.0, o.1, write_bill-Ordered item total bill key o.2 (ground arith) pos)
  ]
]

-- What a shortfall makes of a line: an item and a quantity, neither 0.
billed-positive :
    (r : ProfessionProgressionReagentFact) (required : ℕ)
    → (r.item_id == 0) ≡ false
    → 0 < required
    → required < 2 ^ 62
    → (0 < (billed r required).0) × (0 < (billed r required).1)
unfolding billed milled
billed-positive r required item pos small =
    let same : u64 (required + 2 - 1) ≡ required + 2 - 1 = mod-eq_of_lt (omega arith) in
    let whole : u64 ((required + 2 - 1) / 2 * 5) ≡ (required + 2 - 1) / 2 * 5 =
      mod-eq_of_lt (omega arith) in
    ground (arith, same, whole)

shortfall-le :
    (batch : ℕ) (r : ProfessionProgressionReagentFact)
    → r.per_craft_quantity * batch < 2 ^ 62
    → shortfall batch r < 2 ^ 62
unfolding shortfall
shortfall-le batch r small =
    let same : u64 (r.per_craft_quantity * batch) ≡ r.per_craft_quantity * batch =
      mod-eq_of_lt (omega arith) in
    rw same (bounded (r.per_craft_quantity * batch) small)
  where
    bounded : (n : ℕ) → n < 2 ^ 62 → (if ltb r.owned_count n then n - r.owned_count else 0) < 2 ^ 62
    bounded n h = ground arith

checked_add-positive : (a b t : ℕ) → 0 < b → checked_add a b ≡ some t → 0 < t
unfolding checked_add
checked_add-positive a b t pos h = ground arith

add_reagent-Ordered :
    (batch : ℕ) (r : ProfessionProgressionReagentFact) (bill more : Bill)
    → r.per_craft_quantity * batch < 2 ^ 62
    → (r.item_id == 0) ≡ false
    → Ordered 0 bill
    → add_reagent batch r bill ≡ some more
    → Ordered 0 more
unfolding add_reagent
add_reagent-Ordered batch r bill more small item o h =
    elim (Bool-cases (r.ordinary_vendor_available || shortfall batch r == 0)) [
      | inl e ↦ subst (λ b. Ordered 0 b) (kept bill more (sym (rw e refl) ∙ h)) o
      | inr e ↦
          let p =
            billed-positive r (shortfall batch r) item (ground arith)
              (shortfall-le batch r small) in
          elim (Option-cases (
            checked_add (billed_at (billed r (shortfall batch r)).0 bill)
              (billed r (shortfall batch r)).1)) [
                | inl n ↦ absurd (clash (sym (rw (e, n) refl) ∙ h))
                | inr (t, n) ↦
                    subst (λ b. Ordered 0 b) (kept _ more (sym (rw (e, n) refl) ∙ h))
                      (write_bill-Ordered _ t bill 0 o p.0 (checked_add-positive _ _ t p.1 n))
              ]
    ]
  where
    kept : (b d : Bill) → some b ≡ some d → b ≡ d
    kept b d q = cc

    clash : none ≡ some more → ⊥
    clash q = cc

reagent_bill-Ordered :
    (batch : ℕ) (rs : List ProfessionProgressionReagentFact) (bill more : Bill)
    → All (λ r. r.per_craft_quantity * batch < 2 ^ 62) rs
    → Ordered 0 bill
    → reagent_bill batch rs bill ≡ some more
    → Ordered 0 more
unfolding reagent_bill
reagent_bill-Ordered batch [] bill more small o h = subst (λ b. Ordered 0 b) (kept h) o
  where
    kept : some bill ≡ some more → bill ≡ more
    kept q = cc
reagent_bill-Ordered batch (r ∷ rs) bill more small o h =
    elim (Bool-cases (r.item_id == 0 || r.per_craft_quantity == 0)) [
      | inl e ↦ absurd (clash (sym (rw e refl) ∙ h))
      | inr e ↦ elim (Option-cases (add_reagent batch r bill)) [
        | inl n ↦ absurd (clash (sym (rw (e, n) refl) ∙ h))
        | inr (b, n) ↦
            reagent_bill-Ordered batch rs b more small.1
              (add_reagent-Ordered batch r bill b small.0 (ground arith) o n)
              (sym (rw (e, n) refl) ∙ h)
      ]
    ]
  where
    clash : none ≡ some more → ⊥
    clash q = cc

bill_requirements-Climbs :
    (bill : Bill) (rs : List MaterialRequirement) (low : ℕ)
    → Ordered low bill
    → bill_requirements bill ≡ some rs
    → Climbs low rs × (any_of is_bad rs ≡ false)
unfolding bill_requirements
bill_requirements-Climbs [] rs low o h =
    subst (λ qs. Climbs low qs × (any_of is_bad qs ≡ false)) (kept h) (tt, refl)
  where
    kept : some [] ≡ some rs → [] ≡ rs
    kept q = cc
bill_requirements-Climbs ((key, required) ∷ bill) rs low o h =
    elim (Bool-cases (leb required u32_max)) [
      | inr e ↦ absurd (clash (sym (rw e refl) ∙ h))
      | inl e ↦ elim (Option-cases (bill_requirements bill)) [
        | inl n ↦ absurd (clash (sym (rw (e, n) refl) ∙ h))
        | inr (qs, n) ↦
            let (c, b) = bill_requirements-Climbs bill qs key o.2 n in
            subst (λ xs. Climbs low xs × (any_of is_bad xs ≡ false))
              (kept qs (sym (rw (e, n) refl) ∙ h)) ((o.0, c), good qs b)
      ]
    ]
  where
    clash : none ≡ some rs → ⊥
    clash q = cc

    kept :
        (qs : List MaterialRequirement)
        → some (record { item_id = key; quantity = required } ∷ qs) ≡ some rs
        → record { item_id = key; quantity = required } ∷ qs ≡ rs
    kept qs q = cc

    good :
        (qs : List MaterialRequirement)
        → any_of is_bad qs ≡ false
        → (key == 0 || required == 0 || any_of is_bad qs) ≡ false
    good qs b = let below = o.0 in let pos = o.1 in ground arith

-- The scarce requirements that a craft gives pass ValidRequirements: there is one at least, their
-- items differ, and no item or quantity is 0. No reagent of the craft may need 2 ^ 62 units.
pub scarce_requirements-valid :
    (batch : ℕ) (reagents : List ProfessionProgressionReagentFact) (rs : List MaterialRequirement)
    → All (λ r. r.per_craft_quantity * batch < 2 ^ 62) reagents
    → profession_progression_scarce_requirements batch reagents ≡ some rs
    → valid_requirements rs ≡ true
unfolding profession_progression_scarce_requirements valid_requirements
scarce_requirements-valid batch reagents rs small h = elim (Bool-cases (batch == 0)) [
  | inl e ↦ absurd (clash (sym (rw e refl) ∙ h))
  | inr e ↦ elim (Option-cases (reagent_bill batch reagents [])) [
    | inl n ↦ absurd (clash (sym (rw (e, n) refl) ∙ h))
    | inr (bill, n) ↦ elim (Option-cases (bill_requirements bill)) [
      | inl m ↦ absurd (clash (sym (rw (e, n, m) refl) ∙ h))
      | inr (qs, m) ↦ elim (Bool-cases (is_empty qs)) [
        | inl f ↦ absurd (clash (sym (rw (e, n, m, f) refl) ∙ h))
        | inr f ↦
            let o = reagent_bill-Ordered batch reagents [] bill small tt n in
            let (c, b) = bill_requirements-Climbs bill qs 0 o m in
            let d = distinct_requirements-Climbs [] 0 qs (λ k lt. refl) c b in
            subst (λ xs. (not (is_empty xs) && distinct_requirements [] xs) ≡ true)
              (kept qs (sym (rw (e, n, m, f) refl) ∙ h)) (rw (f, d) refl)
      ]
    ]
  ]
]
  where
    clash : none ≡ some rs → ⊥
    clash q = cc

    kept : (qs : List MaterialRequirement) → some qs ≡ some rs → qs ≡ rs
    kept qs q = cc
