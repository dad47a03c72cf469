-- ===== src/Coordinator/Credits.antt =====
-- Writes to the consumed credits that every actor's lookup reads alike leave the totals as they are.
use mod_playerbots_economy.Prelude.{
  ℕ, ◌==◌, ◌≡◌, refl, ap, sym, ◌∙◌, true, false, List, [], ◌∷◌, text_eq, Bool-cases, inl, inr,
  arith, leb, ◌+◌, ◌-◌, ◌<◌, ◌≤◌, ◌^◌, ◌*◌, min, length, nat_eq, if_split,
}
use mod_playerbots_economy.Coordinator.Types.{
  EconomySubstitutionGroup, EconomyDemandFact, EconomyActorFacts,
}
use mod_playerbots_economy.Coordinator.Groups.{
  GapKey, code_ltb, find_at, put_at, erase_at, or_else, number_code, identity_tuple,
}
use mod_playerbots_economy.Coordinator.State.{
  u64, Gaps, Credits, add_actors, add_actor, bounded_quantity,
}
use mod_playerbots_economy.Coordinator.Facts.{
  uncovered, credit_inputs, published_demand, add_quantity,
}

abbrev pub credits_of : List (ℕ × Credits) → ℕ → Credits
credits_of m guid = or_else (find_at number_code guid m) []

abbrev pub Alike : List (ℕ × Credits) → List (ℕ × Credits) → Type 0
Alike m n = (guid : ℕ) → credits_of m guid ≡ credits_of n guid

-- Keys that are compared by their codes are the same number or test apart.
same_key : (g h : ℕ) → (number_code g == number_code h) ≡ true → g ≡ h
same_key g h e = go ((text_eq.equals_iff (number_code g) (number_code h)).0 e)
  where
    go : g ∷ [] ≡ h ∷ [] → g ≡ h
    go p = cc

own_key : (g : ℕ) → (number_code g == number_code g) ≡ true
own_key g = (text_eq.equals_iff (number_code g) (number_code g)).1 refl

put_own :
    (m : List (ℕ × Credits)) (g : ℕ) (own : Credits)
    → credits_of (put_at number_code g own m) g ≡ own
put_own [] g own = simp (own_key g)
put_own ((k, v) ∷ m) g own = elim (Bool-cases (number_code k == number_code g)) [
  | inl e ↦ simp e
  | inr e ↦ elim (Bool-cases (code_ltb (number_code g) (number_code k))) [
    | inl l ↦ simp (e, l, own_key g)
    | inr l ↦ simp (e, l) (put_own m g own)
  ]
]

put_other :
    (m : List (ℕ × Credits)) (g h : ℕ) (own : Credits)
    → (number_code g == number_code h) ≡ false
    → credits_of (put_at number_code g own m) h ≡ credits_of m h
put_other [] g h own n = simp n
put_other ((k, v) ∷ m) g h own n = elim (Bool-cases (number_code k == number_code g)) [
  | inl e ↦ simp (e, ap (λ x. number_code x == number_code h) (same_key k g e) ∙ n)
  | inr e ↦ elim (Bool-cases (code_ltb (number_code g) (number_code k))) [
    | inl l ↦ simp (e, l, n)
    | inr l ↦ elim (Bool-cases (number_code k == number_code h)) [
      | inl t ↦ simp (e, l, t)
      | inr t ↦ simp (e, l, t) (put_other m g h own n)
    ]
  ]
]

erase_own : (m : List (ℕ × Credits)) (g : ℕ) → credits_of (erase_at number_code g m) g ≡ []
erase_own [] g = refl
erase_own ((k, v) ∷ m) g = elim (Bool-cases (number_code k == number_code g)) [
  | inl e ↦ simp e (erase_own m g)
  | inr e ↦ simp e (erase_own m g)
]

erase_other :
    (m : List (ℕ × Credits)) (g h : ℕ)
    → (number_code g == number_code h) ≡ false
    → credits_of (erase_at number_code g m) h ≡ credits_of m h
erase_other [] g h n = refl
erase_other ((k, v) ∷ m) g h n = elim (Bool-cases (number_code k == number_code g)) [
  | inl e ↦
      simp (e, ap (λ x. number_code x == number_code h) (same_key k g e) ∙ n) (erase_other m g h n)
  | inr e ↦ elim (Bool-cases (number_code k == number_code h)) [
    | inl t ↦ simp (e, t)
    | inr t ↦ simp (e, t) (erase_other m g h n)
  ]
]

pub put_at-Alike :
    (m : List (ℕ × Credits)) (guid : ℕ) (own : Credits)
    → credits_of m guid ≡ own
    → Alike (put_at number_code guid own m) m
put_at-Alike m guid own e h = elim (Bool-cases (number_code guid == number_code h)) [
  | inl t ↦
      ap (credits_of (put_at number_code guid own m)) (sym (same_key guid h t))
      ∙ put_own m guid own
      ∙ sym e
      ∙ ap (credits_of m) (same_key guid h t)
  | inr t ↦ put_other m guid h own t
]

pub erase_at-Alike :
    (m : List (ℕ × Credits)) (guid : ℕ)
    → credits_of m guid ≡ []
    → Alike (erase_at number_code guid m) m
erase_at-Alike m guid e h = elim (Bool-cases (number_code guid == number_code h)) [
  | inl t ↦
      ap (credits_of (erase_at number_code guid m)) (sym (same_key guid h t))
      ∙ erase_own m guid
      ∙ sym e
      ∙ ap (credits_of m) (same_key guid h t)
  | inr t ↦ erase_other m guid h t
]

pub add_actors-Alike :
    (m n : List (ℕ × Credits))
    → Alike m n
    → (actors : List (ℕ × EconomyActorFacts)) (r : Gaps × List (GapKey × List ℕ))
    → add_actors m actors r ≡ add_actors n actors r
unfolding add_actors add_actor
add_actors-Alike m n e [] r = refl
add_actors-Alike m n e ((guid, actor) ∷ actors) r = rw (e guid) (add_actors-Alike m n e actors _)

bounded_quantity-bound : (n : ℕ) → bounded_quantity n < 2 ^ 32
unfolding bounded_quantity
bounded_quantity-bound n = omega arith

leb-false : (a b : ℕ) → leb a b ≡ false → b < a
leb-false a b h = ground arith

above : (n m k : ℕ) → n < m → m ≤ k → k ≡ n → ⊥
above n m k l h e = omega (arith, l, h, e)

-- Credits that add up to nothing are the credits of before.
credit_inputs-grows :
    (demand supply requests credits : Credits) (n : ℕ)
    → n + length requests * 2 ^ 32 < 2 ^ 64
    → (n ≤ (credit_inputs demand supply requests credits n).1)
      × ((credit_inputs demand supply requests credits n).1 ≡ n
          → (credit_inputs demand supply requests credits n).0 ≡ credits)
unfolding credit_inputs
credit_inputs-grows demand supply [] credits n l = (omega arith, λ e. refl)
credit_inputs-grows demand supply ((group, requested) ∷ requests) credits n l =
    let existing : ℕ = or_else (find_at identity_tuple group credits) 0 in
    let bounded : ℕ =
      bounded_quantity (min (uncovered group demand supply) (u64 (existing + requested))) in
    if_split (λ (r : Credits × ℕ). (n ≤ r.1) × (r.1 ≡ n → r.0 ≡ credits)) (leb bounded existing)
      (λ t. credit_inputs-grows demand supply requests credits n (omega (arith, l)))
      (λ t.
        let m : ℕ = u64 (n + (bounded - existing)) in
        let small : bounded < 2 ^ 32 = bounded_quantity-bound _ in
        let more : existing < bounded = leb-false bounded existing t in
        let ih =
          credit_inputs-grows demand supply requests (put_at identity_tuple group bounded credits) m
            (omega (arith, l, small)) in
        (
          omega (arith, l, small, more, ih.0),
          λ q. absurd (above n m _ (omega (arith, l, small, more)) ih.0 q),
        ))

put_at-length :
    (group : EconomySubstitutionGroup) (n : ℕ) (sums : Credits)
    → length (put_at identity_tuple group n sums) ≤ length sums + 1
put_at-length group n [] = omega arith
put_at-length group n ((g, m) ∷ sums) = ground (arith, put_at-length group n sums)

published_demand-length :
    (inputs : List EconomyDemandFact) (sums : Credits)
    → length (published_demand inputs sums) ≤ length inputs + length sums
unfolding published_demand add_quantity
published_demand-length [] sums = omega arith
published_demand-length (d ∷ ds) sums =
    let sum : ℕ = u64 (or_else (find_at identity_tuple d.group sums) 0 + d.quantity) in
    omega (
      arith,
      published_demand-length ds (put_at identity_tuple d.group sum sums),
      put_at-length d.group sum sums,
    )

pub credited_nothing :
    (demand supply credits : Credits) (inputs : List EconomyDemandFact)
    → length inputs < 2 ^ 32
    → (credit_inputs demand supply (published_demand inputs []) credits 0).1 ≡ 0
    → (credit_inputs demand supply (published_demand inputs []) credits 0).0 ≡ credits
credited_nothing demand supply credits inputs l =
    (credit_inputs-grows demand supply (published_demand inputs []) credits 0
      (omega (arith, l, published_demand-length inputs []))).1
