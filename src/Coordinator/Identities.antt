-- ===== src/Coordinator/Identities.antt =====
-- The loop of EnsureChainLocked that draws the identity of a new chain. The draws of a time are
-- the calls of ChainPublicId, one for a sequence number.
use mod_playerbots_economy.Prelude.{
  ℕ, zero, suc, ◌+◌, ◌≡◌, ◌≢◌, ◌⊎◌, nat_eq, ◌≤◌, ◌<◌, ◌^◌, sym, ◌∙◌, Bool, true, false, not, List,
  [], ◌∷◌, Text, text_eq, ◌==◌, length, is_some, keep_if, if_split, Bool-cases, inl, inr, arith,
}
use mod_playerbots_economy.Coordinator.Types.{EconomyChain}
use mod_playerbots_economy.Coordinator.State.{u64}
use mod_playerbots_economy.Coordinator.Chains.{find_chain, draw_id}

-- Whether a chain has an identity.
abbrev pub is_taken : List EconomyChain → Text → Bool
is_taken chains public_id = is_some (find_chain chains public_id)

abbrev without : Text → List EconomyChain → List EconomyChain
without public_id chains = keep_if (λ c. not (c.public_id == public_id)) chains

without-length : (x : Text) (cs : List EconomyChain) → length (without x cs) ≤ length cs
without-length x [] = omega arith
without-length x (c ∷ cs) = ground (arith, without-length x cs)

without-shorter :
    (x : Text) (cs : List EconomyChain) → is_taken cs x ≡ true → length (without x cs) < length cs
unfolding find_chain
without-shorter x [] h = cc
without-shorter x (c ∷ cs) h = ground (arith, without-length x cs, without-shorter x cs)

same_text : (x y : Text) → (x == y) ≡ true → x ≡ y
same_text x y e = (text_eq.equals_iff x y).0 e

without-keeps :
    (x y : Text) (cs : List EconomyChain)
    → (x ≡ y → ⊥)
    → is_taken cs y ≡ true
    → is_taken (without x cs) y ≡ true
unfolding find_chain
without-keeps x y [] n h = h
without-keeps x y (c ∷ cs) n h = elim (Bool-cases (c.public_id == x)) [
  | inl e ↦ elim (Bool-cases (c.public_id == y)) [
    | inl f ↦ absurd (n (sym (same_text c.public_id x e) ∙ same_text c.public_id y f))
    | inr f ↦ simp e (without-keeps x y cs n (sym (simp f) ∙ h))
  ]
  | inr e ↦ elim (Bool-cases (c.public_id == y)) [
    | inl f ↦ simp (e, f)
    | inr f ↦ simp (e, f) (without-keeps x y cs n (sym (simp f) ∙ h))
  ]
]

too_short : (m n : ℕ) → m < n → n ≤ 0 → ⊥
too_short m n h l = omega (arith, h, l)

module _ (draw : ℕ → ℕ → Text) (now : ℕ) where
  -- The `do` loop without a bound: from a sequence number it ends with the identity drawn and the
  -- next sequence number.
  pub data Loop (chains : List EconomyChain) : ℕ → Text × ℕ → Type 0 where
    ends :
        {sequence : ℕ}
        → is_taken chains (draw sequence now) ≡ false
        → Loop chains sequence (draw sequence now, u64 (sequence + 1))
    repeats :
        {sequence : ℕ} {result : Text × ℕ}
        → is_taken chains (draw sequence now) ≡ true
        → Loop chains (u64 (sequence + 1)) result
        → Loop chains sequence result

  -- Two of the draws from a sequence number on, as many as given and one more, are the same.
  pub record Clash (sequence count : ℕ) : Type 0 where
    pub first : ℕ
    pub second : ℕ
    pub from : sequence ≤ first
    pub later : first < second
    pub until : second ≤ sequence + count
    pub same : draw first now ≡ draw second now

  -- A draw meets one of the draws behind it, or none of them.
  meets :
      (x : Text) (sequence count : ℕ)
      → ((n : ℕ) × (sequence < n) × (n ≤ sequence + count) × (x ≡ draw n now))
        ⊎ ((n : ℕ) → sequence < n → n ≤ sequence + count → x ≡ draw n now → ⊥)
  meets x sequence zero = inr (λ n l u e. omega (arith, l, u))
  meets x sequence (suc count) = elim (meets x sequence count) [
    | inl t ↦ inl (t.0, t.1, omega (arith, t.2), t.3)
    | inr none ↦ elim (Bool-cases (x == draw (sequence + suc count) now)) [
      | inl e ↦ inl (sequence + suc count, omega arith, omega arith, same_text _ _ e)
      | inr d ↦ inr (λ n l u e. elim (Bool-cases (n == sequence + suc count)) [
        | inl q ↦ differs n ((nat_eq.equals_iff _ _).0 q) e d
        | inr q ↦ none n l (omega (arith, u, apart n q)) e
      ])
    ]
  ]
    where
      differs :
          (n : ℕ)
          → n ≡ sequence + suc count
          → x ≡ draw n now
          → (x == draw (sequence + suc count) now) ≡ false
          → ⊥
      differs n q e d =
          let t : x ≡ draw (sequence + suc count) now = cc in
          let u = (text_eq.equals_iff x (draw (sequence + suc count) now)).1 t in cc

      apart : (n : ℕ) → (n == sequence + suc count) ≡ false → n ≢ sequence + suc count
      apart n q e = let t = (nat_eq.equals_iff n (sequence + suc count)).1 e in cc

  Clash-suc : (sequence count : ℕ) → Clash (sequence + 1) count → Clash sequence (suc count)
  Clash-suc sequence count c = record {
    first = c.first;
    second = c.second;
    from = omega (arith, c.from);
    later = c.later;
    until = omega (arith, c.until);
    same = c.same;
  }

  -- One more draw in front of the loop.
  draw_again :
      (fuel : ℕ) (chains : List EconomyChain) (sequence : ℕ)
      → sequence + 1 < 2 ^ 64
      → is_taken chains (draw sequence now) ≡ true
      → Loop chains (sequence + 1) (draw_id draw fuel chains (sequence + 1) now)
        ⊎ Clash (sequence + 1) fuel
      → Loop chains sequence (draw_id draw fuel chains (u64 (sequence + 1)) now)
        ⊎ Clash sequence (suc fuel)
  draw_again fuel chains sequence b t (inl r) =
      let next : u64 (sequence + 1) ≡ sequence + 1 = omega (arith, b) in inl (repeats t (rw next r))
  draw_again fuel chains sequence b t (inr c) = inr (Clash-suc sequence fuel c)

  -- The identities that later draws may meet are those of the chains that are left.
  draw_id-left :
      (fuel : ℕ) (chains left : List EconomyChain) (sequence : ℕ)
      → length left ≤ fuel
      → sequence + fuel < 2 ^ 64
      → ((n : ℕ)
          → sequence ≤ n
          → n ≤ sequence + fuel
          → is_taken chains (draw n now) ≡ true
          → is_taken left (draw n now) ≡ true)
      → Loop chains sequence (draw_id draw fuel chains sequence now) ⊎ Clash sequence fuel
  unfolding draw_id
  draw_id-left zero chains left sequence l b h =
      elim (Bool-cases (is_taken chains (draw sequence now))) [
        | inl t ↦ absurd (
            too_short _ _
              (without-shorter (draw sequence now) left (h sequence (omega arith) (omega arith) t))
              l)
        | inr f ↦ inl (ends f)
      ]
  draw_id-left (suc fuel) chains left sequence l b h =
      if_split (λ (r : Text × ℕ). Loop chains sequence r ⊎ Clash sequence (suc fuel))
        (is_taken chains (draw sequence now))
        (λ t. elim (meets (draw sequence now) sequence (suc fuel)) [
          | inl m ↦ inr (record {
            first = sequence;
            second = m.0;
            from = omega arith;
            later = m.1;
            until = m.2;
            same = m.3;
          })
          | inr apart ↦
              let shorter =
                without-shorter (draw sequence now) left
                  (h sequence (omega arith) (omega arith) t) in
              draw_again fuel chains sequence (omega (arith, b)) t (
                draw_id-left fuel chains (without (draw sequence now) left) (sequence + 1)
                  (omega (arith, l, shorter)) (omega (arith, b))
                  (λ n k u taken.
                    without-keeps (draw sequence now) (draw n now) left
                      (apart n (omega (arith, k)) (omega (arith, u)))
                      (h n (omega (arith, k)) (omega (arith, u)) taken)))
        ])
        (λ t. inl (ends t))

  Loop-fresh :
      {chains : List EconomyChain} {sequence : ℕ} {result : Text × ℕ}
      → Loop chains sequence result
      → is_taken chains result.0 ≡ false
  Loop-fresh (ends f) = f
  Loop-fresh (repeats t r) = Loop-fresh r

  -- When the sequence number does not wrap around, as many draws as there are chains and one more
  -- are enough: what they give is what the loop without a bound ends with, an identity that no
  -- chain has, or two of them gave the same identity.
  pub draw_id-ends :
      (chains : List EconomyChain) (sequence : ℕ)
      → sequence + length chains < 2 ^ 64
      → (Loop chains sequence (draw_id draw (length chains) chains sequence now)
          × (is_taken chains (draw_id draw (length chains) chains sequence now).0 ≡ false))
        ⊎ Clash sequence (length chains)
  draw_id-ends chains sequence b =
      elim (draw_id-left (length chains) chains chains sequence (omega arith) b (λ n l u t. t)) [
        | inl r ↦ inl (r, Loop-fresh r)
        | inr c ↦ inr c
      ]
