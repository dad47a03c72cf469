-- ===== src/Commitment/Lifecycle.antt =====
-- How commitments change: what every operation but a compaction does to those of the book.
pub mod Operations
use mod_playerbots_economy.Prelude.{
  ℕ, ◌≤◌, ◌≡◌, refl, sym, ap, ◌∙◌, ◌≢◌, ◌⊎◌, inl, inr, Bool, true, false, not, ◌||◌, List, [], ◌∷◌,
  ◌++◌, Option, none, some, Text, arith, find_if, update_first, contains, Bool-cases, ◌==◌, text_eq,
  is_empty, if◌then◌else◌,
}
use mod_playerbots_economy.Commitment.Types.{
  MaterialCommitment, MaterialCommitmentApplyStatus.invalid_command,
  MaterialCommitmentApplyStatus.terminal_commitment,
}
use mod_playerbots_economy.Commitment.Outcome.{
  Outcome, ok, ◌>>=◌, ◌>>◌, fail_if, or_fail, >>=-eq-ok, fail_if-eq-ok, or_fail-eq-ok,
  find_commitment,
}
use mod_playerbots_economy.Commitment.Validity.{is_active}
use mod_playerbots_economy.Commitment.Settle.{update_commitment, active_commitment}

-- A commitment keeps the facts that it was admitted with, never asks for more than before, and
-- does not change at all once it is completed, released or superseded.
pub record Advances (c d : MaterialCommitment) : Type 0 where
  pub identity : d.identity ≡ c.identity
  pub origin : d.origin_identity ≡ c.origin_identity
  pub owner : d.owner_revision ≡ c.owner_revision
  pub market : d.market_id ≡ c.market_id
  pub item : d.material_item_id ≡ c.material_item_id
  pub bounded : d.bounded_quantity ≡ c.bounded_quantity
  pub horizon : d.needed_by ≡ c.needed_by
  pub shrinks : d.remaining_quantity ≤ c.remaining_quantity
  pub terminal : is_active c.state ≡ false → d ≡ c

pub Advances-refl : (c : MaterialCommitment) → Advances c c
Advances-refl c = record {
  identity = refl;
  origin = refl;
  owner = refl;
  market = refl;
  item = refl;
  bounded = refl;
  horizon = refl;
  shrinks = omega arith;
  terminal = λ _. refl;
}

Advances-trans : (c d e : MaterialCommitment) → Advances c d → Advances d e → Advances c e
Advances-trans c d e p q = record {
  identity = q.identity ∙ p.identity;
  origin = q.origin ∙ p.origin;
  owner = q.owner ∙ p.owner;
  market = q.market ∙ p.market;
  item = q.item ∙ p.item;
  bounded = q.bounded ∙ p.bounded;
  horizon = q.horizon ∙ p.horizon;
  shrinks = omega arith;
  terminal = λ t.
      q.terminal (ap (λ (x : MaterialCommitment). is_active x.state) (p.terminal t) ∙ t)
      ∙ p.terminal t;
}

-- The commitments of a book stay where they are, advanced; new ones stand behind them.
abbrev pub Evolves : List MaterialCommitment → List MaterialCommitment → Type 0
Evolves [] ds = Unit {0}
Evolves (c ∷ cs) [] = ⊥
Evolves (c ∷ cs) (d ∷ ds) = Advances c d × Evolves cs ds

pub Evolves-refl : (cs : List MaterialCommitment) → Evolves cs cs
Evolves-refl [] = tt
Evolves-refl (c ∷ cs) = (Advances-refl c, Evolves-refl cs)

pub Evolves-trans :
    (cs ds es : List MaterialCommitment) → Evolves cs ds → Evolves ds es → Evolves cs es
Evolves-trans [] ds es p q = tt
Evolves-trans (c ∷ cs) [] es p q = absurd p
Evolves-trans (c ∷ cs) (d ∷ ds) [] p q = absurd q
Evolves-trans (c ∷ cs) (d ∷ ds) (e ∷ es) p q =
    (Advances-trans c d e p.0 q.0, Evolves-trans cs ds es p.1 q.1)

pub Evolves-append : (cs es : List MaterialCommitment) → Evolves cs (cs ++ es)
Evolves-append [] es = tt
Evolves-append (c ∷ cs) es = (Advances-refl c, Evolves-append cs es)

pub update-Evolves :
    (identity : Text) (f : MaterialCommitment → MaterialCommitment) (cs : List MaterialCommitment)
    (c : MaterialCommitment)
    → find_commitment cs identity ≡ some c
    → Advances c (f c)
    → Evolves cs (update_commitment identity f cs)
unfolding find_commitment update_commitment
update-Evolves identity f [] c h a = tt
update-Evolves identity f (x ∷ xs) c h a = elim (Bool-cases (x.identity == identity)) [
  | inl e ↦ rw e (subst_first (found e), Evolves-refl xs)
  | inr e ↦ rw e (Advances-refl x, update-Evolves identity f xs c (later e) a)
]
  where
    found : (x.identity == identity) ≡ true → c ≡ x
    found e = ground arith

    later : (x.identity == identity) ≡ false → find_if (λ d. d.identity == identity) xs ≡ some c
    later e = ground arith

    subst_first : c ≡ x → Advances x (f x)
    subst_first e = rw (← e) a

-- A commitment that is found in a book is found, advanced, in one that evolved from it.
pub find-Evolves :
    (identity : Text) (cs ds : List MaterialCommitment) (c : MaterialCommitment)
    → Evolves cs ds
    → find_commitment cs identity ≡ some c
    → (d : MaterialCommitment) × (find_commitment ds identity ≡ some d) × Advances c d
unfolding find_commitment
find-Evolves identity [] ds c p h = absurd (none≢some h)
  where
    none≢some : none ≡ some c → ⊥
    none≢some e = cc
find-Evolves identity (x ∷ xs) [] c p h = absurd p
find-Evolves identity (x ∷ xs) (d ∷ ds) c p h = elim (Bool-cases (x.identity == identity)) [
  | inl e ↦ (d, rw (p.0.identity, e), advanced e)
  | inr e ↦
      let (d', f, a) = find-Evolves identity xs ds c p.1 (later e) in
      (d', rw (p.0.identity, e) f, a)
]
  where
    advanced : (x.identity == identity) ≡ true → Advances c d
    advanced e = let same : c ≡ x = ground arith in rw same (p.0)

    later : (x.identity == identity) ≡ false → find_if (λ d. d.identity == identity) xs ≡ some c
    later e = ground arith

-- What active_commitment found.
pub active_commitment-eq-ok :
    (cs : List MaterialCommitment) (identity : Text) (is_invalid : Bool) (seen : List Text)
    (c : MaterialCommitment)
    → active_commitment cs identity is_invalid seen ≡ ok c
    → (find_commitment cs identity ≡ some c)
      × (is_active c.state ≡ true)
      × (contains identity seen ≡ false)
      × (is_invalid ≡ false)
unfolding active_commitment
active_commitment-eq-ok cs identity is_invalid seen c h =
    let (a, h₁) = fail_if-eq-ok _ _ _ h in
    let (d, e, h₂) = >>=-eq-ok _ _ h₁ in
    let (b, h₃) = fail_if-eq-ok _ _ _ h₂ in
    let f = or_fail-eq-ok _ _ e in
    let same : d ≡ c = ok-injective h₃ in
    (
      f ∙ ap some same,
      rw (← same) (not_false _ b),
      or_false_right (is_empty identity) is_invalid _ a,
      or_false_left (is_empty identity) is_invalid _ a,
    )
  where
    ok-injective : {x y : MaterialCommitment} → ok x ≡ ok y → x ≡ y
    ok-injective e = cc

    not_false : (b : Bool) → not b ≡ false → b ≡ true
    not_false true e = refl
    not_false false e = cc

    or_false_right : (x y z : Bool) → (x || y || z) ≡ false → z ≡ false
    or_false_right x y z e = ground arith

    or_false_left : (x y z : Bool) → (x || y || z) ≡ false → y ≡ false
    or_false_left x y z e = ground arith

-- A write to another commitment leaves a search alone.
pub find-update_ne :
    (a b : Text) (f : MaterialCommitment → MaterialCommitment) (cs : List MaterialCommitment)
    → ((c : MaterialCommitment) → (f c).identity ≡ c.identity)
    → (b == a) ≡ false
    → find_commitment (update_commitment a f cs) b ≡ find_commitment cs b
unfolding find_commitment update_commitment
find-update_ne a b f [] k n = refl
find-update_ne a b f (x ∷ xs) k n = elim (Bool-cases (x.identity == a)) [
  | inl e ↦
      let same : x.identity ≡ a = (text_eq.equals_iff x.identity a).0 e in
      let other : (x.identity == b) ≡ false = ne_sym same in rw (e, k x, other)
  | inr e ↦ rw (e, find-update_ne a b f xs k n)
]
  where
    ne_sym : x.identity ≡ a → (x.identity == b) ≡ false
    ne_sym same = elim (Bool-cases (x.identity == b)) [
      | inl t ↦
          absurd (clash ((text_eq.equals_iff b a).1 (sym ((text_eq.equals_iff _ _).0 t) ∙ same)))
      | inr t ↦ t
    ]
      where
        clash : (b == a) ≡ true → ⊥
        clash t = cc

-- The check of a commitment does not see a write to a commitment that was met before.
pub active_commitment-update :
    (a b : Text) (f : MaterialCommitment → MaterialCommitment) (cs : List MaterialCommitment)
    (is_invalid : Bool) (seen : List Text)
    → ((c : MaterialCommitment) → (f c).identity ≡ c.identity)
    → (b == a) ≡ false
    → active_commitment (update_commitment a f cs) b is_invalid seen
      ≡ active_commitment cs b is_invalid seen
unfolding active_commitment
active_commitment-update a b f cs is_invalid seen k n = rw (find-update_ne a b f cs k n)

-- Of two identities, one met and one not, the second is not the first.
pub contains_ne :
    (a b : Text) (seen : List Text)
    → contains a seen ≡ true
    → contains b seen ≡ false
    → (b == a) ≡ false
contains_ne a b seen p q = elim (Bool-cases (b == a)) [
  | inl e ↦ absurd (clash ((text_eq.equals_iff b a).0 e))
  | inr e ↦ e
]
  where
    clash : b ≡ a → ⊥
    clash e = let t : contains b seen ≡ true = rw e p in cc
