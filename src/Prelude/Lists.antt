-- ===== src/Prelude/Lists.antt =====
-- Sequences: `std::vector`, the ranges algorithms and the membership test of `std::set`.
use Prim.Native.Nat.{ℕ, zero, suc, ◌+◌}
use mathlib.Core.Path.{◌≡◌, refl}
use mathlib.Core.Bool.{Bool, true, false, ◌&&◌, ◌||◌}
use mathlib.Core.List.{List, [], ◌∷◌, ◌++◌}
use mathlib.Core.Option.{Option, none, some}
use native.Mathlib.Omega.{arith}
use mod_playerbots_economy.Prelude.Tests.{if◌then◌else◌, if_elim, Equality, ◌==◌}

module _ {ℓ} {A : Type ℓ} where
  abbrev pub length : List A → ℕ
  length [] = 0
  length (x ∷ xs) = suc (length xs)

  abbrev pub is_empty : List A → Bool
  is_empty [] = true
  is_empty (x ∷ xs) = false

  abbrev pub is_some : Option A → Bool
  is_some none = false
  is_some (some x) = true

  -- `std::ranges::all_of`, `any_of`, `find_if` and a filter.
  abbrev pub all_of : (A → Bool) → List A → Bool
  all_of p [] = true
  all_of p (x ∷ xs) = p x && all_of p xs

  abbrev pub any_of : (A → Bool) → List A → Bool
  any_of p [] = false
  any_of p (x ∷ xs) = p x || any_of p xs

  abbrev pub find_if : (A → Bool) → List A → Option A
  find_if p [] = none
  find_if p (x ∷ xs) = if p x then some x else find_if p xs

  -- What `std::erase_if` of the negated test leaves.
  abbrev pub keep_if : (A → Bool) → List A → List A
  keep_if p [] = []
  keep_if p (x ∷ xs) = let rest = keep_if p xs in if p x then x ∷ rest else rest

  -- The first element that passes the test is replaced: a write through the iterator of a find.
  abbrev pub update_first : (A → Bool) → (A → A) → List A → List A
  update_first p f [] = []
  update_first p f (x ∷ xs) = if p x then f x ∷ xs else x ∷ update_first p f xs

  abbrev pub drop : ℕ → List A → List A
  drop zero xs = xs
  drop (suc n) [] = []
  drop (suc n) (x ∷ xs) = drop n xs

module _ {ℓ} {A : Type ℓ} where
  pub length-append : (xs ys : List A) → length (xs ++ ys) ≡ length xs + length ys
  length-append [] ys = omega arith
  length-append (x ∷ xs) ys = omega (arith, length-append xs ys)

module _ {ℓ} {A : Type ℓ} ⦃e : Equality A⦄ where
  -- `std::set::contains` of the elements inserted so far.
  abbrev pub contains : A → List A → Bool
  contains a [] = false
  contains a (x ∷ xs) = a == x || contains a xs

-- Sums, and a predicate at every element.
abbrev pub sum_of {ℓ} : {A : Type ℓ} → (A → ℕ) → List A → ℕ
sum_of f [] = 0
sum_of f (x ∷ xs) = f x + sum_of f xs

abbrev pub All {ℓ κ} : {A : Type ℓ} → (A → Type κ) → List A → Type κ
All P [] = Unit
All P (x ∷ xs) = P x × All P xs

module _ {ℓ} {A : Type ℓ} (p : A → Bool) where
  -- A search that fails in a list fails in what is left of it.
  pub find_if-keep_if :
      (q : A → Bool) (xs : List A) → find_if p xs ≡ none → find_if p (keep_if q xs) ≡ none
  find_if-keep_if q [] h = refl
  find_if-keep_if q (x ∷ xs) h = ground (arith, find_if-keep_if q xs)

  pub find_if-drop : (n : ℕ) (xs : List A) → find_if p xs ≡ none → find_if p (drop n xs) ≡ none
  find_if-drop zero xs h = h
  find_if-drop (suc n) [] h = refl
  find_if-drop (suc n) (x ∷ xs) h = find_if-drop n xs (ground arith)

  pub find_if-append : (xs ys : List A) → find_if p xs ≡ none → find_if p (xs ++ ys) ≡ find_if p ys
  find_if-append [] ys h = refl
  find_if-append (x ∷ xs) ys h = ground (arith, find_if-append xs ys)

  pub find_if-append_some :
      (xs ys : List A) {a : A} → find_if p xs ≡ some a → find_if p (xs ++ ys) ≡ some a
  find_if-append_some [] ys h = cc
  find_if-append_some (x ∷ xs) ys {a} h = ground (arith, find_if-append_some xs ys {a = a})

  -- A write through the iterator of a find is found again, if it passes the test.
  pub find_if-update_first :
      (x e : A) (xs : List A)
      → find_if p xs ≡ some e
      → p x ≡ true
      → find_if p (update_first p (λ _. x) xs) ≡ some x
  find_if-update_first x e [] h t = cc
  find_if-update_first x e (y ∷ ys) h t = ground (arith, find_if-update_first x e ys)

  -- What a search finds passes its test.
  pub find_if_test : (xs : List A) {a : A} → find_if p xs ≡ some a → p a ≡ true
  find_if_test [] h = cc
  find_if_test (x ∷ xs) {a} h = ground (arith, find_if_test xs {a = a})

module _ {ℓ κ} {A : Type ℓ} (P : A → Type κ) where
  pub All-replace :
      (xs : List A) {y z : A} (zs : List A)
      → (P y → P z)
      → All P (xs ++ y ∷ zs)
      → All P (xs ++ z ∷ zs)
  All-replace [] zs f h = (f h.0, h.1)
  All-replace (x ∷ xs) zs f h = (h.0, All-replace xs zs f h.1)

  pub All-cons : {x : A} (xs : List A) → P x → All P xs → All P (x ∷ xs)
  All-cons xs p h = (p, h)

  pub All-at : (xs : List A) {y : A} (zs : List A) → All P (xs ++ y ∷ zs) → P y
  All-at [] zs h = h.0
  All-at (x ∷ xs) zs h = All-at xs zs h.1

  pub All-push : (xs : List A) {z : A} → P z → All P xs → All P (xs ++ z ∷ [])
  All-push [] p h = (p, tt)
  All-push (x ∷ xs) p h = (h.0, All-push xs p h.1)

  pub All-keep_if : (q : A → Bool) (xs : List A) → All P xs → All P (keep_if q xs)
  All-keep_if q [] h = tt
  All-keep_if q (x ∷ xs) h =
      if_elim (All P) (q x) (h.0, All-keep_if q xs h.1) (All-keep_if q xs h.1)
