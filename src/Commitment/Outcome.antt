-- ===== src/Commitment/Outcome.antt =====
-- Shared operations of the commitment files: checked 64-bit sums, what an operation on the book
-- returns, lookups by identity, and the ledger that a `std::map` from capacities to sums is.
use mod_playerbots_economy.Prelude.{
  ℕ, ◌+◌, ◌-◌, ◌^◌, ◌≡◌, refl, Bool, true, false, List, [], ◌∷◌, Option, none, some, Text, text_eq,
  ltb, if◌then◌else◌, find_if, Equality, ◌==◌, of_discrete,
}
use mod_playerbots_economy.Commitment.Types.{
  MaterialCapacityKey, capacity_key_discrete, MaterialCommitmentApplyStatus, MaterialIntent,
  MaterialCommitment, MaterialCommitmentOperation,
}

instance abbrev pub capacity_key_eq : Equality MaterialCapacityKey
capacity_key_eq = of_discrete capacity_key_discrete

abbrev pub u64_max : ℕ
u64_max = 2 ^ 64 - 1

-- `CheckedAdd`: `none` is its `false`, which leaves the total alone.
unfoldable pub checked_add : ℕ → ℕ → Option ℕ
checked_add total value = if ltb (u64_max - total) value then none else some (total + value)

-- An operation changes the book and goes on, or returns a status other than PendingPersistence.
-- Its caller drops the book then, so the status alone is kept. `fault` is undefined behaviour or
-- an exception of the C++ program: a null pointer, an empty optional, `std::map::at` of no entry.
pub data Outcome {ℓ} (A : Type ℓ) : Type ℓ where
  ok : A → Outcome A
  fail : MaterialCommitmentApplyStatus → Outcome A
  fault : Outcome A

infixl 5 ◌>>=◌ ◌>>◌
unfoldable pub ◌>>=◌ {ℓ κ} : {A : Type ℓ} {B : Type κ} → Outcome A → (A → Outcome B) → Outcome B
ok a >>= f = f a
fail s >>= f = fail s
fault >>= f = fault

unfoldable pub ◌>>◌ {ℓ} : {B : Type ℓ} → Outcome (Unit {0}) → Outcome B → Outcome B
unfolding ◌>>=◌
m >> k = m >>= λ _. k

-- `if (test) return status;`
unfoldable pub fail_if : Bool → MaterialCommitmentApplyStatus → Outcome (Unit {0})
fail_if true s = fail s
fail_if false s = ok tt

unfoldable pub or_fail {ℓ} : {A : Type ℓ} → Option A → MaterialCommitmentApplyStatus → Outcome A
or_fail none s = fail s
or_fail (some a) s = ok a

unfoldable pub or_fault {ℓ} : {A : Type ℓ} → Option A → Outcome A
or_fault none = fault
or_fault (some a) = ok a

pub >>=-ok {ℓ κ} : {A : Type ℓ} {B : Type κ} (a : A) (f : A → Outcome B) → (ok a >>= f) ≡ f a
unfolding ◌>>=◌
>>=-ok a f = refl

pub fail_if-false {ℓ} :
    {B : Type ℓ} (s : MaterialCommitmentApplyStatus) (k : Outcome B) → (fail_if false s >> k) ≡ k
unfolding fail_if ◌>>◌
fail_if-false s k = refl

-- What went before, when the whole went through.
pub >>=-eq-ok {ℓ κ} :
    {A : Type ℓ} {B : Type κ} (m : Outcome A) (f : A → Outcome B) {b : B}
    → (m >>= f) ≡ ok b
    → (a : A) × (m ≡ ok a) × (f a ≡ ok b)
unfolding ◌>>=◌
>>=-eq-ok (ok a) f h = (a, refl, h)
>>=-eq-ok (fail s) f h = cc
>>=-eq-ok fault f h = cc

pub fail_if-eq-ok {ℓ} :
    {B : Type ℓ} (test : Bool) (s : MaterialCommitmentApplyStatus) (k : Outcome B) {b : B}
    → (fail_if test s >> k) ≡ ok b
    → (test ≡ false) × (k ≡ ok b)
unfolding fail_if ◌>>◌
fail_if-eq-ok true s k h = cc
fail_if-eq-ok false s k h = (refl, h)

pub or_fail-eq-ok {ℓ} :
    {A : Type ℓ} (o : Option A) (s : MaterialCommitmentApplyStatus) {a : A}
    → or_fail o s ≡ ok a
    → o ≡ some a
unfolding or_fail
or_fail-eq-ok none s h = cc
or_fail-eq-ok (some a) s h = cc

pub or_fault-eq-ok {ℓ} : {A : Type ℓ} (o : Option A) {a : A} → or_fault o ≡ ok a → o ≡ some a
unfolding or_fault
or_fault-eq-ok none h = cc
or_fault-eq-ok (some a) h = cc

-- A step that only tests.
pub test-eq-ok {ℓ} :
    {B : Type ℓ} (m : Outcome (Unit {0})) (k : Outcome B) {b : B}
    → (m >> k) ≡ ok b
    → (m ≡ ok tt) × (k ≡ ok b)
unfolding ◌>>◌
test-eq-ok (ok tt) k h = (refl, h)
test-eq-ok (fail s) k h = cc
test-eq-ok fault k h = cc

-- `FindIntent`, `FindCommitment` and `FindOperation`.
unfoldable pub find_intent : List MaterialIntent → Text → Option MaterialIntent
find_intent intents identity = find_if (λ i. i.origin_identity == identity) intents

unfoldable pub find_commitment : List MaterialCommitment → Text → Option MaterialCommitment
find_commitment commitments identity = find_if (λ c. c.identity == identity) commitments

unfoldable pub find_operation :
    List MaterialCommitmentOperation → Text → Option MaterialCommitmentOperation
find_operation operations identity = find_if (λ o. o.identity == identity) operations

-- `std::map` from a key to a 64-bit sum: an entry that is not there reads 0.
abbrev pub Ledger : Type 0 → Type 0
Ledger K = List (K × ℕ)

module _ {K : Type 0} ⦃e : Equality K⦄ where
  unfoldable pub reserved_at : K → Ledger K → ℕ
  reserved_at key [] = 0
  reserved_at key ((k, total) ∷ ledger) = if k == key then total else reserved_at key ledger

  unfoldable pub write_at : K → ℕ → Ledger K → Ledger K
  write_at key total [] = (key, total) ∷ []
  write_at key total ((k, old) ∷ ledger) =
      if k == key then (k, total) ∷ ledger else (k, old) ∷ write_at key total ledger

  -- `CheckedAdd(ledger[key], quantity)`.
  unfoldable pub reserve : Ledger K → K → ℕ → Option (Ledger K)
  unfolding checked_add reserved_at write_at
  reserve ledger key quantity = elim (checked_add (reserved_at key ledger) quantity) [
    | none ↦ none
    | some total ↦ some (write_at key total ledger)
  ]
