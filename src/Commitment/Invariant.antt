-- ===== src/Commitment/Invariant.antt =====
-- The calls of Restore, Apply and CompleteWrite as steps, and the invariant of every state that
-- they lead to.
use mod_playerbots_economy.Prelude.{
  ℕ, ◌+◌, ◌^◌, ◌≤◌, ◌<◌, ◌≡◌, refl, sym, inl, inr, Bool, true, false, List, [], ◌∷◌, ◌++◌, Option,
  none, some, Text, arith, length, length-append, Bool-cases, if◌then◌else◌, ◌==◌, nat_eq, subst,
}
use mod_playerbots_economy.Commitment.Types.{MaterialCommitmentStartup, MaterialCommitmentCommand}
use mod_playerbots_economy.Commitment.Encoding.{u64}
use mod_playerbots_economy.Commitment.Validity.{valid_startup}
use mod_playerbots_economy.Commitment.Authority.{
  Authority, PendingWrite, new_authority, restore, logged, apply, complete_pending, complete_write,
}
use mod_playerbots_economy.Commitment.Frame.{apply_to_replacement-revision}
use mod_playerbots_economy.Commitment.Soundness.{Accepted, accepted, apply_cases}

-- The pending replacement is a valid successor of the durable book.
pub record IsSuccessor (durable next : MaterialCommitmentStartup) : Type 0 where
  pub valid : valid_startup next ≡ true
  pub revision : next.book_revision ≡ durable.book_revision + 1
  pub bounded : next.book_revision < 2 ^ 64

pub record IsSound (a : Authority) : Type 0 where
  pub bounded : a.durable.book_revision < 2 ^ 64
  pub valid : a.persistence_healthy ≡ true → valid_startup a.durable ≡ true
  pub awaited :
      (p : PendingWrite)
      → a.pending ≡ some p
      → (a.persistence_healthy ≡ true) × IsSuccessor a.durable p.replacement

-- The startup of a restore comes from the database, with a 64-bit revision.
pub data Step : Authority → Authority → Type 0 where
  restored :
      (a : Authority) (startup : MaterialCommitmentStartup)
      → startup.book_revision < 2 ^ 64
      → Step a (restore a startup).0
  applied :
      (a : Authority) (c : MaterialCommitmentCommand) (now : ℕ) → Step a (apply a c now).authority
  write_completed :
      (a : Authority) (token : ℕ) (success : Bool) → Step a (complete_write a token success)

pub data Reach (a : Authority) : Authority → Type 0 where
  here : Reach a a
  next : {b c : Authority} → Reach a b → Step b c → Reach a c

-- A valid book has at least as many revisions as operations.
valid_startup-operations :
    (s : MaterialCommitmentStartup) → valid_startup s ≡ true → length s.operations ≤ s.book_revision
unfolding valid_startup
valid_startup-operations s h = ground arith

length-snoc : {A : Type 0} (xs : List A) (x : A) → length (xs ++ x ∷ []) ≡ length xs + 1
length-snoc xs x = length-append xs (x ∷ [])

-- At the last 64-bit revision the next one wraps to 0, and the logged book is not valid.
logged-IsSuccessor :
    (durable changed : MaterialCommitmentStartup) (c : MaterialCommitmentCommand)
    (admitted : List Text)
    → durable.book_revision < 2 ^ 64
    → changed.book_revision ≡ durable.book_revision
    → valid_startup (logged c changed admitted) ≡ true
    → IsSuccessor durable (logged c changed admitted)
unfolding logged
logged-IsSuccessor durable changed c admitted small same v =
    let r = u64 (changed.book_revision + 1) in
    let held = valid_startup-operations _ v in
    let more = length-append changed.operations in
    let pos : 0 < r = omega (arith, held, length-snoc changed.operations) in
    record { valid = v; revision = omega arith; bounded = omega arith }

restore-IsSound :
    (a : Authority) (s : MaterialCommitmentStartup)
    → s.book_revision < 2 ^ 64
    → IsSound (restore a s).0
unfolding restore
restore-IsSound a s small = elim (Bool-cases (valid_startup s)) [
  | inl v ↦ rw v (record { bounded = small; valid = λ _. v; awaited = λ p e. cc })
  | inr v ↦ rw v (record { bounded = omega arith; valid = λ e. cc; awaited = λ p e. cc })
]

accepted-IsSound :
    (a : Authority) (c : MaterialCommitmentCommand) (now : ℕ)
    → IsSound a
    → Accepted a c now
    → IsSound (apply a c now).authority
accepted-IsSound a c now s x =
    let same = apply_to_replacement-revision a.durable c now x.changed x.admitted x.changes in
    let successor = logged-IsSuccessor a.durable x.changed c x.admitted s.bounded same x.valid in
    rw (x.result) (record {
      bounded = s.bounded;
      valid = s.valid;
      awaited = λ p e. (x.healthy, subst (λ q. IsSuccessor a.durable q) (replaced p e) successor);
    })
  where
    replaced :
        (p : PendingWrite)
        → (accepted a c x.changed x.admitted).authority.pending ≡ some p
        → logged c x.changed x.admitted ≡ p.replacement
    replaced p e = cc

apply-IsSound :
    (a : Authority) (c : MaterialCommitmentCommand) (now : ℕ)
    → IsSound a
    → IsSound (apply a c now).authority
apply-IsSound a c now s = elim (apply_cases a c now) [
  | inl u ↦ subst IsSound (sym (u.0)) s
  | inr x ↦ accepted-IsSound a c now s x
]

complete_write-IsSound :
    (a : Authority) (token : ℕ) (success : Bool)
    → IsSound a
    → IsSound (complete_write a token success)
unfolding complete_write
complete_write-IsSound a token success s = go a.pending refl
  where
    settle :
        (p : PendingWrite) (ok : Bool)
        → a.pending ≡ some p
        → IsSound (
            if ok
            then record a { durable = p.replacement; pending = none }
            else record a { persistence_healthy = false; pending = none })
    settle p true e =
        let (h, n) = s.awaited p e in
        record { bounded = n.bounded; valid = λ _. n.valid; awaited = λ q f. cc }
    settle p false e = record { bounded = s.bounded; valid = λ f. cc; awaited = λ q f. cc }

    go : (o : Option PendingWrite) → a.pending ≡ o → IsSound (complete_pending a token success o)
    go none e = s
    go (some p) e = elim (Bool-cases (p.token == token)) [
      | inl t ↦ rw t (settle p success e)
      | inr t ↦ rw t s
    ]

Step-IsSound : {a b : Authority} → Step a b → IsSound a → IsSound b
Step-IsSound (restored a startup small) s = restore-IsSound a startup small
Step-IsSound (applied a c now) s = apply-IsSound a c now s
Step-IsSound (write_completed a token success) s = complete_write-IsSound a token success s

new_authority-IsSound : (w : Bool) → IsSound (new_authority w)
unfolding new_authority
new_authority-IsSound w = record { bounded = omega arith; valid = λ e. cc; awaited = λ p e. cc }

Reach-IsSound_from : {a b : Authority} → IsSound a → Reach a b → IsSound b
Reach-IsSound_from s here = s
Reach-IsSound_from s (next r st) = Step-IsSound st (Reach-IsSound_from s r)

-- After any calls of Restore, Apply and CompleteWrite on a new authority: the durable book of a
-- healthy authority passes ValidStartup, and a write that is awaited carries a book that passes it
-- too, whose revision is the durable one plus 1, without wrapping around.
pub Reach-IsSound : (w : Bool) (a : Authority) → Reach (new_authority w) a → IsSound a
Reach-IsSound w a r = Reach-IsSound_from (new_authority-IsSound w) r
