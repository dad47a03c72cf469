-- ===== src/Commitment/Retry.antt =====
-- A command that is sent again after its write is in the database is answered from the log.
use mathlib.Core.List.{append_assoc}
use mod_playerbots_economy.Prelude.{
  ℕ, ◌+◌, ◌-◌, ◌≡◌, refl, sym, ◌∙◌, inl, inr, Bool, true, false, ◌||◌, List, [], ◌∷◌, ◌++◌, none,
  some, Text, arith, find_if, find_if-keep_if, find_if-drop, find_if-append, ltb, length, ◌==◌,
  text_eq, nat_eq, is_empty,
}
use mod_playerbots_economy.Commitment.Types.{
  MaterialCommitmentStartup, MaterialCommitmentCommand, MaterialCommitmentOperation,
  MaterialCommitmentWrite, MaterialCommitmentCommandKind, MaterialCommitmentCommandKind.observe,
  MaterialCommitmentCommandKind.admit, MaterialCommitmentCommandKind.start_source,
  MaterialCommitmentCommandKind.fulfill, MaterialCommitmentCommandKind.release,
  MaterialCommitmentCommandKind.supersede, MaterialCommitmentCommandKind.compact,
  MaterialCommitmentApplyStatus.idempotent,
}
use mod_playerbots_economy.Commitment.Encoding.{
  fingerprint, each, u64, max_identity_bytes, max_fingerprint_bytes,
}
use mod_playerbots_economy.Commitment.Outcome.{ok, >>=-eq-ok, find_operation}
use mod_playerbots_economy.Commitment.Compact.{
  insert_operation, sort_operations, retain_newest, compacted_operations, compacted,
}
use mod_playerbots_economy.Commitment.Authority.{
  Authority, Applied, logged, operation_of, apply_kind, apply_to_replacement, answer_prior, apply,
  complete_pending, complete_write,
}
use mod_playerbots_economy.Commitment.Frame.{apply_kind-SameLog, compact_book-eq-compacted}
use mod_playerbots_economy.Commitment.Remembered.{Later, at_once, Remembers, Later-Remembers}
use mod_playerbots_economy.Commitment.Soundness.{Accepted, accepted, apply_cases}

module _ (p : MaterialCommitmentOperation → Bool) where
  find_if-insert_operation :
      (o : MaterialCommitmentOperation) (os : List MaterialCommitmentOperation)
      → p o ≡ false
      → find_if p os ≡ none
      → find_if p (insert_operation o os) ≡ none
  unfolding insert_operation
  find_if-insert_operation o [] e h = ground arith
  find_if-insert_operation o (q ∷ qs) e h = ground (arith, find_if-insert_operation o qs)

  find_if-sort_operations :
      (os : List MaterialCommitmentOperation)
      → find_if p os ≡ none
      → find_if p (sort_operations os) ≡ none
  unfolding sort_operations
  find_if-sort_operations [] h = refl
  find_if-sort_operations (o ∷ os) h =
      find_if-insert_operation o (sort_operations os) (ground arith)
        (find_if-sort_operations os (ground arith))

  find_if-retain_newest :
      (n : ℕ) (os : List MaterialCommitmentOperation)
      → find_if p os ≡ none
      → find_if p (retain_newest n os) ≡ none
  unfolding retain_newest
  find_if-retain_newest n os h = ground (arith, find_if-drop p (length os - n) os)

-- An operation identity that the log does not hold is not in the changed log either.
find_operation-changed :
    (k : MaterialCommitmentCommandKind) (s : MaterialCommitmentStartup)
    (c : MaterialCommitmentCommand) (now : ℕ) (t : MaterialCommitmentStartup) (ids : List Text)
    (identity : Text)
    → apply_kind k s c now ≡ ok (t, ids)
    → find_operation s.operations identity ≡ none
    → find_operation t.operations identity ≡ none
unfolding apply_kind find_operation compacted compacted_operations
find_operation-changed compact s c now t ids identity h none_before =
    let (s', e, h₁) = >>=-eq-ok _ _ h in
    let same : t ≡ s' = cc h₁ in
    let q = λ (o : MaterialCommitmentOperation). o.identity == identity in
    rw (same, compact_book-eq-compacted s c s' e)
      (find_if-retain_newest q _ _
        (find_if-sort_operations q _ (find_if-keep_if q _ s.operations none_before)))
find_operation-changed observe s c now t ids identity h n =
    rw ((apply_kind-SameLog observe s c now t ids (λ e. cc) h).log) n
find_operation-changed admit s c now t ids identity h n =
    rw ((apply_kind-SameLog admit s c now t ids (λ e. cc) h).log) n
find_operation-changed start_source s c now t ids identity h n =
    rw ((apply_kind-SameLog start_source s c now t ids (λ e. cc) h).log) n
find_operation-changed fulfill s c now t ids identity h n =
    rw ((apply_kind-SameLog fulfill s c now t ids (λ e. cc) h).log) n
find_operation-changed release s c now t ids identity h n =
    rw ((apply_kind-SameLog release s c now t ids (λ e. cc) h).log) n
find_operation-changed supersede s c now t ids identity h n =
    rw ((apply_kind-SameLog supersede s c now t ids (λ e. cc) h).log) n

text_refl : (t : Text) → (t == t) ≡ true
text_refl t = (text_eq.equals_iff t t).1 refl

-- The log of an accepted command answers for its operation.
find_operation-logged :
    (s : MaterialCommitmentStartup) (c : MaterialCommitmentCommand) (ids : List Text)
    → find_operation s.operations c.operation_identity ≡ none
    → (revision : ℕ) × (find_operation (logged c s ids).operations c.operation_identity
        ≡ some (operation_of c revision ids))
unfolding find_operation logged operation_of
find_operation-logged s c ids h = (
  u64 (s.book_revision + 1),
  find_if-append (λ o. o.identity == c.operation_identity) s.operations _ h
      ∙ rw (text_refl c.operation_identity),
)

abbrev pub retried : Authority → List Text → Applied
retried b ids = record {
  authority = b;
  reply = some (record { status = idempotent; write_token = 0; commitment_identities = ids });
  written = none;
}

complete_accepted :
    (a : Authority) (c : MaterialCommitmentCommand) (changed : MaterialCommitmentStartup)
    (ids : List Text)
    → complete_write (accepted a c changed ids).authority a.next_write_token true
      ≡ record (accepted a c changed ids).authority {
        durable = logged c changed ids;
        pending = none;
      }
unfolding complete_write complete_pending
complete_accepted a c changed ids = rw ((nat_eq.equals_iff a.next_write_token _).1 refl)

apply_logged :
    (b : Authority) (c d : MaterialCommitmentCommand) (later revision : ℕ) (ids : List Text)
    → b.persistence_healthy ≡ true
    → b.has_writer ≡ true
    → b.pending ≡ none
    → (is_empty c.operation_identity || ltb max_identity_bytes (length c.operation_identity))
      ≡ false
    → ltb max_fingerprint_bytes (length (fingerprint c)) ≡ false
    → find_operation b.durable.operations c.operation_identity ≡ some (operation_of c revision ids)
    → d.operation_identity ≡ c.operation_identity
    → fingerprint d ≡ fingerprint c
    → apply b d later ≡ retried b ids
unfolding apply answer_prior operation_of
apply_logged b c d later revision ids h w i n p f same print =
    simp (h, w, i, same, n, print, p, f, text_refl (fingerprint c))

accepted_of :
    (a : Authority) (c : MaterialCommitmentCommand) (now : ℕ) (w : MaterialCommitmentWrite)
    → (apply a c now).written ≡ some w
    → Accepted a c now
accepted_of a c now w h = elim (apply_cases a c now) [
  | inl u ↦ absurd (none≢some (sym u.1 ∙ h))
  | inr x ↦ x
]
  where
    none≢some : none ≡ some w → ⊥
    none≢some e = cc

-- Behind the write of an accepted command the authority remembers its operation.
completed-Remembers :
    (a : Authority) (c : MaterialCommitmentCommand) (now : ℕ) (x : Accepted a c now)
    → (revision : ℕ) × Remembers c.operation_identity
        (operation_of c revision x.admitted)
        (complete_write (apply a c now).authority a.next_write_token true)
completed-Remembers a c now x =
    let absent =
      find_operation-changed c.kind a.durable c now x.changed x.admitted c.operation_identity
        (unfold apply_to_replacement in x.changes) x.fresh in
    let (revision, found) = find_operation-logged x.changed c x.admitted absent in
    (
      revision,
      rw (x.result, complete_accepted a c x.changed x.admitted)
          (record { writes = x.writes; durable = found; awaited = λ p e. cc }),
    )

-- When a command went to the writer and the write completed, and then only calls of Apply with
-- commands that are no compactions and calls of CompleteWrite came: an authority that is healthy
-- and awaits no write answers a command with the first one's operation identity and fingerprint
-- Idempotent with the commitments that the first one admitted, and changes nothing. So it does when
-- the same command is sent again.
pub apply-retry :
    (a b : Authority) (c d : MaterialCommitmentCommand) (now later : ℕ)
    (w : MaterialCommitmentWrite)
    → (apply a c now).written ≡ some w
    → Later (complete_write (apply a c now).authority a.next_write_token true) b
    → b.persistence_healthy ≡ true
    → b.pending ≡ none
    → d.operation_identity ≡ c.operation_identity
    → fingerprint d ≡ fingerprint c
    → (changed : MaterialCommitmentStartup) × (ids : List Text) × (apply_to_replacement a.durable c
          now
        ≡ ok (changed, ids))
      × (apply b d later ≡ retried b ids)
apply-retry a b c d now later w h l healthy idle same print =
    let x = accepted_of a c now w h in
    let (revision, first) = completed-Remembers a c now x in
    let r = Later-Remembers c.operation_identity (operation_of c revision x.admitted) l first in
    (
      x.changed,
      x.admitted,
      x.changes,
      apply_logged b c d later revision x.admitted healthy r.writes idle x.named x.printable
          r.durable same print,
    )

-- The authority that a write has just completed is healthy and idle.
pub completed-idle :
    (a : Authority) (c : MaterialCommitmentCommand) (now : ℕ) (w : MaterialCommitmentWrite)
    → (apply a c now).written ≡ some w
    → let b = complete_write (apply a c now).authority a.next_write_token true in
      (b.persistence_healthy ≡ true) × (b.pending ≡ none)
completed-idle a c now w h =
    let x = accepted_of a c now w h in
    rw (x.result, complete_accepted a c x.changed x.admitted) (x.healthy, refl)

each-append {ℓ} :
    {A : Type ℓ} (f : A → Text) (xs ys : List A) → each f (xs ++ ys) ≡ each f xs ++ each f ys
each-append f [] ys = refl
each-append f (x ∷ xs) ys =
    rw (each-append f xs ys) (sym (append_assoc (f x) (each f xs) (each f ys)))

-- A command that names some identities as commitments, and one that names them as origins.
abbrev pub names : MaterialCommitmentCommand → List Text → List Text → MaterialCommitmentCommand
names c commitments origins = record c {
  commitment_identities = commitments;
  origin_identities = origins;
}

-- The fingerprint does not say where the commitment identities end and the origin identities
-- begin: moving names from one list to the next keeps it.
pub fingerprint_moves :
    (c : MaterialCommitmentCommand) (xs ys zs : List Text)
    → fingerprint (names c (xs ++ ys) zs) ≡ fingerprint (names c xs (ys ++ zs))
unfolding fingerprint
fingerprint_moves c xs ys zs = simp (each-append, append_assoc)

-- When a command went to the writer and the write completed, and the next call applies a command
-- that differs from it only in where the commitment identities end and the origin identities
-- begin, the answer is Idempotent and nothing changes.
pub apply_conflates :
    (a : Authority) (c : MaterialCommitmentCommand) (xs ys zs : List Text) (now later : ℕ)
    (w : MaterialCommitmentWrite)
    → (apply a (names c (xs ++ ys) zs) now).written ≡ some w
    → (ids : List Text) × (let b =
          complete_write (apply a (names c (xs ++ ys) zs) now).authority a.next_write_token true in
        apply b (names c xs (ys ++ zs)) later ≡ retried b ids)
apply_conflates a c xs ys zs now later w h =
    let (healthy, idle) = completed-idle a (names c (xs ++ ys) zs) now w h in
    let (_, ids, _, r) =
      apply-retry a _ (names c (xs ++ ys) zs) (names c xs (ys ++ zs)) now later w h at_once healthy
        idle refl (sym (fingerprint_moves c xs ys zs)) in
    (ids, r)
