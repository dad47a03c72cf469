-- ===== src/Commitment/Compact/Log.antt =====
-- What a compaction leaves in the log.
use mod_playerbots_economy.Prelude.{
  ℕ, zero, suc, ◌-◌, ◌≤◌, max, ◌≡◌, refl, inl, inr, Bool, true, not, List, [], ◌∷◌, Text, text_eq,
  arith, le→leb, length, any_of, all_of, keep_if, drop, contains, leb, nat_eq, Bool-cases,
}
use mod_playerbots_economy.Commitment.Types.{
  MaterialCommitmentOperation, MaterialCommitmentStartup, MaterialCommitmentCommand,
}
use mod_playerbots_economy.Commitment.Outcome.{ok}
use mod_playerbots_economy.Commitment.Compact.{
  cut_revision, insert_operation, sort_operations, retain_newest, compacted_operations,
  dropped_identities, compacted, compact_book,
}
use mod_playerbots_economy.Commitment.Frame.{compact_book-eq-compacted}

-- An operation that names a dropped commitment.
abbrev pub names_dropped : List Text → MaterialCommitmentOperation → Bool
names_dropped dropped o = any_of (λ id. contains id dropped) o.commitment_identities

cut_revision-ge :
    (dropped : List Text) (os : List MaterialCommitmentOperation) (cut : ℕ)
    → cut ≤ cut_revision dropped os cut
unfolding cut_revision
cut_revision-ge dropped [] cut = omega arith
cut_revision-ge dropped (o ∷ os) cut = elim (Bool-cases (names_dropped dropped o)) [
  | inl e ↦ rw e (omega (arith, cut_revision-ge dropped os (max cut o.resulting_book_revision)))
  | inr e ↦ rw e (cut_revision-ge dropped os cut)
]

-- Above a cut that is at least the one computed, no operation names a dropped commitment.
all_of-above :
    (dropped : List Text) (bound : ℕ) (os : List MaterialCommitmentOperation) (cut : ℕ)
    → cut_revision dropped os cut ≤ bound
    → all_of
        (λ o. not (names_dropped dropped o))
        (keep_if (λ o. not (leb o.resulting_book_revision bound)) os)
      ≡ true
unfolding cut_revision
all_of-above dropped bound [] cut h = refl
all_of-above dropped bound (o ∷ os) cut h = elim (Bool-cases (names_dropped dropped o)) [
  | inl e ↦
      let top = max cut o.resulting_book_revision in
      let below : cut_revision dropped os top ≤ bound = rw e at h in
      let low : leb o.resulting_book_revision bound ≡ true =
        le→leb _ _ (omega (arith, cut_revision-ge dropped os top, below)) in
      rw low (all_of-above dropped bound os top below)
  | inr e ↦
      let rest = all_of-above dropped bound os cut (rw e at h) in
      elim (Bool-cases (leb o.resulting_book_revision bound)) [
        | inl l ↦ rw l rest
        | inr l ↦ rw (l, e) rest
      ]
]

module _ (p : MaterialCommitmentOperation → Bool) where
  all_of-insert_operation :
      (o : MaterialCommitmentOperation) (os : List MaterialCommitmentOperation)
      → p o ≡ true
      → all_of p os ≡ true
      → all_of p (insert_operation o os) ≡ true
  unfolding insert_operation
  all_of-insert_operation o [] e h = ground arith
  all_of-insert_operation o (q ∷ qs) e h = ground (arith, all_of-insert_operation o qs)

  all_of-sort_operations :
      (os : List MaterialCommitmentOperation)
      → all_of p os ≡ true
      → all_of p (sort_operations os) ≡ true
  unfolding sort_operations
  all_of-sort_operations [] h = refl
  all_of-sort_operations (o ∷ os) h =
      all_of-insert_operation o (sort_operations os) (ground arith)
        (all_of-sort_operations os (ground arith))

  all_of-drop :
      (n : ℕ) (os : List MaterialCommitmentOperation)
      → all_of p os ≡ true
      → all_of p (drop n os) ≡ true
  all_of-drop zero os h = h
  all_of-drop (suc n) [] h = refl
  all_of-drop (suc n) (o ∷ os) h = all_of-drop n os (ground arith)

  all_of-retain_newest :
      (n : ℕ) (os : List MaterialCommitmentOperation)
      → all_of p os ≡ true
      → all_of p (retain_newest n os) ≡ true
  unfolding retain_newest
  all_of-retain_newest n os h = ground (arith, all_of-drop (length os - n) os)

-- After a compaction no operation of the log names a commitment that the compaction dropped.
pub compact_book-log :
    (s t : MaterialCommitmentStartup) (c : MaterialCommitmentCommand)
    → compact_book s c ≡ ok t
    → all_of
        (λ o. not (
          names_dropped
            (dropped_identities s.commitments c.origin_identities c.commitment_identities)
            o))
        t.operations
      ≡ true
unfolding compacted compacted_operations
compact_book-log s t c h =
    let dropped = dropped_identities s.commitments c.origin_identities c.commitment_identities in
    let p = λ (o : MaterialCommitmentOperation). not (names_dropped dropped o) in
    let kept =
      keep_if
        (λ (o : MaterialCommitmentOperation).
          not (leb o.resulting_book_revision (cut_revision dropped s.operations 0)))
        s.operations in
    rw (compact_book-eq-compacted s c t h) (
      all_of-retain_newest p c.retained_operations (sort_operations kept) (
        all_of-sort_operations p kept (
          all_of-above dropped (cut_revision dropped s.operations 0) s.operations 0 (omega arith))))
