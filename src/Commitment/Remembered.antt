-- ===== src/Commitment/Remembered.antt =====
-- The operation log between compactions, over the calls of Apply and CompleteWrite.
use mod_playerbots_economy.Prelude.{
  ℕ, ◌≡◌, ◌≢◌, refl, sym, subst, inl, inr, Bool, true, false, Option, none, some, Text,
  find_if-append_some, Bool-cases, if◌then◌else◌, ◌==◌, nat_eq, text_eq,
}
use mod_playerbots_economy.Commitment.Types.{
  MaterialCommitmentStartup, MaterialCommitmentCommand, MaterialCommitmentOperation,
  MaterialCommitmentCommandKind.compact,
}
use mod_playerbots_economy.Commitment.Outcome.{find_operation}
use mod_playerbots_economy.Commitment.Authority.{
  Authority, PendingWrite, logged, apply, apply_to_replacement, complete_pending, complete_write,
}
use mod_playerbots_economy.Commitment.Frame.{apply_kind-SameLog}
use mod_playerbots_economy.Commitment.Soundness.{Accepted, accepted, apply_cases}

-- Calls of Apply with commands that are no compactions, and calls of CompleteWrite, whatever they
-- are called with.
pub data Later (a : Authority) : Authority → Type 0 where
  at_once : Later a a
  then_applied :
      {b : Authority} (c : MaterialCommitmentCommand) (now : ℕ)
      → Later a b
      → c.kind ≢ compact
      → Later a (apply b c now).authority
  then_completed :
      {b : Authority} (token : ℕ) (success : Bool)
      → Later a b
      → Later a (complete_write b token success)

-- The durable log has an operation under an identity, and so has the log that is being written.
pub record Remembers (identity : Text) (o : MaterialCommitmentOperation) (a : Authority)
    : Type 0 where
  pub writes : a.has_writer ≡ true
  pub durable : find_operation a.durable.operations identity ≡ some o
  pub awaited :
      (p : PendingWrite)
      → a.pending ≡ some p
      → find_operation p.replacement.operations identity ≡ some o

module _ (identity : Text) (o : MaterialCommitmentOperation) where
  accepted-Remembers :
      (a : Authority) (c : MaterialCommitmentCommand) (now : ℕ)
      → c.kind ≢ compact
      → Remembers identity o a
      → Accepted a c now
      → Remembers identity o (apply a c now).authority
  unfolding apply_to_replacement
  accepted-Remembers a c now n s x =
      let same = apply_kind-SameLog c.kind a.durable c now x.changed x.admitted n x.changes in
      rw (x.result) (record {
        writes = s.writes;
        durable = s.durable;
        awaited = λ p e.
            subst (λ (t : MaterialCommitmentStartup). find_operation t.operations identity ≡ some o)
              (replaced p e) (kept same.log);
      })
    where
      replaced :
          (p : PendingWrite)
          → (accepted a c x.changed x.admitted).authority.pending ≡ some p
          → logged c x.changed x.admitted ≡ p.replacement
      replaced p e = cc

      kept :
          x.changed.operations ≡ a.durable.operations
          → find_operation (logged c x.changed x.admitted).operations identity ≡ some o
      kept e =
          unfold find_operation logged in
          find_if-append_some (λ q. q.identity == identity) x.changed.operations _
            (rw e (s.durable))

  apply-Remembers :
      (a : Authority) (c : MaterialCommitmentCommand) (now : ℕ)
      → c.kind ≢ compact
      → Remembers identity o a
      → Remembers identity o (apply a c now).authority
  apply-Remembers a c now n s = elim (apply_cases a c now) [
    | inl u ↦ subst (Remembers identity o) (sym (u.0)) s
    | inr x ↦ accepted-Remembers a c now n s x
  ]

  complete_write-Remembers :
      (a : Authority) (token : ℕ) (success : Bool)
      → Remembers identity o a
      → Remembers identity o (complete_write a token success)
  unfolding complete_write complete_pending
  complete_write-Remembers a token success s = go a.pending refl
    where
      settle :
          (p : PendingWrite) (ok : Bool)
          → a.pending ≡ some p
          → Remembers identity o (
              if ok
              then record a { durable = p.replacement; pending = none }
              else record a { persistence_healthy = false; pending = none })
      settle p true e = record { writes = s.writes; durable = s.awaited p e; awaited = λ q f. cc }
      settle p false e = record { writes = s.writes; durable = s.durable; awaited = λ q f. cc }

      go :
          (w : Option PendingWrite)
          → a.pending ≡ w
          → Remembers identity o (complete_pending a token success w)
      go none e = s
      go (some p) e = elim (Bool-cases (p.token == token)) [
        | inl t ↦ rw t (settle p success e)
        | inr t ↦ rw t s
      ]

  -- What an authority remembers, it remembers until a compaction.
  pub Later-Remembers :
      {a b : Authority} → Later a b → Remembers identity o a → Remembers identity o b
  Later-Remembers at_once s = s
  Later-Remembers (then_applied {b} c now l n) s = apply-Remembers b c now n (Later-Remembers l s)
  Later-Remembers (then_completed {b} token success l) s =
      complete_write-Remembers b token success (Later-Remembers l s)
