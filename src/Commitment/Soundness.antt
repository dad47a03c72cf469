-- ===== src/Commitment/Soundness.antt =====
-- The authority between two calls: what Apply can answer, and what holds of every state that calls
-- of Restore, Apply and CompleteWrite lead to.
use mod_playerbots_economy.Prelude.{
  ℕ, ◌+◌, ◌≡◌, refl, ◌⊎◌, inl, inr, true, false, not, ◌||◌, List, [], none, some, Text, arith,
  length, is_some, is_empty, ltb, Bool-cases, Option-cases, ◌==◌, nat_eq, text_eq,
}
use mod_playerbots_economy.Commitment.Types.{
  MaterialCommitmentStartup, MaterialCommitmentCommand, MaterialCommitmentOperation,
  MaterialCommitmentApplyStatus.pending_persistence,
}
use mod_playerbots_economy.Commitment.Encoding.{
  max_identity_bytes, max_fingerprint_bytes, u64, fingerprint,
}
use mod_playerbots_economy.Commitment.Outcome.{Outcome, ok, fail, fault, find_operation}
use mod_playerbots_economy.Commitment.Validity.{valid_startup}
use mod_playerbots_economy.Commitment.Authority.{
  Authority, Applied, logged, operation_of, write_of, submit, answer_prior, apply,
  apply_to_replacement,
}

-- The authority and the reply of an accepted command.
abbrev pub accepted :
    Authority → MaterialCommitmentCommand → MaterialCommitmentStartup → List Text → Applied
accepted a c changed admitted =
    let replacement = logged c changed admitted in
    record {
      authority = record a {
        pending = some (record { token = a.next_write_token; replacement = replacement });
        next_write_token = u64 (a.next_write_token + 1);
      };
      reply = some (record {
        status = pending_persistence;
        write_token = a.next_write_token;
        commitment_identities = [];
      });
      written =
          some (write_of a.durable (operation_of c replacement.book_revision admitted) replacement);
    }

pub record Accepted (a : Authority) (c : MaterialCommitmentCommand) (now : ℕ) : Type 0 where
  pub changed : MaterialCommitmentStartup
  pub admitted : List Text
  pub healthy : a.persistence_healthy ≡ true
  pub writes : a.has_writer ≡ true
  pub idle : a.pending ≡ none
  pub fresh : find_operation a.durable.operations c.operation_identity ≡ none
  pub named :
      (is_empty c.operation_identity || ltb max_identity_bytes (length c.operation_identity))
      ≡ false
  pub printable : ltb max_fingerprint_bytes (length (fingerprint c)) ≡ false
  pub current : c.expected_book_revision ≡ a.durable.book_revision
  pub changes : apply_to_replacement a.durable c now ≡ ok (changed, admitted)
  pub valid : valid_startup (logged c changed admitted) ≡ true
  pub result : apply a c now ≡ accepted a c changed admitted

-- Nothing changed and nothing went to the writer.
abbrev pub Unchanged : Authority → Applied → Type 0
Unchanged a r = (r.authority ≡ a) × (r.written ≡ none)

submit_cases :
    (a : Authority) (c : MaterialCommitmentCommand)
    (o : Outcome (MaterialCommitmentStartup × List Text))
    → Unchanged a (submit a c o)
      ⊎ ((changed : MaterialCommitmentStartup) × (admitted : List Text) × (o
            ≡ ok (changed, admitted))
          × (valid_startup (logged c changed admitted) ≡ true)
          × (submit a c o ≡ accepted a c changed admitted))
unfolding submit
submit_cases a c (fail s) = inl (refl, refl)
submit_cases a c fault = inl (refl, refl)
submit_cases a c (ok (changed, admitted)) =
    elim (Bool-cases (valid_startup (logged c changed admitted))) [
      | inl v ↦ inr (changed, admitted, refl, v, rw v)
      | inr v ↦ inl (rw v, rw v)
    ]

answer_prior-Unchanged :
    (a : Authority) (print : Text) (prior : MaterialCommitmentOperation)
    → Unchanged a (answer_prior a print prior)
unfolding answer_prior
answer_prior-Unchanged a print prior = elim (Bool-cases (prior.fingerprint == print)) [
  | inl e ↦ (rw e, rw e)
  | inr e ↦ (rw e, rw e)
]

-- A call of Apply leaves the authority as it was and writes nothing, or accepts the command: then
-- the authority was healthy and idle, the operation is new and made for the current revision, the
-- operation went through on a copy of the durable book, the logged result is a valid book, and
-- that result is what waits for the writer. The durable book itself does not change.
pub apply_cases :
    (a : Authority) (c : MaterialCommitmentCommand) (now : ℕ)
    → Unchanged a (apply a c now) ⊎ Accepted a c now
unfolding apply
apply_cases a c now = elim (Bool-cases (not a.persistence_healthy || not a.has_writer)) [
  | inl e ↦ inl (rw e, rw e)
  | inr e₀ ↦ elim (Bool-cases (is_some a.pending)) [
    | inl e ↦ inl (rw (e₀, e), rw (e₀, e))
    | inr e₁ ↦
        elim (Bool-cases
          (is_empty c.operation_identity || ltb max_identity_bytes (length c.operation_identity))) [
            | inl e ↦ inl (rw (e₀, e₁, e), rw (e₀, e₁, e))
            | inr e₂ ↦ elim (Bool-cases (ltb max_fingerprint_bytes (length (fingerprint c)))) [
              | inl e ↦ inl (rw (e₀, e₁, e₂, e), rw (e₀, e₁, e₂, e))
              | inr e₃ ↦
                  elim (Option-cases (find_operation a.durable.operations c.operation_identity)) [
                    | inr (prior, e) ↦
                        let u = answer_prior-Unchanged a (fingerprint c) prior in
                        inl (rw (e₀, e₁, e₂, e₃, e) u.0, rw (e₀, e₁, e₂, e₃, e) u.1)
                    | inl e₄ ↦
                        elim (Bool-cases (c.expected_book_revision == a.durable.book_revision)) [
                          | inr e ↦ inl (rw (e₀, e₁, e₂, e₃, e₄, e), rw (e₀, e₁, e₂, e₃, e₄, e))
                          | inl e₅ ↦
                              elim (submit_cases a c (apply_to_replacement a.durable c now)) [
                                | inl u ↦ inl (
                                  rw (e₀, e₁, e₂, e₃, e₄, e₅) u.0,
                                  rw (e₀, e₁, e₂, e₃, e₄, e₅) u.1,
                                )
                                | inr (changed, admitted, o, v, r) ↦ inr (record {
                                  changed = changed;
                                  admitted = admitted;
                                  healthy = ground arith;
                                  writes = ground arith;
                                  idle = ground arith;
                                  fresh = e₄;
                                  named = e₂;
                                  printable = e₃;
                                  current = ground arith;
                                  changes = o;
                                  valid = v;
                                  result = rw (e₀, e₁, e₂, e₃, e₄, e₅) r;
                                })
                              ]
                        ]
                  ]
            ]
          ]
  ]
]
