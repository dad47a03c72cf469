-- ===== src/Commitment/Frame.antt =====
-- What the operations leave alone: which parts of the book each of them writes.
use mod_playerbots_economy.Prelude.{
  ℕ, ◌≡◌, refl, sym, ap, ◌∙◌, ◌≢◌, List, [], ◌∷◌, Option, none, some, Text, arith,
}
use mod_playerbots_economy.Commitment.Types.{
  MaterialIntent, MaterialCommitmentStartup, MaterialCommitmentCommand,
  MaterialCommitmentCommandKind, MaterialCommitmentCommandKind.observe,
  MaterialCommitmentCommandKind.admit, MaterialCommitmentCommandKind.start_source,
  MaterialCommitmentCommandKind.fulfill, MaterialCommitmentCommandKind.release,
  MaterialCommitmentCommandKind.supersede, MaterialCommitmentCommandKind.compact,
  MaterialCommitmentState, MaterialAdmissionCandidate, MaterialRequirement, MaterialSourcePath,
}
use mod_playerbots_economy.Commitment.Outcome.{
  ok, ◌>>◌, fail_if, >>=-eq-ok, fail_if-eq-ok, test-eq-ok,
}
use mod_playerbots_economy.Commitment.Observe.{observe_intent, observe_each, observe_intents}
use mod_playerbots_economy.Commitment.Admit.{
  Admitting, first_path, take_horizon, admit_requirements, admit_each, admit_candidates,
}
use mod_playerbots_economy.Commitment.Settle.{
  start_sources, fulfill_commitments, terminate_commitments, release_commitments,
}
use mod_playerbots_economy.Commitment.Supersede.{supersede_commitments}
use mod_playerbots_economy.Commitment.Compact.{compact_book, compacted}
use mod_playerbots_economy.Commitment.Authority.{apply_kind, apply_to_replacement}

-- The revision and the operations of the book are as they were.
pub record SameLog (s t : MaterialCommitmentStartup) : Type 0 where
  pub source : t.source_available ≡ s.source_available
  pub revision : t.book_revision ≡ s.book_revision
  pub log : t.operations ≡ s.operations

SameLog-refl : (s : MaterialCommitmentStartup) → SameLog s s
SameLog-refl s = record { source = refl; revision = refl; log = refl }

SameLog-trans : {s t u : MaterialCommitmentStartup} → SameLog s t → SameLog t u → SameLog s u
SameLog-trans p q = record {
  source = q.source ∙ p.source;
  revision = q.revision ∙ p.revision;
  log = q.log ∙ p.log;
}

observe_intent-frame :
    (s : MaterialCommitmentStartup) (i : MaterialIntent) (now : ℕ) (t : MaterialCommitmentStartup)
    → observe_intent s i now ≡ ok t
    → SameLog s t × (t.commitments ≡ s.commitments)
unfolding observe_intent ◌>>◌ fail_if
observe_intent-frame s i now t h = ground arith

observe_each-frame :
    (s : MaterialCommitmentStartup) (is : List MaterialIntent) (seen : List Text) (now : ℕ)
    (t : MaterialCommitmentStartup)
    → observe_each s is seen now ≡ ok t
    → SameLog s t × (t.commitments ≡ s.commitments)
unfolding observe_each
observe_each-frame s [] seen now t h = ground arith
observe_each-frame s (i ∷ is) seen now t h =
    let (_, h₁) = fail_if-eq-ok _ _ _ h in
    let (s', e, h₂) = >>=-eq-ok _ _ h₁ in
    let (p, q) = observe_intent-frame s i now s' e in
    let (p', q') = observe_each-frame s' is _ now t h₂ in (SameLog-trans p p', q' ∙ q)

-- Observing intents writes no commitment.
pub observe_intents-frame :
    (s : MaterialCommitmentStartup) (c : MaterialCommitmentCommand) (now : ℕ)
    (t : MaterialCommitmentStartup)
    → observe_intents s c now ≡ ok t
    → SameLog s t × (t.commitments ≡ s.commitments)
unfolding observe_intents
observe_intents-frame s c now t h =
    let (_, h₁) = fail_if-eq-ok _ _ _ h in observe_each-frame s _ _ now t h₁

pub start_sources-frame :
    (s : MaterialCommitmentStartup) (c : MaterialCommitmentCommand) (t : MaterialCommitmentStartup)
    → start_sources s c ≡ ok t
    → SameLog s t × (t.intents ≡ s.intents)
unfolding start_sources
start_sources-frame s c t h =
    let (_, h₁) = fail_if-eq-ok _ _ _ h in let (_, h₂) = test-eq-ok _ _ h₁ in ground arith

pub fulfill_commitments-frame :
    (s : MaterialCommitmentStartup) (c : MaterialCommitmentCommand) (t : MaterialCommitmentStartup)
    → fulfill_commitments s c ≡ ok t
    → SameLog s t × (t.intents ≡ s.intents)
unfolding fulfill_commitments
fulfill_commitments-frame s c t h =
    let (_, h₁) = fail_if-eq-ok _ _ _ h in let (_, _, h₂) = >>=-eq-ok _ _ h₁ in ground arith

pub terminate_commitments-frame :
    (s : MaterialCommitmentStartup) (ids : List Text) (terminal : MaterialCommitmentState)
    (t : MaterialCommitmentStartup)
    → terminate_commitments s ids terminal ≡ ok t
    → SameLog s t × (t.intents ≡ s.intents)
unfolding terminate_commitments
terminate_commitments-frame s ids terminal t h =
    let (_, h₁) = fail_if-eq-ok _ _ _ h in let (_, h₂) = test-eq-ok _ _ h₁ in ground arith

pub release_commitments-frame :
    (s : MaterialCommitmentStartup) (c : MaterialCommitmentCommand) (t : MaterialCommitmentStartup)
    → release_commitments s c ≡ ok t
    → SameLog s t × (t.intents ≡ s.intents)
unfolding release_commitments
release_commitments-frame s c t h =
    let (_, h₁) = fail_if-eq-ok _ _ _ h in terminate_commitments-frame s _ _ t h₁

pub admit_requirements-SameLog :
    (command : MaterialCommitmentCommand) (candidate : MaterialAdmissionCandidate)
    (intent : MaterialIntent) (rs : List MaterialRequirement) (a b : Admitting)
    → admit_requirements command candidate intent rs a ≡ ok b
    → SameLog a.state b.state × (b.state.intents ≡ a.state.intents)
unfolding admit_requirements
admit_requirements-SameLog command candidate intent [] a b h = ground arith
admit_requirements-SameLog command candidate intent (r ∷ rs) a b h =
    let (_, h₁) = fail_if-eq-ok _ _ _ h in
    let (_, _, h₂) = >>=-eq-ok _ _ h₁ in
    let (_, _, h₃) = >>=-eq-ok _ _ h₂ in
    let (p, q) = admit_requirements-SameLog command candidate intent rs _ b h₃ in
    (record { source = p.source; revision = p.revision; log = p.log }, q)

take_horizon-SameLog :
    (s : MaterialCommitmentStartup) (origin : Text) (p : Option MaterialSourcePath)
    → SameLog s (take_horizon s origin p)
unfolding take_horizon
take_horizon-SameLog s origin none = SameLog-refl s
take_horizon-SameLog s origin (some p) = record { source = refl; revision = refl; log = refl }

admit_each-SameLog :
    (command : MaterialCommitmentCommand) (cs : List MaterialAdmissionCandidate) (a b : Admitting)
    → admit_each command cs a ≡ ok b
    → SameLog a.state b.state
unfolding admit_each
admit_each-SameLog command [] a b h = ground arith
admit_each-SameLog command (c ∷ cs) a b h =
    let (intent, _, h₁) = >>=-eq-ok _ _ h in
    let (a', e, h₂) = >>=-eq-ok _ _ h₁ in
    SameLog-trans (take_horizon-SameLog a.state _ (first_path c.source_paths)) (
      SameLog-trans (admit_requirements-SameLog command c intent intent.requirements _ a' e).0
        (admit_each-SameLog command cs a' b h₂))

pub admit_candidates-SameLog :
    (s : MaterialCommitmentStartup) (c : MaterialCommitmentCommand) (now : ℕ)
    (t : MaterialCommitmentStartup) (ids : List Text)
    → admit_candidates s c now ≡ ok (t, ids)
    → SameLog s t
unfolding admit_candidates
admit_candidates-SameLog s c now t ids h =
    let (_, h₁) = test-eq-ok _ _ h in
    let (a, e, h₂) = >>=-eq-ok _ _ h₁ in
    let p = admit_each-SameLog c _ _ a e in
    record { source = cc (p.source, h₂); revision = cc (p.revision, h₂); log = cc (p.log, h₂) }

pub supersede_commitments-SameLog :
    (s : MaterialCommitmentStartup) (c : MaterialCommitmentCommand) (now : ℕ)
    (t : MaterialCommitmentStartup) (ids : List Text)
    → supersede_commitments s c now ≡ ok (t, ids)
    → SameLog s t
unfolding supersede_commitments
supersede_commitments-SameLog s c now t ids h =
    let (_, h₁) = fail_if-eq-ok _ _ _ h in
    let (_, _, h₂) = >>=-eq-ok _ _ h₁ in
    let (_, h₃) = fail_if-eq-ok _ _ _ h₂ in
    let (s', e, h₄) = >>=-eq-ok _ _ h₃ in
    SameLog-trans (terminate_commitments-frame s _ _ s' e).0
      (admit_candidates-SameLog s' c now t ids h₄)

ok-injective {ℓ} : {A : Type ℓ} {a b : A} → ok a ≡ ok b → a ≡ b
ok-injective h = cc

pub compact_book-eq-compacted :
    (s : MaterialCommitmentStartup) (c : MaterialCommitmentCommand) (t : MaterialCommitmentStartup)
    → compact_book s c ≡ ok t
    → t ≡ compacted s c
unfolding compact_book
compact_book-eq-compacted s c t h =
    let (_, h₁) = fail_if-eq-ok _ _ _ h in
    let (_, h₂) = test-eq-ok _ _ h₁ in
    let (_, h₃) = test-eq-ok _ _ h₂ in let (_, h₄) = fail_if-eq-ok _ _ _ h₃ in ok-injective (sym h₄)

-- Every operation but a compaction keeps the log.
pub apply_kind-SameLog :
    (k : MaterialCommitmentCommandKind) (s : MaterialCommitmentStartup)
    (c : MaterialCommitmentCommand) (now : ℕ) (t : MaterialCommitmentStartup) (ids : List Text)
    → k ≢ compact
    → apply_kind k s c now ≡ ok (t, ids)
    → SameLog s t
unfolding apply_kind
apply_kind-SameLog compact s c now t ids n h = absurd (n refl)
apply_kind-SameLog observe s c now t ids n h =
    let (s', e, h₁) = >>=-eq-ok _ _ h in
    let p = (observe_intents-frame s c now s' e).0 in
    record { source = cc p.source; revision = cc p.revision; log = cc p.log }
apply_kind-SameLog admit s c now t ids n h =
    let (_, h₁) = fail_if-eq-ok _ _ _ h in admit_candidates-SameLog s c now t ids h₁
apply_kind-SameLog start_source s c now t ids n h =
    let (s', e, h₁) = >>=-eq-ok _ _ h in
    let p = (start_sources-frame s c s' e).0 in
    record { source = cc p.source; revision = cc p.revision; log = cc p.log }
apply_kind-SameLog fulfill s c now t ids n h =
    let (s', e, h₁) = >>=-eq-ok _ _ h in
    let p = (fulfill_commitments-frame s c s' e).0 in
    record { source = cc p.source; revision = cc p.revision; log = cc p.log }
apply_kind-SameLog release s c now t ids n h =
    let (s', e, h₁) = >>=-eq-ok _ _ h in
    let p = (release_commitments-frame s c s' e).0 in
    record { source = cc p.source; revision = cc p.revision; log = cc p.log }
apply_kind-SameLog supersede s c now t ids n h = supersede_commitments-SameLog s c now t ids h

-- No operation writes the revision.
pub apply_kind-revision :
    (k : MaterialCommitmentCommandKind) (s : MaterialCommitmentStartup)
    (c : MaterialCommitmentCommand) (now : ℕ) (t : MaterialCommitmentStartup) (ids : List Text)
    → apply_kind k s c now ≡ ok (t, ids)
    → t.book_revision ≡ s.book_revision
unfolding apply_kind compacted
apply_kind-revision compact s c now t ids h =
    let (s', e, h₁) = >>=-eq-ok _ _ h in
    let p = ap (λ b. b.book_revision) (compact_book-eq-compacted s c s' e) in cc (p, h₁)
apply_kind-revision observe s c now t ids h =
    (apply_kind-SameLog observe s c now t ids (λ e. cc) h).revision
apply_kind-revision admit s c now t ids h =
    (apply_kind-SameLog admit s c now t ids (λ e. cc) h).revision
apply_kind-revision start_source s c now t ids h =
    (apply_kind-SameLog start_source s c now t ids (λ e. cc) h).revision
apply_kind-revision fulfill s c now t ids h =
    (apply_kind-SameLog fulfill s c now t ids (λ e. cc) h).revision
apply_kind-revision release s c now t ids h =
    (apply_kind-SameLog release s c now t ids (λ e. cc) h).revision
apply_kind-revision supersede s c now t ids h =
    (apply_kind-SameLog supersede s c now t ids (λ e. cc) h).revision

pub apply_to_replacement-revision :
    (s : MaterialCommitmentStartup) (c : MaterialCommitmentCommand) (now : ℕ)
    (t : MaterialCommitmentStartup) (ids : List Text)
    → apply_to_replacement s c now ≡ ok (t, ids)
    → t.book_revision ≡ s.book_revision
unfolding apply_to_replacement
apply_to_replacement-revision s c now t ids h = apply_kind-revision c.kind s c now t ids h
