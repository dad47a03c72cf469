-- ===== src/Commitment/Lifecycle/Operations.antt =====
-- Each operation advances the commitments of the book.
use mod_playerbots_economy.Prelude.{
  ℕ, ◌-◌, ◌≡◌, refl, sym, ◌≢◌, subst, inl, inr, Bool, true, false, ◌||◌, List, [], ◌∷◌, some, Text,
  arith, contains, Bool-cases, ◌==◌, text_eq, nat_eq,
}
use mod_playerbots_economy.Commitment.Types.{
  MaterialCommitment, MaterialCommitmentState, MaterialCommitmentStartup, MaterialFulfillment,
  MaterialSourceStart, MaterialAdmissionCandidate, MaterialIntent, MaterialRequirement,
  MaterialCommitmentCommand, MaterialCommitmentCommandKind, MaterialCommitmentCommandKind.observe,
  MaterialCommitmentCommandKind.admit, MaterialCommitmentCommandKind.start_source,
  MaterialCommitmentCommandKind.fulfill, MaterialCommitmentCommandKind.release,
  MaterialCommitmentCommandKind.supersede, MaterialCommitmentCommandKind.compact,
}
use mod_playerbots_economy.Commitment.Outcome.{
  Outcome, ok, >>=-ok, fail_if-false, >>=-eq-ok, fail_if-eq-ok, test-eq-ok, find_commitment,
}
use mod_playerbots_economy.Commitment.Validity.{is_active}
use mod_playerbots_economy.Commitment.Admit.{
  Admitting, first_path, take_horizon, admit_requirements, admit_each, admit_candidates,
}
use mod_playerbots_economy.Commitment.Settle.{
  update_commitment, begin_source, check_starts, start_each, start_sources, settle_commitment,
  fulfill_each, fulfill_commitments, terminate, check_terminations, terminate_each,
  terminate_commitments, release_commitments,
}
use mod_playerbots_economy.Commitment.Supersede.{supersede_commitments}
use mod_playerbots_economy.Commitment.Authority.{apply_kind, apply_to_replacement}
use mod_playerbots_economy.Commitment.Frame.{observe_intents-frame}
use mod_playerbots_economy.Commitment.Lifecycle.{
  Advances, Evolves, Evolves-refl, Evolves-trans, Evolves-append, update-Evolves, find-Evolves,
  active_commitment-eq-ok, active_commitment-update, contains_ne,
}

true≢false : {b : Bool} → b ≡ true → b ≡ false → ⊥
true≢false p q = cc

begin_source-Advances :
    (inventory : ℕ) (c : MaterialCommitment)
    → is_active c.state ≡ true
    → Advances c (begin_source inventory c)
unfolding begin_source
begin_source-Advances inventory c active = record {
  identity = refl;
  origin = refl;
  owner = refl;
  market = refl;
  item = refl;
  bounded = refl;
  horizon = refl;
  shrinks = omega arith;
  terminal = λ t. absurd (true≢false active t);
}

terminate-Advances :
    (terminal : MaterialCommitmentState) (c : MaterialCommitment)
    → is_active c.state ≡ true
    → Advances c (terminate terminal c)
unfolding terminate
terminate-Advances terminal c active = record {
  identity = refl;
  origin = refl;
  owner = refl;
  market = refl;
  item = refl;
  bounded = refl;
  horizon = refl;
  shrinks = omega arith;
  terminal = λ t. absurd (true≢false active t);
}

settle_commitment-Advances :
    (f : MaterialFulfillment) (c : MaterialCommitment)
    → is_active c.state ≡ true
    → Advances c (settle_commitment f c)
unfolding settle_commitment
settle_commitment-Advances f c active = elim (Bool-cases (c.remaining_quantity - f.quantity == 0)) [
  | inl e ↦ rw e (record {
    identity = refl;
    origin = refl;
    owner = refl;
    market = refl;
    item = refl;
    bounded = refl;
    horizon = refl;
    shrinks = omega arith;
    terminal = λ t. absurd (true≢false active t);
  })
  | inr e ↦ rw e (record {
    identity = refl;
    origin = refl;
    owner = refl;
    market = refl;
    item = refl;
    bounded = refl;
    horizon = refl;
    shrinks = omega arith;
    terminal = λ t. absurd (true≢false active t);
  })
]

fulfill_each-Evolves :
    (fs : List MaterialFulfillment) (seen : List Text) (cs ds : List MaterialCommitment)
    → fulfill_each fs seen cs ≡ ok ds
    → Evolves cs ds
unfolding fulfill_each
fulfill_each-Evolves [] seen cs ds h = subst (Evolves cs) (same h) (Evolves-refl cs)
  where
    same : ok cs ≡ ok ds → cs ≡ ds
    same e = cc
fulfill_each-Evolves (f ∷ fs) seen cs ds h =
    let (c, e, h₁) = >>=-eq-ok _ _ h in
    let (_, h₂) = test-eq-ok _ _ h₁ in
    let (found, active, _, _) = active_commitment-eq-ok cs _ _ seen c e in
    Evolves-trans cs _ ds
      (update-Evolves _ (settle_commitment f) cs c found (settle_commitment-Advances f c active))
      (fulfill_each-Evolves fs _ _ ds h₂)

check_starts-update :
    (a : Text) (f : MaterialCommitment → MaterialCommitment) (cs : List MaterialCommitment)
    (starts : List MaterialSourceStart) (seen : List Text)
    → ((c : MaterialCommitment) → (f c).identity ≡ c.identity)
    → contains a seen ≡ true
    → check_starts cs starts seen ≡ ok tt
    → check_starts (update_commitment a f cs) starts seen ≡ ok tt
unfolding check_starts
check_starts-update a f cs [] seen k met h = refl
check_starts-update a f cs (s ∷ ss) seen k met h =
    let (c, e, h₁) = >>=-eq-ok _ _ h in
    let (t, h₂) = fail_if-eq-ok _ _ _ h₁ in
    let (_, _, unmet, _) = active_commitment-eq-ok cs _ _ seen c e in
    let ne = contains_ne a s.commitment_identity seen met unmet in
    let rest = check_starts-update a f cs ss (s.commitment_identity ∷ seen) k (still met) h₂ in
    rw (active_commitment-update a s.commitment_identity f cs _ seen k ne, e, >>=-ok)
      (rw (t, fail_if-false) rest)
  where
    still : contains a seen ≡ true → (a == s.commitment_identity || contains a seen) ≡ true
    still m = ground arith

start_each-Evolves :
    (starts : List MaterialSourceStart) (seen : List Text) (cs : List MaterialCommitment)
    → check_starts cs starts seen ≡ ok tt
    → Evolves cs (start_each starts cs)
unfolding check_starts start_each
start_each-Evolves [] seen cs h = Evolves-refl cs
start_each-Evolves (s ∷ ss) seen cs h =
    let (c, e, h₁) = >>=-eq-ok _ _ h in
    let (_, h₂) = fail_if-eq-ok _ _ _ h₁ in
    let (found, active, _, _) = active_commitment-eq-ok cs _ _ seen c e in
    let f = begin_source s.starting_inventory_quantity in
    let rest =
      check_starts-update s.commitment_identity f cs ss (s.commitment_identity ∷ seen)
        (λ d. unfold begin_source in refl) (met s.commitment_identity) h₂ in
    Evolves-trans cs _ _
      (update-Evolves _ f cs c found (begin_source-Advances s.starting_inventory_quantity c active))
      (start_each-Evolves ss (s.commitment_identity ∷ seen) _ rest)
  where
    met : (t : Text) → (t == t || contains t seen) ≡ true
    met t = rw ((text_eq.equals_iff t t).1 refl)

check_terminations-update :
    (a : Text) (f : MaterialCommitment → MaterialCommitment) (cs : List MaterialCommitment)
    (ids : List Text) (seen : List Text)
    → ((c : MaterialCommitment) → (f c).identity ≡ c.identity)
    → contains a seen ≡ true
    → check_terminations cs ids seen ≡ ok tt
    → check_terminations (update_commitment a f cs) ids seen ≡ ok tt
unfolding check_terminations
check_terminations-update a f cs [] seen k met h = refl
check_terminations-update a f cs (b ∷ ids) seen k met h =
    let (c, e, h₁) = >>=-eq-ok _ _ h in
    let (_, _, unmet, _) = active_commitment-eq-ok cs _ _ seen c e in
    let ne = contains_ne a b seen met unmet in
    let rest = check_terminations-update a f cs ids (b ∷ seen) k (still met) h₁ in
    rw (active_commitment-update a b f cs _ seen k ne, e, >>=-ok) rest
  where
    still : contains a seen ≡ true → (a == b || contains a seen) ≡ true
    still m = ground arith

terminate_each-Evolves :
    (terminal : MaterialCommitmentState) (ids seen : List Text) (cs : List MaterialCommitment)
    → check_terminations cs ids seen ≡ ok tt
    → Evolves cs (terminate_each terminal ids cs)
unfolding check_terminations terminate_each
terminate_each-Evolves terminal [] seen cs h = Evolves-refl cs
terminate_each-Evolves terminal (b ∷ ids) seen cs h =
    let (c, e, h₁) = >>=-eq-ok _ _ h in
    let (found, active, _, _) = active_commitment-eq-ok cs _ _ seen c e in
    let f = terminate terminal in
    let rest =
      check_terminations-update b f cs ids (b ∷ seen) (λ d. unfold terminate in refl) met h₁ in
    Evolves-trans cs _ _ (update-Evolves b f cs c found (terminate-Advances terminal c active))
      (terminate_each-Evolves terminal ids (b ∷ seen) _ rest)
  where
    met : (b == b || contains b seen) ≡ true
    met = rw ((text_eq.equals_iff b b).1 refl)

-- The commitments of two books, of which the second comes from the first.
abbrev Grows : MaterialCommitmentStartup → MaterialCommitmentStartup → Type 0
Grows s t = Evolves s.commitments t.commitments

Grows-of :
    (s : MaterialCommitmentStartup) {t u : MaterialCommitmentStartup}
    → ok t ≡ ok u
    → Grows s t
    → Grows s u
Grows-of s {t} {u} e g = subst (Grows s) (same e) g
  where
    same : ok t ≡ ok u → t ≡ u
    same h = cc

start_sources-Evolves :
    (s : MaterialCommitmentStartup) (c : MaterialCommitmentCommand) (t : MaterialCommitmentStartup)
    → start_sources s c ≡ ok t
    → Grows s t
unfolding start_sources
start_sources-Evolves s c t h =
    let (_, h₁) = fail_if-eq-ok _ _ _ h in
    let (checked, h₂) = test-eq-ok _ _ h₁ in
    Grows-of s h₂ (start_each-Evolves c.source_starts [] s.commitments checked)

fulfill_commitments-Evolves :
    (s : MaterialCommitmentStartup) (c : MaterialCommitmentCommand) (t : MaterialCommitmentStartup)
    → fulfill_commitments s c ≡ ok t
    → Grows s t
unfolding fulfill_commitments
fulfill_commitments-Evolves s c t h =
    let (_, h₁) = fail_if-eq-ok _ _ _ h in
    let (ds, e, h₂) = >>=-eq-ok _ _ h₁ in
    Grows-of s h₂ (fulfill_each-Evolves c.fulfillments [] s.commitments ds e)

terminate_commitments-Evolves :
    (s : MaterialCommitmentStartup) (ids : List Text) (terminal : MaterialCommitmentState)
    (t : MaterialCommitmentStartup)
    → terminate_commitments s ids terminal ≡ ok t
    → Grows s t
unfolding terminate_commitments
terminate_commitments-Evolves s ids terminal t h =
    let (_, h₁) = fail_if-eq-ok _ _ _ h in
    let (checked, h₂) = test-eq-ok _ _ h₁ in
    Grows-of s h₂ (terminate_each-Evolves terminal ids [] s.commitments checked)

admit_requirements-Evolves :
    (command : MaterialCommitmentCommand) (candidate : MaterialAdmissionCandidate)
    (intent : MaterialIntent) (rs : List MaterialRequirement) (a b : Admitting)
    → admit_requirements command candidate intent rs a ≡ ok b
    → Grows a.state b.state
unfolding admit_requirements
admit_requirements-Evolves command candidate intent [] a b h =
    subst (λ (x : Admitting). Grows a.state x.state) (same h) (Evolves-refl a.state.commitments)
  where
    same : ok a ≡ ok b → a ≡ b
    same e = cc
admit_requirements-Evolves command candidate intent (r ∷ rs) a b h =
    let (_, h₁) = fail_if-eq-ok _ _ _ h in
    let (_, _, h₂) = >>=-eq-ok _ _ h₁ in
    let (_, _, h₃) = >>=-eq-ok _ _ h₂ in
    Evolves-trans a.state.commitments _ b.state.commitments (Evolves-append a.state.commitments _)
      (admit_requirements-Evolves command candidate intent rs _ b h₃)

take_horizon-commitments :
    (s : MaterialCommitmentStartup) (candidate : MaterialAdmissionCandidate)
    → (take_horizon s candidate.origin_identity (first_path candidate.source_paths)).commitments
      ≡ s.commitments
unfolding take_horizon
take_horizon-commitments s candidate = ground arith

admit_each-Evolves :
    (command : MaterialCommitmentCommand) (cs : List MaterialAdmissionCandidate) (a b : Admitting)
    → admit_each command cs a ≡ ok b
    → Grows a.state b.state
unfolding admit_each
admit_each-Evolves command [] a b h =
    subst (λ (x : Admitting). Grows a.state x.state) (same h) (Evolves-refl a.state.commitments)
  where
    same : ok a ≡ ok b → a ≡ b
    same e = cc
admit_each-Evolves command (c ∷ cs) a b h =
    let (intent, _, h₁) = >>=-eq-ok _ _ h in
    let (a', e, h₂) = >>=-eq-ok _ _ h₁ in
    let first = admit_requirements-Evolves command c intent intent.requirements _ a' e in
    Evolves-trans a.state.commitments a'.state.commitments b.state.commitments
      (subst (λ ds. Evolves ds a'.state.commitments) (take_horizon-commitments a.state c) first)
      (admit_each-Evolves command cs a' b h₂)

pub admit_candidates-Evolves :
    (s : MaterialCommitmentStartup) (c : MaterialCommitmentCommand) (now : ℕ)
    (t : MaterialCommitmentStartup) (ids : List Text)
    → admit_candidates s c now ≡ ok (t, ids)
    → Grows s t
unfolding admit_candidates
admit_candidates-Evolves s c now t ids h =
    let (_, h₁) = test-eq-ok _ _ h in
    let (a, e, h₂) = >>=-eq-ok _ _ h₁ in
    subst (Grows s) (same a h₂) (admit_each-Evolves c c.candidates _ a e)
  where
    same :
        (a : Admitting)
        → ◌≡◌ {A = Outcome (MaterialCommitmentStartup × List Text)}
            (ok (a.state, a.admitted_identities))
            (ok (t, ids))
        → a.state ≡ t
    same a e = cc

supersede_commitments-Evolves :
    (s : MaterialCommitmentStartup) (c : MaterialCommitmentCommand) (now : ℕ)
    (t : MaterialCommitmentStartup) (ids : List Text)
    → supersede_commitments s c now ≡ ok (t, ids)
    → Grows s t
unfolding supersede_commitments
supersede_commitments-Evolves s c now t ids h =
    let (_, h₁) = fail_if-eq-ok _ _ _ h in
    let (_, _, h₂) = >>=-eq-ok _ _ h₁ in
    let (_, h₃) = fail_if-eq-ok _ _ _ h₂ in
    let (s', e, h₄) = >>=-eq-ok _ _ h₃ in
    Evolves-trans s.commitments s'.commitments t.commitments
      (terminate_commitments-Evolves s _ _ s' e) (admit_candidates-Evolves s' c now t ids h₄)

release_commitments-Evolves :
    (s : MaterialCommitmentStartup) (c : MaterialCommitmentCommand) (t : MaterialCommitmentStartup)
    → release_commitments s c ≡ ok t
    → Grows s t
unfolding release_commitments
release_commitments-Evolves s c t h =
    let (_, h₁) = fail_if-eq-ok _ _ _ h in terminate_commitments-Evolves s _ _ t h₁

Grows-with :
    (s t : MaterialCommitmentStartup) {u : MaterialCommitmentStartup} {ids : List Text}
    → ◌≡◌ {A = Outcome (MaterialCommitmentStartup × List Text)} (ok (t, [])) (ok (u, ids))
    → Grows s t
    → Grows s u
Grows-with s t {u} e g = subst (Grows s) (same e) g
  where
    same :
        {ids : List Text}
        → ◌≡◌ {A = Outcome (MaterialCommitmentStartup × List Text)} (ok (t, [])) (ok (u, ids))
        → t ≡ u
    same h = cc

apply_kind-Evolves :
    (k : MaterialCommitmentCommandKind) (s : MaterialCommitmentStartup)
    (c : MaterialCommitmentCommand) (now : ℕ) (t : MaterialCommitmentStartup) (ids : List Text)
    → k ≢ compact
    → apply_kind k s c now ≡ ok (t, ids)
    → Grows s t
unfolding apply_kind
apply_kind-Evolves compact s c now t ids n h = absurd (n refl)
apply_kind-Evolves observe s c now t ids n h =
    let (s', e, h₁) = >>=-eq-ok _ _ h in
    Grows-with s s' h₁ (
      subst (Evolves s.commitments) (sym (observe_intents-frame s c now s' e).1)
        (Evolves-refl s.commitments))
apply_kind-Evolves admit s c now t ids n h =
    let (_, h₁) = fail_if-eq-ok _ _ _ h in admit_candidates-Evolves s c now t ids h₁
apply_kind-Evolves start_source s c now t ids n h =
    let (s', e, h₁) = >>=-eq-ok _ _ h in Grows-with s s' h₁ (start_sources-Evolves s c s' e)
apply_kind-Evolves fulfill s c now t ids n h =
    let (s', e, h₁) = >>=-eq-ok _ _ h in Grows-with s s' h₁ (fulfill_commitments-Evolves s c s' e)
apply_kind-Evolves release s c now t ids n h =
    let (s', e, h₁) = >>=-eq-ok _ _ h in Grows-with s s' h₁ (release_commitments-Evolves s c s' e)
apply_kind-Evolves supersede s c now t ids n h = supersede_commitments-Evolves s c now t ids h

-- When any command but a compaction goes through, every commitment of the book is still found
-- under its identity. It keeps its origin, owner revision, market, item, quantity and horizon, its
-- remaining quantity does not grow, and if it was completed, released or superseded it is the same
-- as before.
pub commitment_survives :
    (s : MaterialCommitmentStartup) (c : MaterialCommitmentCommand) (now : ℕ)
    (t : MaterialCommitmentStartup) (ids : List Text) (identity : Text)
    (before : MaterialCommitment)
    → c.kind ≢ compact
    → apply_to_replacement s c now ≡ ok (t, ids)
    → find_commitment s.commitments identity ≡ some before
    → (after : MaterialCommitment) × (find_commitment t.commitments identity ≡ some after)
      × Advances before after
unfolding apply_to_replacement
commitment_survives s c now t ids identity before n h f =
    find-Evolves identity s.commitments t.commitments before
      (apply_kind-Evolves c.kind s c now t ids n h) f
