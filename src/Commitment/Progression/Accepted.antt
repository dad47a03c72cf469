-- ===== src/Commitment/Progression/Accepted.antt =====
-- The book takes a command that BuildProfessionProgressionObserve made for it.
use native.Mathlib.Nat.{mod-eq_of_lt}
use mod_playerbots_economy.Prelude.{
  ℕ, ◌+◌, ◌^◌, ◌<◌, ◌≡◌, refl, sym, ap, subst, ◌∙◌, inl, inr, Bool, true, false, not, ◌&&◌, List,
  [], ◌∷◌, ◌++◌, Option, none, some, Text, arith, is_empty, length, ltb, leb, Bool-cases,
  update_first, find_if-append, find_if-update_first, ◌==◌, nat_eq, text_eq,
}
use mod_playerbots_economy.Commitment.Types.{
  MaterialRequirement, MaterialIntent, MaterialCommitmentStartup, MaterialCommitmentSnapshot,
  MaterialCommitmentCommand, MaterialCommitmentOwnerKind.profession_progression,
}
use mod_playerbots_economy.Commitment.Encoding.{max_identity_bytes, u64}
use mod_playerbots_economy.Commitment.Outcome.{ok, u64_max, ◌>>◌, ◌>>=◌, fail_if, find_intent}
use mod_playerbots_economy.Commitment.Validity.{
  valid_intent, valid_requirements, owner_kind_eq, requirements_eq,
}
use mod_playerbots_economy.Commitment.Observe.{
  is_stale, has_active_origin, observe_intent, observe_each, observe_intents,
}
use mod_playerbots_economy.Commitment.Progression.{
  ProfessionProgressionIntentInput, ProfessionProgressionObserveBuildStatus,
  profession_progression_origin_identity, profession_progression_observe_operation_identity,
  valid_intent_input, sound_requirements, sort_requirements, observed_intent, observe_command,
  observe_at, observe_over, already_observed, build_profession_progression_observe,
}
use mod_playerbots_economy.Commitment.Progression.Requirements.{
  sort_requirements-distinct, is_empty-sort_requirements,
}

-- The revision that the built intent has, over the intent that the snapshot has.
abbrev next_revision : Option MaterialIntent → ℕ
next_revision none = 1
next_revision (some existing) = u64 (existing.owner_revision + 1)

observe_at-eq-command :
    (input : ProfessionProgressionIntentInput) (snapshot : MaterialCommitmentSnapshot)
    (origin : Text) (rs : List MaterialRequirement) (revision : ℕ) (c : MaterialCommitmentCommand)
    → (observe_at input snapshot origin rs revision).command ≡ some c
    → c
      ≡ observe_command
          (profession_progression_observe_operation_identity origin revision)
          snapshot.book_revision
          (observed_intent input origin revision rs)
unfolding observe_at
observe_at-eq-command input snapshot origin rs revision c h = ground arith

record Built (input : ProfessionProgressionIntentInput) (snapshot : MaterialCommitmentSnapshot)
    (c : MaterialCommitmentCommand) : Type 0 where
  checked : valid_intent_input input ≡ true
  sound : sound_requirements (sort_requirements input.scarce_requirements) ≡ true
  short : ltb max_identity_bytes (length (profession_progression_origin_identity input)) ≡ false
  over :
      (observe_over input snapshot
        (profession_progression_origin_identity input)
        (sort_requirements input.scarce_requirements)
        (find_intent snapshot.intents (profession_progression_origin_identity input))).command
      ≡ some c

build-Built :
    (input : ProfessionProgressionIntentInput) (snapshot : MaterialCommitmentSnapshot)
    (c : MaterialCommitmentCommand)
    → (build_profession_progression_observe input snapshot).command ≡ some c
    → Built input snapshot c
unfolding build_profession_progression_observe
build-Built input snapshot c h = record {
  checked = ground arith;
  sound = ground arith;
  short = ground arith;
  over = ground arith;
}

observe_over-eq-command :
    (input : ProfessionProgressionIntentInput) (snapshot : MaterialCommitmentSnapshot)
    (origin : Text) (rs : List MaterialRequirement) (found : Option MaterialIntent)
    (c : MaterialCommitmentCommand)
    → (observe_over input snapshot origin rs found).command ≡ some c
    → (c
        ≡ observe_command
            (profession_progression_observe_operation_identity origin (next_revision found))
            snapshot.book_revision
            (observed_intent input origin (next_revision found) rs))
      × ((e : MaterialIntent) → found ≡ some e → (e.owner_revision == u64_max) ≡ false)
unfolding observe_over
observe_over-eq-command input snapshot origin rs none c h =
    (observe_at-eq-command input snapshot origin rs 1 c h, λ e p. cc)
observe_over-eq-command input snapshot origin rs (some e) c h =
    elim (Bool-cases (already_observed input rs e)) [
      | inl t ↦ absurd (clash (sym h ∙ rw t refl))
      | inr t ↦ elim (Bool-cases (e.owner_revision == u64_max)) [
        | inl m ↦ absurd (clash (sym h ∙ rw (t, m) refl))
        | inr m ↦ (
          observe_at-eq-command input snapshot origin rs (u64 (e.owner_revision + 1)) c
              (sym (rw (t, m) refl) ∙ h),
          λ d p. same d p m,
        )
      ]
    ]
  where
    clash : some c ≡ none → ⊥
    clash p = cc

    same :
        (d : MaterialIntent)
        → some e ≡ some d
        → (e.owner_revision == u64_max) ≡ false
        → (d.owner_revision == u64_max) ≡ false
    same d p m =
        let q : e ≡ d = cc in
        subst (λ (x : MaterialIntent). (x.owner_revision == u64_max) ≡ false) q m

-- The book with a new or a newer intent.
abbrev with_intent :
    MaterialCommitmentStartup
    → MaterialIntent
    → ℕ
    → Option MaterialIntent
    → MaterialCommitmentStartup
with_intent s i now none = record s {
  intents = s.intents ++ record i { first_observed_at = now; last_observed_at = now } ∷ [];
}
with_intent s i now (some existing) = record s {
  intents =
      update_first (λ j. j.origin_identity == i.origin_identity)
        (λ _. record i { first_observed_at = existing.first_observed_at; last_observed_at = now })
        s.intents;
}

observe_intents-eq-ok :
    (s : MaterialCommitmentStartup) (i : MaterialIntent) (operation : Text) (revision now : ℕ)
    (found : Option MaterialIntent)
    → 0 < now
    → valid_intent i false ≡ true
    → find_intent s.intents i.origin_identity ≡ found
    → ((e : MaterialIntent) → found ≡ some e → e.owner_revision < i.owner_revision)
    → has_active_origin s.commitments i.origin_identity ≡ false
    → observe_intents s (observe_command operation revision i) now ≡ ok (with_intent s i now found)
unfolding observe_intents observe_each observe_intent observe_command ◌>>=◌ ◌>>◌ fail_if
observe_intents-eq-ok s i operation revision now none pos v f newer free =
    let nz : (now == 0) ≡ false = ground arith in rw (nz, v, observe_intent, f) refl
observe_intents-eq-ok s i operation revision now (some e) pos v f newer free =
    let nz : (now == 0) ≡ false = ground arith in
    let current : is_stale i e ≡ false = fresh (newer e refl) in
    rw (nz, v, observe_intent, f, current, free) refl
  where
    fresh : e.owner_revision < i.owner_revision → is_stale i e ≡ false
    fresh lt = unfold is_stale in ground arith

built_valid :
    (input : ProfessionProgressionIntentInput) (origin : Text) (revision : ℕ)
    → valid_intent_input input ≡ true
    → is_empty origin ≡ false
    → ltb max_identity_bytes (length origin) ≡ false
    → 0 < revision
    → sound_requirements (sort_requirements input.scarce_requirements) ≡ true
    → valid_intent
        (observed_intent input origin revision (sort_requirements input.scarce_requirements))
        false
      ≡ true
unfolding valid_intent_input valid_intent valid_requirements sound_requirements observed_intent
built_valid input origin revision v named short pos sound =
    let rs = input.scarce_requirements in
    let distinct = sort_requirements-distinct rs (ground arith) (ground arith) in
    let full = is_empty-sort_requirements rs (ground arith) in
    passes _ _ _ named (ground arith) full distinct
  where
    passes :
        (e r d : Bool)
        → e ≡ false
        → ltb max_identity_bytes (length origin) ≡ false
        → r ≡ false
        → d ≡ true
        → (not e
            && leb (length origin) max_identity_bytes
            && not (revision == 0)
            && not (input.market_id == 0)
            && not (input.bounded_batch == 0)
            && (not r && d)
            && (true && true))
          ≡ true
    passes e r d he short' hr hd = ground arith

next_revision-grows :
    (found : Option MaterialIntent)
    → ((e : MaterialIntent) → found ≡ some e → e.owner_revision < 2 ^ 64)
    → ((e : MaterialIntent) → found ≡ some e → (e.owner_revision == u64_max) ≡ false)
    → (0 < next_revision found)
      × ((e : MaterialIntent) → found ≡ some e → e.owner_revision < next_revision found)
next_revision-grows none small below = (omega arith, λ e p. cc)
next_revision-grows (some d) small below =
    let less : d.owner_revision + 1 < 2 ^ 64 =
      under d.owner_revision (small d refl) (below d refl) in
    let same : u64 (d.owner_revision + 1) ≡ d.owner_revision + 1 = mod-eq_of_lt less in
    (rw same (omega arith), λ e p. rw same (above e p))
  where
    under : (n : ℕ) → n < 2 ^ 64 → (n == u64_max) ≡ false → n + 1 < 2 ^ 64
    under n a b = ground arith

    above : (e : MaterialIntent) → some d ≡ some e → e.owner_revision < d.owner_revision + 1
    above e p =
        let q : d ≡ e = cc in
        subst (λ (x : MaterialIntent). x.owner_revision < d.owner_revision + 1) q (omega arith)

origin_identity-nonempty :
    (input : ProfessionProgressionIntentInput)
    → is_empty (profession_progression_origin_identity input) ≡ false
unfolding profession_progression_origin_identity
origin_identity-nonempty input = refl

-- The taken intent is found in the new book, with its times.
with_intent-find :
    (s : MaterialCommitmentStartup) (i : MaterialIntent) (now : ℕ) (found : Option MaterialIntent)
    → find_intent s.intents i.origin_identity ≡ found
    → (first : ℕ) × (find_intent (with_intent s i now found).intents i.origin_identity
        ≡ some (record i { first_observed_at = first; last_observed_at = now }))
unfolding find_intent
with_intent-find s i now none f =
    let met = (text_eq.equals_iff i.origin_identity i.origin_identity).1 refl in
    (now, find_if-append _ s.intents _ f ∙ rw met refl)
with_intent-find s i now (some e) f =
    let met = (text_eq.equals_iff i.origin_identity i.origin_identity).1 refl in
    (e.first_observed_at, find_if-update_first _ _ e s.intents f met)

already_observed-observed_intent :
    (input : ProfessionProgressionIntentInput) (origin : Text) (revision first now : ℕ)
    (rs : List MaterialRequirement)
    → already_observed input rs (record (observed_intent input origin revision rs) {
      first_observed_at = first;
      last_observed_at = now;
    })
      ≡ true
unfolding already_observed observed_intent
already_observed-observed_intent input origin revision first now rs =
    let kind = (owner_kind_eq.equals_iff profession_progression profession_progression).1 refl in
    let same = (requirements_eq.equals_iff rs rs).1 refl in
    let market = (nat_eq.equals_iff input.market_id input.market_id).1 refl in
    let batch = (nat_eq.equals_iff input.bounded_batch input.bounded_batch).1 refl in
    rw (kind, same, market, batch) refl

build-no_change :
    (input : ProfessionProgressionIntentInput) (snapshot again : MaterialCommitmentSnapshot)
    (c : MaterialCommitmentCommand) (e : MaterialIntent)
    → Built input snapshot c
    → find_intent again.intents (profession_progression_origin_identity input) ≡ some e
    → already_observed input (sort_requirements input.scarce_requirements) e ≡ true
    → (build_profession_progression_observe input again).status
      ≡ ProfessionProgressionObserveBuildStatus.no_change
unfolding build_profession_progression_observe observe_over
build-no_change input snapshot again c e b f o = rw (b.checked, b.sound, b.short, f, o) refl

-- A command that BuildProfessionProgressionObserve makes for the intents of a book is taken by
-- ObserveIntents, when the intents have 64-bit revisions, no active commitment stands on the
-- origin and the time is not 0. Over the intents of the new book the same input changes nothing.
pub observe_intents-build :
    (s : MaterialCommitmentStartup) (input : ProfessionProgressionIntentInput)
    (snapshot : MaterialCommitmentSnapshot) (c : MaterialCommitmentCommand) (now : ℕ)
    → snapshot.intents ≡ s.intents
    → ((e : MaterialIntent)
        → find_intent s.intents (profession_progression_origin_identity input) ≡ some e
        → e.owner_revision < 2 ^ 64)
    → has_active_origin s.commitments (profession_progression_origin_identity input) ≡ false
    → 0 < now
    → (build_profession_progression_observe input snapshot).command ≡ some c
    → (t : MaterialCommitmentStartup) × (observe_intents s c now ≡ ok t)
      × ((build_profession_progression_observe input
            (record snapshot { intents = t.intents })).status
          ≡ ProfessionProgressionObserveBuildStatus.no_change)
unfolding observed_intent
observe_intents-build s input snapshot c now same small free pos h =
    let b = build-Built input snapshot c h in
    let origin = profession_progression_origin_identity input in
    let found = find_intent s.intents origin in
    let looked : find_intent snapshot.intents origin ≡ found =
      ap (λ (is : List MaterialIntent). find_intent is origin) same in
    let (e, below) =
      observe_over-eq-command input snapshot origin (sort_requirements input.scarce_requirements)
        (find_intent snapshot.intents origin) c b.over in
    let (grown, newer) = next_revision-grows found small (λ d p. below d (looked ∙ p)) in
    let i =
      observed_intent input origin (next_revision found)
        (sort_requirements input.scarce_requirements) in
    let v =
      built_valid input origin (next_revision found) b.checked (origin_identity-nonempty input)
        b.short grown b.sound in
    let (first, there) = with_intent-find s i now found refl in
    (
      with_intent s i now found,
      rw (e, looked) (observe_intents-eq-ok s i _ _ now found pos v refl newer free),
      build-no_change input snapshot _ c _ b there
          (already_observed-observed_intent input origin (next_revision found) first now _),
    )
