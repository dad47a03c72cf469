-- ===== src/Coordinator/Moves.antt =====
-- What the operations do to the claims and to the cache of the totals, as sequences of moves.
pub mod Chains
pub mod Claims
pub mod Facts
pub mod Excess
pub mod Lease
pub mod Production
pub mod Work
use mod_playerbots_economy.Prelude.{
  ℕ, ◌+◌, ◌≤◌, ◌<◌, ◌^◌, ◌≡◌, refl, sym, ap, subst, ◌∙◌, Bool, true, false, List, [], ◌∷◌, ◌++◌,
  arith, All, if◌then◌else◌, ◌⊎◌, inl, inr, Bool-cases,
}
use mod_playerbots_economy.Coordinator.Types.{
  EconomyActorFacts, EconomyMarketFacts, EconomyAssignment,
}
use mod_playerbots_economy.Coordinator.Groups.{GapKey}
use mod_playerbots_economy.Coordinator.State.{
  Gaps, Credits, Coordinator, is_personal, add_actors, add_markets, add_claims, current_gaps,
  calculate_gaps, invalidate_gap_cache,
}
use mod_playerbots_economy.Coordinator.Credits.{Alike, add_actors-Alike}
use mod_playerbots_economy.Coordinator.Outcome.{is_leased}

-- A claim wants something, has committed at most that, and bridges at most what it committed,
-- which is nothing as long as it is leased.
pub record IsOrderly (c : EconomyAssignment) : Type 0 where
  pub positive : 0 < c.quantity
  pub small : c.quantity < 2 ^ 32
  pub within : c.committed_quantity ≤ c.quantity
  pub bridged : c.bridged_quantity ≤ c.committed_quantity
  pub unbridged : is_leased c ≡ true → c.bridged_quantity ≡ 0

abbrev pub Orderly : List EconomyAssignment → Type 0
Orderly = All IsOrderly

-- The part of the state that the totals are made of, the cache, and the claims.
pub record Core : Type 0 where
  pub actors : List (ℕ × EconomyActorFacts)
  pub markets : List (ℕ × EconomyMarketFacts)
  pub credits : List (ℕ × Credits)
  pub claims : List EconomyAssignment
  pub gaps : Gaps
  pub consumers : List (GapKey × List ℕ)
  pub is_dirty : Bool

abbrev pub core : Coordinator → Core
core st = record {
  actors = st.actors;
  markets = st.markets;
  credits = st.consumed_input_credits;
  claims = st.claims;
  gaps = st.cached_gaps;
  consumers = st.cached_consumers;
  is_dirty = st.gap_cache_dirty;
}

abbrev pub totals_of : Core → Gaps × List (GapKey × List ℕ)
totals_of c =
    let r = add_actors c.credits c.actors ([], []) in
    (add_claims c.claims (add_markets c.markets r.0), r.1)

-- A clean cache holds what a calculation from scratch gives.
pub record IsCoherent (c : Core) : Type 0 where
  pub gaps : c.is_dirty ≡ false → c.gaps ≡ (totals_of c).0
  pub consumers : c.is_dirty ≡ false → c.consumers ≡ (totals_of c).1

-- The moves: nothing that matters changes; the totals are calculated; the cache is left marked;
-- claims change in a way that adds nothing to the totals; credits are stored in another way.
pub data Moves : Coordinator → Coordinator → Type 0 where
  still : {s t : Coordinator} → core t ≡ core s → Moves s t
  counts : (s : Coordinator) → Moves s (calculate_gaps s)
  edits :
      {s t : Coordinator}
      → t.gap_cache_dirty ≡ true
      → (Orderly s.claims → Orderly t.claims)
      → Moves s t
  adjusts :
      {s t : Coordinator}
      → core t ≡ record (core s) { claims = t.claims }
      → (Orderly s.claims → Orderly t.claims)
      → ((gaps : Gaps) → add_claims t.claims gaps ≡ add_claims s.claims gaps)
      → Moves s t
  rereads :
      {s t : Coordinator}
      → core t ≡ record (core s) { credits = t.consumed_input_credits }
      → Alike t.consumed_input_credits s.consumed_input_credits
      → Moves s t
  joins : {s t u : Coordinator} → Moves s t → Moves t u → Moves s u

pub Moves-refl : (s : Coordinator) → Moves s s
Moves-refl s = still refl

pub Moves-Orderly : {s t : Coordinator} → Moves s t → Orderly s.claims → Orderly t.claims
unfolding calculate_gaps
Moves-Orderly (still {s} {t} e) o = subst (λ (c : Core). Orderly c.claims) (sym e) o
Moves-Orderly (counts s) o = ground arith
Moves-Orderly (edits e f) o = f o
Moves-Orderly (adjusts e f g) o = f o
Moves-Orderly (rereads {s} {t} e f) o = subst (λ (c : Core). Orderly c.claims) (sym e) o
Moves-Orderly (joins m n) o = Moves-Orderly n (Moves-Orderly m o)

pub true≢false : true ≡ false → ⊥
true≢false e = cc

core_calculated :
    (s : Coordinator)
    → s.gap_cache_dirty ≡ true
    → core (calculate_gaps s) ≡ record (core s) {
      gaps = (totals_of (core s)).0;
      consumers = (totals_of (core s)).1;
      is_dirty = false;
    }
unfolding calculate_gaps current_gaps
core_calculated s e = simp e

core_kept : (s : Coordinator) → s.gap_cache_dirty ≡ false → core (calculate_gaps s) ≡ core s
unfolding calculate_gaps current_gaps
core_kept s e = simp e

calculate_gaps-IsCoherent :
    (s : Coordinator) → IsCoherent (core s) → IsCoherent (core (calculate_gaps s))
unfolding calculate_gaps current_gaps
calculate_gaps-IsCoherent s h = elim (Bool-cases s.gap_cache_dirty) [
  | inl e ↦
      subst IsCoherent (sym (core_calculated s e))
        (record { gaps = λ _. refl; consumers = λ _. refl })
  | inr e ↦ subst IsCoherent (sym (core_kept s e)) h
]

edits-IsCoherent : (t : Coordinator) → t.gap_cache_dirty ≡ true → IsCoherent (core t)
edits-IsCoherent t d = record {
  gaps = λ e. absurd (true≢false (sym d ∙ e));
  consumers = λ e. absurd (true≢false (sym d ∙ e));
}

adjusts-IsCoherent :
    (c : Core) (claims : List EconomyAssignment)
    → ((gaps : Gaps) → add_claims claims gaps ≡ add_claims c.claims gaps)
    → IsCoherent c
    → IsCoherent (record c { claims = claims })
adjusts-IsCoherent c claims same h = record {
  gaps = λ e. h.gaps e ∙ sym (same _);
  consumers = λ e. h.consumers e;
}

rereads-IsCoherent :
    (c : Core) (credits : List (ℕ × Credits))
    → Alike credits c.credits
    → IsCoherent c
    → IsCoherent (record c { credits = credits })
rereads-IsCoherent c credits same h =
    let e : add_actors credits c.actors ([], []) ≡ add_actors c.credits c.actors ([], []) =
      add_actors-Alike credits c.credits same c.actors ([], []) in
    record {
      gaps = λ d. h.gaps d ∙ ap (λ r. add_claims c.claims (add_markets c.markets r.0)) (sym e);
      consumers = λ d. h.consumers d ∙ ap (λ r. r.1) (sym e);
    }

pub Moves-IsCoherent : {s t : Coordinator} → Moves s t → IsCoherent (core s) → IsCoherent (core t)
Moves-IsCoherent (still e) h = subst IsCoherent (sym e) h
Moves-IsCoherent (counts s) h = calculate_gaps-IsCoherent s h
Moves-IsCoherent (edits {s} {t} e f) h = edits-IsCoherent t e
Moves-IsCoherent (adjusts {s} {t} e f g) h =
    subst IsCoherent (sym e) (adjusts-IsCoherent (core s) t.claims g h)
Moves-IsCoherent (rereads {s} {t} e f) h =
    subst IsCoherent (sym e) (rereads-IsCoherent (core s) t.consumed_input_credits f h)
Moves-IsCoherent (joins m n) h = Moves-IsCoherent n (Moves-IsCoherent m h)
