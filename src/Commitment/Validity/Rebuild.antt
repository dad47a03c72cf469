-- ===== src/Commitment/Validity/Rebuild.antt =====
-- A path that BuildSameActorGatheringPath builds is one that ValidSelectedSourcePath accepts.
use native.Mathlib.Nat.{mod-eq_of_lt}
use mod_playerbots_economy.Prelude.{
  ℕ, ◌*◌, ◌^◌, ◌/◌, ◌≤◌, ◌<◌, max, min, ◌≡◌, refl, sym, ap, subst, ◌∙◌, true, not, ◌&&◌, some, ◌==◌,
  nat_eq, arith,
}
use mod_playerbots_economy.Commitment.Types.{MaterialSourcePhase.selected, MaterialSourcePath}
use mod_playerbots_economy.Commitment.Encoding.{u64}
use mod_playerbots_economy.Commitment.Path.{
  SameActorGatheringPathInput, u32, valid_path_input, consistent_history,
  cold_start_seconds_per_resource, path_rates, backed_quantity, path_horizon, revision_facts,
  path_of, build_same_actor_gathering_path,
}
use mod_playerbots_economy.Commitment.Path.Build.{build-Built, build-eq_of_Built, seconds_of}
use mod_playerbots_economy.Commitment.Path.Bounds.{fits_path_bounds}
use mod_playerbots_economy.Commitment.Validity.{
  rebuild_input, agrees_with_rebuilt, valid_selected_source_path, phase_eq, source_path_eq,
}

-- A quantity that was cut, or was in reach, is not cut again.
backed_quantity-again :
    (available yield quantity q r : ℕ)
    → backed_quantity available yield quantity ≡ some (q, r)
    → r ≤ available
    → backed_quantity available yield q ≡ some (q, r)
unfolding backed_quantity
backed_quantity-again available yield quantity q r h le = ground arith

backed_quantity-pos :
    (available yield quantity q r : ℕ)
    → quantity < 2 ^ 32
    → 0 < quantity
    → backed_quantity available yield quantity ≡ some (q, r)
    → 0 < q
unfolding backed_quantity
backed_quantity-pos available yield quantity q r small pos h =
    let cut : u32 (min (u64 (available * yield) / 10000) quantity)
        ≡ min (u64 (available * yield) / 10000) quantity =
      mod-eq_of_lt (omega arith) in
    ground (arith, cut)

valid-pos :
    (input : SameActorGatheringPathInput)
    → (valid_path_input input && consistent_history input) ≡ true
    → 0 < input.selected_quantity
unfolding valid_path_input
valid-pos input h = ground arith

remaining-pos :
    (input : SameActorGatheringPathInput)
    → (valid_path_input input && consistent_history input) ≡ true
    → 0 < input.remaining_dedicated_activity_seconds
unfolding valid_path_input
remaining-pos input h = ground arith

abbrev with_quantity : SameActorGatheringPathInput → ℕ → SameActorGatheringPathInput
with_quantity input q = record input { selected_quantity = q }

valid-with_quantity :
    (input : SameActorGatheringPathInput) (q : ℕ)
    → 0 < q
    → (valid_path_input input && consistent_history input) ≡ true
    → (valid_path_input (with_quantity input q) && consistent_history (with_quantity input q))
      ≡ true
unfolding valid_path_input consistent_history
valid-with_quantity input q pos h = ground arith

-- Building again from the quantity that was backed gives the same path.
build-again :
    (input : SameActorGatheringPathInput) (path : MaterialSourcePath)
    → input.selected_quantity < 2 ^ 32
    → build_same_actor_gathering_path input ≡ some path
    → build_same_actor_gathering_path (with_quantity input path.selected_quantity) ≡ some path
unfolding path_rates cold_start_seconds_per_resource revision_facts path_of
build-again input path small h =
    let b = build-Built input path h in
    let f = b.finished in
    let bounds = fits_path_bounds _ _ _ f.fits in
    let pos = backed_quantity-pos _ _ _ _ _ small (valid-pos input b.valid) b.backed in
    let again = backed_quantity-again _ _ _ _ _ b.backed bounds.1 in
    let same : path.selected_quantity ≡ b.quantity = ap (λ p. p.selected_quantity) f.shape in
    subst (λ q. build_same_actor_gathering_path (with_quantity input q) ≡ some path) (sym same)
      (build-eq_of_Built (with_quantity input b.quantity) b.yield b.throughput b.quantity b.required
          f.needed_by (valid-with_quantity input b.quantity pos b.valid) b.warm b.rates b.yields
          again f.fits f.horizon f.revised
        ∙ ap some (sym f.shape))

rebuild_input-path :
    (input : SameActorGatheringPathInput) (path : MaterialSourcePath)
    → build_same_actor_gathering_path input ≡ some path
    → rebuild_input path ≡ with_quantity input path.selected_quantity
unfolding rebuild_input path_of
rebuild_input-path input path h = rw ((build-Built input path h).finished.shape) refl

-- The facts of a built path that the check reads besides the rebuilt path.
built_facts :
    (input : SameActorGatheringPathInput) (path : MaterialSourcePath)
    → input.remaining_dedicated_activity_seconds < 2 ^ 32
    → input.starting_inventory_quantity ≡ 0
    → build_same_actor_gathering_path input ≡ some path
    → (path.phase ≡ selected)
      × (path.starting_inventory_quantity ≡ 0)
      × (0 < path.source_action_budget_seconds)
      × (path_horizon path.selected_at path.source_travel_budget_seconds
            path.source_action_budget_seconds path.delivery_travel_budget_seconds
            path.completion_observation_budget_seconds
          ≡ some path.needed_by)
unfolding path_of
built_facts input path small start h =
    let b = build-Built input path h in
    let f = b.finished in
    let bounds = fits_path_bounds _ _ _ f.fits in
    let pos = remaining-pos input b.valid in
    let m =
      max (u64 (b.required * seconds_of input b.throughput))
        input.remaining_dedicated_activity_seconds in
    let prod_same : u64 (b.required * seconds_of input b.throughput)
        ≡ b.required * seconds_of input b.throughput =
      mod-eq_of_lt (omega arith) in
    let action_same : u32 m ≡ m = mod-eq_of_lt (omega arith) in
    rw f.shape (refl, start, omega arith, f.horizon)

number_tests :
    (inventory action : ℕ)
    → inventory ≡ 0
    → 0 < action
    → (true && inventory == 0 && (not (action == 0) && true)) ≡ true
number_tests inventory action i a = ground arith

-- Every path that the builder gives for an actor with an empty starting inventory passes the check
-- of a stored path, also when the builder cut the quantity.
pub valid_selected_source_path-build :
    (input : SameActorGatheringPathInput) (path : MaterialSourcePath)
    → input.selected_quantity < 2 ^ 32
    → input.remaining_dedicated_activity_seconds < 2 ^ 32
    → input.starting_inventory_quantity ≡ 0
    → build_same_actor_gathering_path input ≡ some path
    → valid_selected_source_path path ≡ true
unfolding valid_selected_source_path agrees_with_rebuilt
valid_selected_source_path-build input path qs rs start h =
    let (phase, inv, act, horizon) = built_facts input path rs start h in
    let again : build_same_actor_gathering_path (rebuild_input path) ≡ some path =
      ap build_same_actor_gathering_path (rebuild_input-path input path h)
      ∙ build-again input path qs h in
    let phase_same : (path.phase == selected) ≡ true = (phase_eq.equals_iff _ _).1 phase in
    let path_same : (path == path) ≡ true = (source_path_eq.equals_iff path path).1 refl in
    rw (again, horizon, phase_same, path_same) (number_tests _ _ inv act)
