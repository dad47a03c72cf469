-- ===== src/Commitment/Path/Bounds.antt =====
-- What a built path promises: quantities, counts, budgets and horizon.
use native.Mathlib.Nat.{mod-eq_of_lt, div-lt_iff_lt-mul}
use mod_playerbots_economy.Prelude.{
  ℕ, ◌+◌, ◌-◌, ◌*◌, ◌/◌, ◌^◌, ◌≤◌, ◌<◌, min, max, ◌≡◌, ◌⊎◌, true, some, nat_eq, arith,
}
use mod_playerbots_economy.Commitment.Types.{MaterialSourcePath}
use mod_playerbots_economy.Commitment.Encoding.{u64}
use mod_playerbots_economy.Commitment.Path.{
  SameActorGatheringPathInput, u32, u32_max, resources_for, backed_quantity, fits_path,
  path_horizon, path_of, build_same_actor_gathering_path,
}
use mod_playerbots_economy.Commitment.Path.Build.{build-Built, Finished, seconds_of}

pub path_horizon-eq-sum :
    (s t a d o : ℕ) {n : ℕ} → path_horizon s t a d o ≡ some n → n ≡ s + t + a + d + o
unfolding path_horizon
path_horizon-eq-sum s t a d o h = ground arith

backed_quantity-le :
    (available yield quantity : ℕ) {q r : ℕ}
    → backed_quantity available yield quantity ≡ some (q, r)
    → q ≤ quantity
unfolding backed_quantity
backed_quantity-le available yield quantity h = ground arith

pub fits_path_bounds :
    (available required seconds : ℕ)
    → fits_path available required seconds ≡ true
    → (0 < required)
      × (required ≤ available)
      × (0 < seconds)
      × (required ≤ u32_max)
      × (seconds ≤ u32_max)
      × (required * seconds ≤ u32_max)
unfolding fits_path
fits_path_bounds available required seconds h = grind arith

Finished-bounds :
    (input : SameActorGatheringPathInput) (y t q r : ℕ) (path : MaterialSourcePath)
    → input.remaining_dedicated_activity_seconds < 2 ^ 32
    → Finished input y t q r path
    → (0 < path.required_resource_count)
      × (path.required_resource_count ≤ input.available_resource_count)
      × (path.required_resource_count * path.seconds_per_resource
          ≤ path.source_action_budget_seconds)
      × (input.remaining_dedicated_activity_seconds ≤ path.source_action_budget_seconds)
      × (path.needed_by
          ≡ input.selected_at + input.source_travel_budget_seconds
            + path.source_action_budget_seconds + input.delivery_travel_budget_seconds
            + input.completion_observation_budget_seconds)
Finished-bounds input y t q r path small f =
    let s = seconds_of input t in
    let (p, a, sp, rm, sm, prod) = fits_path_bounds _ _ _ f.fits in
    let r_same : u32 r ≡ r = mod-eq_of_lt (omega arith) in
    let s_same : u32 s ≡ s = mod-eq_of_lt (omega arith) in
    let prod_same : u64 (r * s) ≡ r * s = mod-eq_of_lt (omega arith) in
    let m = max (u64 (r * s)) input.remaining_dedicated_activity_seconds in
    let action_same : u32 m ≡ m = mod-eq_of_lt (omega arith) in
    rw f.shape (
      unfold path_of in
      (
        omega arith,
        omega arith,
        rw (r_same, s_same) (omega arith),
        omega arith,
        path_horizon-eq-sum _ _ _ _ _ f.horizon,
      ))

-- A built path asks for no more than the input, needs at least one and at most the available
-- resources, has an action budget that covers them and the whole activity window, and its horizon
-- is the exact sum of its start and budgets.
pub build_bounds :
    (input : SameActorGatheringPathInput) (path : MaterialSourcePath)
    → input.remaining_dedicated_activity_seconds < 2 ^ 32
    → build_same_actor_gathering_path input ≡ some path
    → (path.selected_quantity ≤ input.selected_quantity)
      × (0 < path.required_resource_count)
      × (path.required_resource_count ≤ input.available_resource_count)
      × (path.required_resource_count * path.seconds_per_resource
          ≤ path.source_action_budget_seconds)
      × (input.remaining_dedicated_activity_seconds ≤ path.source_action_budget_seconds)
      × (path.needed_by
          ≡ input.selected_at + input.source_travel_budget_seconds
            + path.source_action_budget_seconds + input.delivery_travel_budget_seconds
            + input.completion_observation_budget_seconds)
build_bounds input path small h =
    let b = build-Built input path h in
    let (p, a, c, w, e) = Finished-bounds input _ _ _ _ path small b.finished in
    let le = backed_quantity-le _ _ _ b.backed in
    (rw b.finished.shape (unfold path_of in le), p, a, c, w, e)

resources_for-le :
    (yield quantity available : ℕ)
    → 0 < yield
    → yield < 2 ^ 32
    → quantity < 2 ^ 32
    → quantity * 10000 ≤ available * yield
    → resources_for yield quantity ≤ available
unfolding resources_for
resources_for-le yield quantity available pos ys qs le =
    let same : u64 (quantity * 10000 + yield - 1) ≡ quantity * 10000 + yield - 1 =
      mod-eq_of_lt (omega arith) in
    let below : quantity * 10000 + yield - 1 < (available + 1) * yield = omega arith in
    let q : (quantity * 10000 + yield - 1) / yield < available + 1 =
      (div-lt_iff_lt-mul pos).1 below in
    rw same (omega arith)

-- A quantity that the resources in reach cannot deliver is cut to one that they can: the count is
-- within reach, nothing is lost to the 32-bit casts, and no larger quantity up to the one asked
-- for could be delivered.
pub backed_quantity_delivers :
    (available yield quantity : ℕ) {q r : ℕ}
    → available < 2 ^ 32
    → 0 < yield
    → yield < 2 ^ 32
    → quantity < 2 ^ 32
    → backed_quantity available yield quantity ≡ some (q, r)
    → (r ≤ available)
      × (r ≡ resources_for yield q)
      × ((q ≡ quantity) ⊎ (available * yield < (q + 1) * 10000))
unfolding backed_quantity
backed_quantity_delivers available yield quantity av pos ys qs h =
    let prod : available * yield < 2 ^ 64 = grind arith in
    let same : u64 (available * yield) ≡ available * yield = mod-eq_of_lt prod in
    let backable = u64 (available * yield) / 10000 in
    let cut : u32 (min backable quantity) ≡ min backable quantity = mod-eq_of_lt (omega arith) in
    ground (arith, same, cut, resources_for-le yield (u32 (min backable quantity)) available)
