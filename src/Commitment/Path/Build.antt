-- ===== src/Commitment/Path/Build.antt =====
-- What a successful build went through, for the proofs about BuildSameActorGatheringPath.
use mod_playerbots_economy.Prelude.{
  ℕ, ◌*◌, max, ◌≡◌, refl, Bool, true, false, not, ◌&&◌, Option, none, some, ◌==◌, nat_eq,
}
use mod_playerbots_economy.Commitment.Types.{MaterialSourcePath}
use mod_playerbots_economy.Commitment.Encoding.{u64, fnv1a}
use mod_playerbots_economy.Commitment.Path.{
  SameActorGatheringPathInput, u32, ◌>>=◌, ◌>>◌, require, valid_path_input, consistent_history,
  cold_start_seconds_per_resource, path_rates, backed_quantity, fits_path, path_horizon,
  revision_facts, path_of, finish_path, build_same_actor_gathering_path,
}

>>=-eq-some {ℓ κ} :
    {A : Type ℓ} {B : Type κ} (m : Option A) (f : A → Option B) {b : B}
    → (m >>= f) ≡ some b
    → (a : A) × (m ≡ some a) × (f a ≡ some b)
>>=-eq-some none f h = cc
>>=-eq-some (some a) f h = (a, refl, h)

require-eq-some {ℓ} :
    {B : Type ℓ} (test : Bool) (k : Option B) {b : B}
    → (require test >> k) ≡ some b
    → (test ≡ true) × (k ≡ some b)
require-eq-some true k h = (refl, h)
require-eq-some false k h = cc

abbrev pub seconds_of : SameActorGatheringPathInput → ℕ → ℕ
seconds_of input throughput = max input.authoritative_interaction_seconds throughput

abbrev pub action_of : SameActorGatheringPathInput → ℕ → ℕ → ℕ
action_of input throughput required =
    u32 (
      max (u64 (required * seconds_of input throughput)) input.remaining_dedicated_activity_seconds)

-- The last steps of the build, from a quantity and its resource count.
pub record Finished (input : SameActorGatheringPathInput) (yield throughput quantity required : ℕ)
    (path : MaterialSourcePath) : Type 0 where
  pub needed_by : ℕ
  pub fits : fits_path input.available_resource_count required (seconds_of input throughput) ≡ true
  pub horizon :
      path_horizon input.selected_at input.source_travel_budget_seconds
        (action_of input throughput required)
        input.delivery_travel_budget_seconds
        input.completion_observation_budget_seconds
      ≡ some needed_by
  pub revised : not (fnv1a (revision_facts input quantity) == 0) ≡ true
  pub shape :
      path
      ≡ path_of input quantity yield required
          (seconds_of input throughput)
          (action_of input throughput required)
          needed_by
          (fnv1a (revision_facts input quantity))

pub finish_path-Finished :
    (input : SameActorGatheringPathInput) (yield throughput quantity required : ℕ)
    (path : MaterialSourcePath)
    → finish_path input yield throughput quantity required ≡ some path
    → Finished input yield throughput quantity required path
unfolding finish_path
finish_path-Finished input yield throughput quantity required path h =
    let (f, h₁) = require-eq-some _ _ h in
    let (n, e, h₂) = >>=-eq-some _ _ h₁ in
    let (r, h₃) = require-eq-some _ _ h₂ in
    record { needed_by = n; fits = f; horizon = e; revised = r; shape = cc }

pub record Built (input : SameActorGatheringPathInput) (path : MaterialSourcePath) : Type 0 where
  pub yield : ℕ
  pub throughput : ℕ
  pub quantity : ℕ
  pub required : ℕ
  pub valid : (valid_path_input input && consistent_history input) ≡ true
  pub warm : not (cold_start_seconds_per_resource input == 0) ≡ true
  pub rates : path_rates input ≡ some (yield, throughput)
  pub yields : not (yield == 0) ≡ true
  pub backed :
      backed_quantity input.available_resource_count yield input.selected_quantity
      ≡ some (quantity, required)
  pub finished : Finished input yield throughput quantity required path

pub build-Built :
    (input : SameActorGatheringPathInput) (path : MaterialSourcePath)
    → build_same_actor_gathering_path input ≡ some path
    → Built input path
unfolding build_same_actor_gathering_path
build-Built input path h =
    let (v, h₁) = require-eq-some _ _ h in
    let (w, h₂) = require-eq-some _ _ h₁ in
    let ((y, t), e, h₃) = >>=-eq-some _ _ h₂ in
    let (p, h₄) = require-eq-some _ _ h₃ in
    let ((q, r), b, h₅) = >>=-eq-some _ _ h₄ in
    record {
      yield = y;
      throughput = t;
      quantity = q;
      required = r;
      valid = v;
      warm = w;
      rates = e;
      yields = p;
      backed = b;
      finished = finish_path-Finished input y t q r path h₅;
    }

-- A build that meets the same tests gives the path of its last steps.
pub build-eq_of_Built :
    (input : SameActorGatheringPathInput) (yield throughput quantity required needed_by : ℕ)
    → (valid_path_input input && consistent_history input) ≡ true
    → not (cold_start_seconds_per_resource input == 0) ≡ true
    → path_rates input ≡ some (yield, throughput)
    → not (yield == 0) ≡ true
    → backed_quantity input.available_resource_count yield input.selected_quantity
      ≡ some (quantity, required)
    → fits_path input.available_resource_count required (seconds_of input throughput) ≡ true
    → path_horizon input.selected_at input.source_travel_budget_seconds
        (action_of input throughput required)
        input.delivery_travel_budget_seconds
        input.completion_observation_budget_seconds
      ≡ some needed_by
    → not (fnv1a (revision_facts input quantity) == 0) ≡ true
    → build_same_actor_gathering_path input
      ≡ some (
          path_of input quantity yield required
            (seconds_of input throughput)
            (action_of input throughput required)
            needed_by
            (fnv1a (revision_facts input quantity)))
unfolding build_same_actor_gathering_path finish_path
build-eq_of_Built input y t q r n v w e p b f hz rv = rw (v, w, e, p, b, f, hz, rv)
