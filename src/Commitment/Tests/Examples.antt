-- ===== src/Commitment/Tests/Examples.antt =====
-- The theorems at inputs where they apply.
use mod_playerbots_economy.Prelude.{
  ℕ, ◌+◌, ◌*◌, ◌≤◌, ◌<◌, ◌≡◌, ◌≢◌, refl, ap, ◌⊎◌, inl, true, List, [], ◌∷◌, some, Text, codes,
  arith, text_discrete, not, all_of, keep_if, ◌==◌, nat_eq,
}
use mod_playerbots_economy.Commitment.Types.{
  MaterialCommitmentCommandKind, MaterialCommitment, MaterialCommitmentStartup,
  capacity_kind_discrete, capacity_key_discrete,
}
use mod_playerbots_economy.Commitment.Outcome.{ok, ◌>>=◌, ◌>>◌, fail_if, or_fail, find_commitment}
use mod_playerbots_economy.Commitment.Path.{backed_quantity, resources_for}
use mod_playerbots_economy.Commitment.Path.Bounds.{build_bounds, backed_quantity_delivers}
use mod_playerbots_economy.Commitment.Validity.{valid_selected_source_path}
use mod_playerbots_economy.Commitment.Validity.Rebuild.{valid_selected_source_path-build}
use mod_playerbots_economy.Commitment.Admission.{find_observation}
use mod_playerbots_economy.Commitment.Settle.{check_fulfillment, settle_commitment, release_all}
use mod_playerbots_economy.Commitment.Settle.Conservation.{backing, used_up, settle_conserves}
use mod_playerbots_economy.Commitment.Compact.{dropped_identities}
use mod_playerbots_economy.Commitment.Compact.Log.{compact_book-log, names_dropped}
use mod_playerbots_economy.Commitment.Authority.{
  Applied, new_authority, restore, apply, apply_to_replacement, complete_write, write_of,
  operation_of, logged,
}
use mod_playerbots_economy.Commitment.Soundness.{Accepted, Unchanged, apply_cases}
use mod_playerbots_economy.Commitment.Invariant.{
  IsSound, Reach, here, next, restored, applied, Reach-IsSound,
}
use mod_playerbots_economy.Commitment.Capacity.{held}
use mod_playerbots_economy.Commitment.Capacity.Bound.{apply_no_overcommit}
use mod_playerbots_economy.Commitment.Lifecycle.{Advances}
use mod_playerbots_economy.Commitment.Lifecycle.Operations.{commitment_survives}
use mod_playerbots_economy.Commitment.Remembered.{Later, at_once, then_applied, then_completed}
use mod_playerbots_economy.Commitment.Retry.{names, retried, apply-retry, apply_conflates}
use mod_playerbots_economy.Commitment.Tests.{
  bag, book, observation, admit_bars, started, reservation, admitted_bars, book_admitted,
  admitted_identities, release_bars, book_released, two_bars, book_logged, drop_smelting,
  book_compacted, herbs, closing, drop_commitment, book_dropped,
}
use mod_playerbots_economy.Commitment.Tests.Runs.{
  book_valid, admit_Accepted, admit_accepted, release_run, compact_run, herbs_path, herbs_run,
  drop_accepted, after_release, after_release-state,
}

started-IsSound : IsSound started
started-IsSound = record { bounded = omega arith; valid = λ _. book_valid; awaited = λ p e. cc }

bag_observed : find_observation admit_bars.capacity_observations bag ≡ some observation
unfolding find_observation capacity_key_discrete capacity_kind_discrete text_discrete
bag_observed = refl

apply_no_overcommit_example : held bag book_admitted.commitments ≤ 8
unfolding admit_Accepted capacity_key_discrete capacity_kind_discrete text_discrete
apply_no_overcommit_example =
    apply_no_overcommit started admit_bars 10 bag observation started-IsSound admit_Accepted
      (inl refl) bag_observed (omega arith)

release_not_compact : release_bars.kind ≢ MaterialCommitmentCommandKind.compact
release_not_compact e = cc

bars_found :
    find_commitment book_admitted.commitments (codes "mc21422e8759aca138")
    ≡ some (admitted_bars (codes "mc21422e8759aca138"))
unfolding find_commitment text_discrete
bars_found = refl

commitment_survives_example :
    (after : MaterialCommitment) × (find_commitment book_released.commitments
        (codes "mc21422e8759aca138")
      ≡ some after)
    × Advances (admitted_bars (codes "mc21422e8759aca138")) after
commitment_survives_example =
    commitment_survives book_admitted release_bars 20 book_released [] (codes "mc21422e8759aca138")
      (admitted_bars (codes "mc21422e8759aca138")) release_not_compact release_run bars_found

restored_and_applied :
    Reach (new_authority true) (apply (restore (new_authority true) book).0 admit_bars 10).authority
restored_and_applied =
    next (next here (restored (new_authority true) book (omega arith)))
      (applied (restore (new_authority true) book).0 admit_bars 10)

Reach-IsSound_example :
    IsSound (apply (restore (new_authority true) book).0 admit_bars 10).authority
Reach-IsSound_example =
    Reach-IsSound true (apply (restore (new_authority true) book).0 admit_bars 10).authority
      restored_and_applied

apply_cases_example :
    Unchanged started (apply started admit_bars 10) ⊎ Accepted started admit_bars 10
apply_cases_example = apply_cases started admit_bars 10

after_release-Later :
    Later (complete_write (apply started admit_bars 10).authority 1 true) after_release
after_release-Later =
    then_completed 2 true (then_applied release_bars 20 at_once release_not_compact)

apply-retry_example :
    (changed : MaterialCommitmentStartup) × (ids : List Text) × (apply_to_replacement book
        admit_bars 10
      ≡ ok (changed, ids))
    × (apply after_release admit_bars 30 ≡ retried after_release ids)
apply-retry_example =
    apply-retry started after_release admit_bars admit_bars 10 30
      (write_of book
        (operation_of admit_bars (logged admit_bars book_admitted admitted_identities).book_revision
          admitted_identities)
        (logged admit_bars book_admitted admitted_identities))
      (ap (λ (r : Applied). r.written) admit_accepted) after_release-Later after_release-state.0
      after_release-state.1 refl refl

two_bars_pass : check_fulfillment two_bars (admitted_bars (codes "mc21422e8759aca138")) ≡ ok tt
unfolding check_fulfillment text_discrete capacity_key_discrete capacity_kind_discrete ◌>>=◌ ◌>>◌
    fail_if or_fail
two_bars_pass = refl

settle_conserves_example :
    ((settle_commitment two_bars (admitted_bars (codes "mc21422e8759aca138"))).remaining_quantity
        + 2
      ≡ 5)
    × (backing
            (settle_commitment two_bars (admitted_bars (codes "mc21422e8759aca138"))).reservations
          + backing (used_up two_bars (admitted_bars (codes "mc21422e8759aca138")))
          + 2
        ≡ backing (reservation ∷ []))
    × ((settle_commitment two_bars (admitted_bars (codes "mc21422e8759aca138"))).reservations
        ≡ keep_if
            (λ r. not (r.remaining_capacity_quantity == 0))
            (release_all two_bars.reservation_settlements (reservation ∷ [])))
settle_conserves_example =
    settle_conserves two_bars (admitted_bars (codes "mc21422e8759aca138")) two_bars_pass
      (omega arith)

valid_selected_source_path-build_example : valid_selected_source_path herbs_path ≡ true
valid_selected_source_path-build_example =
    valid_selected_source_path-build herbs herbs_path (omega arith) (omega arith) refl herbs_run

compact_book-log_example :
    all_of
      (λ o.
        not (names_dropped (dropped_identities book_logged.commitments (codes "smelt" ∷ []) []) o))
      book_compacted.operations
    ≡ true
compact_book-log_example = compact_book-log book_logged book_compacted drop_smelting compact_run

build_bounds_example :
    (herbs_path.selected_quantity ≤ 5)
    × (0 < herbs_path.required_resource_count)
    × (herbs_path.required_resource_count ≤ 20)
    × (herbs_path.required_resource_count * herbs_path.seconds_per_resource
        ≤ herbs_path.source_action_budget_seconds)
    × (600 ≤ herbs_path.source_action_budget_seconds)
    × (herbs_path.needed_by ≡ 100 + 60 + herbs_path.source_action_budget_seconds + 0 + 30)
build_bounds_example = build_bounds herbs herbs_path (omega arith) herbs_run

-- Only seven resources are in reach, so three items are taken on instead of five.
cut_run : backed_quantity 7 5000 5 ≡ some (3, 6)
unfolding backed_quantity
cut_run = refl

backed_quantity_delivers_example :
    (6 ≤ 7)
    × (◌≡◌ {A = ℕ} 6 (resources_for 5000 3))
    × ((◌≡◌ {A = ℕ} 3 5) ⊎ (7 * 5000 < (3 + 1) * 10000))
backed_quantity_delivers_example =
    backed_quantity_delivers 7 5000 5 (omega arith) (omega arith) (omega arith) (omega arith)
      cut_run

apply_conflates_example :
    (ids : List Text) × (let b =
        complete_write (apply closing drop_commitment 30).authority 1 true in
      apply b (names drop_smelting [] (codes "mc21422e8759aca138" ∷ [])) 31 ≡ retried b ids)
apply_conflates_example =
    apply_conflates closing drop_smelting [] (codes "mc21422e8759aca138" ∷ []) [] 30 31
      (write_of book_logged
        (operation_of drop_commitment (logged drop_commitment book_dropped []).book_revision [])
        (logged drop_commitment book_dropped []))
      (ap (λ (r : Applied). r.written) drop_accepted)
