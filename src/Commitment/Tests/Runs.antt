-- ===== src/Commitment/Tests/Runs.antt =====
-- Runs of the commitment book at the concrete input.
use mod_playerbots_economy.Prelude.{
  ◌≡◌, refl, true, [], none, some, codes, text_discrete, decimal, nat_eq, length,
}
use mod_playerbots_economy.Commitment.Tests.{
  book, admit_bars, started, book_admitted, admitted_identities, release_bars, book_released,
  book_logged, drop_smelting, book_compacted, herbs, closing, drop_commitment, book_dropped,
}
use mod_playerbots_economy.Commitment.Types.{
  MaterialSourcePath, capacity_kind_discrete, capacity_unit_discrete, owner_kind_discrete,
  capacity_key_discrete, needed_by_discrete,
}
use mod_playerbots_economy.Commitment.Encoding.{commitment_identity, fingerprint, fnv1a}
use mod_playerbots_economy.Commitment.Outcome.{
  ok, ◌>>=◌, ◌>>◌, fail_if, or_fail, or_fault, find_operation, find_commitment,
}
use mod_playerbots_economy.Commitment.Path.{path_of, build_same_actor_gathering_path}
use mod_playerbots_economy.Commitment.Validity.{
  valid_startup, state_discrete, requirement_key_discrete,
}
use mod_playerbots_economy.Commitment.Admission.{reservation_key_discrete}
use mod_playerbots_economy.Commitment.Admit.{admit_candidates}
use mod_playerbots_economy.Commitment.Authority.{
  Authority, apply, apply_to_replacement, complete_write, logged,
}
use mod_playerbots_economy.Commitment.Soundness.{Accepted, accepted}
use mod_playerbots_economy.Commitment.Settle.{release_commitments}
use mod_playerbots_economy.Commitment.Compact.{compact_book}

-- The identity is the FNV-1a hash of "admit:0".
identity_run : commitment_identity (codes "admit") 0 ≡ codes "mc21422e8759aca138"
unfolding commitment_identity fnv1a decimal
identity_run = refl

pub book_valid : valid_startup book ≡ true
unfolding valid_startup text_discrete
book_valid = refl

pub admit_run : apply_to_replacement book admit_bars 10 ≡ ok (book_admitted, admitted_identities)
unfolding apply_to_replacement text_discrete ◌>>=◌ ◌>>◌ fail_if or_fail or_fault commitment_identity
    decimal reservation_key_discrete requirement_key_discrete capacity_key_discrete
    capacity_kind_discrete capacity_unit_discrete owner_kind_discrete find_commitment
    admit_candidates
admit_run = refl

pub admitted_valid : valid_startup (logged admit_bars book_admitted admitted_identities) ≡ true
unfolding valid_startup text_discrete logged fingerprint decimal requirement_key_discrete
    capacity_key_discrete capacity_kind_discrete capacity_unit_discrete owner_kind_discrete
    state_discrete needed_by_discrete
admitted_valid = refl

pub admit_accepted :
    apply started admit_bars 10 ≡ accepted started admit_bars book_admitted admitted_identities
unfolding apply text_discrete fingerprint decimal
admit_accepted = rw (admit_run, admitted_valid) refl

unfoldable pub admit_Accepted : Accepted started admit_bars 10
unfolding find_operation text_discrete fingerprint decimal
admit_Accepted = record {
  changed = book_admitted;
  admitted = admitted_identities;
  healthy = refl;
  writes = refl;
  idle = refl;
  fresh = refl;
  named = refl;
  printable = refl;
  current = refl;
  changes = admit_run;
  valid = admitted_valid;
  result = admit_accepted;
}

pub release_run : apply_to_replacement book_admitted release_bars 20 ≡ ok (book_released, [])
unfolding apply_to_replacement text_discrete ◌>>=◌ ◌>>◌ fail_if or_fail release_commitments
release_run = refl

pub compact_run : compact_book book_logged drop_smelting ≡ ok book_compacted
unfolding compact_book text_discrete ◌>>=◌ ◌>>◌ fail_if or_fail
compact_run = refl

abbrev pub herbs_path : MaterialSourcePath
unfolding path_of
herbs_path = path_of herbs 5 5000 10 300 3000 3190 14755441654295743206

pub herbs_run : build_same_actor_gathering_path herbs ≡ some herbs_path
unfolding build_same_actor_gathering_path decimal
herbs_run = refl

drop_run : apply_to_replacement book_logged drop_commitment 30 ≡ ok (book_dropped, [])
unfolding apply_to_replacement compact_book text_discrete ◌>>=◌ ◌>>◌ fail_if or_fail
drop_run = refl

dropped_valid : valid_startup (logged drop_commitment book_dropped []) ≡ true
unfolding valid_startup text_discrete logged fingerprint decimal
dropped_valid = refl

pub drop_accepted :
    apply closing drop_commitment 30 ≡ accepted closing drop_commitment book_dropped []
unfolding apply text_discrete fingerprint decimal
drop_accepted = rw (drop_run, dropped_valid) refl

-- The bars are admitted and then released, and both writes complete.
abbrev pub after_release : Authority
after_release =
    let admitted = complete_write (apply started admit_bars 10).authority 1 true in
    complete_write (apply admitted release_bars 20).authority 2 true

pub after_release-state :
    (after_release.persistence_healthy ≡ true)
    × (after_release.pending ≡ none)
    × (length after_release.durable.operations ≡ 3)
unfolding apply complete_write text_discrete fingerprint decimal valid_startup ◌>>=◌ ◌>>◌ fail_if
    or_fail or_fault apply_to_replacement commitment_identity reservation_key_discrete
    requirement_key_discrete capacity_key_discrete capacity_kind_discrete capacity_unit_discrete
    owner_kind_discrete find_commitment admit_candidates logged state_discrete needed_by_discrete
    release_commitments find_operation
after_release-state = (refl, refl, refl)
