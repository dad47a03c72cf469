-- ===== src/Coordinator/Moves/Work.antt =====
-- How the methods that begin with an expiry move the claims: RevalidateCapabilities and Lease.
use mod_playerbots_economy.Prelude.{
  ℕ, refl, Bool, true, List, [], ◌∷◌, Text, if_elim, nat_eq, text_eq,
}
use mod_playerbots_economy.Coordinator.Types.{
  EconomyAssignmentOutcome.need_changed, EconomyCapabilityObservation,
}
use mod_playerbots_economy.Coordinator.Groups.{GapKey, claim_kind_eq, claim_priority_eq}
use mod_playerbots_economy.Coordinator.State.{Coordinator, locked, advance}
use mod_playerbots_economy.Coordinator.Chains.{sync_chains}
use mod_playerbots_economy.Coordinator.Outcome.{
  expire_locked, release_speculation, is_speculation_at,
}
use mod_playerbots_economy.Coordinator.Capability.{
  reconcile_capability_blockers, revalidate_capability_locked, revalidate_each, begin_work,
  sync_and_reconcile, revalidate_capabilities,
}
use mod_playerbots_economy.Coordinator.Moves.{Moves, Moves-refl, still, counts, joins}
use mod_playerbots_economy.Coordinator.Moves.Chains.{sync_chains-Moves}
use mod_playerbots_economy.Coordinator.Moves.Claims.{expire_locked-Moves, settle_where-Moves}

pub reconcile-Moves : (st : Coordinator) → Moves st (reconcile_capability_blockers st)
unfolding reconcile_capability_blockers
reconcile-Moves st = joins (counts st) (still refl)

pub advance-Moves : (st : Coordinator) → Moves st (advance st)
unfolding advance
advance-Moves st = still refl

pub release_speculation-Moves :
    (key : GapKey) (now : ℕ) (st : Coordinator) → Moves st (release_speculation key now st).0
unfolding release_speculation
release_speculation-Moves key now st =
    settle_where-Moves (is_speculation_at key) need_changed now [] st.claims st refl

revalidate_capability_locked-Moves :
    (o : EconomyCapabilityObservation) (now : ℕ) (st : Coordinator)
    → Moves st (revalidate_capability_locked o now st).0
unfolding revalidate_capability_locked
revalidate_capability_locked-Moves o now st =
    if_elim (λ (r : Coordinator × Bool). Moves st r.0) _ (Moves-refl st)
      (if_elim (λ (r : Coordinator × Bool). Moves st r.0) _ (joins (counts st) (still refl))
        (if_elim (λ (r : Coordinator × Bool). Moves st r.0) _ (counts st)
          (joins (counts st) (still refl))))

revalidate_each-Moves :
    (os : List EconomyCapabilityObservation) (now : ℕ) (st : Coordinator)
    → Moves st (revalidate_each os now st).0
unfolding revalidate_each
revalidate_each-Moves [] now st = Moves-refl st
revalidate_each-Moves (o ∷ os) now st =
    joins (revalidate_capability_locked-Moves o now st) (revalidate_each-Moves os now _)

module _ (draw : ℕ → ℕ → Text) where
  pub begin_work-Moves : (now : ℕ) (st : Coordinator) → Moves st (begin_work draw now st)
  unfolding begin_work locked
  begin_work-Moves now st =
      let live : Coordinator × Bool = expire_locked now true (locked st) in
      joins {t = locked st} (still refl) (
        joins (expire_locked-Moves now true (locked st)) (
          joins (sync_chains-Moves draw now live.0) (
            if_elim (Moves (sync_chains draw now live.0)) live.1
              (reconcile-Moves (sync_chains draw now live.0))
              (Moves-refl (sync_chains draw now live.0)))))

  pub sync_and_reconcile-Moves :
      (now : ℕ) (st : Coordinator) → Moves st (sync_and_reconcile draw now st)
  unfolding sync_and_reconcile
  sync_and_reconcile-Moves now st =
      joins (sync_chains-Moves draw now st) (reconcile-Moves (sync_chains draw now st))

  pub revalidate_capabilities-Moves :
      (os : List EconomyCapabilityObservation) (now : ℕ) (st : Coordinator)
      → Moves st (revalidate_capabilities draw os now st)
  unfolding revalidate_capabilities
  revalidate_capabilities-Moves os now st =
      let seen : Coordinator × Bool = revalidate_each os now (begin_work draw now st) in
      joins (begin_work-Moves now st) (
        joins (revalidate_each-Moves os now (begin_work draw now st))
          (if_elim (Moves seen.0) seen.1 (advance-Moves seen.0) (Moves-refl seen.0)))
