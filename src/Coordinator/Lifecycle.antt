-- ===== src/Coordinator/Lifecycle.antt =====
-- What an outcome makes of a claim.
use mod_playerbots_economy.Prelude.{ℕ, ◌≡◌, ◌≤◌, ◌↔◌, refl, true, ◌&&◌, ◌==◌, arith}
use mod_playerbots_economy.Coordinator.Types.{EconomyAssignment, EconomyAssignmentOutcome}
use mod_playerbots_economy.Coordinator.Groups.{assignment_outcome_eq}
use mod_playerbots_economy.Coordinator.Outcome.{is_leased, state_after, settle_claim}
use mod_playerbots_economy.Coordinator.Moves.{IsOrderly}

-- An outcome never takes back what an orderly claim has committed nor changes what it wants, and
-- the claim is leased behind it exactly when it was leased before and the outcome is Committed.
pub settle_claim-forward :
    (outcome : EconomyAssignmentOutcome) (q now : ℕ) (c : EconomyAssignment)
    → IsOrderly c
    → (c.committed_quantity ≤ (settle_claim outcome q now c).committed_quantity)
      × ((settle_claim outcome q now c).quantity ≡ c.quantity)
      × ((is_leased (settle_claim outcome q now c) ≡ true)
          ↔ (is_leased c && outcome == EconomyAssignmentOutcome.committed ≡ true))
unfolding settle_claim state_after
settle_claim-forward outcome q now c h = (ground (arith, h.within), refl, ground arith)
