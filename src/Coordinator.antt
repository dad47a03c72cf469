-- ===== src/Coordinator.antt =====
-- The economy coordinator: `src/Bot/Economy/PlayerbotEconomyCoordinator.cpp` and its chain history
-- in `src/Bot/Economy/PlayerbotEconomyChains.cpp`.
pub mod Types
pub mod Groups
pub mod State
pub mod Chains
pub mod Outcome
pub mod Excess
pub mod Capability
pub mod Request
pub mod Lease
pub mod Production
pub mod Orders
pub mod Facts
pub mod Observation
pub mod Credits
pub mod Moves
pub mod Reach
pub mod Shown
pub mod Supply
pub mod Lifecycle
pub mod Owners
pub mod Deadlines
pub mod Grants
pub mod Identities
pub mod Invariant
mod Tests
