-- ===== src/Commitment.antt =====
-- The material commitment book of `src/Bot/Economy/PlayerbotMaterialCommitment*`.
pub mod Types
pub mod Encoding
pub mod Outcome
pub mod Path
pub mod Validity
pub mod Observe
pub mod Admission
pub mod Admit
pub mod Settle
pub mod Supersede
pub mod Compact
pub mod Authority
pub mod Compaction
pub mod Scarce
pub mod Progression
pub mod Frame
pub mod Soundness
pub mod Invariant
pub mod Remembered
pub mod Retry
pub mod Lifecycle
pub mod Capacity
mod Tests
