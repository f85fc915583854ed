-- ===== src/Fusion.antt =====
-- The Fusion path (decision/fusion): from Evidence to a scored trajectory, its episodes and the
-- FusionResult that is exchanged.
pub mod Error
pub mod Score
pub mod Window
pub mod Stopping
pub mod Replay
pub mod Causal
pub mod Result
pub mod Construct
pub mod Config
mod Tests
