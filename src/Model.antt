-- ===== src/Model.antt =====
-- The exchanged records of common/models that the components share.
pub mod Error
pub mod Evidence
pub mod RunId
pub mod Fusion
pub mod Detection
pub mod Decision
