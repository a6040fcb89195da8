-- ===== src/Engine.antt =====
-- src/engine: the safety floors.
pub mod Adjustment
pub mod Ledger
pub mod Sanitize
pub mod Epistemic
pub mod Clamps
pub mod Explanation
pub mod Floors
