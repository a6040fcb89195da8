-- ===== src/Model.antt =====
-- The data model: src/model and the interface of src/spec.
pub mod EffectState
pub mod Control
pub mod Evidence
pub mod Internal
pub mod Action
pub mod Metadata
pub mod Spec
pub mod Resolution
