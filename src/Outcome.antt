-- ===== src/Outcome.antt =====
-- src/product/outcome/invariantEngine.ts: what a customer requires of the world, and whether what was
-- observed of it says so.
pub mod Facts
pub mod Selection
pub mod Engine
pub mod Verdict
mod Tests
