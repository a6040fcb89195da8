-- ===== src/Authority.antt =====
-- src/product/authority/ and src/product/effectiveAuthority.ts: what an agent may do.
pub mod Autonomy
pub mod Effective
pub mod Canonical
