-- ===== src/Store.antt =====
-- internal/store: the revocation registries and the tenants.
pub mod Registry
pub mod Tenants
