-- ===== src/Tenant.antt =====
-- tenant/: how a request's tenant is found, and which domain names a tenant may claim.
pub mod Strategy
pub mod Domain
