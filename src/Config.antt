-- ===== src/Config.antt =====
-- command/config: the configuration of pools.
pub mod Tenants
