-- ===== src/Drivers.antt =====
-- app/drivers: the pools and their managers.
pub mod Driver
pub mod Strategy
pub mod Purger
pub mod Tenants
pub mod Provision
pub mod Capacity
pub mod Tenanted
pub mod Clean
pub mod Hibernate
pub mod Manager
pub mod Build
pub mod Stale
pub mod Suspend
pub mod Request
