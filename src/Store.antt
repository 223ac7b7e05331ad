-- ===== src/Store.antt =====
-- store/database/sql: the tables that the runners share, and the text of the claim query.
pub mod Batch
pub mod Capacity
pub mod Instances
pub mod Placeholders
pub mod Outbox
pub mod History
