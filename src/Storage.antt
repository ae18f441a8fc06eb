-- ===== src/Storage.antt =====
-- The containers of storage/src/storage.rs that the ledger's states are made of.
pub mod MultiSet
pub mod TimeFilterMap
pub mod Tests
