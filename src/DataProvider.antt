-- ===== src/DataProvider.antt =====
-- src/data_provider: the local database of blocks, ranges and windows (Store, Window), the walk over
-- blocks that cuts them into dry ranges and windows (Blob).
pub mod Blob
pub mod Codes
pub mod Fetch
pub mod Scenarios
pub mod Heights
pub mod Server
pub mod Store
pub mod Window
