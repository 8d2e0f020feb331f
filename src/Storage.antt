-- ===== src/Storage.antt =====
-- lib/storage: what the transaction module uses of the file store.
pub mod Interface
pub mod FileSystem
pub mod Uploads
pub mod Store
