-- ===== src/Transaction.antt =====
-- lib/transaction: the data of a transaction, its state machine, its file list, the repository and
-- the service, each in a child module.
pub mod Types
pub mod States
pub mod Files
pub mod Codec
pub mod Persistence
pub mod Repository
pub mod Service
