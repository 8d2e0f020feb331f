-- ===== src/Transaction/Service.antt =====
-- transaction/service.hpp and service.cpp: `TransactionService`. `Core` has its state and monad,
-- `Access` the access rules, and the other children the operations and what is proved of them.
pub mod Core
pub mod Access
pub mod Sending
pub mod Uploading
pub mod Committing
pub mod Removing
pub mod Reading
pub mod History
