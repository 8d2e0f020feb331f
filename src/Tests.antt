-- ===== src/Tests.antt =====
-- Concrete inputs: the theorems at work on a small store in memory, and runs of the definitions.
pub mod Memory
pub mod Folders
pub mod JsonTexts
pub mod Documents
pub mod Service
pub mod Operations
pub mod Reading
pub mod Codecs
pub mod Sessions
pub mod Login
pub mod Forwarding
pub mod Passwords
pub mod Requests
pub mod Delivery
pub mod Arguments
