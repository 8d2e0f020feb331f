-- ===== src/Common.antt =====
-- lib/common: texts and bytes. Paths, transaction ids, digests in hex, and base64.
pub mod Bytes
pub mod Paths
pub mod Ids
pub mod Digest
pub mod Times
pub mod TimeArgs
pub mod Numbers
pub mod Json
pub mod Base64
