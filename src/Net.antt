-- ===== src/Net.antt =====
-- lib/net: what the clients of the API do to a path and to the address of a server.
pub mod Urls
pub mod ServerUrls
