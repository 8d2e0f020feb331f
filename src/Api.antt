-- ===== src/Api.antt =====
-- lib/api: error statuses, %-escapes and the router.
pub mod Http
pub mod Urls
pub mod Router
pub mod Json
pub mod Context
pub mod Handlers
pub mod AdminHandlers
pub mod Routes
pub mod Dispatch
