-- ===== src/Auth.antt =====
-- lib/auth: sessions behind tokens, login throttling, and who sent a request.
pub mod Sessions
pub mod Limiter
pub mod Passwords
pub mod LocalDirectory
pub mod Authenticator
