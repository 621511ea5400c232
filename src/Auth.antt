-- ===== src/Auth.antt =====
-- Who may write (src/upload-auth.ts, src/auth.ts, src/bearer-auth.ts, src/ss58.ts).
pub mod Account
pub mod Upload
pub mod Resolve
pub mod Bearer
mod Tests
