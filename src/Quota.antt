-- ===== src/Quota.antt =====
-- quota.db: API keys, daily quotas, uploads in flight and used signatures (src/quota.ts).
pub mod Tables
pub mod Uploads
pub mod Signatures
pub mod Registry
mod Tests
