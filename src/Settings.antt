-- ===== src/Settings.antt =====
-- Settings that are stored encrypted: pkg/utils/encryption.go and the platform settings.
pub mod Encryption
pub mod Platform
pub mod Stored
