-- ===== src/Auth.antt =====
-- The access to the broker: src/auth.
pub mod TokenManager
