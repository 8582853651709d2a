-- ===== src/Authority.antt =====
-- The authority services of src/k5vision: `Sessions` (auth_sessions.py) and `Roles`
-- (operator_role_policy.py).
pub mod Sessions
pub mod Roles
pub mod Tests
