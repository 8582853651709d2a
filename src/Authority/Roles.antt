-- ===== src/Authority/Roles.antt =====
-- src/k5vision/operator_role_policy.py: `Model` has its data, permissions and guard, `Policy` its
-- operations. The other children have what is proved of them.
pub mod Model
pub mod Policy
pub mod Paging
pub mod Guarding
pub mod Changes
pub mod Keeping
pub mod Narrowing
pub mod Tests
