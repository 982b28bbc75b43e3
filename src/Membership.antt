-- ===== src/Membership.antt =====
-- pycroft/lib/membership.py: who belongs to which group, and when.
pub mod Store
pub mod Ops
pub mod Rows
pub mod Effect
pub mod Groups
pub mod Leave
pub mod Preserved
pub mod Blocking
mod Tests
