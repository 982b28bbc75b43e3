-- ===== src/Lifecycle.antt =====
-- Users who move in, move and move out: pycroft/lib/user/lifecycle.py, on top of memberships and hosts.
pub mod Campus
pub mod MoveOut
pub mod Cleared
pub mod Effect
pub mod Moves
pub mod Deferred
pub mod Carried
pub mod Invariant
pub mod Stays
pub mod Tests
