-- ===== src/UserId.antt =====
-- pycroft/helpers/errorcode.py and pycroft/lib/user/user_id.py: user ids with a check code.
pub mod Code
pub mod Text
pub mod Check
mod Tests
