-- ===== src/Task.antt =====
-- pycroft/lib/task.py, pycroft/task.py, pycroft/model/task.py: tasks that move users at a later time.
pub mod Model
pub mod Execute
pub mod Ops
pub mod Rows
pub mod Outcomes
pub mod Scheduler
pub mod Final
mod Tests
