-- ===== src/Interval.antt =====
-- pycroft/helpers/interval.py: bounds, intervals, interval sets and what they mean as sets of
-- instants.
pub mod Bound
pub mod Core
pub mod Sets
pub mod Spans
pub mod Points
pub mod Quirks
mod Tests
