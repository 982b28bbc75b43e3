-- ===== src/Net.antt =====
-- Subnets, hosts and their addresses: pycroft/model/net.py, pycroft/lib/net.py and
-- pycroft/lib/host.py.
pub mod Addresses
pub mod Usable
pub mod Store
pub mod Ops
pub mod Hosts
pub mod Edit
pub mod Rows
pub mod Placed
pub mod Replaced
pub mod MoveIps
pub mod Migrate
pub mod Keeping
pub mod Deleting
pub mod Editing
pub mod Steps
pub mod Example
pub mod Tests
