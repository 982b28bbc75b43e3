-- ===== src/LdapSync.antt =====
-- ldap_sync: records of the directory, the differences between two states of it, and the actions
-- that carry one state over into the other.
pub mod Record
pub mod Normal
pub mod Diff
pub mod Changes
pub mod Sync
pub mod Directory
pub mod Converge
pub mod Convert
pub mod Entry
pub mod Export
mod Tests
