-- ===== src/Membership/Ops.antt =====
-- The operations of pycroft/lib/membership.py on memberships.
use pycroft.Base.{ℕ, ◌++◌, ltb, Result, ok, permission_error, ◌>>=◌, ◌>>◌, raise_if}
use pycroft.Interval.Core.{Interval}
use pycroft.Interval.Sets.{from_iterable, from_interval, set_of, set_union, set_difference}
use pycroft.Membership.Store.{
  added_to_group, removed_from_group, Db, log_user_event, permission_level, select_memberships,
  closures, new_memberships,
}

-- `if group.permission_level > processor.permission_level: raise PermissionError`
unfoldable pub check_permission : ℕ → ℕ → Db → Result (Unit {0})
unfolding permission_level
check_permission group processor db = do
  level ← permission_level processor db
  raise_if (ltb level (db.group_level group)) permission_error

unfoldable pub make_member_of : ℕ → ℕ → ℕ → Interval → Db → Result Db
make_member_of user group processor during db = do
  check_permission group processor db
  (selected, others) ← select_memberships user group during db.memberships
  cs ← closures selected
  set ← set_of (from_iterable cs)
  intervals ← set_union set (from_interval during)
  ok (
      log_user_event (added_to_group group during) processor user
        (record db { memberships = others ++ new_memberships user group intervals }))

unfoldable pub remove_member_of : ℕ → ℕ → ℕ → Interval → Db → Result Db
remove_member_of user group processor during db = do
  check_permission group processor db
  (selected, others) ← select_memberships user group during db.memberships
  cs ← closures selected
  set ← set_of (from_iterable cs)
  intervals ← set_difference set (from_interval during)
  ok (
      log_user_event (removed_from_group group during) processor user
        (record db { memberships = others ++ new_memberships user group intervals }))
