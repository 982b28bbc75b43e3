-- ===== src/Membership/Groups.antt =====
-- Who is in a group by the database's own reading of ranges (pycroft/model/user.py), and leaving
-- groups. `range_overlaps` is PostgreSQL's `&&` on ranges.
use pycroft.Base.{ℕ, Bool, false, ◌&&◌, ◌||◌, if◌then◌else◌, List, [], ◌∷◌, ◌==◌, Result, ok, ◌>>=◌}
use pycroft.Interval.Core.{Interval}
use pycroft.Membership.Store.{Membership, Db}
use pycroft.Membership.Ops.{remove_member_of}

-- The ids of the groups that `Config` names
pub record Config : Type 0 where
  pub member_group : ℕ
  pub network_access_group : ℕ
  pub violation_group : ℕ
  pub external_group : ℕ
  pub blocked_group : ℕ
  pub payment_in_default_group : ℕ
  pub pre_member_group : ℕ

module _ (range_overlaps : Interval → Interval → Bool) where
  -- `User.member_of`: `group in self.active_property_groups(when)`, on the rows of the database.
  unfoldable pub member_of : ℕ → ℕ → Interval → List Membership → Bool
  member_of user group when [] = false
  member_of user group when (m ∷ ms) =
      (m.user == user && (m.group == group && range_overlaps m.active_during when))
      || member_of user group when ms

  -- `for group in groups: if user.member_of(group, when): remove_member_of(user, group, processor,
  -- during)`
  unfoldable pub leave_groups : List ℕ → ℕ → ℕ → Interval → Interval → Db → Result Db
  unfolding member_of
  leave_groups [] user processor when during db = ok db
  leave_groups (group ∷ groups) user processor when during db =
      (if member_of user group when db.memberships
        then remove_member_of user group processor during db
        else ok db)
      >>= λ db'. leave_groups groups user processor when during db'
