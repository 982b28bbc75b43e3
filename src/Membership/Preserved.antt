-- ===== src/Membership/Preserved.antt =====
-- Whatever the operations on memberships return is valid.
use pycroft.Base.{
  ℕ, ◌≤◌, ◌≡◌, refl, sym, ◌∙◌, subst, Bool, true, false, if◌then◌else◌, ltb, List, [], ◌∷◌, ok,
  raise_if, >>=-returns, ok-injective, permission_error, arith, Bool-cases, inl, inr,
}
use pycroft.Interval.Core.{Interval}
use pycroft.Interval.Spans.{IsOrdered}
use pycroft.Interval.Sets.Proper.{IsProper}
use pycroft.Membership.Store.{Db, permission_level}
use pycroft.Membership.Ops.{check_permission, make_member_of, remove_member_of}
use pycroft.Membership.Effect.{IsValid, make_member_of_effect, remove_member_of_effect}
use pycroft.Membership.Groups.{member_of, leave_groups}

-- Where the check of the level returns, the level suffices.
check_permission-returns :
    (group processor : ℕ) (db : Db) {t : Unit {0}}
    → check_permission group processor db ≡ ok t
    → (level : ℕ) × (permission_level processor db ≡ ok level) × (db.group_level group ≤ level)
unfolding check_permission
check_permission-returns group processor db h =
    let (level, e, h) = >>=-returns (permission_level processor db) _ h in
    (level, e, enough (ltb level (db.group_level group)) refl h)
  where
    enough :
        {level : ℕ} (low : Bool) {t : Unit {0}}
        → ltb level (db.group_level group) ≡ low
        → raise_if low permission_error ≡ ok t
        → db.group_level group ≤ level
    enough true e h = absurd (ground arith)
    enough false e h = ground arith

pub remove_member_of-IsValid :
    (user group processor : ℕ) (during : Interval) (db db' : Db)
    → IsValid db
    → IsOrdered during
    → remove_member_of user group processor during db ≡ ok db'
    → IsValid db'
unfolding remove_member_of
remove_member_of-IsValid user group processor during db db' v i h =
    let (_, c, _) = >>=-returns (check_permission group processor db) _ h in
    let (level, e, enough) = check_permission-returns group processor db c in
    let (_, r, v', _, _) =
      remove_member_of_effect user group processor level during db v i e enough in
    subst IsValid (ok-injective (sym r ∙ h)) v'

pub make_member_of-IsValid :
    (user group processor : ℕ) (during : Interval) (db db' : Db)
    → IsValid db
    → IsProper during
    → make_member_of user group processor during db ≡ ok db'
    → IsValid db'
unfolding make_member_of
make_member_of-IsValid user group processor during db db' v i h =
    let (_, c, _) = >>=-returns (check_permission group processor db) _ h in
    let (level, e, enough) = check_permission-returns group processor db c in
    let (_, r, v', _, _) =
      make_member_of_effect user group processor level during db v i e enough in
    subst IsValid (ok-injective (sym r ∙ h)) v'

pub leave_groups-IsValid :
    (range_overlaps : Interval → Interval → Bool) (groups : List ℕ) (user processor : ℕ)
    (when during : Interval) (db db' : Db)
    → IsValid db
    → IsOrdered during
    → leave_groups range_overlaps groups user processor when during db ≡ ok db'
    → IsValid db'
unfolding leave_groups
leave_groups-IsValid range_overlaps [] user processor when during db db' v i h =
    subst IsValid (ok-injective h) v
leave_groups-IsValid range_overlaps (g ∷ gs) user processor when during db db' v i h =
    let (db1, a, h) =
      >>=-returns
        (if member_of range_overlaps user g when db.memberships
          then remove_member_of user g processor during db
          else ok db)
        _ h in
    leave_groups-IsValid range_overlaps gs user processor when during db1 db'
      (elim (Bool-cases (member_of range_overlaps user g when db.memberships)) [
        | inl inside ↦ remove_member_of-IsValid user g processor during db db1 v i (rw inside at a)
        | inr outside ↦ subst IsValid (ok-injective (rw outside at a)) v
      ])
      i h
