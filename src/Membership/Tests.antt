-- ===== src/Membership/Tests.antt =====
-- Memberships in a small database: user 1 administers, user 2 is in group 3.
use pycroft.Base.{
  ◌<◌, ◌≤◌, ◌⊎◌, ◌≡◌, refl, not, ◌&&◌, ◌||◌, ◌==◌, if◌then◌else◌, [], ◌∷◌, ◌++◌, ok, err,
  permission_error, arith, some, none, true, leb, ℕ,
}
use pycroft.Interval.Bound
use pycroft.Interval.Core.{Interval, closure, overlaps, single, interval}
use pycroft.Interval.Points.{from_to}
use pycroft.Interval.Spans.{spans}
use pycroft.Interval.Sets.Proper.{is_closed_below}
use pycroft.Membership.Store.{
  Db, added_to_group, removed_from_group, suspended, permission_level, active_memberships,
  highest_level,
}
use pycroft.Membership.Ops.{make_member_of, remove_member_of}
use pycroft.Membership.Rows.{is_member, apart_spans}
use pycroft.Membership.Groups.{Config}
use pycroft.Membership.Leave.{listed}
use pycroft.Membership.Blocking.{
  from_on, block, block_effect, get_blocked_groups, unblock, unblock_effect,
}
use pycroft.Membership.Effect.{
  IsValid, permission_decides, make_member_of_effect, remove_member_of_effect,
}

abbrev office : Db
office = record {
  now = 10;
  group_level = λ g. if g == 7 then 5 else 1;
  memberships =
      record { user = 1; group = 7; active_during = from_to 0 100 }
      ∷ record { user = 2; group = 3; active_during = from_to 2 20 }
      ∷ [];
  log = [];
}

office-IsValid : IsValid office
office-IsValid = (refl, (refl, tt))

admin_level : permission_level 1 office ≡ ok 5
unfolding permission_level active_memberships highest_level single closure overlaps interval
    Bound.bound Bound.le Bound.lt
admin_level = refl

member_level : permission_level 2 office ≡ ok 1
unfolding permission_level active_memberships highest_level single closure overlaps interval
    Bound.bound Bound.le Bound.lt
member_level = refl

permission_decides_example :
    ((1 < 5)
      × (make_member_of 2 7 2 (from_to 0 50) office ≡ err permission_error)
      × (remove_member_of 2 7 2 (from_to 0 50) office ≡ err permission_error))
    ⊎ ((5 ≤ 1)
        × ((db' : Db) × (make_member_of 2 7 2 (from_to 0 50) office ≡ ok db'))
        × ((db' : Db) × (remove_member_of 2 7 2 (from_to 0 50) office ≡ ok db')))
unfolding is_closed_below Bound.unbounded
permission_decides_example =
    permission_decides 2 7 2 1 (from_to 0 50) office office-IsValid (refl, refl) member_level

make_member_of_effect_example :
    (db' : Db) × (make_member_of 2 3 1 (from_to 15 30) office ≡ ok db')
    × IsValid db'
    × (db'.log
        ≡ office.log
          ++ (record { message = added_to_group 3 (from_to 15 30); author = 1; about = some 2 }
              ∷ []))
    × ((u g x : ℕ)
        → is_member db'.memberships u g x
          ≡ (is_member office.memberships u g x || 2 == u && (3 == g && spans (from_to 15 30) x)))
unfolding Bound.unbounded is_closed_below
make_member_of_effect_example =
    make_member_of_effect 2 3 1 5 (from_to 15 30) office office-IsValid (refl, refl) admin_level
      (ground arith)

remove_member_of_effect_example :
    (db' : Db) × (remove_member_of 2 3 1 (from_to 15 30) office ≡ ok db')
    × IsValid db'
    × (db'.log
        ≡ office.log
          ++ (record { message = removed_from_group 3 (from_to 15 30); author = 1; about = some 2 }
              ∷ []))
    × ((u g x : ℕ)
        → is_member db'.memberships u g x ≡ (
            is_member office.memberships u g x
            && not (2 == u && (3 == g && spans (from_to 15 30) x))))
remove_member_of_effect_example =
    remove_member_of_effect 2 3 1 5 (from_to 15 30) office office-IsValid refl admin_level
      (ground arith)

abbrev groups_config : Config
groups_config = record {
  member_group = 1;
  network_access_group = 2;
  violation_group = 3;
  external_group = 4;
  blocked_group = 5;
  payment_in_default_group = 6;
  pre_member_group = 8;
}

overlaps-shared :
    (i j : Interval) (x : ℕ) → spans i x ≡ true → spans j x ≡ true → overlaps i j ≡ true
overlaps-shared i j x p q = ground (arith, apart_spans i j x)

block_effect_example :
    (db' : Db) × (block groups_config 2 "noise" 1 none true office ≡ ok db')
    × IsValid db'
    × (db'.log
        ≡ (office.log
            ++ (record { message = added_to_group 3 (from_on 10); author = 1; about = some 2 }
                ∷ []))
          ++ (record { message = suspended (from_on 10) "noise"; author = 1; about = some 2 } ∷ []))
    × ((u g x : ℕ)
        → is_member db'.memberships u g x
          ≡ (is_member office.memberships u g x || 2 == u && (3 == g && spans (from_on 10) x)))
unfolding Bound.unbounded is_closed_below
block_effect_example =
    block_effect groups_config 2 1 5 "noise" none true office office-IsValid (refl, refl)
      admin_level (ground arith)

unblock_effect_example :
    (db' : Db) × (unblock overlaps groups_config 2 1 none office ≡ ok db')
    × IsValid db'
    × ((u g x : ℕ)
        → is_member db'.memberships u g x ≡ (
            is_member office.memberships u g x
            && not (2 == u && (listed g (get_blocked_groups groups_config) && leb 10 x))))
unfolding get_blocked_groups
unblock_effect_example =
    unblock_effect overlaps groups_config 2 1 5 none office overlaps-shared office-IsValid refl
      admin_level (ground arith, (ground arith, (ground arith, tt)))
