-- ===== src/Membership/Effect.antt =====
-- What `make_member_of` and `remove_member_of` do to who is a member, at every instant.
use pycroft.Base.{
  ◌⊎◌, inl, inr, Bool-cases, ℕ, ◌≤◌, ◌<◌, ◌≡◌, refl, false, not, ◌&&◌, ◌||◌, ◌==◌, List, [], ◌∷◌,
  ◌++◌, ok, err, permission_error, arith, ltb, some,
}
use pycroft.Interval.Bound.{neg_inf}
use pycroft.Interval.Core.{Interval}
use pycroft.Interval.Sets.{from_iterable, from_interval, set_of}
use pycroft.Interval.Sets.Covers.{AllOrdered}
use pycroft.Interval.Sets.Normal.{NormalFrom-AllOrdered}
use pycroft.Interval.Sets.Proper.{IsProper}
use pycroft.Interval.Sets.Sources.{source_covers, mangle_proper}
use pycroft.Interval.Sets.Algebra.{set_union_total, set_difference_total}
use pycroft.Interval.Spans.{spans, IsOrdered}
use pycroft.Membership.Store.{
  Membership, Message, added_to_group, removed_from_group, Db, permission_level, new_memberships,
  log_user_event,
}
use pycroft.Membership.Ops.{check_permission, make_member_of, remove_member_of}
use pycroft.Membership.Rows.{
  is_member, AllActive, is_member-append, AllActive-append, is_member-new_memberships,
  is_member-own, select_total, closures_total,
}

-- Every membership lasts for an interval in order.
abbrev pub IsValid : Db → Type 0
IsValid db = AllActive db.memberships

new_memberships-AllActive :
    (user group : ℕ) (is : List Interval)
    → AllOrdered is
    → AllActive (new_memberships user group is)
unfolding new_memberships
new_memberships-AllActive user group [] h = tt
new_memberships-AllActive user group (i ∷ is) h = (h.0, new_memberships-AllActive user group is h.1)

level_suffices : (level needed : ℕ) → needed ≤ level → ltb level needed ≡ false
level_suffices level needed h = ground arith

-- the state after rows have been exchanged and a log entry written
abbrev rewritten : Db → List Membership → Message → ℕ → ℕ → Db
rewritten db rows message author user = record db {
  memberships = rows;
  log = db.log ++ (record { message = message; author = author; about = some user } ∷ []);
}

-- With a sufficient level, `make_member_of` makes the user a member of the group at every instant of the
-- interval, and changes no membership at any other instant, of any other user or in any other group; it
-- appends one log entry. All memberships and the interval are in order, and the interval has a closed
-- lower bound or none; a membership counts from its lower value up to and without its upper one.
pub make_member_of_effect :
    (user group processor level : ℕ) (during : Interval) (db : Db)
    → IsValid db
    → IsProper during
    → permission_level processor db ≡ ok level
    → db.group_level group ≤ level
    → (db' : Db) × (make_member_of user group processor during db ≡ ok db')
      × IsValid db'
      × (db'.log
          ≡ db.log
            ++ (record {
              message = added_to_group group during;
              author = processor;
              about = some user;
            }
                ∷ []))
      × ((u g x : ℕ)
          → is_member db'.memberships u g x
            ≡ (is_member db.memberships u g x || user == u && (group == g && spans during x)))
unfolding make_member_of check_permission log_user_event set_of source_covers
make_member_of_effect user group processor level during db v p e h =
    let (s, o, se, (sa, oa, c, own, apart)) = select_total user group during db.memberships v in
    let (cs, ce, cp, cov) = closures_total user group s sa own in
    let (set, me, mn, mp, mc) = mangle_proper (from_iterable cs) cp in
    let (is, ue, un, up, uc) = set_union_total set (from_interval during) mn mp p in
    let rows = o ++ new_memberships user group is in
    (
      rewritten db rows (added_to_group group during) processor user,
      rw (e, level_suffices level (db.group_level group) h, se, ce, me, ue),
      AllActive-append o (new_memberships user group is) oa
          (new_memberships-AllActive user group is (NormalFrom-AllOrdered neg_inf is un)),
      refl,
      λ u g x. ground (
        arith,
        c u g x,
        is_member-own user group s u g x own,
        is_member-append o (new_memberships user group is) u g x,
        is_member-new_memberships user group is u g x,
        uc x,
        mc x,
        cov x,
      ),
    )

-- With a sufficient level, `remove_member_of` ends the membership of the user in the group at every
-- instant of the interval, and changes no membership at any other instant, of any other user or in any
-- other group; it appends one log entry. All memberships and the interval are in order; a membership
-- counts from its lower value up to and without its upper one.
pub remove_member_of_effect :
    (user group processor level : ℕ) (during : Interval) (db : Db)
    → IsValid db
    → IsOrdered during
    → permission_level processor db ≡ ok level
    → db.group_level group ≤ level
    → (db' : Db) × (remove_member_of user group processor during db ≡ ok db')
      × IsValid db'
      × (db'.log
          ≡ db.log
            ++ (record {
              message = removed_from_group group during;
              author = processor;
              about = some user;
            }
                ∷ []))
      × ((u g x : ℕ)
          → is_member db'.memberships u g x
            ≡ (is_member db.memberships u g x && not (user == u && (group == g && spans during x))))
unfolding remove_member_of check_permission log_user_event set_of source_covers
remove_member_of_effect user group processor level during db v p e h =
    let (s, o, se, (sa, oa, c, own, apart)) = select_total user group during db.memberships v in
    let (cs, ce, cp, cov) = closures_total user group s sa own in
    let (set, me, mn, mp, mc) = mangle_proper (from_iterable cs) cp in
    let (is, ue, un, uc) = set_difference_total set (from_interval during) mn p in
    let rows = o ++ new_memberships user group is in
    (
      rewritten db rows (removed_from_group group during) processor user,
      rw (e, level_suffices level (db.group_level group) h, se, ce, me, ue),
      AllActive-append o (new_memberships user group is) oa
          (new_memberships-AllActive user group is (NormalFrom-AllOrdered neg_inf is un)),
      refl,
      λ u g x. ground (
        arith,
        c u g x,
        is_member-own user group s u g x own,
        is_member-append o (new_memberships user group is) u g x,
        is_member-new_memberships user group is u g x,
        uc x,
        mc x,
        cov x,
        apart x,
      ),
    )

-- The level of the processor alone decides: if it is lower than the level of the group, then both
-- operations raise `PermissionError`; if it is not, then neither of them raises anything. All memberships
-- and the interval are in order, and the interval has a closed lower bound or none.
pub permission_decides :
    (user group processor level : ℕ) (during : Interval) (db : Db)
    → IsValid db
    → IsProper during
    → permission_level processor db ≡ ok level
    → ((level < db.group_level group)
        × (make_member_of user group processor during db ≡ err permission_error)
        × (remove_member_of user group processor during db ≡ err permission_error))
      ⊎ ((db.group_level group ≤ level)
          × ((db' : Db) × (make_member_of user group processor during db ≡ ok db'))
          × ((db' : Db) × (remove_member_of user group processor during db ≡ ok db')))
unfolding make_member_of remove_member_of check_permission
permission_decides user group processor level during db v p e =
    elim (Bool-cases (ltb level (db.group_level group))) [
      | inl low ↦ inl (ground arith, rw (e, low) refl, rw (e, low) refl)
      | inr high ↦
          let h : db.group_level group ≤ level = ground arith in
          let (made, r, _, _, _) =
            make_member_of_effect user group processor level during db v p e h in
          let (removed, q, _, _, _) =
            remove_member_of_effect user group processor level during db v p.0 e h in
          inr (h, (made, r), (removed, q))
    ]
