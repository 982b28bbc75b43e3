-- ===== src/Membership/Leave.antt =====
-- Leaving several groups: the memberships that end, and those that stay.
use pycroft.Base.{
  ℕ, ◌≤◌, ◌≡◌, refl, sym, ap, ◌∙◌, subst, Bool, false, not, ◌&&◌, ◌||◌, if◌then◌else◌, List, [],
  ◌∷◌, ◌++◌, ◌==◌, ok, ◌>>=◌, >>=-returns, ok-injective, Bool-cases, inl, inr, arith, ==_iff,
  fun_ext,
}
use pycroft.Interval.Core.{Interval, single, overlaps}
use pycroft.Interval.Spans.{spans, IsOrdered}
use pycroft.Interval.Sets.{from_iterable, from_interval, set_of, set_difference}
use pycroft.Membership.Store.{
  Membership, Db, log_user_event, permission_level, active_memberships, highest_level,
  select_memberships, closures, new_memberships,
}
use pycroft.Membership.Ops.{check_permission, remove_member_of}
use pycroft.Membership.Rows.{is_member, AllActive, closure_lem, closed_variant}
use pycroft.Membership.Effect.{IsValid, remove_member_of_effect}
use pycroft.Membership.Groups.{member_of, leave_groups}

active_memberships-total :
    (user : ℕ) (when : Interval) (ms : List Membership)
    → AllActive ms
    → (active : List Membership) × (active_memberships user when ms ≡ ok active)
unfolding active_memberships
active_memberships-total user when [] a = ([], refl)
active_memberships-total user when (m ∷ ms) a =
    let (rest, e) = active_memberships-total user when ms a.1 in
    let (k, _, _) = closure_lem m.active_during a.0 in
    elim (Bool-cases (m.user == user)) [
      | inl own ↦ (
        (if overlaps when (closed_variant m.active_during) then m ∷ rest else rest),
        rw (e, own, k),
      )
      | inr other ↦ (rest, rw (e, other))
    ]

-- What a row that is selected or not has to say about other users and other groups
abbrev SameFor : ℕ → ℕ → List Membership → List Membership → Type 0
SameFor user group others ms =
    ((p : ℕ) (when : Interval)
      → (user == p) ≡ false
      → active_memberships p when others ≡ active_memberships p when ms)
    × ((overlapping : Interval → Interval → Bool) (p g : ℕ) (when : Interval)
        → (user == p && group == g) ≡ false
        → member_of overlapping p g when others ≡ member_of overlapping p g when ms)

-- What `select_memberships` leaves is the same for other users, and for other groups.
select_others :
    (user group : ℕ) (during : Interval) (ms : List Membership)
    → AllActive ms
    → (selected others : List Membership) × (select_memberships user group during ms
        ≡ ok (selected, others))
      × SameFor user group others ms
unfolding select_memberships active_memberships member_of
select_others user group during [] a = ([], [], refl, ((λ p w n. refl), λ v p g w n. refl))
select_others user group during (m ∷ ms) a =
    let (s, o, e, (f, d)) = select_others user group during ms a.1 in
    let (k, _, _) = closure_lem m.active_during a.0 in
    elim (Bool-cases (m.user == user)) [
      | inr other ↦
          (s, m ∷ o, rw (e, other), ((λ p w n. rw (f p w n)), λ v p g w n. rw (d v p g w n)))
      | inl own ↦
          elim (Bool-cases (overlaps during (closed_variant m.active_during) && m.group == group)) [
            | inl taken ↦ (
              m ∷ s,
              o,
              rw (e, own, k, taken),
              (
                (λ p w n.
                    let (rest, t) = active_memberships-total p w ms a.1 in
                    ground (arith, f p w n, t)),
                λ v p g w n. ground (arith, d v p g w n),
              ),
            )
            | inr left ↦ (
              s,
              m ∷ o,
              rw (e, own, k, left),
              ((λ p w n. rw (f p w n)), λ v p g w n. rw (d v p g w n)),
            )
          ]
    ]

-- New rows of the user in the group are no rows of others.
new_rows :
    (user group : ℕ) (ms : List Membership) (is : List Interval)
    → SameFor user group (ms ++ new_memberships user group is) ms
unfolding new_memberships active_memberships member_of
new_rows user group [] [] = ((λ p w n. refl), λ v p g w n. refl)
new_rows user group [] (i ∷ is) =
    let (f, d) = new_rows user group [] is in
    ((λ p w n. rw (f p w n, n)), λ v p g w n. ground (arith, d v p g w n))
new_rows user group (m ∷ ms) is =
    let (f, d) = new_rows user group ms is in
    ((λ p w n. rw (f p w n)), λ v p g w n. rw (d v p g w n))

-- What `remove_member_of` leaves as it was: the time, the groups, and the memberships of other users
-- and in other groups.
abbrev Keeps : ℕ → ℕ → Db → Db → Type 0
Keeps user group db db' =
    (db'.now ≡ db.now)
    × (db'.group_level ≡ db.group_level)
    × SameFor user group db'.memberships db.memberships

remove_member_of-Keeps :
    (user group processor : ℕ) (during : Interval) (db db' : Db)
    → IsValid db
    → remove_member_of user group processor during db ≡ ok db'
    → Keeps user group db db'
unfolding remove_member_of log_user_event
remove_member_of-Keeps user group processor during db db' v h =
    let (_, _, h) = >>=-returns (check_permission group processor db) _ h in
    let (r, e, h) = >>=-returns (select_memberships user group during db.memberships) _ h in
    let (cs, _, h) = >>=-returns (closures r.0) _ h in
    let (set, _, h) = >>=-returns (set_of (from_iterable cs)) _ h in
    let (is, _, h) = >>=-returns (set_difference set (from_interval during)) _ h in
    let (s, o, e', same) = select_others user group during db.memberships v in
    let back : r.1 ≡ o = ap (λ q. q.1) (ok-injective (sym e ∙ e')) in
    let (f, d) = new_rows user group r.1 is in
    subst (Keeps user group db) (ok-injective h) (
      refl,
      refl,
      (
        (λ p w n. f p w n ∙ ap (active_memberships p w) back ∙ same.0 p w n),
        λ v p g w n. d v p g w n ∙ ap (member_of v p g w) back ∙ same.1 v p g w n,
      ),
    )

-- Nothing is removed at the expense of the level of another user.
pub permission_level-kept :
    (user group processor : ℕ) (db db' : Db)
    → Keeps user group db db'
    → (user == processor) ≡ false
    → permission_level processor db' ≡ permission_level processor db
unfolding permission_level
permission_level-kept user group processor db db' (n, l, (f, d)) other =
    rw (n, l)
      (ap (λ active. single db.now >>= λ w. active w >>= λ ms. ok (highest_level db.group_level ms))
        (fun_ext (λ w. f processor w other)))

abbrev pub listed : ℕ → List ℕ → Bool
listed g [] = false
listed g (h ∷ hs) = h == g || listed g hs

-- The level suffices for each of the groups.
abbrev pub AllWithin : (ℕ → ℕ) → ℕ → List ℕ → Type 0
AllWithin group_level level [] = Unit
AllWithin group_level level (g ∷ gs) = (group_level g ≤ level) × AllWithin group_level level gs

module _ (range_overlaps : Interval → Interval → Bool) where
  -- One round of the loop: if the user is in the group, `remove_member_of` is called, else nothing is.
  pub leave_group :
      (user group processor level : ℕ) (when during : Interval) (db : Db)
      → IsValid db
      → IsOrdered during
      → permission_level processor db ≡ ok level
      → db.group_level group ≤ level
      → (db' : Db) × ((if member_of range_overlaps user group when db.memberships
            then remove_member_of user group processor during db
            else ok db)
          ≡ ok db')
        × IsValid db'
        × Keeps user group db db'
        × ((member_of range_overlaps user group when db'.memberships
              && not (member_of range_overlaps user group when db.memberships))
            ≡ false)
        × ((u g x : ℕ)
            → is_member db'.memberships u g x ≡ (
                is_member db.memberships u g x
                && not (
                    user == u
                    && (group == g
                        && (member_of range_overlaps user group when db.memberships
                            && spans during x)))))
  leave_group user group processor level when during db v i e h =
      elim (Bool-cases (member_of range_overlaps user group when db.memberships)) [
        | inr out ↦ (
          db,
          rw out,
          v,
          (refl, refl, ((λ p w n. refl), λ v p g w n. refl)),
          ground arith,
          λ u g x. ground (arith, out),
        )
        | inl inside ↦
            let (db', r, v', _, c) =
              remove_member_of_effect user group processor level during db v i e h in
            (
              db',
              rw (inside, r),
              v',
              remove_member_of-Keeps user group processor during db db' v r,
              ground arith,
              λ u g x. rw (inside, c u g x),
            )
      ]

  pub leave_groups_effect :
      (groups : List ℕ) (user processor level : ℕ) (when during : Interval) (db : Db)
      → IsValid db
      → IsOrdered during
      → (user == processor) ≡ false
      → permission_level processor db ≡ ok level
      → AllWithin db.group_level level groups
      → (db' : Db) × (leave_groups range_overlaps groups user processor when during db ≡ ok db')
        × IsValid db'
        × ((u g x : ℕ)
            → is_member db'.memberships u g x ≡ (
                is_member db.memberships u g x
                && not (
                    user == u
                    && (listed g groups
                        && (member_of range_overlaps user g when db.memberships
                            && spans during x)))))
  unfolding leave_groups
  leave_groups_effect [] user processor level when during db v i ne e h =
      (db, refl, v, λ u g x. ground arith)
  leave_groups_effect (group ∷ groups) user processor level when during db v i ne e h =
      let (db1, r1, v1, k, still, c1) =
        leave_group user group processor level when during db v i e h.0 in
      let (db2, r2, v2, c2) =
        leave_groups_effect groups user processor level when during db1 v1 i ne
          (permission_level-kept user group processor db db1 k ne ∙ e)
          (subst (λ l. AllWithin l level groups) (sym k.1) h.1) in
      (
        db2,
        rw (r1, r2),
        v2,
        λ u g x. elim (Bool-cases (group == g)) [
          | inr other ↦
              ground (
                arith,
                c1 u g x,
                c2 u g x,
                k.2.1 range_overlaps user g when (ground (arith, other)),
              )
          | inl same ↦ ground (
            arith,
            c1 u g x,
            c2 u g x,
            still,
            ap (λ a. member_of range_overlaps user a when db.memberships) ((==_iff group g).0 same),
            ap (λ a. member_of range_overlaps user a when db1.memberships)
                ((==_iff group g).0 same),
          )
        ],
      )
