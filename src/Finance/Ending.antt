-- ===== src/Finance/Ending.antt =====
-- `end_payment_in_default_memberships` of pycroft/lib/finance/payment_in_default.py. The users that the
-- query finds, who have the property and owe nothing, are an argument, and so is PostgreSQL's `&&` on
-- ranges. Instants count seconds.
use pycroft.Base.{
  ℕ, ◌-◌, ◌≤◌, ◌≡◌, refl, sym, ap, ◌∙◌, subst, Bool, true, false, not, ◌&&◌, ◌||◌, if◌then◌else◌,
  List, [], ◌∷◌, ◌==◌, leb, Result, ok, ◌>>=◌, arith, ==_iff,
}
use pycroft.Interval.Core.{Interval, single, starting_from}
use pycroft.Membership.Store.{Db, permission_level}
use pycroft.Membership.Ops.{remove_member_of}
use pycroft.Membership.Rows.{is_member}
use pycroft.Membership.Groups.{Config, member_of}
use pycroft.Membership.Effect.{IsValid}
use pycroft.Membership.Leave.{leave_group, permission_level-kept, listed}
use pycroft.Membership.Blocking.{from_on, starting_from_lem, spans-from_on}
use pycroft.Lifecycle.Effect.{at, single_lem}

-- A user leaves in the first round or in a later one: `in_u` and `in_user` say who is in the group before
-- the first round, and `then_u` and `then_user` who is after it.
round :
    (a a1 a2 own later here in_u in_user then_u then_user after : Bool)
    → (own ≡ true → (in_user ≡ in_u) × (then_user ≡ then_u))
    → (own ≡ false → then_u ≡ in_u)
    → (then_user && not in_user) ≡ false
    → a1 ≡ (a && not (own && (here && (in_user && after))))
    → a2 ≡ (a1 && not (later && (here && (then_u && after))))
    → a2 ≡ (a && not ((own || later) && (here && (in_u && after))))
round a a1 a2 true later here in_u in_user then_u then_user after same other still c1 c2 =
    ground (arith, (same refl).0, (same refl).1)
round a a1 a2 false later here in_u in_user then_u then_user after same other still c1 c2 =
    ground (arith, other refl)

module _ (range_overlaps : Interval → Interval → Bool) (config : Config) where
  unfoldable pub end_payment_in_default_memberships : List ℕ → ℕ → Db → Result Db
  unfolding member_of
  end_payment_in_default_memberships [] processor db = ok db
  end_payment_in_default_memberships (user ∷ users) processor db = do
    now ← single db.now
    during ← starting_from (db.now - 1)
    db ←
        (if member_of range_overlaps user config.payment_in_default_group now db.memberships
          then remove_member_of user config.payment_in_default_group processor during db
          else ok db)
    end_payment_in_default_memberships users processor db

  -- A processor who is none of the users and has a sufficient level ends their memberships in the
  -- group of those in default, from one second ago on, of each user whom the database finds in this
  -- group now. No other membership changes. All memberships are in order; a membership counts from its
  -- lower value up to and without its upper one.
  pub end_in_default_effect :
      (users : List ℕ) (processor level : ℕ) (db : Db)
      → IsValid db
      → listed processor users ≡ false
      → permission_level processor db ≡ ok level
      → db.group_level config.payment_in_default_group ≤ level
      → (db' : Db) × (end_payment_in_default_memberships users processor db ≡ ok db')
        × IsValid db'
        × ((u g x : ℕ)
            → is_member db'.memberships u g x ≡ (
                is_member db.memberships u g x
                && not (
                    listed u users
                    && (config.payment_in_default_group == g
                        && (member_of range_overlaps u config.payment_in_default_group
                              (at db.now)
                              db.memberships
                            && leb (db.now - 1) x)))))
  unfolding end_payment_in_default_memberships
  end_in_default_effect [] processor level db v ne e h = (db, refl, v, λ u g x. ground arith)
  end_in_default_effect (user ∷ users) processor level db v ne e h =
      let group = config.payment_in_default_group in
      let (db1, r1, v1, k, still, c1) =
        leave_group range_overlaps user group processor level (at db.now) (from_on (db.now - 1)) db
          v refl e h in
      let (db2, r2, v2, c2) =
        end_in_default_effect users processor level db1 v1 (ground arith)
          (permission_level-kept user group processor db db1 k (ground arith) ∙ e)
          (subst (λ l. l group ≤ level) (sym k.1) h) in
      (
        db2,
        rw (single_lem db.now, starting_from_lem (db.now - 1), r1) r2,
        v2,
        λ u g x.
            round (is_member db.memberships u g x) (is_member db1.memberships u g x)
              (is_member db2.memberships u g x) (user == u) (listed u users) (group == g)
              (member_of range_overlaps u group (at db.now) db.memberships)
              (member_of range_overlaps user group (at db.now) db.memberships)
              (member_of range_overlaps u group (at db.now) db1.memberships)
              (member_of range_overlaps user group (at db.now) db1.memberships) (leb (db.now - 1) x)
              (λ same. (
                ap (λ a. member_of range_overlaps a group (at db.now) db.memberships)
                    ((==_iff user u).0 same),
                ap (λ a. member_of range_overlaps a group (at db.now) db1.memberships)
                    ((==_iff user u).0 same),
              ))
              (λ other. k.2.1 range_overlaps u group (at db.now) (ground arith)) still
              (c1 u g x
                ∙ ap
                    (λ b.
                      is_member db.memberships u g x
                      && not (
                          user == u
                          && (group == g
                              && (member_of range_overlaps user group (at db.now) db.memberships
                                  && b))))
                    (spans-from_on (db.now - 1) x))
              (subst
                (λ n. is_member db2.memberships u g x ≡ (
                  is_member db1.memberships u g x
                  && not (
                      listed u users
                      && (group == g
                          && (member_of range_overlaps u group (at n) db1.memberships
                              && leb (n - 1) x)))))
                k.0 (c2 u g x)),
      )
