-- ===== src/Lifecycle/Invariant.antt =====
-- Users who move in, move and move out leave memberships and addresses valid.
use pycroft.Base.{
  ℕ, ◌≡◌, refl, subst, Bool, true, false, if◌then◌else◌, Option, none, some, List, [], ◌∷◌, String,
  str_eq, ok, >>=-returns, ok-injective, arith, Bool-cases, inl, inr,
}
use pycroft.Interval.Bound.{fin, pos_inf, bound, unbounded}
use pycroft.Interval.Bound
use pycroft.Interval.Core.{Interval, interval, closed}
use pycroft.Interval.Sets.Proper.{IsProper, is_closed_below}
use pycroft.Membership.Store.{Db}
use pycroft.Membership.Ops.{make_member_of}
use pycroft.Membership.Effect.{IsValid}
use pycroft.Membership.Groups.{Config, member_of, leave_groups}
use pycroft.Membership.Preserved.{make_member_of-IsValid, leave_groups-IsValid}
use pycroft.Membership.Blocking.{from_on, starting_from_lem}
use pycroft.Net.Addresses.{Netaddr, Subnet}
use pycroft.Net.Store.{Host, Interface, NetDb}
use pycroft.Net.Ops.{same_room, migrate_host}
use pycroft.Net.Hosts.{MacText, validate_mac, find_mac}
use pycroft.Net.Keeping.{Inv, Inv-migrate_host, Inv-setup_ipv4_networking}
use pycroft.Lifecycle.MoveOut.{ended_groups, end_memberships}
use pycroft.Lifecycle.Cleared.{find_host}
use pycroft.Lifecycle.Effect.{at, single_lem}
use pycroft.Lifecycle.Moves.{
  join_groups, begin_memberships, annex, connect, connect_if, migrate_hosts,
}

module _ (range_overlaps : Interval → Interval → Bool) (config : Config) where
  join_groups-IsValid :
      (groups : List ℕ) (user processor : ℕ) (now during : Interval) (db db' : Db)
      → IsValid db
      → IsProper during
      → join_groups range_overlaps config groups user processor now during db ≡ ok db'
      → IsValid db'
  unfolding join_groups
  join_groups-IsValid [] user processor now during db db' v i h = subst IsValid (ok-injective h) v
  join_groups-IsValid (g ∷ gs) user processor now during db db' v i h =
      let (db1, a, h) =
        >>=-returns
          (if member_of range_overlaps user g now db.memberships
            then ok db
            else make_member_of user g processor during db)
          _ h in
      join_groups-IsValid gs user processor now during db1 db'
        (elim (Bool-cases (member_of range_overlaps user g now db.memberships)) [
          | inl inside ↦ subst IsValid (ok-injective (rw inside at a)) v
          | inr outside ↦
              make_member_of-IsValid user g processor during db db1 v i (rw outside at a)
        ])
        i h

  pub end_memberships-IsValid :
      (user processor when : ℕ) (end_membership : Bool) (db db' : Db)
      → IsValid db
      → end_memberships range_overlaps config user processor when end_membership db ≡ ok db'
      → IsValid db'
  unfolding end_memberships
  end_memberships-IsValid user processor when false db db' v h = subst IsValid (ok-injective h) v
  end_memberships-IsValid user processor when true db db' v h =
      leave_groups-IsValid range_overlaps (ended_groups config) user processor (at db.now)
        (from_on when) db db' v refl (rw (single_lem db.now, starting_from_lem when) at h)

  pub begin_memberships-IsValid :
      (user processor : ℕ) (begin_membership : Bool) (db db' : Db)
      → IsValid db
      → begin_memberships range_overlaps config user processor begin_membership db ≡ ok db'
      → IsValid db'
  unfolding begin_memberships closed interval is_closed_below Bound.unbounded bound Bound.lt
  begin_memberships-IsValid user processor false db db' v h = subst IsValid (ok-injective h) v
  begin_memberships-IsValid user processor true db db' v h =
      let k = rw (single_lem db.now, starting_from_lem db.now) at h in
      let (db1, a, k) =
        >>=-returns
          (leave_groups range_overlaps (config.external_group ∷ config.pre_member_group ∷ []) user
            processor (at db.now) (from_on db.now) db)
          _ k in
      join_groups-IsValid (config.member_group ∷ config.network_access_group ∷ []) user processor
        (at db.now) (from_on db1.now) db1 db'
        (leave_groups-IsValid range_overlaps _ user processor (at db.now) (from_on db.now) db db1 v
          refl a)
        (refl, refl) k

module _ {Network IpSet : Type 0} (lib : Netaddr Network IpSet) (stale : ℕ → Bool) (text : MacText)
    (all : List (Subnet Network)) where
  Inv-annex :
      (host : Option Host) (user room processor : ℕ) (net net' : NetDb Network)
      → Inv lib all net
      → annex lib stale text host user room processor net ≡ ok net'
      → Inv lib all net'
  unfolding annex
  Inv-annex none user room processor net net' v h = absurd (ground arith)
  Inv-annex (some host) user room processor net net' v h =
      Inv-migrate_host lib all stale (record host { owner = some user }) room processor _ net' v h

  Inv-connect :
      (existing : Option Interface) (host_annex : Bool) (mac : String) (user room processor : ℕ)
      (net net' : NetDb Network)
      → Inv lib all net
      → connect lib stale text existing host_annex mac user room processor net ≡ ok net'
      → Inv lib all net'
  unfolding connect
  Inv-connect (some i) true mac user room processor net net' v h =
      Inv-annex (find_host i.host net.hosts) user room processor net net' v h
  Inv-connect (some i) false mac user room processor net net' v h = absurd (ground arith)
  Inv-connect none host_annex mac user room processor net net' v h =
      let (_, _, h) = >>=-returns (validate_mac text mac) _ h in
      Inv-setup_ipv4_networking lib all stale _ _ net' v h

  pub Inv-connect_if :
      (mac : Option String) (birthdate : Option ℕ) (host_annex : Bool) (user room processor : ℕ)
      (net net' : NetDb Network)
      → Inv lib all net
      → connect_if lib stale text mac birthdate host_annex user room processor net ≡ ok net'
      → Inv lib all net'
  unfolding connect_if
  Inv-connect_if none birthdate host_annex user room processor net net' v h =
      subst (Inv lib all) (ok-injective h) v
  Inv-connect_if (some mac) none host_annex user room processor net net' v h =
      subst (Inv lib all) (ok-injective h) v
  Inv-connect_if (some mac) (some birthdate) host_annex user room processor net net' v h =
      elim (Bool-cases (str_eq mac "")) [
        | inl no_mac ↦ subst (Inv lib all) (ok-injective (rw no_mac at h)) v
        | inr given ↦
            Inv-connect (find_mac text mac net.interfaces) host_annex mac user room processor net
              net' v (rw given at h)
      ]

  pub Inv-migrate_hosts :
      (hs : List Host) (old_room : Option ℕ) (new_room processor : ℕ) (net net' : NetDb Network)
      → Inv lib all net
      → migrate_hosts lib stale text hs old_room new_room processor net ≡ ok net'
      → Inv lib all net'
  unfolding migrate_hosts
  Inv-migrate_hosts [] old_room new_room processor net net' v h =
      subst (Inv lib all) (ok-injective h) v
  Inv-migrate_hosts (g ∷ hs) old_room new_room processor net net' v h =
      let (net1, a, h) =
        >>=-returns
          (if same_room g.room old_room
            then migrate_host lib stale g new_room processor net
            else ok net)
          _ h in
      Inv-migrate_hosts hs old_room new_room processor net1 net'
        (elim (Bool-cases (same_room g.room old_room)) [
          | inl there ↦
              Inv-migrate_host lib all stale g new_room processor net net1 v (rw there at a)
          | inr elsewhere ↦ subst (Inv lib all) (ok-injective (rw elsewhere at a)) v
        ])
        h
