-- ===== src/Lifecycle/Effect.antt =====
-- What `move_out` does to a user's memberships, room and hosts.
use pycroft.Base.{
  AllOf, ℕ, zero, suc, ◌≡◌, refl, sym, ◌∙◌, subst, ◌⊎◌, Bool, true, false, not, ◌&&◌, ◌==◌, leb,
  Option, none, some, List, String, ok, arith,
}
use pycroft.Interval.Bound.{fin, bound}
use pycroft.Interval.Core.{Interval, single}
use pycroft.Interval.Spans.{interval-ok}
use pycroft.Membership.Store.{Db, permission_level}
use pycroft.Membership.Rows.{is_member}
use pycroft.Membership.Effect.{IsValid}
use pycroft.Membership.Groups.{Config, member_of}
use pycroft.Membership.Leave.{listed, AllWithin, leave_groups_effect}
use pycroft.Membership.Blocking.{from_on, starting_from_lem, spans-from_on}
use pycroft.Net.Addresses.{Netaddr}
use pycroft.Net.Store.{NetDb, log_host_event}
use pycroft.Net.Placed.{Valid}
use pycroft.Net.Placed.{IsValid as NetIsValid}
use pycroft.Lifecycle.Campus.{User, Campus, save_user, owned_by, hosts_of}
use pycroft.Lifecycle.MoveOut.{
  ended_groups, leaves, clear_hosts, number_of, log_move_out, end_memberships, move_out_now,
}
use pycroft.Lifecycle.Cleared.{
  find_host, leaving_id, clear_hosts-left, clear_hosts-kept, clear_hosts-Inv,
}

-- the interval that `single` builds
abbrev pub at : ℕ → Interval
at now = record {
  lower_bound = record { value = fin now; closed = true };
  upper_bound = record { value = fin now; closed = true };
}

pub single_lem : (now : ℕ) → single now ≡ ok (at now)
unfolding single bound
single_lem now = interval-ok _ _ (ground arith)

-- Logging the move changes neither hosts nor addresses.
pub log_move_out-ok :
    {Network : Type 0} (room : Option ℕ) (macs : List String) (num : ℕ) (comment : String)
    (processor user : ℕ) (net : NetDb Network)
    → (net' : NetDb Network) × (log_move_out room macs num comment processor user net ≡ ok net')
      × (net'.hosts ≡ net.hosts)
      × (net'.subnets ≡ net.subnets)
      × (net'.ips ≡ net.ips)
unfolding log_move_out log_host_event
log_move_out-ok none macs zero comment processor user net = (net, refl, refl, refl, refl)
log_move_out-ok none macs (suc n) comment processor user net = (_, refl, refl, refl, refl)
log_move_out-ok (some r) macs num comment processor user net = (_, refl, refl, refl, refl)

module _ (range_overlaps : Interval → Interval → Bool) (config : Config) where
  -- Which of a user's memberships the move ends
  abbrev pub ended : User → ℕ → Bool → Db → ℕ → ℕ → ℕ → Bool
  ended user when end_membership db u g x =
      end_membership
      && (user.id == u
          && (listed g (ended_groups config)
              && (member_of range_overlaps user.id g (at db.now) db.memberships && leb when x)))

  end_memberships_effect :
      (user : User) (processor level when : ℕ) (end_membership : Bool) (db : Db)
      → IsValid db
      → (user.id == processor) ≡ false
      → permission_level processor db ≡ ok level
      → AllWithin db.group_level level (ended_groups config)
      → (db' : Db) × (end_memberships range_overlaps config user.id processor when end_membership db
          ≡ ok db')
        × IsValid db'
        × ((u g x : ℕ)
            → is_member db'.memberships u g x
              ≡ (is_member db.memberships u g x && not (ended user when end_membership db u g x)))
  unfolding end_memberships
  end_memberships_effect user processor level when false db v ne e h =
      (db, refl, v, λ u g x. ground arith)
  end_memberships_effect user processor level when true db v ne e h =
      let (db', r, v', c) =
        leave_groups_effect range_overlaps (ended_groups config) user.id processor level (at db.now)
          (from_on when) db v refl ne e h in
      (
        db',
        rw (single_lem db.now, starting_from_lem when, r),
        v',
        λ u g x. ground (arith, c u g x, spans-from_on when x),
      )

  module _ {Network IpSet : Type 0} (lib : Netaddr Network IpSet) where
    -- Whoever moves another user out with a sufficient level for the three groups leaves the user without a
    -- room and without any host that is no switch and stands in the old room, or with the end of the
    -- membership without any host that is no switch. The membership ends in those of the groups that the
    -- user is in now, from the given instant on; no other membership changes, nor any host with another id
    -- than those that are deleted. Memberships and addresses stay valid. A membership counts from its lower
    -- value up to and without its upper one.
    pub move_out_effect :
        (user : User) (comment : String) (processor level when : ℕ) (end_membership : Bool)
        (campus : Campus Network)
        → IsValid campus.members
        → NetIsValid lib campus.net
        → (user.id == processor) ≡ false
        → permission_level processor campus.members ≡ ok level
        → AllWithin campus.members.group_level level (ended_groups config)
        → (campus' : Campus Network) × (move_out_now range_overlaps config user comment processor
              when end_membership campus
            ≡ ok campus')
          × (campus'.users ≡ save_user (record user { room = none }) campus.users)
          × AllOf
              (λ h.
                (owned_by user.id h && leaves campus.switches user.room end_membership h) ≡ false)
              campus'.net.hosts
          × ((i : ℕ)
              → (leaving_id campus.switches user.room end_membership i
                    (hosts_of user.id campus.net.hosts)
                  ≡ true)
                ⊎ (find_host i campus'.net.hosts ≡ find_host i campus.net.hosts))
          × IsValid campus'.members
          × NetIsValid lib campus'.net
          × ((u g x : ℕ)
              → is_member campus'.members.memberships u g x ≡ (
                  is_member campus.members.memberships u g x
                  && not (ended user when end_membership campus.members u g x)))
    unfolding move_out_now
    move_out_effect user comment processor level when end_membership campus v w ne e h =
        let hosts = hosts_of user.id campus.net.hosts in
        let cleared = clear_hosts campus.switches user.room end_membership hosts campus.net in
        let (members, r, v', c) =
          end_memberships_effect user processor level when end_membership campus.members v ne e h in
        let (net, logged, same_hosts, same_subnets, same_ips) =
          log_move_out-ok user.room cleared.0 (number_of hosts) comment processor user.id
            cleared.1 in
        let (subnets, valid) =
          clear_hosts-Inv campus.switches user.room end_membership lib campus.net.subnets hosts
            campus.net (refl, w) in
        (
          record campus {
            members = members;
            net = net;
            users = save_user (record user { room = none }) campus.users;
          },
          rw (r, logged),
          refl,
          subst (AllOf _) (sym same_hosts)
              (clear_hosts-left campus.switches user.room end_membership user.id campus.net),
          (λ i.
              rw same_hosts
                (clear_hosts-kept campus.switches user.room end_membership i hosts campus.net)),
          v',
          subst (λ all. Valid lib all net.ips) (sym (same_subnets ∙ subnets))
              (subst (Valid lib campus.net.subnets) (sym same_ips) valid),
          c,
        )
