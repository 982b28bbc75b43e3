-- ===== src/Lifecycle/Moves.antt =====
-- `move_in` and `move` of pycroft/lib/user/lifecycle.py, where they do not defer to a task. The groups
-- are sets in the source, in any order; here they stand as written there.
use pycroft.Base.{
  ℕ, ◌+◌, Bool, true, false, not, ◌&&◌, ◌==◌, if◌then◌else◌, Option, none, some, List, [], ◌∷◌,
  ◌++◌, String, str_eq, Result, ok, err, value_error, assertion_error, no_result_found,
  multiple_results_found, mac_exists, ◌>>=◌, ◌>>◌, raise_if,
}
use pycroft.Interval.Core.{Interval, single, starting_from, closed}
use pycroft.Membership.Store.{Db}
use pycroft.Membership.Ops.{make_member_of}
use pycroft.Membership.Groups.{Config, member_of, leave_groups}
use pycroft.Net.Addresses.{Netaddr}
use pycroft.Net.Store.{Host, Interface, moved_in, moved_user, NetDb, save_host, log_host_event}
use pycroft.Net.Ops.{same_room, migrate_host, setup_ipv4_networking}
use pycroft.Net.Hosts.{MacText, validate_mac, find_mac}
use pycroft.Lifecycle.Campus.{User, RoomRow, Campus, save_user, hosts_of, find_room}
use pycroft.Lifecycle.Cleared.{find_host}

-- `filter_by(number=room_number, level=level, building_id=building_id)`
unfoldable pub matching : ℕ → ℕ → String → List RoomRow → List RoomRow
matching building level number [] = []
matching building level number (r ∷ rs) =
    let rest = matching building level number rs in
    if r.building_id == building && (r.level == level && str_eq r.number number)
    then r ∷ rest
    else rest

-- `.one_or_none()`
unfoldable pub one_or_none : List RoomRow → Result (Option RoomRow)
one_or_none [] = ok none
one_or_none (r ∷ []) = ok (some r)
one_or_none (r ∷ s ∷ rest) = err multiple_results_found

-- `.one()`
unfoldable pub one : List RoomRow → Result RoomRow
one [] = err no_result_found
one (r ∷ []) = ok r
one (r ∷ s ∷ rest) = err multiple_results_found

-- `User.has_custom_address`
unfoldable pub has_custom_address : User → List RoomRow → Bool
unfolding find_room
has_custom_address user rooms = elim user.room [
  | none ↦ false
  | some room ↦ elim (find_room room rooms) [
    | none ↦ false
    | some r ↦ not (user.address == r.address)
  ]
]

unfoldable pub is_some : Option ℕ → Bool
is_some none = false
is_some (some a) = true

module _ (range_overlaps : Interval → Interval → Bool) (config : Config) where
  -- `for group in groups: if not user.member_of(group): make_member_of(user, group, processor, during)`
  unfoldable pub join_groups : List ℕ → ℕ → ℕ → Interval → Interval → Db → Result Db
  join_groups [] user processor now during db = ok db
  join_groups (group ∷ groups) user processor now during db =
      (if member_of range_overlaps user group now db.memberships
        then ok db
        else make_member_of user group processor during db)
      >>= λ db'. join_groups groups user processor now during db'

  -- `if begin_membership:` with its two loops
  unfoldable pub begin_memberships : ℕ → ℕ → Bool → Db → Result Db
  unfolding join_groups
  begin_memberships user processor begin_membership db =
      if begin_membership
      then (do
        now ← single db.now
        ending ← starting_from db.now
        db ←
            leave_groups range_overlaps (config.external_group ∷ config.pre_member_group ∷ []) user
              processor now ending db
        during ← closed (some db.now) none
        join_groups (config.member_group ∷ config.network_access_group ∷ []) user processor now
            during db)
      else ok db

module _ {Network IpSet : Type 0} (lib : Netaddr Network IpSet) (stale : ℕ → Bool)
    (text : MacText) where
  -- `host_existing.owner_id = user.id`, and the host follows
  unfoldable pub annex : Option Host → ℕ → ℕ → ℕ → NetDb Network → Result (NetDb Network)
  annex none user room processor net = err no_result_found
  annex (some host) user room processor net =
      let given = record host { owner = some user } in
      migrate_host lib stale given room processor (record net { hosts = save_host given net.hosts })

  -- `if interface_existing is not None:`
  unfoldable pub connect :
      Option Interface → Bool → String → ℕ → ℕ → ℕ → NetDb Network → Result (NetDb Network)
  unfolding annex find_host validate_mac
  connect (some existing) host_annex mac user room processor net =
      if host_annex
      then annex (find_host existing.host net.hosts) user room processor net
      else err mac_exists
  connect none host_annex mac user room processor net = do
    validate_mac text mac
    let host : Host = record { id = net.next_id; name = none; owner = some user; room = some room }
    setup_ipv4_networking lib stale host (record net {
      next_id = net.next_id + 1 + 1;
      hosts = net.hosts ++ (host ∷ []);
      interfaces =
          net.interfaces
          ++ (record { id = net.next_id + 1; name = none; mac = mac; host = net.next_id } ∷ []);
    })

  -- `if mac and user.birthdate:`
  unfoldable pub connect_if :
      Option String → Option ℕ → Bool → ℕ → ℕ → ℕ → NetDb Network → Result (NetDb Network)
  unfolding connect find_mac
  connect_if (some mac) (some birthdate) host_annex user room processor net =
      if str_eq mac ""
      then ok net
      else connect (find_mac text mac net.interfaces) host_annex mac user room processor net
  connect_if mac birthdate host_annex user room processor net = ok net

  module _ (range_overlaps : Interval → Interval → Bool) (config : Config) where
    -- `if room:`, with the new row of the user
    unfoldable pub settle_in :
        Option RoomRow → User → Option String → Bool → ℕ → Campus Network → Result (Campus Network)
    unfolding connect_if
    settle_in none user mac host_annex processor campus = do
      net ← log_host_event (moved_in none) processor (some user.id) campus.net
      ok (record campus { net = net; users = save_user user campus.users })
    settle_in (some room) user mac host_annex processor campus = do
      net ← connect_if mac user.birthdate host_annex user.id room.id processor campus.net
      net ← log_host_event (moved_in (some room.id)) processor (some user.id) net
      ok (record campus {
        net = net;
        users =
            save_user (record user { room = some room.id; address = room.address }) campus.users;
      })

    -- `if birthdate: user.birthdate = birthdate`
    unfoldable pub with_birthdate : Option ℕ → User → User
    with_birthdate none user = user
    with_birthdate (some birthdate) user = record user { birthdate = some birthdate }

    unfoldable pub move_in_now :
        User
        → ℕ
        → ℕ
        → String
        → Option String
        → Option ℕ
        → Option ℕ
        → Bool
        → Bool
        → Campus Network
        → Result (Campus Network)
    unfolding begin_memberships settle_in matching one_or_none is_some with_birthdate
    move_in_now user building level number mac processor birthdate host_annex begin_membership
          campus =
        do
          let author : ℕ = elim processor [ none ↦ user.id | some p ↦ p ]
          raise_if (is_some user.room) value_error
          room ← one_or_none (matching building level number campus.rooms)
          members ←
              begin_memberships range_overlaps config user.id author begin_membership campus.members
          campus ←
              settle_in room (with_birthdate birthdate user) mac host_annex author
                (record campus { members = members })
          ok (record campus { mails = campus.mails ++ (user.id ∷ []) })

  -- `for user_host in user.hosts: if user_host.room == old_room: migrate_host(...)`
  unfoldable pub migrate_hosts :
      List Host → Option ℕ → ℕ → ℕ → NetDb Network → Result (NetDb Network)
  migrate_hosts [] old_room new_room processor net = ok net
  migrate_hosts (h ∷ hs) old_room new_room processor net =
      (if same_room h.room old_room
        then migrate_host lib stale h new_room processor net
        else ok net)
      >>= λ net'. migrate_hosts hs old_room new_room processor net'

  unfoldable pub move_now :
      User → ℕ → ℕ → String → ℕ → Option String → Campus Network → Result (Campus Network)
  unfolding matching one has_custom_address migrate_hosts
  move_now user building level number processor comment campus = do
    let had_custom_address = has_custom_address user campus.rooms
    room ← one (matching building level number campus.rooms)
    raise_if (same_room user.room (some room.id)) assertion_error
    let moved = record user {
      room = some room.id;
      address = if had_custom_address then user.address else room.address;
    }
    net ← log_host_event (moved_user user.room room.id comment) processor (some user.id) campus.net
    net ← migrate_hosts (hosts_of user.id net.hosts) user.room room.id processor net
    ok (record campus {
      net = net;
      users = save_user moved campus.users;
      mails = campus.mails ++ (user.id ∷ []);
    })
