-- ===== src/Lifecycle/MoveOut.antt =====
-- `move_out` of pycroft/lib/user/lifecycle.py, where it does not defer to a task. The three groups are a
-- set in the source, in any order; here they stand as written there.
use pycroft.Base.{
  ℕ, zero, suc, Bool, not, ◌&&◌, ◌||◌, if◌then◌else◌, Option, none, some, List, [], ◌∷◌, ◌++◌,
  String, Result, ok, ◌>>=◌,
}
use pycroft.Interval.Core.{Interval, single, starting_from}
use pycroft.Membership.Store.{Db}
use pycroft.Membership.Groups.{Config, leave_groups}
use pycroft.Net.Store.{Host, Interface, moved_out, NetDb, interfaces_of, log_host_event}
use pycroft.Net.Ops.{same_room}
use pycroft.Net.Hosts.{delete_host}
use pycroft.Lifecycle.Campus.{User, Campus, save_user, hosts_of, is_switch}

-- `{config.member_group, config.external_group, config.network_access_group}`
unfoldable pub ended_groups : Config → List ℕ
ended_groups config = config.member_group ∷ config.external_group ∷ config.network_access_group ∷ []

-- `not h.switch and (h.room == user.room or end_membership)`
unfoldable pub leaves : List ℕ → Option ℕ → Bool → Host → Bool
unfolding is_switch
leaves switches room end_membership h =
    not (is_switch switches h.id) && (same_room h.room room || end_membership)

unfoldable pub macs_of : List Interface → List String
macs_of [] = []
macs_of (i ∷ is) = i.mac ∷ macs_of is

-- `num_hosts`
unfoldable pub number_of : List Host → ℕ
number_of [] = 0
number_of (h ∷ hs) = suc (number_of hs)

module _ (range_overlaps : Interval → Interval → Bool) (config : Config) where
  -- `if end_membership:` with the loop over the groups
  unfoldable pub end_memberships : ℕ → ℕ → ℕ → Bool → Db → Result Db
  unfolding ended_groups
  end_memberships user processor when end_membership db =
      if end_membership
      then (do
        now ← single db.now
        during ← starting_from when
        leave_groups range_overlaps (ended_groups config) user processor now during db)
      else ok db

module _ {Network : Type 0} where
  -- `session.delete(h)`
  unfoldable pub clear_host :
      List ℕ → Option ℕ → Bool → Host → NetDb Network → List String × NetDb Network
  unfolding leaves macs_of
  clear_host switches room end_membership h net =
      if leaves switches room end_membership h
      then (macs_of (interfaces_of h.id net.interfaces), delete_host h net)
      else ([], net)

  -- `for num_hosts, h in enumerate(user.hosts, 1):`, with `deleted_interfaces`
  unfoldable pub clear_hosts :
      List ℕ → Option ℕ → Bool → List Host → NetDb Network → List String × NetDb Network
  unfolding clear_host
  clear_hosts switches room end_membership [] net = ([], net)
  clear_hosts switches room end_membership (h ∷ hs) net =
      let (macs, net) = clear_host switches room end_membership h net in
      let (more, net) = clear_hosts switches room end_membership hs net in (macs ++ more, net)

  -- `if message is not None: log_user_event(...)`
  unfoldable pub log_move_out :
      Option ℕ → List String → ℕ → String → ℕ → ℕ → NetDb Network → Result (NetDb Network)
  log_move_out none macs zero comment processor user net = ok net
  log_move_out none macs (suc n) comment processor user net =
      log_host_event (moved_out none macs (suc n) comment) processor (some user) net
  log_move_out (some room) macs num comment processor user net =
      log_host_event (moved_out (some room) macs num comment) processor (some user) net

  module _ (range_overlaps : Interval → Interval → Bool) (config : Config) where
    unfoldable pub move_out_now :
        User → String → ℕ → ℕ → Bool → Campus Network → Result (Campus Network)
    unfolding end_memberships clear_hosts number_of log_move_out
    move_out_now user comment processor when end_membership campus = do
      members ←
          end_memberships range_overlaps config user.id processor when end_membership campus.members
      let hosts = hosts_of user.id campus.net.hosts
      let (macs, net) = clear_hosts campus.switches user.room end_membership hosts campus.net
      net ← log_move_out user.room macs (number_of hosts) comment processor user.id net
      ok (record campus {
        members = members;
        net = net;
        users = save_user (record user { room = none }) campus.users;
      })
