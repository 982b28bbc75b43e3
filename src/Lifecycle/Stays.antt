-- ===== src/Lifecycle/Stays.antt =====
-- All sequences of moves.
use pycroft.Base.{
  ℕ, ◌≡◌, refl, sym, ◌∙◌, subst, Bool, Option, none, some, String, List, ok, value_error,
  assertion_error, raise_if, >>=-returns, ok-injective,
}
use pycroft.Interval.Core.{Interval}
use pycroft.Membership.Effect.{IsValid}
use pycroft.Membership.Groups.{Config}
use pycroft.Net.Addresses.{Netaddr, Subnet}
use pycroft.Net.Store.{moved_in, moved_user, log_host_event}
use pycroft.Net.Ops.{same_room}
use pycroft.Net.Hosts.{MacText}
use pycroft.Net.Placed.{Valid}
use pycroft.Net.Placed.{IsValid as NetIsValid}
use pycroft.Net.Keeping.{Inv, Inv-log}
use pycroft.Lifecycle.Campus.{User, RoomRow, Campus, hosts_of}
use pycroft.Lifecycle.MoveOut.{end_memberships, clear_hosts, number_of, log_move_out, move_out_now}
use pycroft.Lifecycle.Cleared.{clear_hosts-Inv}
use pycroft.Lifecycle.Effect.{log_move_out-ok}
use pycroft.Lifecycle.Moves.{
  begin_memberships, connect_if, settle_in, migrate_hosts, move_in_now, move_now, matching, one,
  one_or_none, is_some, with_birthdate,
}
use pycroft.Lifecycle.Invariant.{
  end_memberships-IsValid, begin_memberships-IsValid, Inv-connect_if, Inv-migrate_hosts,
}

module _ {Network IpSet : Type 0} (lib : Netaddr Network IpSet) (stale : ℕ → Bool) (text : MacText)
    (range_overlaps : Interval → Interval → Bool) (config : Config) where
  -- A move that returns
  pub data Move (c c' : Campus Network) : Type 0 where
    moves_out :
        (user : User) (comment : String) (processor when : ℕ) (end_membership : Bool)
        → move_out_now range_overlaps config user comment processor when end_membership c ≡ ok c'
        → Move c c'
    moves_in :
        (user : User) (building level : ℕ) (number : String) (mac : Option String)
        (processor birthdate : Option ℕ) (host_annex begin_membership : Bool)
        → move_in_now lib stale text range_overlaps config user building level number mac processor
            birthdate host_annex begin_membership c
          ≡ ok c'
        → Move c c'
    moves :
        (user : User) (building level : ℕ) (number : String) (processor : ℕ)
        (comment : Option String)
        → move_now lib stale text user building level number processor comment c ≡ ok c'
        → Move c c'

  pub data Moves : Campus Network → Campus Network → Type 0 where
    stay : {c : Campus Network} → Moves c c
    next : {a b c : Campus Network} → Move a b → Moves b c → Moves a c

  module _ (all : List (Subnet Network)) where
    -- Memberships and addresses are valid.
    abbrev Good : Campus Network → Type 0
    Good c = IsValid c.members × Inv lib all c.net

    Good-settle_in :
        (room : Option RoomRow) (user : User) (mac : Option String) (host_annex : Bool)
        (processor : ℕ) (c c' : Campus Network)
        → Good c
        → settle_in lib stale text range_overlaps config room user mac host_annex processor c
          ≡ ok c'
        → Good c'
    unfolding settle_in
    Good-settle_in none user mac host_annex processor c c' v h =
        let (net, l, h) =
          >>=-returns (log_host_event (moved_in none) processor (some user.id) c.net) _ h in
        subst Good (ok-injective h)
          (v.0, Inv-log lib all _ processor (some user.id) c.net net v.1 l)
    Good-settle_in (some room) user mac host_annex processor c c' v h =
        let (net, a, h) =
          >>=-returns
            (connect_if lib stale text mac user.birthdate host_annex user.id room.id processor
              c.net)
            _ h in
        let (net2, l, h) =
          >>=-returns (log_host_event (moved_in (some room.id)) processor (some user.id) net) _ h in
        subst Good (ok-injective h) (
          v.0,
          Inv-log lib all _ processor (some user.id) net net2
              (Inv-connect_if lib stale text all mac user.birthdate host_annex user.id room.id
                processor c.net net v.1 a)
              l,
        )

    Good-move_out :
        (user : User) (comment : String) (processor when : ℕ) (end_membership : Bool)
        (c c' : Campus Network)
        → Good c
        → move_out_now range_overlaps config user comment processor when end_membership c ≡ ok c'
        → Good c'
    unfolding move_out_now
    Good-move_out user comment processor when end_membership c c' v h =
        let hosts = hosts_of user.id c.net.hosts in
        let cleared = clear_hosts c.switches user.room end_membership hosts c.net in
        let (members, a, h) =
          >>=-returns
            (end_memberships range_overlaps config user.id processor when end_membership c.members)
            _ h in
        let (net, l, h) =
          >>=-returns
            (log_move_out user.room cleared.0 (number_of hosts) comment processor user.id cleared.1)
            _ h in
        let (net', l', _, subnets, ips) =
          log_move_out-ok user.room cleared.0 (number_of hosts) comment processor user.id
            cleared.1 in
        let (same, valid) =
          clear_hosts-Inv c.switches user.room end_membership lib all hosts c.net v.1 in
        subst Good (ok-injective h) (
          end_memberships-IsValid range_overlaps config user.id processor when end_membership
              c.members members v.0 a,
          subst (Inv lib all) (ok-injective (sym l' ∙ l))
              (subnets ∙ same, subst (Valid lib all) (sym ips) valid),
        )

    Good-move_in :
        (user : User) (building level : ℕ) (number : String) (mac : Option String)
        (processor birthdate : Option ℕ) (host_annex begin_membership : Bool)
        (c c' : Campus Network)
        → Good c
        → move_in_now lib stale text range_overlaps config user building level number mac processor
            birthdate host_annex begin_membership c
          ≡ ok c'
        → Good c'
    unfolding move_in_now
    Good-move_in user building level number mac processor birthdate host_annex begin_membership c c'
          v h =
        let author : ℕ = elim processor [ none ↦ user.id | some p ↦ p ] in
        let (_, _, h) = >>=-returns (raise_if (is_some user.room) value_error) _ h in
        let (room, _, h) = >>=-returns (one_or_none (matching building level number c.rooms)) _ h in
        let (members, b, h) =
          >>=-returns
            (begin_memberships range_overlaps config user.id author begin_membership c.members) _
            h in
        let started = record c { members = members } in
        let (c1, a, h) =
          >>=-returns
            (settle_in lib stale text range_overlaps config room
              (with_birthdate lib stale text range_overlaps config birthdate user) mac host_annex
              author started)
            _ h in
        subst Good (ok-injective h) (
          Good-settle_in room (with_birthdate lib stale text range_overlaps config birthdate user)
            mac host_annex author started c1
            (
              begin_memberships-IsValid range_overlaps config user.id author begin_membership
                  c.members members v.0 b,
              v.1,
            )
            a)

    Good-move :
        (user : User) (building level : ℕ) (number : String) (processor : ℕ)
        (comment : Option String) (c c' : Campus Network)
        → Good c
        → move_now lib stale text user building level number processor comment c ≡ ok c'
        → Good c'
    unfolding move_now
    Good-move user building level number processor comment c c' v h =
        let (room, _, h) = >>=-returns (one (matching building level number c.rooms)) _ h in
        let (_, _, h) =
          >>=-returns (raise_if (same_room user.room (some room.id)) assertion_error) _ h in
        let (net, l, h) =
          >>=-returns
            (log_host_event (moved_user user.room room.id comment) processor (some user.id) c.net) _
            h in
        let (net2, a, h) =
          >>=-returns
            (migrate_hosts lib stale text (hosts_of user.id net.hosts) user.room room.id processor
              net)
            _ h in
        subst Good (ok-injective h) (
          v.0,
          Inv-migrate_hosts lib stale text all (hosts_of user.id net.hosts) user.room room.id
              processor net net2 (Inv-log lib all _ processor (some user.id) c.net net v.1 l) a,
        )

    Good-Moves : (c c' : Campus Network) → Good c → Moves c c' → Good c'
    Good-Moves c c' v stay = v
    Good-Moves c c' v (next {b} move rest) = Good-Moves b c' (Good-Move c b v move) rest
      where
        Good-Move : (a b : Campus Network) → Good a → Move a b → Good b
        Good-Move a b v (moves_out user comment processor when end_membership h) =
            Good-move_out user comment processor when end_membership a b v h
        Good-Move a b v
              (moves_in user building level number mac processor birthdate annexed begins h) =
            Good-move_in user building level number mac processor birthdate annexed begins a b v h
        Good-Move a b v (moves user building level number processor comment h) =
            Good-move user building level number processor comment a b v h

  -- If memberships and addresses are valid at first, then they are after every sequence of users moving in,
  -- moving and moving out by calls that return: memberships last for intervals in order, and each address
  -- is unique and stands in a subnet of the table that contains it.
  pub moves-IsValid :
      (c c' : Campus Network)
      → IsValid c.members
      → NetIsValid lib c.net
      → Moves c c'
      → IsValid c'.members × NetIsValid lib c'.net
  moves-IsValid c c' v w done =
      let (v', (same, w')) = Good-Moves c.net.subnets c c' (v, (refl, w)) done in
      (v', subst (λ all. Valid lib all c'.net.ips) (sym same) w')
