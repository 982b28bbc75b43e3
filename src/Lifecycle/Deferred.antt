-- ===== src/Lifecycle/Deferred.antt =====
-- The moves of pycroft/lib/user/lifecycle.py with their deferral to a task, and the interface of the tasks
-- filled by them. A move that a task carries out is not deferred again: its time is the present one.
use pycroft.Base.{
  ℕ, Bool, false, if◌then◌else◌, ltb, Option, none, some, String, Result, ok, err, no_result_found,
  ◌>>=◌,
}
use pycroft.Interval.Core.{Interval}
use pycroft.Membership.Groups.{Config}
use pycroft.Net.Addresses.{Netaddr}
use pycroft.Net.Hosts.{MacText}
use pycroft.Task.Model.{
  user_move_out, user_move_in, user_move, move_out_params, move_params, move_in_params, Schemas,
  Room, UserLib, State,
}
use pycroft.Task.Ops.{schedule_user_task}
use pycroft.Lifecycle.Campus.{User, RoomRow, Campus, find_user, find_room}
use pycroft.Lifecycle.MoveOut.{move_out_now}
use pycroft.Lifecycle.Moves.{matching, one_or_none, move_in_now, move_now}

unfoldable pub to_room : RoomRow → Room
to_room r = record { building_id = r.building_id; level = r.level; number = r.number }

-- `task.user.room`
unfoldable pub room_of : {Network : Type 0} → ℕ → Campus Network → Option Room
unfolding find_user find_room to_room
room_of user campus = elim (find_user user campus.users) [
  | none ↦ none
  | some u ↦ elim u.room [
    | none ↦ none
    | some room ↦ elim (find_room room campus.rooms) [ none ↦ none | some r ↦ some (to_room r) ]
  ]
]

-- `get_room`
unfoldable pub get_room :
    {Network : Type 0} → ℕ → ℕ → String → Campus Network → Result (Option Room)
unfolding matching one_or_none to_room
get_room building level number campus = do
  room ← one_or_none (matching building level number campus.rooms)
  ok (elim room [ none ↦ none | some r ↦ some (to_room r) ])

unfoldable pub call_for :
    {Network : Type 0} → Option User → (User → Result (Campus Network)) → Result (Campus Network)
call_for none call = err no_result_found
call_for (some user) call = call user

-- `task.user`
unfoldable pub with_user :
    {Network : Type 0}
    → ℕ
    → Campus Network
    → (User → Result (Campus Network))
    → Result (Campus Network)
unfolding find_user call_for
with_user user campus call = call_for (find_user user campus.users) call

module _ {Network IpSet : Type 0} (lib : Netaddr Network IpSet) (stale : ℕ → Bool) (text : MacText)
    (range_overlaps : Interval → Interval → Bool) (config : Config) (schemas : Schemas) where
  unfoldable pub user_lib : UserLib (Campus Network)
  unfolding room_of get_room with_user
  user_lib = record {
    room_of = room_of;
    get_room = get_room;
    move_out = λ user comment processor when end_membership campus.
        with_user user campus
          (λ u. move_out_now range_overlaps config u comment processor when end_membership campus);
    move = λ user building level number comment processor campus.
        with_user user campus
          (λ u. move_now lib stale text u building level number processor comment campus);
    move_in = λ user building level number mac processor birthdate host_annex begin campus.
        with_user user campus (λ u.
          move_in_now lib stale text range_overlaps config u building level number mac
            (some processor) birthdate host_annex begin campus);
  }

  -- the state after a move has been carried out
  unfoldable pub at_once :
      Result (Campus Network) → State (Campus Network) → Result (State (Campus Network))
  at_once done s = do world ← done; ok (record s { world = world })

  unfoldable pub move_out :
      User → String → ℕ → ℕ → Bool → State (Campus Network) → Result (State (Campus Network))
  unfolding at_once
  move_out user comment processor when end_membership s =
      if ltb s.now when
      then schedule_user_task schemas user_move_out when user.id
          (move_out_params (record { comment = comment; end_membership = end_membership }))
          processor s
      else at_once
          (move_out_now range_overlaps config user comment processor when end_membership s.world) s

  -- `when and when > session.utcnow()`
  unfoldable pub lies_ahead : Option ℕ → ℕ → Bool
  lies_ahead none now = false
  lies_ahead (some when) now = ltb now when

  -- A time or the present one, a processor or the user
  unfoldable pub or_now : Option ℕ → ℕ → ℕ
  or_now none now = now
  or_now (some when) now = when

  unfoldable pub move :
      User
      → ℕ
      → ℕ
      → String
      → ℕ
      → Option String
      → Option ℕ
      → State (Campus Network)
      → Result (State (Campus Network))
  unfolding at_once lies_ahead or_now
  move user building level number processor comment when s =
      if lies_ahead when s.now
      then schedule_user_task schemas user_move (or_now when s.now) user.id
          (move_params (record {
            room_number = number;
            level = level;
            building_id = building;
            comment = comment;
          }))
          processor s
      else at_once (move_now lib stale text user building level number processor comment s.world) s

  unfoldable pub move_in :
      User
      → ℕ
      → ℕ
      → String
      → Option String
      → Option ℕ
      → Option ℕ
      → Bool
      → Bool
      → Option ℕ
      → State (Campus Network)
      → Result (State (Campus Network))
  unfolding at_once lies_ahead or_now
  move_in user building level number mac processor birthdate host_annex begin_membership when s =
      if lies_ahead when s.now
      then schedule_user_task schemas user_move_in (or_now when s.now) user.id
          (move_in_params (record {
            room_number = number;
            level = level;
            building_id = building;
            mac = mac;
            birthdate = birthdate;
            begin_membership = begin_membership;
            host_annex = host_annex;
          }))
          (or_now processor user.id) s
      else at_once
          (move_in_now lib stale text range_overlaps config user building level number mac processor
            birthdate host_annex begin_membership s.world)
          s
