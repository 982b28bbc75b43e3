-- ===== src/Lifecycle/Carried.antt =====
-- A deferred move is carried out when its time has come.
use pycroft.Base.{
  ℕ, ◌+◌, ◌≤◌, ◌<◌, ◌≡◌, refl, Bool, false, ltb, some, List, [], ◌∷◌, ◌++◌, String, ok, arith,
  lt→ltb,
}
use pycroft.Interval.Core.{Interval}
use pycroft.Membership.Groups.{Config}
use pycroft.Net.Addresses.{Netaddr}
use pycroft.Net.Hosts.{MacText}
use pycroft.Task.Model.{
  user_move_out, opened, executed, move_out_params, Task, Schemas, Room, State, get_scheduled_tasks,
  is_open,
}
use pycroft.Task.Execute.{
  execute, execute_as, with_parameters, execute_move_out, move_out_from, carry_out,
}
use pycroft.Task.Ops.{
  schedule_user_task, execute_scheduled_tasks, process_tasks, process_task, settle, record_outcome,
  log_task_event,
}
use pycroft.Lifecycle.Campus.{User, Campus, find_user}
use pycroft.Lifecycle.MoveOut.{move_out_now}
use pycroft.Lifecycle.Deferred.{user_lib, room_of, with_user, call_for, move_out}

due-append :
    (now : ℕ) (ts : List Task) (t : Task)
    → get_scheduled_tasks now ts ≡ []
    → t.status ≡ opened
    → t.due ≤ now
    → get_scheduled_tasks now (ts ++ (t ∷ [])) ≡ t ∷ []
unfolding get_scheduled_tasks is_open
due-append now [] t e o d = ground (arith, o)
due-append now (u ∷ ts) t e o d = ground (arith, due-append now ts t)

-- The state at a later time
abbrev pub later : {Network : Type 0} → ℕ → State (Campus Network) → State (Campus Network)
later t s = record s {
  now = t;
  world = record s.world { members = record s.world.members { now = t } };
}

module _ {Network IpSet : Type 0} (lib : Netaddr Network IpSet) (stale : ℕ → Bool) (text : MacText)
    (range_overlaps : Interval → Interval → Bool) (config : Config) (schemas : Schemas) where
  -- The task that `move_out` schedules
  abbrev deferred : User → String → ℕ → ℕ → Bool → State (Campus Network) → Task
  deferred user comment processor when end_membership s = record {
    id = s.next_id;
    type = user_move_out;
    due = when;
    parameters_json =
        schemas.dump user_move_out
          (move_out_params (record { comment = comment; end_membership = end_membership }));
    created = s.now;
    creator = processor;
    user = user.id;
    status = opened;
    errors = [];
  }

  execute-deferred :
      (user : User) (comment : String) (processor when time : ℕ) (end_membership : Bool)
      (room : Room) (s : State (Campus Network)) (before world : Campus Network)
      → schemas.load_move_out (
          schemas.dump user_move_out
            (move_out_params (record { comment = comment; end_membership = end_membership })))
        ≡ some (record { comment = comment; end_membership = end_membership })
      → find_user user.id before.users ≡ some user
      → room_of user.id before ≡ some room
      → move_out_now range_overlaps config user comment processor time end_membership before
        ≡ ok world
      → execute
          (user_lib lib stale text range_overlaps config schemas)
          schemas
          time
          (deferred user comment processor when end_membership s)
          before
        ≡ (record { new_status = some executed; errors = [] }, ok world)
  unfolding execute execute_as with_parameters execute_move_out move_out_from carry_out user_lib
      with_user call_for
  execute-deferred user comment processor when time end_membership room s before world loads found
        lives moves =
      rw (loads, lives, found, moves)

  -- A move out at a later time adds one open task for this user and this time, and changes nothing else:
  -- the other tasks, the log, the mails, the user, hosts and memberships stay as they are. When the tasks are executed at or after that time, and no other task is due, the user is moved out
  -- as `move_out` does it at once then, and no failure is mailed, if the user still lives in a room and this returns. The schema of
  -- the task loads the parameters that it has dumped.
  pub deferred_move_out_happens :
      (user : User) (comment : String) (processor when time : ℕ) (end_membership : Bool)
      (room : Room) (s : State (Campus Network)) (world : Campus Network)
      → s.now < when
      → when ≤ time
      → schemas.load_move_out (
          schemas.dump user_move_out
            (move_out_params (record { comment = comment; end_membership = end_membership })))
        ≡ some (record { comment = comment; end_membership = end_membership })
      → get_scheduled_tasks time s.tasks ≡ []
      → find_user user.id s.world.users ≡ some user
      → room_of user.id (later time s).world ≡ some room
      → move_out_now range_overlaps config user comment processor time end_membership
          (later time s).world
        ≡ ok world
      → (s' : State (Campus Network)) × (move_out lib stale text range_overlaps config schemas user
            comment processor when end_membership s
          ≡ ok s')
        × (s'.world ≡ s.world)
        × (s'.log ≡ s.log)
        × (s'.mails ≡ s.mails)
        × (s'.now ≡ s.now)
        × ((t : Task) × (s'.tasks ≡ s.tasks ++ (t ∷ []))
            × (t.status ≡ opened)
            × (t.due ≡ when)
            × (t.user ≡ user.id))
        × ((execute_scheduled_tasks schemas
              (user_lib lib stale text range_overlaps config schemas)
              (later time s')).world
            ≡ world)
        × ((execute_scheduled_tasks schemas
              (user_lib lib stale text range_overlaps config schemas)
              (later time s')).mails
            ≡ s.mails)
  unfolding move_out schedule_user_task execute_scheduled_tasks process_tasks process_task settle
      record_outcome log_task_event
  deferred_move_out_happens user comment processor when time end_membership room s world ahead due
        loads idle found lives moves =
      let task = deferred user comment processor when end_membership s in
      let fine : ltb when s.now ≡ false = ground arith in
      (
        record s { next_id = s.next_id + 1; tasks = s.tasks ++ (task ∷ []) },
        rw (lt→ltb s.now when ahead, fine),
        refl,
        refl,
        refl,
        refl,
        (task, refl, refl, refl, refl),
        rw (
          due-append time s.tasks task idle refl due,
          execute-deferred user comment processor when time end_membership room s
              (later time s).world world loads found lives moves,
        ),
        rw (
          due-append time s.tasks task idle refl due,
          execute-deferred user comment processor when time end_membership room s
              (later time s).world world loads found lives moves,
        ),
      )
