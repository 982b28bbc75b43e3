-- ===== src/Task/Tests.antt =====
-- Two tasks of one user, on a world that is the room of the user.
use pycroft.Base.{
  Error, ◌+◌, ◌≡◌, refl, true, false, Option, none, some, [], ◌∷◌, ◌⊎◌, ok, err, value_error, arith,
}
use pycroft.Task.Model.{
  failed, raised, user_move_out, opened, executed, cancelled, TaskError, Task, Schemas, UserLib,
  State, Room, find, is_open,
}
use pycroft.Task.Execute.{
  execute, execute_as, with_parameters, execute_move_out, move_out_from, give_up,
}
use pycroft.Task.Ops.{log_task_event, process_task, manually_execute_task, execute_scheduled_tasks}
use pycroft.Task.Rows.{is_due, has_id}
use pycroft.Task.Outcomes.{process_task_outcome, by_hand, succeeded, gone_wrong}
use pycroft.Task.Scheduler.{IsValid, IsClosed, execute_scheduled_rows}
use pycroft.Task.Final.{step, stop, runs, waits, closed_is_final}

abbrev plain_schemas : Schemas
plain_schemas = record {
  load_move_out = λ s. some (record { comment = s; end_membership = true });
  load_move = λ s. none;
  load_move_in = λ s. none;
  dump = λ type p. "";
}

abbrev house : UserLib (Option Room)
house = record {
  room_of = λ user w. w;
  get_room = λ building level number w.
      ok (some (record { building_id = building; level = level; number = number }));
  move_out = λ user comment processor time end w. ok none;
  move = λ user building level number comment processor w.
      ok (some (record { building_id = building; level = level; number = number }));
  move_in = λ user building level number mac processor birthdate annex begin w. err value_error;
}

abbrev leave : Task
leave = record {
  id = 0;
  type = user_move_out;
  due = 5;
  parameters_json = "bye";
  created = 1;
  creator = 7;
  user = 8;
  status = opened;
  errors = [];
}

abbrev old : Task
old = record leave { id = 1; status = cancelled }

abbrev away : State (Option Room)
away = record { now = 6; next_id = 2; world = none; tasks = leave ∷ old ∷ []; log = []; mails = [] }

abbrev at_home : State (Option Room)
at_home = record away { world = some (record { building_id = 1; level = 2; number = "3" }) }

away-IsValid : IsValid away
unfolding has_id
away-IsValid = ((refl, (refl, tt)), (ground arith, (ground arith, tt)))

home-IsValid : IsValid at_home
unfolding has_id
home-IsValid = ((refl, (refl, tt)), (ground arith, (ground arith, tt)))

process_task_outcome_example :
    ((w : Option Room) × (execute house plain_schemas at_home.now leave at_home.world
        ≡ (record { new_status = some executed; errors = [] }, ok w))
      × (process_task plain_schemas house leave at_home
          ≡ succeeded house plain_schemas leave w at_home))
    ⊎ ((e : TaskError) × (execute house plain_schemas at_home.now leave at_home.world
          ≡ (record { new_status = some failed; errors = e ∷ [] }, ok at_home.world))
        × (process_task plain_schemas house leave at_home
            ≡ gone_wrong house plain_schemas leave e at_home))
    ⊎ ((e : Error) × (execute house plain_schemas at_home.now leave at_home.world
          ≡ (record { new_status = some failed; errors = [] }, err e))
        × (process_task plain_schemas house leave at_home
            ≡ gone_wrong house plain_schemas leave (raised e) at_home))
process_task_outcome_example = process_task_outcome house plain_schemas leave at_home

-- The user of the task lives nowhere: the implementation gives up, and the task counts as executed.
failure_is_hidden :
    manually_execute_task plain_schemas house leave 7 away
    ≡ ok (by_hand house plain_schemas leave 7 away.world away)
unfolding is_open execute execute_as with_parameters execute_move_out move_out_from give_up
    manually_execute_task log_task_event
failure_is_hidden = refl

execute_scheduled_rows_example :
    ((is_due 6 leave ≡ true)
      × IsClosed (find 0 (execute_scheduled_tasks plain_schemas house at_home).tasks))
    ⊎ ((is_due 6 leave ≡ false)
        × (find 0 (execute_scheduled_tasks plain_schemas house at_home).tasks ≡ some leave))
unfolding find
execute_scheduled_rows_example =
    execute_scheduled_rows plain_schemas house at_home 0 leave home-IsValid refl

closed_is_final_example :
    find 1 (execute_scheduled_tasks plain_schemas house (record at_home { now = 6 + 3 })).tasks
    ≡ some old
unfolding find is_open
closed_is_final_example =
    closed_is_final plain_schemas house {s = at_home} 1 old (step (waits 3) (step runs stop))
      home-IsValid refl refl
