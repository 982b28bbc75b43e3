-- ===== src/Task/Ops.antt =====
-- The operations on tasks of pycroft/lib/task.py, and `execute_scheduled_tasks` of pycroft/task.py. A
-- call takes the row it is given; one that raises leaves the state as it was.
use pycroft.Base.{
  ℕ, ◌+◌, not, if◌then◌else◌, Option, none, some, List, [], ◌∷◌, ◌++◌, Result, ok, err, value_error,
  ◌>>=◌, ◌>>◌, raise_if, ltb,
}
use pycroft.Task.Model.{
  TaskType, TaskStatus, opened, executed, cancelled, TaskParams, TaskError, raised, Task, Schemas,
  UserLib, TaskMessage, cancelled_task, manually_executed, rescheduled, processed, State, is_open,
  is_failed, save, get_scheduled_tasks,
}
use pycroft.Task.Execute.{TaskImpl, execute}

module _ {W : Type 0} where
  unfoldable pub log_task_event : TaskMessage → ℕ → Task → State W → State W
  log_task_event message author t s = record s {
    log = s.log ++ (record { message = message; author = author; task = t.id } ∷ []);
  }

  unfoldable pub cancel_task : Task → ℕ → State W → Result (State W)
  unfolding is_open log_task_event
  cancel_task t processor s = do
    raise_if (not (is_open t.status)) value_error
    ok (
        log_task_event cancelled_task processor t
          (record s { tasks = save (record t { status = cancelled }) s.tasks }))

  -- `ensure_tz` does not change the instant.
  unfoldable pub reschedule_task : Task → ℕ → ℕ → State W → Result (State W)
  unfolding is_open log_task_event
  reschedule_task t due processor s = do
    raise_if (not (is_open t.status)) value_error
    ok (
        log_task_event (rescheduled due) processor t
          (record s { tasks = save (record t { due = due }) s.tasks }))

-- The status and the errors of the row, from those of the implementation.
unfoldable pub status_or : TaskStatus → Option TaskStatus → TaskStatus
status_or old none = old
status_or old (some new) = new

unfoldable pub errors_or : List TaskError → List TaskError → List TaskError
errors_or old [] = old
errors_or old (e ∷ es) = e ∷ es

-- `try: execute … except Exception as e: task_impl.errors.append(str(e))`; the transaction around
-- `execute` is rolled back.
unfoldable pub settle : {W : Type 0} → TaskImpl × Result W → W → TaskImpl × W
settle (impl, ok new) old = (impl, new)
settle (impl, err e) old = (record impl { errors = impl.errors ++ (raised e ∷ []) }, old)

module _ {W : Type 0} (schemas : Schemas) where
  unfoldable pub schedule_user_task : TaskType → ℕ → ℕ → TaskParams → ℕ → State W → Result (State W)
  schedule_user_task type due user parameters processor s = do
    raise_if (ltb due s.now) value_error
    ok (record s {
      next_id = s.next_id + 1;
      tasks =
          s.tasks
          ++ (record {
            id = s.next_id;
            type = type;
            due = due;
            parameters_json = schemas.dump type parameters;
            created = s.now;
            creator = processor;
            user = user;
            status = opened;
            errors = [];
          }
              ∷ []);
    })

  module _ (lib : UserLib W) where
    unfoldable pub manually_execute_task : Task → ℕ → State W → Result (State W)
    unfolding is_open log_task_event execute
    manually_execute_task t processor s = do
      raise_if (not (is_open t.status)) value_error
      world ← (execute lib schemas s.now t s.world).1
      ok (
          log_task_event manually_executed processor t (record s {
            world = world;
            tasks = save (record t { due = s.now; status = executed }) s.tasks;
          }))

    -- the row after its implementation has run, and the effect on the other tables
    unfoldable pub close_task : Task → TaskImpl → Task
    unfolding status_or errors_or
    close_task t impl = record t {
      status = status_or t.status impl.new_status;
      errors = errors_or t.errors impl.errors;
    }

    unfoldable pub record_outcome : Task → W → State W → State W
    unfolding log_task_event is_failed
    record_outcome t world s = log_task_event (processed t.type t.status) t.creator t (record s {
      world = world;
      tasks = save t s.tasks;
      mails = if is_failed t.status then s.mails ++ (t.id ∷ []) else s.mails;
    })

    -- the body of the loop of `execute_scheduled_tasks`, for a task that still exists
    unfoldable pub process_task : Task → State W → State W
    unfolding settle execute close_task record_outcome
    process_task t s =
        let (impl, world) = settle (execute lib schemas s.now t s.world) s.world in
        record_outcome (close_task t impl) world s

    unfoldable pub process_tasks : List Task → State W → State W
    unfolding process_task
    process_tasks [] s = s
    process_tasks (t ∷ ts) s = process_tasks ts (process_task t s)

    unfoldable pub execute_scheduled_tasks : State W → State W
    unfolding process_tasks get_scheduled_tasks
    execute_scheduled_tasks s = process_tasks (get_scheduled_tasks s.now s.tasks) s
