-- ===== src/Task/Model.antt =====
-- The task rows of pycroft/model/task.py and pycroft/model/task_serialization.py, and the interface to
-- the operations that a task carries out. Times are numbers; JSON is a string that the schemas of
-- the package marshmallow load and dump.
use pycroft.Base.{
  ℕ, Bool, true, false, ◌&&◌, if◌then◌else◌, Option, none, some, List, [], ◌∷◌, String, ◌==◌, leb,
  Error, Result,
}

pub data TaskType : Type 0 where
  user_move_out user_move_in user_move : TaskType

pub data TaskStatus : Type 0 where
  opened executed failed cancelled : TaskStatus

pub record UserMoveOutParams : Type 0 where
  pub comment : String
  pub end_membership : Bool

pub record UserMoveParams : Type 0 where
  pub room_number : String
  pub level : ℕ
  pub building_id : ℕ
  pub comment : Option String

pub record UserMoveInParams : Type 0 where
  pub room_number : String
  pub level : ℕ
  pub building_id : ℕ
  pub mac : Option String
  pub birthdate : Option ℕ
  pub begin_membership : Bool
  pub host_annex : Bool

-- `TaskParams` and its subclasses
pub data TaskParams : Type 0 where
  move_out_params : UserMoveOutParams → TaskParams
  move_params : UserMoveParams → TaskParams
  move_in_params : UserMoveInParams → TaskParams

-- What a task's list of errors holds; the texts are not modelled.
pub data TaskError : Type 0 where
  invalid_parameters not_living already_living no_such_room : TaskError
  raised : Error → TaskError

-- `UserTask`; the type of parameters is that of `type`'s schema.
pub record Task : Type 0 where
  pub id : ℕ
  pub type : TaskType
  pub due : ℕ
  pub parameters_json : String
  pub created : ℕ
  pub creator : ℕ
  pub user : ℕ
  pub status : TaskStatus
  pub errors : List TaskError

-- The schemas: `load` answers with nothing where it raises `ValidationError`.
pub record Schemas : Type 0 where
  pub load_move_out : String → Option UserMoveOutParams
  pub load_move : String → Option UserMoveParams
  pub load_move_in : String → Option UserMoveInParams
  pub dump : TaskType → TaskParams → String

pub record Room : Type 0 where
  pub building_id : ℕ
  pub level : ℕ
  pub number : String

-- What the tasks use of pycroft/lib/user and pycroft/lib/facilities.py, on a state W: a user's room,
-- and calls that give the new state or raise.
pub record UserLib (W : Type 0) : Type 0 where
  pub room_of : ℕ → W → Option Room
  pub get_room : ℕ → ℕ → String → W → Result (Option Room)
  pub move_out : ℕ → String → ℕ → ℕ → Bool → W → Result W
  pub move : ℕ → ℕ → ℕ → String → Option String → ℕ → W → Result W
  pub move_in : ℕ → ℕ → ℕ → String → Option String → ℕ → Option ℕ → Bool → Bool → W → Result W

-- the messages of `log_task_event`
pub data TaskMessage : Type 0 where
  cancelled_task manually_executed : TaskMessage
  rescheduled : ℕ → TaskMessage
  processed : TaskType → TaskStatus → TaskMessage

pub record TaskLogEntry : Type 0 where
  pub message : TaskMessage
  pub author : ℕ
  pub task : ℕ

-- The tables, the time, and the tasks whose failure has been mailed to the support.
pub record State (W : Type 0) : Type 0 where
  pub now : ℕ
  pub next_id : ℕ
  pub world : W
  pub tasks : List Task
  pub log : List TaskLogEntry
  pub mails : List ℕ

unfoldable pub is_open : TaskStatus → Bool
is_open opened = true
is_open executed = false
is_open failed = false
is_open cancelled = false

unfoldable pub is_failed : TaskStatus → Bool
is_failed opened = false
is_failed executed = false
is_failed failed = true
is_failed cancelled = false

-- the row with an id, and the rows after the row of a task has been written
unfoldable pub find : ℕ → List Task → Option Task
find i [] = none
find i (t ∷ ts) = if t.id == i then some t else find i ts

unfoldable pub save : Task → List Task → List Task
save t [] = []
save t (u ∷ us) = if u.id == t.id then t ∷ us else u ∷ save t us

-- `get_scheduled_tasks`: the open tasks that are due. Their order is left open by the query.
unfoldable pub get_scheduled_tasks : ℕ → List Task → List Task
unfolding is_open
get_scheduled_tasks now [] = []
get_scheduled_tasks now (t ∷ ts) =
    let rest = get_scheduled_tasks now ts in
    if is_open t.status && leb t.due now then t ∷ rest else rest
