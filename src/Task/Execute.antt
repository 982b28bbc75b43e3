-- ===== src/Task/Execute.antt =====
-- The implementations of tasks in pycroft/lib/task.py. An implementation keeps its status and
-- errors also where `_execute` raises; the database does not.
use pycroft.Base.{ℕ, Option, none, some, List, [], ◌∷◌, Result, ok, err}
use pycroft.Task.Model.{
  TaskType, user_move_out, user_move_in, user_move, TaskStatus, executed, failed, UserMoveOutParams,
  UserMoveParams, UserMoveInParams, TaskError, invalid_parameters, not_living, already_living,
  no_such_room, Task, Schemas, Room, UserLib,
}

-- `TaskImpl`: what `execute` leaves in it
pub record TaskImpl : Type 0 where
  pub new_status : Option TaskStatus
  pub errors : List TaskError

-- `self.errors.append(…); return`, after `execute` has set the status to FAILED
unfoldable pub give_up : {W : Type 0} → TaskError → W → TaskImpl × Result W
give_up e w = (record { new_status = some failed; errors = e ∷ [] }, ok w)

-- the call of the library, and `self.new_status = TaskStatus.EXECUTED` after it
unfoldable pub carry_out : {W : Type 0} → Result W → TaskImpl × Result W
carry_out (ok w) = (record { new_status = some executed; errors = [] }, ok w)
carry_out (err e) = (record { new_status = some failed; errors = [] }, err e)

module _ {W : Type 0} (lib : UserLib W) where
  unfoldable pub move_out_from :
      Option Room → ℕ → Task → UserMoveOutParams → W → TaskImpl × Result W
  unfolding give_up carry_out
  move_out_from none now t p w = give_up not_living w
  move_out_from (some room) now t p w =
      carry_out (lib.move_out t.user p.comment t.creator now p.end_membership w)

  -- `UserMoveOutTaskImpl._execute`
  unfoldable pub execute_move_out : ℕ → Task → UserMoveOutParams → W → TaskImpl × Result W
  unfolding move_out_from
  execute_move_out now t p w = move_out_from (lib.room_of t.user w) now t p w

  unfoldable pub move_to : Result (Option Room) → Task → UserMoveParams → W → TaskImpl × Result W
  unfolding give_up carry_out
  move_to (err e) t p w = (record { new_status = some failed; errors = [] }, err e)
  move_to (ok none) t p w = give_up no_such_room w
  move_to (ok (some room)) t p w =
      carry_out (lib.move t.user room.building_id room.level room.number p.comment t.creator w)

  unfoldable pub move_from : Option Room → Task → UserMoveParams → W → TaskImpl × Result W
  unfolding move_to give_up
  move_from none t p w = give_up already_living w
  move_from (some room) t p w = move_to (lib.get_room p.building_id p.level p.room_number w) t p w

  -- `UserMoveTaskImpl._execute`; for a user without a room it reports that there is one, as the
  -- source does.
  unfoldable pub execute_move : Task → UserMoveParams → W → TaskImpl × Result W
  unfolding move_from
  execute_move t p w = move_from (lib.room_of t.user w) t p w

  unfoldable pub move_in_to :
      Result (Option Room) → Task → UserMoveInParams → W → TaskImpl × Result W
  unfolding give_up carry_out
  move_in_to (err e) t p w = (record { new_status = some failed; errors = [] }, err e)
  move_in_to (ok none) t p w = give_up no_such_room w
  move_in_to (ok (some room)) t p w = carry_out (
      lib.move_in t.user room.building_id room.level room.number p.mac t.creator p.birthdate
        p.host_annex p.begin_membership w)

  unfoldable pub move_in_from : Option Room → Task → UserMoveInParams → W → TaskImpl × Result W
  unfolding move_in_to give_up
  move_in_from (some room) t p w = give_up already_living w
  move_in_from none t p w = move_in_to (lib.get_room p.building_id p.level p.room_number w) t p w

  -- `UserMoveInTaskImpl._execute`
  unfoldable pub execute_move_in : Task → UserMoveInParams → W → TaskImpl × Result W
  unfolding move_in_from
  execute_move_in t p w = move_in_from (lib.room_of t.user w) t p w

  unfoldable pub with_parameters :
      {P : Type 0} → Option P → (P → W → TaskImpl × Result W) → W → TaskImpl × Result W
  unfolding give_up
  with_parameters none f w = give_up invalid_parameters w
  with_parameters (some p) f w = f p w

  -- `get_task_implementation(task).execute(task)`
  module _ (schemas : Schemas) where
    unfoldable pub execute_as : TaskType → ℕ → Task → W → TaskImpl × Result W
    unfolding with_parameters execute_move_out execute_move execute_move_in
    execute_as user_move_out now t w =
        with_parameters (schemas.load_move_out t.parameters_json) (execute_move_out now t) w
    execute_as user_move now t w =
        with_parameters (schemas.load_move t.parameters_json) (execute_move t) w
    execute_as user_move_in now t w =
        with_parameters (schemas.load_move_in t.parameters_json) (execute_move_in t) w

    unfoldable pub execute : ℕ → Task → W → TaskImpl × Result W
    unfolding execute_as
    execute now t w = execute_as t.type now t w
