-- ===== src/Task/Outcomes.antt =====
-- What becomes of a task that is executed, on a schedule and by hand.
use pycroft.Base.{
  ℕ, ◌≡◌, refl, Option, none, some, List, [], ◌∷◌, ◌++◌, ◌⊎◌, inl, inr, Result, ok, err, Error,
}
use pycroft.Task.Model.{
  TaskType, user_move_out, user_move_in, user_move, executed, failed, TaskError, raised, Task,
  Schemas, UserLib, State, Room, UserMoveOutParams, UserMoveParams, UserMoveInParams,
  manually_executed, processed, save, is_failed,
}
use pycroft.Task.Execute.{
  TaskImpl, give_up, carry_out, move_out_from, move_to, move_from, move_in_to, move_in_from,
  with_parameters, execute, execute_as, execute_move_out, execute_move, execute_move_in,
}
use pycroft.Task.Ops.{
  log_task_event, settle, status_or, errors_or, close_task, record_outcome, process_task,
}

-- The three ways an implementation can end.
abbrev pub Ends : {W : Type 0} → W → TaskImpl × Result W → Type 0
Ends {W} w r =
    ((new : W) × (r ≡ (record { new_status = some executed; errors = [] }, ok new)))
    ⊎ ((e : TaskError) × (r ≡ (record { new_status = some failed; errors = e ∷ [] }, ok w)))
    ⊎ ((e : Error) × (r ≡ (record { new_status = some failed; errors = [] }, err e)))

give_up-Ends : {W : Type 0} (e : TaskError) (w : W) → Ends w (give_up e w)
unfolding give_up
give_up-Ends e w = inr (inl (e, refl))

carry_out-Ends : {W : Type 0} (w : W) (r : Result W) → Ends w (carry_out r)
unfolding carry_out
carry_out-Ends w (ok new) = inl (new, refl)
carry_out-Ends w (err e) = inr (inr (e, refl))

module _ {W : Type 0} (lib : UserLib W) where
  move_out-Ends :
      (room : Option Room) (now : ℕ) (t : Task) (p : UserMoveOutParams) (w : W)
      → Ends w (move_out_from lib room now t p w)
  unfolding move_out_from
  move_out-Ends none now t p w = give_up-Ends _ w
  move_out-Ends (some room) now t p w = carry_out-Ends w _

  move_to-Ends :
      (room : Result (Option Room)) (t : Task) (p : UserMoveParams) (w : W)
      → Ends w (move_to lib room t p w)
  unfolding move_to
  move_to-Ends (err e) t p w = inr (inr (e, refl))
  move_to-Ends (ok none) t p w = give_up-Ends _ w
  move_to-Ends (ok (some room)) t p w = carry_out-Ends w _

  move-Ends :
      (room : Option Room) (t : Task) (p : UserMoveParams) (w : W)
      → Ends w (move_from lib room t p w)
  unfolding move_from
  move-Ends none t p w = give_up-Ends _ w
  move-Ends (some room) t p w = move_to-Ends _ t p w

  move_in_to-Ends :
      (room : Result (Option Room)) (t : Task) (p : UserMoveInParams) (w : W)
      → Ends w (move_in_to lib room t p w)
  unfolding move_in_to
  move_in_to-Ends (err e) t p w = inr (inr (e, refl))
  move_in_to-Ends (ok none) t p w = give_up-Ends _ w
  move_in_to-Ends (ok (some room)) t p w = carry_out-Ends w _

  move_in-Ends :
      (room : Option Room) (t : Task) (p : UserMoveInParams) (w : W)
      → Ends w (move_in_from lib room t p w)
  unfolding move_in_from
  move_in-Ends none t p w = move_in_to-Ends _ t p w
  move_in-Ends (some room) t p w = give_up-Ends _ w

  with_parameters-Ends :
      {P : Type 0} (o : Option P) (f : P → W → TaskImpl × Result W) (w : W)
      → ((p : P) → Ends w (f p w))
      → Ends w (with_parameters lib o f w)
  unfolding with_parameters
  with_parameters-Ends none f w h = give_up-Ends _ w
  with_parameters-Ends (some p) f w h = h p

  module _ (schemas : Schemas) where
    execute_as-Ends :
        (k : TaskType) (now : ℕ) (t : Task) (w : W) → Ends w (execute_as lib schemas k now t w)
    unfolding execute_as execute_move_out execute_move execute_move_in
    execute_as-Ends user_move_out now t w =
        with_parameters-Ends (schemas.load_move_out t.parameters_json) _ w
          λ p. move_out-Ends _ now t p w
    execute_as-Ends user_move_in now t w =
        with_parameters-Ends (schemas.load_move_in t.parameters_json) _ w λ p. move_in-Ends _ t p w
    execute_as-Ends user_move now t w =
        with_parameters-Ends (schemas.load_move t.parameters_json) _ w λ p. move-Ends _ t p w

    pub execute-Ends : (now : ℕ) (t : Task) (w : W) → Ends w (execute lib schemas now t w)
    unfolding execute
    execute-Ends now t w = execute_as-Ends t.type now t w

    -- the state after a task has succeeded with a new world, and after it has failed with an error
    abbrev pub succeeded : Task → W → State W → State W
    succeeded t w s = record s {
      world = w;
      tasks = save (record t { status = executed }) s.tasks;
      log =
          s.log
          ++ (record { message = processed t.type executed; author = t.creator; task = t.id } ∷ []);
    }

    abbrev pub gone_wrong : Task → TaskError → State W → State W
    gone_wrong t e s = record s {
      tasks = save (record t { status = failed; errors = e ∷ [] }) s.tasks;
      log =
          s.log
          ++ (record { message = processed t.type failed; author = t.creator; task = t.id } ∷ []);
      mails = s.mails ++ (t.id ∷ []);
    }

    -- A scheduled task ends in one of three ways, which its implementation decides. If it succeeds, then
    -- the task is executed, and the other tables are as it leaves them. If it gives up with an error, or the
    -- library raises an exception, then the task is failed with this one error, nothing else has changed,
    -- and its failure is mailed. In all cases one log entry says which.
    pub process_task_outcome :
        (t : Task) (s : State W)
        → ((w : W) × (execute lib schemas s.now t s.world
              ≡ (record { new_status = some executed; errors = [] }, ok w))
            × (process_task schemas lib t s ≡ succeeded t w s))
          ⊎ ((e : TaskError) × (execute lib schemas s.now t s.world
                ≡ (record { new_status = some failed; errors = e ∷ [] }, ok s.world))
              × (process_task schemas lib t s ≡ gone_wrong t e s))
          ⊎ ((e : Error) × (execute lib schemas s.now t s.world
                ≡ (record { new_status = some failed; errors = [] }, err e))
              × (process_task schemas lib t s ≡ gone_wrong t (raised e) s))
    unfolding process_task settle close_task record_outcome log_task_event status_or errors_or
        is_failed
    process_task_outcome t s = elim (execute-Ends s.now t s.world) [
      | inl (w, h) ↦ inl (w, h, go t.errors w h)
      | inr (inl (e, h)) ↦ inr (inl (e, h, rw h refl))
      | inr (inr (e, h)) ↦ inr (inr (e, h, rw h refl))
    ]
      where
        go :
            (es : List TaskError) (w : W)
            → execute lib schemas s.now t s.world
              ≡ (record { new_status = some executed; errors = [] }, ok w)
            → process_task schemas lib t s ≡ succeeded t w s
        go es w h = rw h

    -- the state after a task has been executed by hand with a new world
    abbrev pub by_hand : Task → ℕ → W → State W → State W
    by_hand t processor w s = record s {
      world = w;
      tasks = save (record t { due = s.now; status = executed }) s.tasks;
      log = s.log ++ (record { message = manually_executed; author = processor; task = t.id } ∷ []);
    }
