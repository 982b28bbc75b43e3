-- ===== src/Task/Final.antt =====
-- The life of a task: the steps that change the table, and that a task which is no longer open never changes again.
use pycroft.Base.{
  ℕ, ◌+◌, ◌<◌, ◌≡◌, refl, sym, ◌∙◌, ap, subst, Bool, true, false, not, ◌&&◌, if◌then◌else◌, some,
  List, [], ◌∷◌, ◌==◌, Result, ok, ◌>>◌, raise_if, value_error, >>=-returns, arith, ok-injective,
  ltb,
}
use pycroft.Task.Model.{
  TaskType, executed, cancelled, TaskParams, Task, Schemas, UserLib, State, is_open, find,
  get_scheduled_tasks,
}
use pycroft.Task.Execute.{execute}
use pycroft.Task.Ops.{
  log_task_event, cancel_task, reschedule_task, schedule_user_task, manually_execute_task,
  process_task, process_tasks, execute_scheduled_tasks,
}
use pycroft.Task.Rows.{
  has_id, UniqueIds, AllBelow, find-save, UniqueIds-save, AllBelow-save, find-below, below-fresh,
  find-append, UniqueIds-append, AllBelow-append, AllBelow-scheduled, closed_not_due,
}
use pycroft.Task.Scheduler.{IsValid, Rewrites, process_task_tasks, execute_scheduled_keeps}

module _ {W : Type 0} (schemas : Schemas) (lib : UserLib W) where
  -- One change of the state: an operation on a task of the table, a new task, a run of the
  -- scheduler, the passing of time, or a change elsewhere in the world.
  pub data Step : State W → State W → Type 0 where
    schedules :
        {s r : State W} (type : TaskType) (due user processor : ℕ) (parameters : TaskParams)
        → schedule_user_task schemas type due user parameters processor s ≡ ok r
        → Step s r
    cancels :
        {s r : State W} (t : Task) (processor : ℕ)
        → find t.id s.tasks ≡ some t
        → cancel_task t processor s ≡ ok r
        → Step s r
    reschedules :
        {s r : State W} (t : Task) (due processor : ℕ)
        → find t.id s.tasks ≡ some t
        → reschedule_task t due processor s ≡ ok r
        → Step s r
    executes :
        {s r : State W} (t : Task) (processor : ℕ)
        → find t.id s.tasks ≡ some t
        → manually_execute_task schemas lib t processor s ≡ ok r
        → Step s r
    runs : {s : State W} → Step s (execute_scheduled_tasks schemas lib s)
    waits : {s : State W} (d : ℕ) → Step s (record s { now = s.now + d })
    changes : {s : State W} (w : W) → Step s (record s { world = w })

  pub data Steps : State W → State W → Type 0 where
    stop : {s : State W} → Steps s s
    step : {s r q : State W} → Step s r → Steps r q → Steps s q

abbrev Rewritten : {W : Type 0} → Task → State W → State W → Type 0
Rewritten t s r = (is_open t.status ≡ true) × Rewrites t s r

past_guard :
    {W : Type 0} (b : Bool) {m : Result W} {r : W} → (raise_if b value_error >> m) ≡ ok r → m ≡ ok r
past_guard true h = absurd (ground arith)
past_guard false h = h

open_or_raised :
    {W : Type 0} (b : Bool) {m : Result W} {r : W}
    → (raise_if (not b) value_error >> m) ≡ ok r
    → (b ≡ true) × (m ≡ ok r)
open_or_raised true h = (refl, h)
open_or_raised false h = absurd (ground arith)

same_row : {t c : Task} → some t ≡ some c → is_open t.status ≡ is_open c.status
same_row h = cc

module _ {W : Type 0} where
  cancel_rewrites :
      (t : Task) (processor : ℕ) (s r : State W)
      → cancel_task t processor s ≡ ok r
      → Rewritten t s r
  unfolding cancel_task log_task_event
  cancel_rewrites t processor s r h =
      let (o, e) = open_or_raised (is_open t.status) h in
      let q = ok-injective (sym e) in
      (o, (record t { status = cancelled }, refl, ap (λ x. x.tasks) q, ap (λ x. x.next_id) q))

  reschedule_rewrites :
      (t : Task) (due processor : ℕ) (s r : State W)
      → reschedule_task t due processor s ≡ ok r
      → Rewritten t s r
  unfolding reschedule_task log_task_event
  reschedule_rewrites t due processor s r h =
      let (o, e) = open_or_raised (is_open t.status) h in
      let q = ok-injective (sym e) in
      (o, (record t { due = due }, refl, ap (λ x. x.tasks) q, ap (λ x. x.next_id) q))

  manual_rewrites :
      (schemas : Schemas) (lib : UserLib W) (t : Task) (processor : ℕ) (s r : State W)
      → manually_execute_task schemas lib t processor s ≡ ok r
      → Rewritten t s r
  unfolding manually_execute_task log_task_event
  manual_rewrites schemas lib t processor s r h =
      let (o, e) = open_or_raised (is_open t.status) h in
      let (w, _, e') = >>=-returns (execute lib schemas s.now t s.world).1 _ e in
      let q = ok-injective (sym e') in
      (
        o,
        (
          record t { due = s.now; status = executed },
          refl,
          ap (λ x. x.tasks) q,
          ap (λ x. x.next_id) q,
        ),
      )

  Rewrites-IsValid :
      (t : Task) (s r : State W) → t.id < s.next_id → Rewrites t s r → IsValid s → IsValid r
  Rewrites-IsValid t s r f (u, same, saved, next) v = (
    subst (λ ts. UniqueIds ts) (sym saved) (UniqueIds-save u s.tasks v.0),
    subst (λ n. AllBelow n r.tasks) (sym next)
        (subst (λ ts. AllBelow s.next_id ts) (sym saved)
          (AllBelow-save s.next_id u s.tasks (ground (arith, same, f)) v.1)),
  )

  Rewritten-keeps :
      (t : Task) (s r : State W) (i : ℕ) (c : Task)
      → find t.id s.tasks ≡ some t
      → Rewritten t s r
      → find i s.tasks ≡ some c
      → is_open c.status ≡ false
      → find i r.tasks ≡ some c
  Rewritten-keeps t s r i c f (o, (u, same, saved, next)) h closed =
      ap (find i) saved ∙ find-save i u s.tasks ∙ go (u.id == i) refl
    where
      go :
          (b : Bool)
          → (u.id == i) ≡ b
          → (if b && has_id i s.tasks then some u else find i s.tasks) ≡ some c
      go false e = h
      go true e = absurd (clash (subst (λ k. find k s.tasks ≡ some t) (ground arith) f))
        where
          clash : find i s.tasks ≡ some t → ⊥
          clash g = ground (arith, same_row (sym g ∙ h))

module _ {W : Type 0} (schemas : Schemas) (lib : UserLib W) where
  process_tasks-IsValid :
      (ts : List Task) (s : State W)
      → AllBelow s.next_id ts
      → IsValid s
      → IsValid (process_tasks schemas lib ts s)
  unfolding process_tasks
  process_tasks-IsValid [] s b v = v
  process_tasks-IsValid (t ∷ ts) s b v =
      let (u, same, closed, saved, next) = process_task_tasks schemas lib t s in
      process_tasks-IsValid ts (process_task schemas lib t s)
        (subst (λ n. AllBelow n ts) (sym next) b.1)
        (Rewrites-IsValid t s (process_task schemas lib t s) b.0 (u, same, saved, next) v)

  below : (t : Task) (s : State W) → find t.id s.tasks ≡ some t → IsValid s → t.id < s.next_id
  below t s f v = find-below s.next_id s.tasks t.id t v.1 f

  -- Every step keeps the table valid.
  pub Step-IsValid : {s r : State W} → Step schemas lib s r → IsValid s → IsValid r
  unfolding schedule_user_task execute_scheduled_tasks
  Step-IsValid (schedules {s} {r} type due user processor parameters h) v =
      subst (λ x. IsValid x) (ok-injective (past_guard (ltb due s.now) h))
        (
          UniqueIds-append s.tasks _ v.0 (below-fresh s.next_id s.tasks v.1),
          AllBelow-append s.next_id s.tasks _ v.1 (ground arith),
        )
  Step-IsValid (cancels {s} {r} t processor f h) v =
      Rewrites-IsValid t s r (below t s f v) (cancel_rewrites t processor s r h).1 v
  Step-IsValid (reschedules {s} {r} t due processor f h) v =
      Rewrites-IsValid t s r (below t s f v) (reschedule_rewrites t due processor s r h).1 v
  Step-IsValid (executes {s} {r} t processor f h) v =
      Rewrites-IsValid t s r (below t s f v) (manual_rewrites schemas lib t processor s r h).1 v
  Step-IsValid (runs {s}) v =
      process_tasks-IsValid (get_scheduled_tasks s.now s.tasks) s
        (AllBelow-scheduled s.next_id s.now s.tasks v.1) v
  Step-IsValid (waits d) v = v
  Step-IsValid (changes w) v = v

  Step-keeps :
      {s r : State W} (i : ℕ) (c : Task)
      → Step schemas lib s r
      → IsValid s
      → find i s.tasks ≡ some c
      → is_open c.status ≡ false
      → find i r.tasks ≡ some c
  unfolding schedule_user_task
  Step-keeps i c (schedules {s} {r} type due user processor parameters h) v f closed =
      subst (λ x. find i x.tasks ≡ some c) (ok-injective (past_guard (ltb due s.now) h))
        (find-append i s.tasks _ c f)
  Step-keeps i c (cancels {s} {r} t processor g h) v f closed =
      Rewritten-keeps t s r i c g (cancel_rewrites t processor s r h) f closed
  Step-keeps i c (reschedules {s} {r} t due processor g h) v f closed =
      Rewritten-keeps t s r i c g (reschedule_rewrites t due processor s r h) f closed
  Step-keeps i c (executes {s} {r} t processor g h) v f closed =
      Rewritten-keeps t s r i c g (manual_rewrites schemas lib t processor s r h) f closed
  Step-keeps i c (runs {s}) v f closed =
      execute_scheduled_keeps schemas lib s i c v f (closed_not_due s.now c closed)
  Step-keeps i c (waits d) v f closed = f
  Step-keeps i c (changes w) v f closed = f

  -- A task that is no longer open stays exactly as it is, through any sequence of operations, runs of
  -- the scheduler and changes elsewhere: executed, failed and cancelled are final.
  pub closed_is_final :
      {s r : State W} (i : ℕ) (c : Task)
      → Steps schemas lib s r
      → IsValid s
      → find i s.tasks ≡ some c
      → is_open c.status ≡ false
      → find i r.tasks ≡ some c
  closed_is_final i c stop v f closed = f
  closed_is_final i c (step one more) v f closed =
      closed_is_final i c more (Step-IsValid one v) (Step-keeps i c one v f closed) closed
