-- ===== src/Task/Scheduler.antt =====
-- What a run of the scheduler does to each row of the table.
use pycroft.Base.{
  ◌⊎◌, ℕ, ◌≡◌, refl, ◌∙◌, ap, true, false, ◌&&◌, if◌then◌else◌, Option, some, List, [], ◌∷◌, inl,
  inr, ◌==◌, arith, Bool-cases,
}
use pycroft.Task.Model.{
  raised, executed, failed, Task, Schemas, UserLib, State, is_open, find, save, get_scheduled_tasks,
}
use pycroft.Task.Ops.{process_task, process_tasks, execute_scheduled_tasks}
use pycroft.Task.Rows.{
  has_id, UniqueIds, AllBelow, is_due, find-save, has_id-save, find-has_id, scheduled-is_due,
}
use pycroft.Task.Outcomes.{process_task_outcome}

-- A row is there, and is no longer open.
abbrev pub IsClosed : Option Task → Type 0
IsClosed o = (t : Task) × (o ≡ some t) × (is_open t.status ≡ false)

-- Ids are unique, and the next one is above all of them.
abbrev pub IsValid : {W : Type 0} → State W → Type 0
IsValid s = UniqueIds s.tasks × AllBelow s.next_id s.tasks

-- The state after the row of `t` has been rewritten; the other fields may differ.
abbrev pub Rewrites : {W : Type 0} → Task → State W → State W → Type 0
Rewrites t s r = (u : Task) × (u.id ≡ t.id) × (r.tasks ≡ save u s.tasks) × (r.next_id ≡ s.next_id)

module _ {W : Type 0} (schemas : Schemas) (lib : UserLib W) where
  pub process_task_tasks :
      (t : Task) (s : State W)
      → (u : Task) × (u.id ≡ t.id)
        × (is_open u.status ≡ false)
        × ((process_task schemas lib t s).tasks ≡ save u s.tasks)
        × ((process_task schemas lib t s).next_id ≡ s.next_id)
  unfolding is_open
  process_task_tasks t s = elim (process_task_outcome lib schemas t s) [
    | inl (w, _, h) ↦
        (record t { status = executed }, refl, refl, ap (λ r. r.tasks) h, ap (λ r. r.next_id) h)
    | inr (inl (e, _, h)) ↦ (
      record t { status = failed; errors = e ∷ [] },
      refl,
      refl,
      ap (λ r. r.tasks) h,
      ap (λ r. r.next_id) h,
    )
    | inr (inr (e, _, h)) ↦ (
      record t { status = failed; errors = raised e ∷ [] },
      refl,
      refl,
      ap (λ r. r.tasks) h,
      ap (λ r. r.next_id) h,
    )
  ]

  process_tasks_rows :
      (ts : List Task) (i : ℕ) (s : State W)
      → (has_id i ts ≡ false → find i (process_tasks schemas lib ts s).tasks ≡ find i s.tasks)
        × (has_id i ts ≡ true
            → has_id i s.tasks ≡ true
            → IsClosed (find i (process_tasks schemas lib ts s).tasks))
  unfolding process_tasks has_id
  process_tasks_rows [] i s = ((λ h. refl), λ h p. absurd (ground arith))
  process_tasks_rows (t ∷ ts) i s =
      let (u, same, closed, saved, _) = process_task_tasks t s in
      let r = process_task schemas lib t s in
      let row : find i r.tasks
          ≡ (if u.id == i && has_id i s.tasks then some u else find i s.tasks) =
        ap (find i) saved ∙ find-save i u s.tasks in
      let ids : has_id i r.tasks ≡ has_id i s.tasks =
        ap (has_id i) saved ∙ has_id-save i u s.tasks in
      let (kept, ended) = process_tasks_rows ts i r in
      (
        (λ h. kept (ground arith) ∙ row ∙ ground (arith, same, h)),
        λ h p. elim (Bool-cases (has_id i ts)) [
          | inl later ↦ ended later (ids ∙ p)
          | inr last ↦ (u, kept last ∙ row ∙ ground (arith, same, h, p, last), closed)
        ],
      )

  -- A run of the scheduler closes exactly the tasks that are open and due: each of them is there
  -- afterwards and no longer open, and every other task is as it was. (The ids are unique.)
  pub execute_scheduled_rows :
      (s : State W) (i : ℕ) (t : Task)
      → IsValid s
      → find i s.tasks ≡ some t
      → ((is_due s.now t ≡ true) × IsClosed (find i (execute_scheduled_tasks schemas lib s).tasks))
        ⊎ ((is_due s.now t ≡ false)
            × (find i (execute_scheduled_tasks schemas lib s).tasks ≡ some t))
  unfolding execute_scheduled_tasks
  execute_scheduled_rows s i t v h =
      let (kept, ended) = process_tasks_rows (get_scheduled_tasks s.now s.tasks) i s in
      let due = scheduled-is_due s.now i s.tasks t v.0 h in
      elim (Bool-cases (is_due s.now t)) [
        | inl d ↦ inl (d, ended (due ∙ d) (find-has_id i s.tasks t h))
        | inr d ↦ inr (d, kept (due ∙ d) ∙ h)
      ]

  -- A task that is not due is as it was.
  pub execute_scheduled_keeps :
      (s : State W) (i : ℕ) (t : Task)
      → IsValid s
      → find i s.tasks ≡ some t
      → is_due s.now t ≡ false
      → find i (execute_scheduled_tasks schemas lib s).tasks ≡ some t
  execute_scheduled_keeps s i t v h later = elim (execute_scheduled_rows s i t v h) [
    | inl (d, _) ↦ absurd (ground arith)
    | inr (_, kept) ↦ kept
  ]
