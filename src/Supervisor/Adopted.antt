-- ===== src/Supervisor/Adopted.antt =====
-- crates/cluster-local/src/supervisor.rs, `bootstrap`: the tasks that a restart takes over have the
-- invariant of the task table.
use gavel.Shared.{
  ◌≡◌, refl, inl, inr, Bool, true, false, not, ◌&&◌, none, List, [], ◌∷◌, ◌++◌, arith, All,
  In-append_left, In-append_right, Bool-cases,
}
use gavel.Shared.BTreeMap.{BTreeMap, insert}
use gavel.Time.{Millis}
use gavel.Job.State.{TaskState, is_terminal, job_is_terminal}
use gavel.Job.Machine.{Job, Task}
use gavel.Job.Lifecycle.{IsConsistent}
use gavel.Supervisor.State.{Supervisor}
use gavel.Supervisor.Dispatch.{is_active}
use gavel.Supervisor.Bootstrap.{adopt_task, adopt_tasks, adopt_jobs}
use gavel.Supervisor.Table.{Anything, IsAlone, Tracks-insert, Tracks-queue}
use gavel.Supervisor.Tracked.{Tracked}

-- A job as the store has it: its tasks are consistent, and they have all ended if the job has.
abbrev pub IsStored : Job × List Task → Type 0
IsStored (j, ts) =
    All (λ t. IsConsistent t × (job_is_terminal j.state ≡ true → is_terminal t.state ≡ true)) ts

abbrev Adoptable : Bool → Task → Type 0
Adoptable unfinished t = IsConsistent t × (unfinished ≡ false → is_terminal t.state ≡ true)

idle-IsAlone : (tasks : BTreeMap Task) (t : Task) → is_active t.state ≡ false → IsAlone tasks t
idle-IsAlone tasks t idle j u g active active' node = absurd (ground arith)

-- A task that is taken up again.
again : Task → Millis → Task
again t now = record t { state = TaskState.queued; assigned_to = none; updated_at = now }

again-IsConsistent :
    (t : Task) (now : Millis)
    → IsConsistent t
    → is_terminal t.state ≡ false
    → IsConsistent (again t now)
unfolding again is_terminal
again-IsConsistent t now c running = ground arith

ended :
    (t : Task)
    → is_terminal t.state ≡ true
    → (is_active t.state ≡ false) × (t.state ≡ TaskState.queued → ⊥)
unfolding is_terminal
ended t e = ground arith

stored-Adoptable :
    (j : Job) (ts : List Task)
    → IsStored (j, ts)
    → All (Adoptable (not (job_is_terminal j.state))) ts
stored-Adoptable j [] a = tt
stored-Adoptable j (t ∷ ts) a = ((a.0.0, λ e. a.0.1 (ground arith)), stored-Adoptable j ts a.1)

module _ {Handle : Type 0} where
  adopt_task-Tracked :
      (s : Supervisor Handle) (unfinished : Bool) (t : Task) (now : Millis)
      → Adoptable unfinished t
      → Tracked Anything s
      → Tracked Anything (adopt_task s unfinished t now)
  unfolding adopt_task again
  adopt_task-Tracked s unfinished t now (c, e) h =
      elim (Bool-cases (unfinished && not (is_terminal t.state))) [
        | inl taken ↦
            let q = s.queue ++ (t.id ∷ []) in
            rw (taken, adopt_task)
              (Tracks-insert s.tasks q (again t now)
                (Tracks-queue s.tasks s.queue q (λ j m. In-append_left j s.queue (t.id ∷ []) m) h)
                (record {
                  id_eq = refl;
                  consistent = again-IsConsistent t now c (ground arith);
                  holds = tt;
                  waits = λ w. In-append_right t.id s.queue (t.id ∷ []) (inl refl);
                })
                (idle-IsAlone s.tasks (again t now) refl))
        | inr closed ↦
            let over : is_terminal t.state ≡ true = ground (arith, e) in
            rw (closed, adopt_task)
              (Tracks-insert s.tasks s.queue t h
                (record {
                  id_eq = refl;
                  consistent = c;
                  holds = tt;
                  waits = λ w. absurd ((ended t over).1 w);
                })
                (idle-IsAlone s.tasks t (ended t over).0))
      ]

  adopt_tasks-Tracked :
      (s : Supervisor Handle) (unfinished : Bool) (ts : List Task) (now : Millis)
      → All (Adoptable unfinished) ts
      → Tracked Anything s
      → Tracked Anything (adopt_tasks s unfinished ts now)
  unfolding adopt_tasks
  adopt_tasks-Tracked s unfinished [] now a h = h
  adopt_tasks-Tracked s unfinished (t ∷ ts) now a h =
      adopt_tasks-Tracked (adopt_task s unfinished t now) unfinished ts now a.1
        (adopt_task-Tracked s unfinished t now a.0 h)

  pub adopt_jobs-Tracked :
      (s : Supervisor Handle) (js : List (Job × List Task)) (now : Millis)
      → All IsStored js
      → Tracked Anything s
      → Tracked Anything (adopt_jobs s js now)
  unfolding adopt_jobs
  adopt_jobs-Tracked s [] now a h = h
  adopt_jobs-Tracked s ((j, ts) ∷ rest) now a h =
      let s' = record s { jobs = insert j.id j s.jobs } in
      let unfinished = not (job_is_terminal j.state) in
      adopt_jobs-Tracked (adopt_tasks s' unfinished ts now) rest now a.1
        (adopt_tasks-Tracked s' unfinished ts now (stored-Adoptable j ts a.0) h)
