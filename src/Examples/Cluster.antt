-- ===== src/Examples/Cluster.antt =====
-- Runs and instances for crates/cluster-local/src/supervisor.rs. A mailbox is the list of what was put
-- in it, and it takes everything.
use gavel.Shared.{
  ℕ, ◌≡◌, refl, true, false, Option, none, some, List, [], ◌∷◌, ◌++◌, map, Result, ok, err, All,
  String, arith, subst,
}
use gavel.Shared.BTreeMap.{get, values}
use gavel.Time.{Millis}
use gavel.Job.Spec.{JobSpec, TaskSpec, task_count}
use gavel.Job.State.{TaskState}
use gavel.Job.Machine.{Job, Task, TaskOutcome, new_job, new_task}
use gavel.Role.Defs.{default_policies}
use gavel.Node.Defs.{NodeCapabilities, default_health, default_load, healthy}
use gavel.Scheduler.Defs.{least_loaded, elect}
use gavel.Scheduler.Choice.{least_loaded_known}
use gavel.Supervisor.State.{Supervisor, NodeEntry, Env, Config, Store, NodeInbox, simulated}
use gavel.Supervisor.Bootstrap.{new_supervisor}
use gavel.Supervisor.Commands.{submit_job, Report, Input, command, report, ticked, step}
use gavel.Supervisor.Tracked.{Tracked}
use gavel.Supervisor.Table.{Anything}
use gavel.Supervisor.Table.{Tracks}
use gavel.Supervisor.Refines.{Came, run-Came}
use gavel.Supervisor.Steps
use gavel.Supervisor.Steps.{IsNew, Allocates, Answered, run-Tracked}
use gavel.Supervisor.Commands.{
  handle_command, submit, accept_job, enqueue_all, handle_report, note_started,
}
use gavel.Supervisor.Settle.{finish_task, finish_completed, update_job, settle_job, close_job}
use gavel.Supervisor.Dispatch.{
  dispatch, dispatch_loop, round, place, placed, start_job_if_queued, start_job, send_to,
  busy_nodes, candidates, is_candidate,
}
use gavel.Supervisor.Health.{
  tick, sweep_health, sweep_entry, transitions, announce_all, implied, prune_memory, removable,
  remove_jobs,
}
use gavel.Supervisor.Leadership.{refresh_leadership, elected, coordinators, working, gateway_of}
use gavel.Supervisor.State.{emit}
use gavel.Job.Machine.{assign, start, complete, job_transition_to}
use gavel.Job.State.{job_is_terminal, is_terminal, job_can_transition_to, can_transition_to}
use gavel.Role.Defs.{has}
use gavel.Node.Defs.{classify}
use gavel.Shared.BTreeMap.{insert, map_values}

abbrev pub Mailbox : Type 0
Mailbox = List NodeInbox

abbrev pub one_core : NodeCapabilities
one_core = record { cores = 1; memory_bytes = 1000000 }

abbrev pub two_nodes : Config
two_nodes = record {
  node_count = 2;
  health = default_health;
  policies = default_policies;
  event_buffer = 100;
  job_buffer = 100;
  max_task_attempts = 3;
  profiles = one_core ∷ [];
  remote_nodes = [];
}

abbrev pub env : Env Mailbox
env = record {
  config = two_nodes;
  select_node = least_loaded;
  elect = elect;
  try_send = λ mailbox message. (mailbox ++ (message ∷ []), true);
  spawn_node = λ id capabilities. [];
}

-- A store that numbers its first job 1, with two tasks.
abbrev first_tasks : JobSpec → Millis → List Task
first_tasks spec at =
    new_task 1 1 0 (TaskSpec.sleep 20) at ∷ new_task 2 1 1 (TaskSpec.sleep 20) at ∷ []

abbrev pub store : Store
store = record {
  allocate = λ spec at. ok (new_job 1 spec at, first_tasks spec at);
  create_job = λ j ts. ok tt;
  job = λ id. none;
  tasks_for_job = λ id. [];
  failures_for_job = λ id. [];
  load_node_roles = none;
  recent_jobs = λ limit. none;
  unfinished_jobs_page = λ after limit. none;
  last_seq = none;
}

first_tasks-IsNew :
    (spec : JobSpec) (at : Millis) → All (λ t. IsNew t × Anything t.id t) (first_tasks spec at)
unfolding new_task
first_tasks-IsNew spec at = ((((refl, refl), refl), tt), ((((refl, refl), refl), tt), tt))

abbrev given_out : Result String (Job × List Task) → List Task
given_out (ok (j, ts)) = ts
given_out (err e) = []

store-Allocates : (spec : JobSpec) (at : Millis) → Allocates Anything store spec at
store-Allocates spec at j ts e =
    subst
      (λ (r : Result String (Job × List Task)). All (λ t. IsNew t × Anything t.id t) (given_out r))
      e (first_tasks-IsNew spec at)

-- Two healthy workers.
abbrev pub worker : ℕ → NodeEntry Mailbox
worker id = record {
  node = record {
    id = id;
    status = healthy;
    roles = 8;
    capabilities = one_core;
    load = default_load;
    last_seen = 5;
    joined_at = 5;
  };
  kind = simulated;
  handle = some [];
  heartbeat_paused = false;
  generation = 0;
}

abbrev pub started : Supervisor Mailbox
started = record new_supervisor { nodes = (1, worker 1) ∷ (2, worker 2) ∷ [] }

pub nothing-Tracked : Tracks Anything [] []
unfolding get
nothing-Tracked = record {
  closed = λ k t c at h. tt;
  sorted = tt;
  kept = λ k t e. absurd (ground arith);
  alone = λ k t e. absurd (ground arith);
}

started-Tracked : Tracked Anything started
started-Tracked = nothing-Tracked

-- A job is submitted, a worker starts on its first task, finishes it, and time passes.
abbrev a_day : List (Input Mailbox × Millis)
a_day =
    (command store (submit_job (JobSpec.sleep 40 2)), 10)
    ∷ (report (Report.task_started 1 1), 11)
    ∷ (report (Report.task_finished 1 1 (TaskOutcome.completed "slept")), 31)
    ∷ (ticked, 1000)
    ∷ []

a_day-Answered : All (λ i. Answered Anything i.0 i.1) a_day
a_day-Answered = (store-Allocates (JobSpec.sleep 40 2) 10, (tt, (tt, (tt, tt))))

abbrev at_work : Task → TaskState × Option ℕ
at_work t = (t.state, t.assigned_to)

-- The first task is done, and the second one is with the other worker.
day_run :
    map at_work (values (Steps.run env started a_day).tasks)
    ≡ (TaskState.completed, some 1) ∷ (TaskState.assigned, some 2) ∷ []
unfolding step handle_command submit accept_job enqueue_all emit dispatch dispatch_loop round place
    placed start_job_if_queued start_job send_to busy_nodes candidates is_candidate handle_report
    note_started finish_task finish_completed update_job settle_job close_job tick sweep_health
    sweep_entry transitions announce_all implied prune_memory removable remove_jobs
    refresh_leadership elected coordinators working gateway_of new_job new_task assign start
    complete job_transition_to insert get map_values least_loaded elect has job_is_terminal
    is_terminal job_can_transition_to can_transition_to classify task_count
day_run = refl

run-Tracked_example : Tracked Anything (Steps.run env started a_day)
run-Tracked_example =
    run-Tracked env started a_day least_loaded_known a_day-Answered started-Tracked

-- The first task at the end of the day.
abbrev first_done : Task
first_done = record {
  id = 1;
  job_id = 1;
  index = 0;
  spec = TaskSpec.sleep 20;
  state = TaskState.completed;
  assigned_to = some 1;
  attempt = 1;
  output = some "slept";
  updated_at = 31;
}

found_done : get 1 (Steps.run env started a_day).tasks ≡ some first_done
unfolding step handle_command submit accept_job enqueue_all emit dispatch dispatch_loop round place
    placed start_job_if_queued start_job send_to busy_nodes candidates is_candidate handle_report
    note_started finish_task finish_completed update_job settle_job close_job tick sweep_health
    sweep_entry transitions announce_all implied prune_memory removable remove_jobs
    refresh_leadership elected coordinators working gateway_of new_job new_task assign start
    complete job_transition_to insert get map_values least_loaded elect has job_is_terminal
    is_terminal job_can_transition_to can_transition_to classify task_count
found_done = refl

run-Came_example : Came started.tasks a_day 1 first_done
run-Came_example =
    run-Came env started a_day least_loaded_known a_day-Answered started-Tracked 1 first_done
      found_done
