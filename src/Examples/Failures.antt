-- ===== src/Examples/Failures.antt =====
-- Instances for crates/cluster-local/src/supervisor.rs when a worker goes silent while it has a task.
use gavel.Shared.{◌≡◌, refl, true, false, none, some, [], ◌∷◌, ok, arith}
use gavel.Shared.BTreeMap.{get}
use gavel.Job.Spec.{TaskSpec}
use gavel.Job.State.{TaskState}
use gavel.Job.Machine.{Task}
use gavel.Scheduler.Choice.{least_loaded_known}
use gavel.Supervisor.State.{Supervisor, NodeEntry}
use gavel.Supervisor.Bootstrap.{new_supervisor}
use gavel.Supervisor.Tracked.{Tracked}
use gavel.Supervisor.Nodes.{Attachment, slot_taken, connected, attach_remote, detach_remote}
use gavel.Supervisor.Stays.{Stays, dispatch-Stays}
use gavel.Supervisor.Leaders.{Leads, pool, refresh_leadership-Leads}
use gavel.Supervisor.Leadership.{entries}
use gavel.Supervisor.Settle.{requeue_tasks_of, requeue_each, fail_attempt, retry_or_give_up, retry}
use gavel.Supervisor.State.{record_failure}
use gavel.Job.Machine.{requeue}
use gavel.Supervisor.Requeue.{requeue_tasks_of_lem}
use gavel.Supervisor.Takeover.{attach_remote-takeover}
use gavel.Supervisor.State.{remote}
use gavel.Node.Defs.{suspect}
use gavel.Supervisor.Table.{Anything}
use gavel.Supervisor.Table.{Tracks-insert}
use gavel.Supervisor.Dispatch.{dispatch}
use gavel.Supervisor.Health.{sweep_health, sweep_entry, transitions, announce_all, implied}
use gavel.Supervisor.Leadership.{refresh_leadership}
use gavel.Supervisor.State.{emit}
use gavel.Job.State.{is_terminal, can_transition_to}
use gavel.Node.Defs.{classify}
use gavel.Shared.BTreeMap.{insert, map_values}
use gavel.Shared.{inl}
use gavel.Shared.BTreeMap.{map_values}
use gavel.Node.Defs.{classify}
use gavel.Supervisor.Health.{sweep_health, transitions, sweep_entry, announce_all, implied}
use gavel.Supervisor.Sweep.{sweep_health_lem}
use gavel.Examples.Cluster.{Mailbox, one_core, two_nodes, env, worker, started, nothing-Tracked}

-- A remote worker that has missed heartbeats while it runs a task.
abbrev silent : NodeEntry Mailbox
silent = record (worker 1) {
  node = record ((worker 1).node) { status = suspect };
  kind = remote true;
}

abbrev pub running_task : Task
running_task = record {
  id = 1;
  job_id = 1;
  index = 0;
  spec = TaskSpec.sleep 20;
  state = TaskState.running;
  assigned_to = some 1;
  attempt = 1;
  output = none;
  updated_at = 11;
}

abbrev waiting : Supervisor Mailbox
waiting = record new_supervisor {
  nodes = (1, silent) ∷ (2, worker 2) ∷ [];
  tasks = insert 1 running_task [];
}

waiting-Tracked : Tracked Anything waiting
unfolding get
waiting-Tracked =
    Tracks-insert [] [] running_task nothing-Tracked
      (record {
        id_eq = refl;
        consistent = (refl, refl, omega arith);
        holds = tt;
        waits = λ w. absurd (ground arith);
      })
      (λ j u g active active' node. absurd (ground arith))

found_silent : get 1 waiting.nodes ≡ some silent
unfolding get
found_silent = refl

found_running : get 1 waiting.tasks ≡ some running_task
unfolding get insert
found_running = refl

silent_free : slot_taken silent ≡ false
unfolding slot_taken
silent_free = refl

attach_remote-takeover_example :
    let r = attach_remote env waiting (some 1) one_core [] 4000 in
    ((a : Attachment) × (r.1 ≡ ok a))
    × (get 1 r.0.tasks ≡ some running_task)
    × (get 1 r.0.nodes ≡ some (connected silent one_core [] 4000))
    × (detach_remote env r.0 1 0 5000 ≡ r.0)
attach_remote-takeover_example =
    attach_remote-takeover env waiting 1 1 running_task silent one_core [] 4000 5000
      least_loaded_known waiting-Tracked found_silent refl silent_free (omega arith) found_running
      refl refl

dispatch-Stays_example : Stays 1 running_task 1 silent refl refl (dispatch env waiting 4000)
dispatch-Stays_example =
    dispatch-Stays 1 running_task 1 silent refl refl env waiting 4000 least_loaded_known
      waiting-Tracked (found_running, found_silent)

refresh_leadership-Leads_example :
    let t = refresh_leadership env started 6 in Leads (pool (entries t)) t.leader
refresh_leadership-Leads_example = refresh_leadership-Leads env started 6 refl

abbrev other_task : Task
other_task = record running_task { id = 2; index = 1; assigned_to = some 2 }

-- Each worker runs a task.
abbrev both_busy : Supervisor Mailbox
both_busy = record waiting { tasks = insert 2 other_task waiting.tasks }

both_busy-Tracked : Tracked Anything both_busy
unfolding get insert
both_busy-Tracked =
    Tracks-insert waiting.tasks [] other_task waiting-Tracked
      (record {
        id_eq = refl;
        consistent = (refl, refl, omega arith);
        holds = tt;
        waits = λ w. absurd (ground arith);
      })
      (λ j u g active active' node. absurd (ground arith))

found_other : get 2 (requeue_tasks_of two_nodes both_busy 1 9000).tasks ≡ some other_task
unfolding requeue_tasks_of requeue_each fail_attempt retry_or_give_up retry requeue emit
    record_failure get insert is_terminal can_transition_to
found_other = refl

requeue_tasks_of_lem_example :
    (get 2 both_busy.tasks ≡ some other_task) × (other_task.assigned_to ≡ some 1 → ⊥)
requeue_tasks_of_lem_example =
    requeue_tasks_of_lem two_nodes both_busy 1 9000 both_busy-Tracked 2 other_task found_other refl

-- The second worker has been heard of a second ago.
abbrev one_silent : Supervisor Mailbox
one_silent = record both_busy {
  nodes =
      (1, silent)
      ∷ (2, record (worker 2) { node = record ((worker 2).node) { last_seen = 8000 } })
      ∷ [];
}

swept_other : get 2 (sweep_health two_nodes one_silent 9000).tasks ≡ some other_task
unfolding sweep_health transitions sweep_entry announce_all implied classify map_values
    requeue_tasks_of requeue_each fail_attempt retry_or_give_up retry requeue emit record_failure
    get insert is_terminal can_transition_to
swept_other = refl

sweep_health_lem_example :
    (get 2 one_silent.tasks ≡ some other_task) × (other_task.assigned_to ≡ some 1 → ⊥)
sweep_health_lem_example =
    sweep_health_lem two_nodes one_silent silent 9000 both_busy-Tracked (inl refl) refl
      (omega arith) refl 2 other_task swept_other refl
