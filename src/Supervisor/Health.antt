-- ===== src/Supervisor/Health.antt =====
-- crates/cluster-local/src/supervisor.rs: the periodic work, with the health sweep and the pruning of memory.
use gavel.Shared.{
  ℕ, ◌-◌, true, false, Option, none, some, List, [], ◌∷◌, if◌then◌else◌, is_some, take, drop,
  length, leb, map, filter, contains,
}
use gavel.Shared.BTreeMap.{BTreeMap, remove, retain, map_values, values}
use gavel.Time.{Millis}
use gavel.Job.State.{job_is_terminal}
use gavel.Job.Machine.{Job}
use gavel.Node.Defs.{
  Node, NodeStatus, HealthPolicy, starting, healthy, suspect, offline, classify, status_eq,
}
use gavel.Supervisor.State.{
  Supervisor, NodeEntry, Config, Env, node_left, node_unhealthy, node_recovered, emit,
}
use gavel.Supervisor.Settle.{requeue_tasks_of}
use gavel.Supervisor.Leadership.{entries, refresh_leadership}
use gavel.Supervisor.Dispatch.{dispatch}

abbrev pub or_healthy : Option NodeStatus → NodeStatus
or_healthy none = healthy
or_healthy (some status) = status

-- The status that a sweep gives an entry that runs.
unfoldable pub implied : HealthPolicy → Millis → Node → NodeStatus
implied policy now node = or_healthy (classify policy node.last_seen now)

unfoldable pub remove_jobs : List ℕ → BTreeMap Job → BTreeMap Job
remove_jobs [] m = m
remove_jobs (id ∷ ids) m = remove_jobs ids (remove id m)

unfoldable pub removable : Config → BTreeMap Job → List ℕ
removable config jobs =
    take (length jobs - config.job_buffer)
      (map (λ j. j.id) (filter (λ j. job_is_terminal j.state) (values jobs)))

module _ {Handle : Type 0} where
  -- The body of the loop in `sweep_health`, on the entry and on the list of transitions.
  unfoldable pub sweep_entry : HealthPolicy → Millis → NodeEntry Handle → NodeEntry Handle
  sweep_entry policy now e =
      if is_some e.handle
      then record e { node = record (e.node) { status = implied policy now e.node } }
      else e

  unfoldable pub transitions :
      HealthPolicy → Millis → List (NodeEntry Handle) → List (ℕ × NodeStatus)
  transitions policy now [] = []
  transitions policy now (e ∷ es) =
      let rest = transitions policy now es in
      let next = implied policy now e.node in
      if is_some e.handle
      then if status_eq next e.node.status then rest else (e.node.id, next) ∷ rest
      else rest

  abbrev pub announce : Config → Supervisor Handle → ℕ → NodeStatus → Millis → Supervisor Handle
  announce config s id suspect now = emit s now (node_unhealthy id)
  announce config s id offline now = requeue_tasks_of config (emit s now (node_left id)) id now
  announce config s id healthy now = emit s now (node_recovered id)
  announce config s id starting now = s

  unfoldable pub announce_all :
      Config → Supervisor Handle → List (ℕ × NodeStatus) → Millis → Supervisor Handle
  announce_all config s [] now = s
  announce_all config s ((id, status) ∷ rest) now =
      announce_all config (announce config s id status now) rest now

  unfoldable pub sweep_health : Config → Supervisor Handle → Millis → Supervisor Handle
  sweep_health config s now =
      announce_all config (record s { nodes = map_values (sweep_entry config.health now) s.nodes })
        (transitions config.health now (entries s)) now

  unfoldable pub prune_memory : Config → Supervisor Handle → Supervisor Handle
  prune_memory config s =
      let kept = record s { events = drop (length s.events - config.event_buffer) s.events } in
      let gone = removable config s.jobs in
      if leb (length s.jobs) config.job_buffer then kept else record kept {
        jobs = remove_jobs gone s.jobs;
        tasks = retain (λ t. if contains gone t.job_id then false else true) s.tasks;
      }

  unfoldable pub tick : Env Handle → Supervisor Handle → Millis → Supervisor Handle
  tick env s now =
      prune_memory env.config
        (dispatch env (refresh_leadership env (sweep_health env.config s now) now) now)
