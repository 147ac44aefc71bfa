-- ===== src/Supervisor/Upkeep.antt =====
-- crates/cluster-local/src/supervisor.rs: the tick, and nodes that leave or start, lose no waiting task.
use gavel.Shared.{ℕ, inl, inr, List, [], ◌∷◌, arith, ◌==◌, Bool-cases, Option-cases, leb, length}
use gavel.Shared.BTreeMap.{get, map_values}
use gavel.Time.{Millis}
use gavel.Node.Defs.{NodeStatus, starting, healthy, suspect, offline}
use gavel.Supervisor.Table.{TaskProperty}
use gavel.Supervisor.State.{Supervisor, NodeEntry, Env, Config, emit, node_left}
use gavel.Supervisor.Leadership.{entries, refresh_leadership}
use gavel.Supervisor.Health.{
  announce, announce_all, sweep_health, prune_memory, tick, sweep_entry, transitions,
}
use gavel.Supervisor.Nodes.{
  rebalance, forget, leave, detach_remote, stop_node, start_node, is_declared, is_remote,
}
use gavel.Supervisor.Table.{Tracks-retain}
use gavel.Supervisor.Tracked.{Tracked, Same, Tracked-Same, requeue_tasks_of-Tracked}
use gavel.Supervisor.Queueing.{Chooses, dispatch-Tracked}

module _ {Handle : Type 0} where
  refresh_leadership-Same :
      (env : Env Handle) (s : Supervisor Handle) (now : Millis)
      → Same s (refresh_leadership env s now)
  unfolding refresh_leadership emit
  refresh_leadership-Same env s now = ground arith

  pub refresh_leadership-Tracked :
      {P : TaskProperty} (env : Env Handle) (s : Supervisor Handle) (now : Millis)
      → Tracked P s
      → Tracked P (refresh_leadership env s now)
  refresh_leadership-Tracked env s now h =
      Tracked-Same s (refresh_leadership env s now) (refresh_leadership-Same env s now) h

  pub rebalance-Tracked :
      {P : TaskProperty} (env : Env Handle) (s : Supervisor Handle) (now : Millis)
      → Chooses env.select_node
      → Tracked P s
      → Tracked P (rebalance env s now)
  rebalance-Tracked env s now c h =
      dispatch-Tracked env (refresh_leadership env s now) now c
        (refresh_leadership-Tracked env s now h)

  pub announce-Tracked :
      {P : TaskProperty} (config : Config) (s : Supervisor Handle) (id : ℕ) (status : NodeStatus)
      (now : Millis)
      → Tracked P s
      → Tracked P (announce config s id status now)
  unfolding emit
  announce-Tracked config s id suspect now h = h
  announce-Tracked config s id offline now h =
      requeue_tasks_of-Tracked config (emit s now (node_left id)) id now h
  announce-Tracked config s id healthy now h = h
  announce-Tracked config s id starting now h = h

  announce_all-Tracked :
      {P : TaskProperty} (config : Config) (s : Supervisor Handle) (found : List (ℕ × NodeStatus))
      (now : Millis)
      → Tracked P s
      → Tracked P (announce_all config s found now)
  unfolding announce_all
  announce_all-Tracked config s [] now h = h
  announce_all-Tracked config s ((id, status) ∷ rest) now h =
      announce_all-Tracked config (announce config s id status now) rest now
        (announce-Tracked config s id status now h)

  pub sweep_health-Tracked :
      {P : TaskProperty} (config : Config) (s : Supervisor Handle) (now : Millis)
      → Tracked P s
      → Tracked P (sweep_health config s now)
  unfolding sweep_health
  sweep_health-Tracked config s now h =
      announce_all-Tracked config
        (record s { nodes = map_values (sweep_entry config.health now) s.nodes })
        (transitions config.health now (entries s)) now h

  prune_memory-Tracked :
      {P : TaskProperty} (config : Config) (s : Supervisor Handle)
      → Tracked P s
      → Tracked P (prune_memory config s)
  unfolding prune_memory
  prune_memory-Tracked config s h = elim (Bool-cases (leb (length s.jobs) config.job_buffer)) [
    | inl few ↦ rw (few, prune_memory) h
    | inr many ↦ rw (many, prune_memory) (Tracks-retain s.tasks s.queue _ h)
  ]

  pub tick-Tracked :
      {P : TaskProperty} (env : Env Handle) (s : Supervisor Handle) (now : Millis)
      → Chooses env.select_node
      → Tracked P s
      → Tracked P (tick env s now)
  unfolding tick
  tick-Tracked env s now c h =
      let swept = sweep_health env.config s now in
      prune_memory-Tracked env.config (rebalance env swept now)
        (rebalance-Tracked env swept now c (sweep_health-Tracked env.config s now h))

  leave-Tracked :
      {P : TaskProperty} (env : Env Handle) (s : Supervisor Handle) (id : ℕ) (e : NodeEntry Handle)
      (now : Millis)
      → Tracked P s
      → Tracked P (leave env s id e now)
  unfolding leave emit
  leave-Tracked env s id e now h = requeue_tasks_of-Tracked env.config _ id now h

  pub detach_remote-Tracked :
      {P : TaskProperty} (env : Env Handle) (s : Supervisor Handle) (id generation : ℕ)
      (now : Millis)
      → Chooses env.select_node
      → Tracked P s
      → Tracked P (detach_remote env s id generation now)
  unfolding detach_remote forget
  detach_remote-Tracked env s id generation now c h = elim (Option-cases (get id s.nodes)) [
    | inl e ↦ rw (e, detach_remote) h
    | inr (entry, e) ↦ elim (Bool-cases (entry.generation == generation)) [
      | inr stale ↦ rw (e, stale, detach_remote) h
      | inl current ↦ elim (Option-cases entry.handle) [
        | inl off ↦ rw (e, current, off, detach_remote) h
        | inr (x, on) ↦
            let left = leave-Tracked env s id entry now h in
            elim (Bool-cases (is_declared entry.kind)) [
              | inl declared ↦
                  rw (e, current, on, declared, detach_remote) (rebalance-Tracked env _ now c left)
              | inr undeclared ↦
                  rw (e, current, on, undeclared, detach_remote)
                    (rebalance-Tracked env _ now c left)
            ]
      ]
    ]
  ]

  pub stop_node-Tracked :
      {P : TaskProperty} (env : Env Handle) (s : Supervisor Handle) (id : ℕ) (now : Millis)
      → Chooses env.select_node
      → Tracked P s
      → Tracked P (stop_node env s id now).0
  unfolding stop_node
  stop_node-Tracked env s id now c h = elim (Option-cases (get id s.nodes)) [
    | inl e ↦ rw (e, stop_node) h
    | inr (entry, e) ↦ elim (Option-cases entry.handle) [
      | inl off ↦ rw (e, off, stop_node) h
      | inr (x, on) ↦
          rw (e, on, stop_node) (rebalance-Tracked env _ now c (leave-Tracked env s id entry now h))
    ]
  ]

  pub start_node-Tracked :
      {P : TaskProperty} (env : Env Handle) (s : Supervisor Handle) (id : ℕ) (now : Millis)
      → Chooses env.select_node
      → Tracked P s
      → Tracked P (start_node env s id now).0
  unfolding start_node emit
  start_node-Tracked env s id now c h = elim (Option-cases (get id s.nodes)) [
    | inl e ↦ rw (e, start_node) h
    | inr (entry, e) ↦ elim (Option-cases entry.handle) [
      | inr (x, on) ↦ rw (e, on, start_node) h
      | inl off ↦ elim (Bool-cases (is_remote entry.kind)) [
        | inl far ↦ rw (e, off, far, start_node) h
        | inr near ↦ rw (e, off, near, start_node) (rebalance-Tracked env _ now c h)
      ]
    ]
  ]
