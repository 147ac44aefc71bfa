-- ===== src/Supervisor/Sweep.antt =====
-- crates/cluster-local/src/supervisor.rs, `sweep_health`: a node that has been silent for too long loses
-- its tasks.
use gavel.Shared.{
  ℕ, ◌≤◌, ◌≡◌, refl, sym, ap, subst, inl, inr, true, false, some, List, [], ◌∷◌, arith, In, is_some,
  Bool-cases,
}
use gavel.Shared.BTreeMap.{get, map_values}
use gavel.Time.{Millis, since}
use gavel.Job.Machine.{Task}
use gavel.Node.Defs.{
  NodeStatus, HealthPolicy, starting, healthy, suspect, offline, classify, status_eq,
}
use gavel.Supervisor.Table.{TaskProperty}
use gavel.Supervisor.State.{Supervisor, NodeEntry, Config, emit, node_left}
use gavel.Supervisor.Leadership.{entries}
use gavel.Supervisor.Dispatch.{is_active}
use gavel.Supervisor.Health.{
  or_healthy, implied, sweep_entry, transitions, announce, announce_all, sweep_health,
}
use gavel.Supervisor.Tracked.{Tracked}
use gavel.Supervisor.Requeue.{requeue_tasks_of_lem}
use gavel.Supervisor.Upkeep.{announce-Tracked}

implied_offline :
    (policy : HealthPolicy) (now last_seen : Millis)
    → policy.offline_after_ms ≤ since now last_seen
    → or_healthy (classify policy last_seen now) ≡ offline
unfolding classify
implied_offline policy now last_seen h = ground arith

module _ {Handle : Type 0} where
  -- A task that is active after an announcement was so before, and is not on a node that has left.
  announce_active :
      {P : TaskProperty} (config : Config) (s : Supervisor Handle) (id : ℕ) (status : NodeStatus)
      (now : Millis)
      → Tracked P s
      → (k : ℕ) (t : Task) → get k (announce config s id status now).tasks ≡ some t
      → is_active t.state ≡ true
      → (get k s.tasks ≡ some t) × (status ≡ offline → t.assigned_to ≡ some id → ⊥)
  unfolding emit
  announce_active config s id suspect now h k t e active = (e, λ q n. absurd (ground arith))
  announce_active config s id healthy now h k t e active = (e, λ q n. absurd (ground arith))
  announce_active config s id starting now h k t e active = (e, λ q n. absurd (ground arith))
  announce_active config s id offline now h k t e active =
      let (old, off) =
        requeue_tasks_of_lem config (emit s now (node_left id)) id now h k t e active in
      (old, λ q n. off n)

  announce_all_active :
      {P : TaskProperty} (config : Config) (s : Supervisor Handle) (found : List (ℕ × NodeStatus))
      (now : Millis)
      → Tracked P s
      → (k : ℕ) (t : Task) → get k (announce_all config s found now).tasks ≡ some t
      → is_active t.state ≡ true
      → (get k s.tasks ≡ some t) × ((id : ℕ) → In (id, offline) found → t.assigned_to ≡ some id → ⊥)
  unfolding announce_all
  announce_all_active config s [] now h k t e active = (e, λ id m n. m)
  announce_all_active config s ((id, status) ∷ rest) now h k t e active =
      let told = announce config s id status now in
      let (mid, off) =
        announce_all_active config told rest now (announce-Tracked config s id status now h) k t e
          active in
      let (old, gone) = announce_active config s id status now h k t mid active in
      (old, λ j m n. leaves j m n gone off)
    where
      leaves :
          (j : ℕ)
          → In (j, offline) ((id, status) ∷ rest)
          → t.assigned_to ≡ some j
          → (status ≡ offline → t.assigned_to ≡ some id → ⊥)
          → ((i : ℕ) → In (i, offline) rest → t.assigned_to ≡ some i → ⊥)
          → ⊥
      leaves j (inl same) n gone off =
          gone (ap (λ p. p.1) same)
            (subst (λ i. t.assigned_to ≡ some i) (sym (ap (λ p. p.0) same)) n)
      leaves j (inr m) n gone off = off j m n

  transitions_head :
      (policy : HealthPolicy) (now : Millis) (e : NodeEntry Handle) (es : List (NodeEntry Handle))
      → is_some e.handle ≡ true
      → implied policy now e.node ≡ offline
      → status_eq offline e.node.status ≡ false
      → In (e.node.id, offline) (transitions policy now (e ∷ es))
  unfolding transitions
  transitions_head policy now e es on off new = rw (on, off, new, transitions) (inl refl)

  transitions_tail :
      (policy : HealthPolicy) (now : Millis) (p : ℕ × NodeStatus) (d : NodeEntry Handle)
      (es : List (NodeEntry Handle))
      → In p (transitions policy now es)
      → In p (transitions policy now (d ∷ es))
  unfolding transitions
  transitions_tail policy now p d es m = elim (Bool-cases (is_some d.handle)) [
    | inr idle ↦ rw (idle, transitions) m
    | inl on ↦ elim (Bool-cases (status_eq (implied policy now d.node) d.node.status)) [
      | inl same ↦ rw (on, same, transitions) m
      | inr other ↦ rw (on, other, transitions) (inr m)
    ]
  ]

  transitions-In :
      (policy : HealthPolicy) (now : Millis) (e : NodeEntry Handle) (es : List (NodeEntry Handle))
      → In e es
      → is_some e.handle ≡ true
      → implied policy now e.node ≡ offline
      → status_eq offline e.node.status ≡ false
      → In (e.node.id, offline) (transitions policy now es)
  transitions-In policy now e [] m on off new = absurd m
  transitions-In policy now e (d ∷ es) (inl same) on off new =
      subst (λ x. In (e.node.id, offline) (transitions policy now (x ∷ es))) (sym same)
        (transitions_head policy now e es on off new)
  transitions-In policy now e (d ∷ es) (inr m) on off new =
      transitions_tail policy now (e.node.id, offline) d es
        (transitions-In policy now e es m on off new)

  -- A sweep, on a table with the supervisor's invariant, that finds a running node silent for at
  -- least `offline_after_ms`, which was not offline before, leaves no assigned or running task on
  -- that node; and every task that is assigned or running afterwards is as it was before.
  pub sweep_health_lem :
      {P : TaskProperty} (config : Config) (s : Supervisor Handle) (e : NodeEntry Handle)
      (now : Millis)
      → Tracked P s
      → In e (entries s)
      → is_some e.handle ≡ true
      → config.health.offline_after_ms ≤ since now e.node.last_seen
      → status_eq offline e.node.status ≡ false
      → (k : ℕ) (t : Task) → get k (sweep_health config s now).tasks ≡ some t
      → is_active t.state ≡ true
      → (get k s.tasks ≡ some t) × (t.assigned_to ≡ some e.node.id → ⊥)
  unfolding sweep_health implied
  sweep_health_lem config s e now h m on silent new k t f active =
      let (old, gone) =
        announce_all_active config
          (record s { nodes = map_values (sweep_entry config.health now) s.nodes })
          (transitions config.health now (entries s)) now h k t f active in
      (
        old,
        gone e.node.id (
            transitions-In config.health now e (entries s) m on
              (implied_offline config.health now e.node.last_seen silent) new),
      )
