-- ===== src/Supervisor/Bootstrap.antt =====
-- crates/cluster-local/src/supervisor.rs: the startup. `none` is the panic of indexing an empty list
-- of profiles, or that the store had more pages of unfinished jobs than the fuel allows for.
use gavel.Shared.{
  ℕ, zero, suc, ◌+◌, ◌%◌, max, Bool, true, false, not, ◌&&◌, Option, none, some, List, [], ◌∷◌,
  ◌++◌, ◌==◌, if◌then◌else◌, length, get_elem?, range,
}
use gavel.Shared.BTreeMap.{BTreeMap, get, insert, map_values, keys, values}
use gavel.Time.{Millis}
use gavel.Job.State.{TaskState, is_terminal, job_is_terminal}
use gavel.Job.Machine.{Job, Task}
use gavel.Role.Defs.{Role, RoleSet, RolePolicy, compute, degradation_priority, has, role_eq}
use gavel.Role.Defs
use gavel.Node.Defs.{Node, healthy, offline, new_node}
use gavel.Supervisor.State.{
  Supervisor, NodeEntry, NodeKind, simulated, remote, Config, RemoteNode, Env, Store, Write,
  node_joined, push_write, persist_roles, insert_task, emit,
}
use gavel.Supervisor.Leadership.{refresh_leadership}
use gavel.Supervisor.Nodes.{with_nodes, launched}

abbrev pub and_then {ℓ κ} : {A : Type ℓ} {B : Type κ} → Option A → (A → Option B) → Option B
and_then none f = none
and_then (some a) f = f a

abbrev pub seq_or_zero : Option ℕ → ℕ
seq_or_zero none = 0
seq_or_zero (some seq) = seq

module _ {Handle : Type 0} where
  -- A registry entry at startup.
  unfoldable pub fresh_entry : Node → NodeKind → NodeEntry Handle
  fresh_entry node kind = record {
    node = node;
    kind = kind;
    handle = none;
    heartbeat_paused = false;
    generation = 0;
  }

  -- The loop over `0..node_count`, on the indices that are left.
  unfoldable pub add_simulated :
      Config → Millis → List ℕ → BTreeMap (NodeEntry Handle) → Option (BTreeMap (NodeEntry Handle))
  add_simulated config now [] nodes = some nodes
  add_simulated config now (index ∷ rest) nodes =
      and_then (get_elem? config.profiles (index % max (length config.profiles) 1)) λ profile.
        let node = new_node (index + 1) profile now in
        add_simulated config now rest
          (insert (index + 1) (fresh_entry (record node { status = healthy }) simulated) nodes)

  -- The loop over the declared remote workers.
  unfoldable pub add_remote :
      Millis → List RemoteNode → BTreeMap (NodeEntry Handle) → BTreeMap (NodeEntry Handle)
  add_remote now [] nodes = nodes
  add_remote now (r ∷ rest) nodes =
      let node = new_node r.id r.capabilities now in
      add_remote now rest (elim (get r.id nodes) [
        | some _ ↦ nodes
        | none ↦ insert r.id (fresh_entry (record node { status = offline }) (remote true)) nodes
      ])

  abbrev pub grant : Role → NodeEntry Handle → NodeEntry Handle
  grant role e = record e { node = record (e.node) { roles = (Defs.insert e.node.roles role).0 } }

  -- The `find_map` over the offsets: the offset that was taken, and the nodes with the role granted.
  unfoldable pub find_holder :
      Role
      → List ℕ
      → ℕ
      → BTreeMap (NodeEntry Handle)
      → List ℕ
      → Option (ℕ × BTreeMap (NodeEntry Handle))
  find_holder role ids cursor nodes [] = none
  find_holder role ids cursor nodes (offset ∷ offsets) =
      let later = find_holder role ids cursor nodes offsets in
      elim (get_elem? ids ((cursor + offset) % length ids)) [
        | none ↦ later
        | some id ↦ elim (get id nodes) [
          | none ↦ later
          | some e ↦
              if has e.node.roles role then later else some (offset, insert id (grant role e) nodes)
        ]
      ]

  -- The loop over `0..min_replicas`, on the replicas that are left, with the cursor.
  unfoldable pub place_replicas :
      ℕ → Role → List ℕ → ℕ → BTreeMap (NodeEntry Handle) → ℕ × BTreeMap (NodeEntry Handle)
  place_replicas zero role ids cursor nodes = (cursor, nodes)
  place_replicas (suc left) role ids cursor nodes =
      elim (find_holder role ids cursor nodes (range 0 (length ids))) [
        | none ↦ (cursor, nodes)
        | some (offset, nodes') ↦ place_replicas left role ids (cursor + (offset + 1)) nodes'
      ]

  unfoldable pub assign_roles :
      Config → List Role → List ℕ → ℕ → BTreeMap (NodeEntry Handle) → BTreeMap (NodeEntry Handle)
  assign_roles config [] ids cursor nodes = nodes
  assign_roles config (role ∷ rest) ids cursor nodes =
      let (cursor', nodes') =
        if role_eq role compute
        then (cursor, nodes)
        else place_replicas (Defs.get config.policies role).min_replicas role ids cursor nodes in
      assign_roles config rest ids cursor' nodes'

  unfoldable pub assign_initial_roles :
      Config → BTreeMap (NodeEntry Handle) → BTreeMap (NodeEntry Handle)
  assign_initial_roles config nodes =
      assign_roles config degradation_priority (keys nodes) 0 (map_values (grant compute) nodes)

  unfoldable pub restore_each :
      List (ℕ × RoleSet) → BTreeMap (NodeEntry Handle) → BTreeMap (NodeEntry Handle)
  restore_each [] nodes = nodes
  restore_each ((id, roles) ∷ rest) nodes = restore_each rest (elim (get id nodes) [
    | none ↦ nodes
    | some e ↦ insert id (record e { node = record (e.node) { roles = roles } }) nodes
  ])

  unfoldable pub restore_roles : Store → BTreeMap (NodeEntry Handle) → BTreeMap (NodeEntry Handle)
  restore_roles store nodes = elim store.load_node_roles [
    | none ↦ nodes
    | some stored ↦ restore_each stored nodes
  ]

  -- The body of the loop over the ids at the end of `bootstrap`.
  unfoldable pub introduce :
      Env Handle → Supervisor Handle → ℕ → NodeEntry Handle → Millis → Supervisor Handle
  introduce env s id e now =
      let stored = persist_roles s id e.node.roles now in
      elim e.kind [
        | simulated ↦
            emit (with_nodes stored (insert id (launched env id e now) stored.nodes)) now
              (node_joined id)
        | remote _ ↦ stored
      ]

  unfoldable pub introduce_all :
      Env Handle → Supervisor Handle → List ℕ → Millis → Supervisor Handle
  introduce_all env s [] now = s
  introduce_all env s (id ∷ ids) now =
      introduce_all env (elim (get id s.nodes) [ none ↦ s | some e ↦ introduce env s id e now ]) ids
        now

-- The jobs that a restart brings back.
abbrev pub Restored : Type 0
Restored = BTreeMap (Job × List Task)

unfoldable pub restore_recent : Store → List Job → Restored → Restored
restore_recent store [] restored = restored
restore_recent store (j ∷ js) restored =
    restore_recent store js (insert j.id (j, store.tasks_for_job j.id) restored)

unfoldable pub restore_page : List (Job × List Task) → Restored → Restored
restore_page [] restored = restored
restore_page ((j, ts) ∷ rest) restored = restore_page rest (insert j.id (j, ts) restored)

abbrev pub last_id : List (Job × List Task) → Option ℕ
last_id [] = none
last_id ((j, ts) ∷ []) = some j.id
last_id (_ ∷ p ∷ rest) = last_id (p ∷ rest)

-- The `loop` over the pages of unfinished jobs, 200 at a time; `none` where the fuel ran out.
unfoldable pub restore_pages : ℕ → Store → Option ℕ → Restored → Option Restored
restore_pages zero store after restored = none
restore_pages (suc fuel) store after restored = elim (store.unfinished_jobs_page after 200) [
  | none ↦ some restored
  | some [] ↦ some restored
  | some (p ∷ rest) ↦
      let more = restore_pages fuel store (last_id (p ∷ rest)) (restore_page (p ∷ rest) restored) in
      if length (p ∷ rest) == 200 then more else some (restore_page (p ∷ rest) restored)
]

module _ {Handle : Type 0} where
  -- The body of the loop over a job's tasks.
  unfoldable pub adopt_task : Supervisor Handle → Bool → Task → Millis → Supervisor Handle
  adopt_task s unfinished t now =
      let t' = record t { state = TaskState.queued; assigned_to = none; updated_at = now } in
      if unfinished && not (is_terminal t.state)
      then insert_task (record (push_write s (Write.saved t')) { queue = s.queue ++ (t'.id ∷ []) })
          t'
      else insert_task s t

  unfoldable pub adopt_tasks : Supervisor Handle → Bool → List Task → Millis → Supervisor Handle
  adopt_tasks s unfinished [] now = s
  adopt_tasks s unfinished (t ∷ ts) now =
      adopt_tasks (adopt_task s unfinished t now) unfinished ts now

  unfoldable pub adopt_jobs :
      Supervisor Handle → List (Job × List Task) → Millis → Supervisor Handle
  adopt_jobs s [] now = s
  adopt_jobs s ((j, ts) ∷ rest) now =
      adopt_jobs
        (adopt_tasks (record s { jobs = insert j.id j s.jobs }) (not (job_is_terminal j.state)) ts
          now)
        rest now

  unfoldable pub restore_jobs :
      ℕ → Config → Store → Supervisor Handle → Millis → Option (Supervisor Handle)
  restore_jobs fuel config store s now = elim (store.recent_jobs config.job_buffer) [
    | none ↦ some s
    | some recent ↦
        and_then (restore_pages fuel store none (restore_recent store recent []))
          λ restored. some (adopt_jobs s (values restored) now)
  ]

  -- `Supervisor::new`.
  abbrev pub new_supervisor : Supervisor Handle
  new_supervisor = record {
    nodes = [];
    jobs = [];
    tasks = [];
    queue = [];
    events = [];
    event_seq = 0;
    leader = none;
    gateway = none;
    writes = [];
    retried = 0;
  }

  unfoldable pub bootstrap : ℕ → Env Handle → Store → Millis → Option (Supervisor Handle)
  bootstrap fuel env store now =
      and_then (add_simulated env.config now (range 0 env.config.node_count) []) λ simulated_nodes.
        let nodes = restore_roles store (
          assign_initial_roles env.config
            (add_remote now env.config.remote_nodes simulated_nodes)) in
        let start = record new_supervisor {
          nodes = nodes;
          event_seq = seq_or_zero store.last_seq;
        } in
        and_then (restore_jobs fuel env.config store (introduce_all env start (keys nodes) now) now)
          λ s. some (refresh_leadership env s now)
