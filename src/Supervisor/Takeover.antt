-- ===== src/Supervisor/Takeover.antt =====
-- crates/cluster-local/src/supervisor.rs, `attach_remote` and `detach_remote`: a worker that takes over
-- the slot of a node which is not healthy, while that node still has a task.
use gavel.Shared.{ℕ, ◌+◌, ◌%◌, ◌<◌, ◌≡◌, refl, true, false, some, ok, arith, ◌==◌, ==-refl}
use gavel.Shared.BTreeMap.{get, insert, get-insert}
use gavel.Time.{Millis}
use gavel.Job.Machine.{Task}
use gavel.Node.Defs.{NodeCapabilities}
use gavel.Supervisor.Table.{TaskProperty}
use gavel.Supervisor.State.{Supervisor, NodeEntry, Env, emit, node_joined, persist_roles}
use gavel.Supervisor.Leadership.{refresh_leadership}
use gavel.Supervisor.Dispatch.{is_active}
use gavel.Supervisor.Nodes.{
  Attachment, is_remote, slot_taken, connected, admit, identify, attach_identified, attach_remote,
  detach_remote, rebalance, with_nodes,
}
use gavel.Supervisor.Tracked.{Tracked}
use gavel.Supervisor.Queueing.{Chooses}
use gavel.Supervisor.Stays.{Stays, dispatch-Stays}
use gavel.Supervisor.Upkeep.{refresh_leadership-Tracked}

-- The generation that a connection gets is another than the one before.
generation_moves :
    (g : ℕ) → g < 18446744073709551616 → ((g + 1) % 18446744073709551616 == g) ≡ false
generation_moves g h = ground arith

module _ {Handle : Type 0} where
  refresh_leadership-nodes :
      (env : Env Handle) (s : Supervisor Handle) (now : Millis)
      → ((refresh_leadership env s now).tasks ≡ s.tasks)
        × ((refresh_leadership env s now).nodes ≡ s.nodes)
  unfolding refresh_leadership emit
  refresh_leadership-nodes env s now = ground arith

  rebalance-Stays :
      {P : TaskProperty} (k : ℕ) (t : Task) (id : ℕ) (e : NodeEntry Handle)
      (active : is_active t.state ≡ true) (on : t.assigned_to ≡ some id) (env : Env Handle)
      (s : Supervisor Handle) (now : Millis)
      → Chooses env.select_node
      → Tracked P s
      → Stays k t id e active on s
      → Stays k t id e active on (rebalance env s now)
  rebalance-Stays k t id e active on env s now c h st =
      let (tasks, nodes) = refresh_leadership-nodes env s now in
      dispatch-Stays k t id e active on env (refresh_leadership env s now) now c
        (refresh_leadership-Tracked env s now h) (rw (tasks, nodes) st)

  -- A connection that ends is ignored if its generation is not the entry's.
  detach_stale :
      (env : Env Handle) (s : Supervisor Handle) (id generation : ℕ) (e : NodeEntry Handle)
      (now : Millis)
      → get id s.nodes ≡ some e
      → (e.generation == generation) ≡ false
      → detach_remote env s id generation now ≡ s
  unfolding detach_remote
  detach_stale env s id generation e now f g = rw (f, g, detach_remote) refl

  attached :
      (env : Env Handle) (s : Supervisor Handle) (id : ℕ) (capabilities : NodeCapabilities)
      (handle : Handle) (now : Millis) (old : NodeEntry Handle)
      → get id s.nodes ≡ some old
      → is_remote old.kind ≡ true
      → slot_taken old ≡ false
      → attach_remote env s (some id) capabilities handle now
        ≡ (let (t, a) = admit env s id (connected old capabilities handle now) now in (t, ok a))
  unfolding attach_remote identify attach_identified
  attached env s id capabilities handle now old f far free =
      rw (f, far, free, attach_remote, identify, attach_identified) refl

  get-insert_same :
      (id : ℕ) (e : NodeEntry Handle) (s : Supervisor Handle)
      → get id (insert id e s.nodes) ≡ some e
  get-insert_same id e s = ground (arith, get-insert id id e s.nodes, ==-refl id)

  admit-Stays :
      {P : TaskProperty} (k : ℕ) (t : Task) (id : ℕ) (e : NodeEntry Handle)
      (active : is_active t.state ≡ true) (on : t.assigned_to ≡ some id) (env : Env Handle)
      (s : Supervisor Handle) (now : Millis)
      → Chooses env.select_node
      → Tracked P s
      → get k s.tasks ≡ some t
      → Stays k t id e active on (admit env s id e now).0
  unfolding admit emit
  admit-Stays k t id e active on env s now c h g =
      let stored = persist_roles (with_nodes s (insert id e s.nodes)) id e.node.roles now in
      rebalance-Stays k t id e active on env (emit stored now (node_joined id)) now c h
        (g, get-insert_same id e s)

  -- A worker that connects under the id of a remote node which is not healthy but has a task that is
  -- assigned or running, on a table with the supervisor's invariant and with a scheduler that chooses
  -- among the nodes that it is given, is let in: the task stays with the node, though the entry of
  -- the node has the new mailbox as it came, with nothing put in it; and a report that the old
  -- connection has ended changes nothing then.
  pub attach_remote-takeover :
      {P : TaskProperty} (env : Env Handle) (s : Supervisor Handle) (k id : ℕ) (t : Task)
      (old : NodeEntry Handle) (capabilities : NodeCapabilities) (handle : Handle)
      (now later : Millis)
      → Chooses env.select_node
      → Tracked P s
      → get id s.nodes ≡ some old
      → is_remote old.kind ≡ true
      → slot_taken old ≡ false
      → old.generation < 18446744073709551616
      → get k s.tasks ≡ some t
      → is_active t.state ≡ true
      → t.assigned_to ≡ some id
      → let r = attach_remote env s (some id) capabilities handle now in
        ((a : Attachment) × (r.1 ≡ ok a))
        × (get k r.0.tasks ≡ some t)
        × (get id r.0.nodes ≡ some (connected old capabilities handle now))
        × (detach_remote env r.0 id old.generation later ≡ r.0)
  unfolding connected
  attach_remote-takeover env s k id t old capabilities handle now later c h f far free word g active
        on =
      let new = connected old capabilities handle now in
      let (tasks, nodes) = admit-Stays k t id new active on env s now c h g in
      let other : (new.generation == old.generation) ≡ false =
        generation_moves old.generation word in
      rw (attached env s id capabilities handle now old f far free)
        ((_, refl), tasks, nodes, detach_stale env _ id old.generation new later nodes other)
