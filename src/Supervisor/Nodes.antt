-- ===== src/Supervisor/Nodes.antt =====
-- crates/cluster-local/src/supervisor.rs: nodes that join, leave, stop and start.
use gavel.Shared.{
  ℕ, zero, suc, ◌+◌, ◌%◌, Bool, true, false, Option, none, some, ◌⋯◌, Result, ok, err, ◌==◌,
  if◌then◌else◌,
}
use gavel.Shared.BTreeMap.{BTreeMap, get, insert, remove}
use gavel.Time.{Millis}
use gavel.Role.Defs.{Role, compute, empty}
use gavel.Role.Defs.{insert as insert_role, remove as remove_role}
use gavel.Node.Defs.{NodeCapabilities, healthy, offline, accepts_work, new_node, default_load}
use gavel.Workload.Defs.{show_node}
use gavel.Protocol.Defs.{RejectReason, unknown_node as reject_unknown, already_connected, full}
use gavel.Supervisor.State.{
  Supervisor, NodeEntry, NodeKind, simulated, remote, Env, ClusterError, node_joined, node_left,
  role_assigned, role_removed, unknown_node, node_already_running, node_not_running, unavailable,
  emit, persist_roles,
}
use gavel.Supervisor.Settle.{requeue_tasks_of}
use gavel.Supervisor.Leadership.{refresh_leadership}
use gavel.Supervisor.Dispatch.{dispatch}

-- The reports channel of a `RemoteAttachment` is left out.
pub record Attachment : Type 0 where
  pub id : ℕ
  pub heartbeat_interval_ms : ℕ
  pub generation : ℕ

abbrev pub is_declared : NodeKind → Bool
is_declared (remote true) = true
is_declared _ = false

abbrev pub is_remote : NodeKind → Bool
is_remote (remote _) = true
is_remote simulated = false

module _ {Handle : Type 0} where
  abbrev pub with_nodes : Supervisor Handle → BTreeMap (NodeEntry Handle) → Supervisor Handle
  with_nodes s nodes = record s { nodes = nodes }

  -- What follows each change of the registry: `refresh_leadership`, then `dispatch`.
  abbrev pub rebalance : Env Handle → Supervisor Handle → Millis → Supervisor Handle
  rebalance env s now = dispatch env (refresh_leadership env s now) now

  -- `(1..=u16::MAX).find(..)`: the ids from `id` on, `left` of them.
  unfoldable pub free_id_from : ℕ → ℕ → BTreeMap (NodeEntry Handle) → Option ℕ
  free_id_from zero id nodes = none
  free_id_from (suc left) id nodes = elim (get id nodes) [
    | none ↦ some id
    | some e ↦ free_id_from left (suc id) nodes
  ]

  unfoldable pub next_free_id : BTreeMap (NodeEntry Handle) → Option ℕ
  next_free_id nodes = free_id_from 65535 1 nodes

  -- The entry of an anonymous worker.
  unfoldable pub anonymous_entry : ℕ → NodeCapabilities → Millis → NodeEntry Handle
  anonymous_entry id capabilities now = record {
    node =
        let node = new_node id capabilities now in
        record node { roles = (insert_role node.roles compute).0 };
    kind = remote false;
    handle = none;
    heartbeat_paused = false;
    generation = 0;
  }

  -- The first block of `attach_remote`: the id, and the registry with an entry for it.
  unfoldable pub identify :
      Supervisor Handle
      → Option ℕ
      → NodeCapabilities
      → Millis
      → Result RejectReason (Supervisor Handle × ℕ)
  identify s (some id) capabilities now = ok (s, id)
  identify s none capabilities now = elim (next_free_id s.nodes) [
    | none ↦ err full
    | some id ↦ ok (with_nodes s (insert id (anonymous_entry id capabilities now) s.nodes), id)
  ]

  -- The entry of a worker that has been let in.
  unfoldable pub connected :
      NodeEntry Handle → NodeCapabilities → Handle → Millis → NodeEntry Handle
  connected e capabilities handle now = record e {
    generation = (e.generation + 1) % 18446744073709551616;
    node = record (e.node) {
      capabilities = capabilities;
      status = healthy;
      last_seen = now;
      load = default_load;
    };
    heartbeat_paused = false;
    handle = some handle;
  }

  unfoldable pub admit :
      Env Handle
      → Supervisor Handle
      → ℕ
      → NodeEntry Handle
      → Millis
      → Supervisor Handle × Attachment
  admit env s id e now =
      let stored = persist_roles (with_nodes s (insert id e s.nodes)) id e.node.roles now in
      (
        rebalance env (emit stored now (node_joined id)) now,
        record {
          id = id;
          heartbeat_interval_ms = env.config.health.heartbeat_interval_ms;
          generation = e.generation;
        },
      )

  -- A slot that is held by a node which is not healthy is taken over; its old handle is dropped.
  unfoldable pub slot_taken : NodeEntry Handle → Bool
  slot_taken e = elim e.handle [ none ↦ false | some h ↦ accepts_work e.node.status ]

  unfoldable pub attach_identified :
      Env Handle
      → Supervisor Handle
      → ℕ
      → NodeCapabilities
      → Handle
      → Millis
      → Supervisor Handle × Result RejectReason Attachment
  attach_identified env s id capabilities handle now = elim (get id s.nodes) [
    | none ↦ (s, err reject_unknown)
    | some e ↦
        if is_remote e.kind
        then if slot_taken e
          then (s, err already_connected)
          else (let (t, a) = admit env s id (connected e capabilities handle now) now in (t, ok a))
        else (s, err reject_unknown)
  ]

  unfoldable pub attach_remote :
      Env Handle
      → Supervisor Handle
      → Option ℕ
      → NodeCapabilities
      → Handle
      → Millis
      → Supervisor Handle × Result RejectReason Attachment
  attach_remote env s id capabilities handle now = elim (identify s id capabilities now) [
    | err reason ↦ (s, err reason)
    | ok (t, id') ↦ attach_identified env t id' capabilities handle now
  ]

  -- The entry of a node that has stopped or lost its connection.
  unfoldable pub disconnected : NodeEntry Handle → NodeEntry Handle
  disconnected e = record e {
    handle = none;
    node = record (e.node) { status = offline; load = default_load };
  }

  unfoldable pub forget : Supervisor Handle → ℕ → Millis → Supervisor Handle
  forget s id now = persist_roles (with_nodes s (remove id s.nodes)) id empty now

  unfoldable pub leave :
      Env Handle → Supervisor Handle → ℕ → NodeEntry Handle → Millis → Supervisor Handle
  leave env s id e now =
      requeue_tasks_of env.config
        (emit (with_nodes s (insert id (disconnected e) s.nodes)) now (node_left id)) id now

  unfoldable pub detach_remote : Env Handle → Supervisor Handle → ℕ → ℕ → Millis → Supervisor Handle
  detach_remote env s id generation now = elim (get id s.nodes) [
    | none ↦ s
    | some e ↦
        if e.generation == generation
        then elim e.handle [
          | none ↦ s
          | some h ↦
              let left = leave env s id e now in
              rebalance env (if is_declared e.kind then left else forget left id now) now
        ]
        else s
  ]

  unfoldable pub stop_node :
      Env Handle
      → Supervisor Handle
      → ℕ
      → Millis
      → Supervisor Handle × Result ClusterError (Unit {0})
  stop_node env s id now = elim (get id s.nodes) [
    | none ↦ (s, err (unknown_node id))
    | some e ↦ elim e.handle [
      | none ↦ (s, err (node_not_running id))
      | some h ↦ (rebalance env (leave env s id e now) now, ok tt)
    ]
  ]

  -- `launch_node`, for an entry of the registry.
  unfoldable pub launched : Env Handle → ℕ → NodeEntry Handle → Millis → NodeEntry Handle
  launched env id e now = record e {
    node = record (e.node) { status = healthy; last_seen = now; load = default_load };
    heartbeat_paused = false;
    handle = some (env.spawn_node id e.node.capabilities);
  }

  unfoldable pub start_node :
      Env Handle
      → Supervisor Handle
      → ℕ
      → Millis
      → Supervisor Handle × Result ClusterError (Unit {0})
  start_node env s id now = elim (get id s.nodes) [
    | none ↦ (s, err (unknown_node id))
    | some e ↦ elim e.handle [
      | some h ↦ (s, err (node_already_running id))
      | none ↦
          if is_remote e.kind
          then (
            s,
            err (
                unavailable
                  (show_node id ⋯ " is a remote worker and rejoins by reconnecting on its own")),
          )
          else (
            rebalance env
                (emit (with_nodes s (insert id (launched env id e now) s.nodes)) now
                  (node_joined id))
                now,
            ok tt,
          )
    ]
  ]

  unfoldable pub set_role :
      Env Handle
      → Supervisor Handle
      → ℕ
      → Role
      → Bool
      → Millis
      → Supervisor Handle × Result ClusterError (Unit {0})
  set_role env s id role enabled now = elim (get id s.nodes) [
    | none ↦ (s, err (unknown_node id))
    | some e ↦
        let (roles, changed) =
          if enabled then insert_role e.node.roles role else remove_role e.node.roles role in
        let stored =
          persist_roles
            (with_nodes s
              (insert id (record e { node = record (e.node) { roles = roles } }) s.nodes))
            id roles now in
        if changed
        then (
          refresh_leadership env
              (emit stored now (if enabled then role_assigned id role else role_removed id role))
              now,
          ok tt,
        )
        else (s, ok tt)
  ]
