-- ===== src/Supervisor/Joins.antt =====
-- crates/cluster-local/src/supervisor.rs: a worker that joins, and a role that changes, lose no waiting
-- task.
use gavel.Shared.{ℕ, inl, inr, Bool, Option, none, some, if◌then◌else◌, Bool-cases, Option-cases}
use gavel.Shared.BTreeMap.{get}
use gavel.Time.{Millis}
use gavel.Role.Defs.{Role}
use gavel.Role.Defs.{insert as insert_role, remove as remove_role}
use gavel.Node.Defs.{NodeCapabilities}
use gavel.Supervisor.Table.{TaskProperty}
use gavel.Supervisor.State.{Supervisor, Env, emit}
use gavel.Supervisor.Nodes.{
  identify, admit, attach_identified, attach_remote, set_role, is_remote, next_free_id, slot_taken,
}
use gavel.Supervisor.Tracked.{Tracked}
use gavel.Supervisor.Queueing.{Chooses}
use gavel.Supervisor.Upkeep.{refresh_leadership-Tracked, rebalance-Tracked}

module _ {Handle : Type 0} where
  attach_identified-Tracked :
      {P : TaskProperty} (env : Env Handle) (s : Supervisor Handle) (id : ℕ)
      (capabilities : NodeCapabilities) (handle : Handle) (now : Millis)
      → Chooses env.select_node
      → Tracked P s
      → Tracked P (attach_identified env s id capabilities handle now).0
  unfolding attach_identified admit emit
  attach_identified-Tracked env s id capabilities handle now c h =
      elim (Option-cases (get id s.nodes)) [
        | inl e ↦ rw (e, attach_identified) h
        | inr (entry, e) ↦ elim (Bool-cases (is_remote entry.kind)) [
          | inr near ↦ rw (e, near, attach_identified) h
          | inl far ↦ elim (Bool-cases (slot_taken entry)) [
            | inl taken ↦ rw (e, far, taken, attach_identified) h
            | inr free ↦ rw (e, far, free, attach_identified) (rebalance-Tracked env _ now c h)
          ]
        ]
      ]

  pub attach_remote-Tracked :
      {P : TaskProperty} (env : Env Handle) (s : Supervisor Handle) (id : Option ℕ)
      (capabilities : NodeCapabilities) (handle : Handle) (now : Millis)
      → Chooses env.select_node
      → Tracked P s
      → Tracked P (attach_remote env s id capabilities handle now).0
  unfolding attach_remote identify
  attach_remote-Tracked env s (some id) capabilities handle now c h =
      attach_identified-Tracked env s id capabilities handle now c h
  attach_remote-Tracked env s none capabilities handle now c h =
      elim (Option-cases (next_free_id s.nodes)) [
        | inl e ↦ rw (e, attach_remote, identify) h
        | inr (id, e) ↦
            rw (e, attach_remote, identify)
              (attach_identified-Tracked env _ id capabilities handle now c h)
      ]

  pub set_role-Tracked :
      {P : TaskProperty} (env : Env Handle) (s : Supervisor Handle) (id : ℕ) (role : Role)
      (enabled : Bool) (now : Millis)
      → Tracked P s
      → Tracked P (set_role env s id role enabled now).0
  unfolding set_role emit
  set_role-Tracked env s id role enabled now h = elim (Option-cases (get id s.nodes)) [
    | inl e ↦ rw (e, set_role) h
    | inr (entry, e) ↦
        elim (Bool-cases (
          (if enabled
            then insert_role entry.node.roles role
            else remove_role entry.node.roles role).1)) [
              | inl changed ↦ rw (e, changed, set_role) (refresh_leadership-Tracked env _ now h)
              | inr same ↦ rw (e, same, set_role) h
            ]
  ]
