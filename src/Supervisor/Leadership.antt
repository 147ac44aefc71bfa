-- ===== src/Supervisor/Leadership.antt =====
-- crates/cluster-local/src/supervisor.rs: `refresh_leadership`, `dispatch`'s view of the nodes.
use gavel.Shared.{ℕ, ◌&&◌, Option, none, some, List, if◌then◌else◌, filter, map, find}
use gavel.Shared.BTreeMap.{values}
use gavel.Time.{Millis}
use gavel.Role.Defs.{gateway, coordinator}
use gavel.Node.Defs.{Node, accepts_work, has_role}
use gavel.Supervisor.State.{Supervisor, NodeEntry, Env, leader_lost, leader_elected, emit, node_eq}

abbrev pub or_else : Option ℕ → Option ℕ → Option ℕ
or_else (some a) b = some a
or_else none b = b

module _ {Handle : Type 0} where
  abbrev pub entries : Supervisor Handle → List (NodeEntry Handle)
  entries s = values s.nodes

  unfoldable pub coordinators : List (NodeEntry Handle) → List Node
  coordinators es =
      map (λ e. e.node) (filter (λ e. accepts_work e.node.status && has_role e.node coordinator) es)

  unfoldable pub working : List (NodeEntry Handle) → List Node
  working es = map (λ e. e.node) (filter (λ e. accepts_work e.node.status) es)

  unfoldable pub elected : Env Handle → Supervisor Handle → Option ℕ
  elected env s = or_else (env.elect (coordinators (entries s))) (env.elect (working (entries s)))

  abbrev pub announce_lost : Option ℕ → Supervisor Handle → Millis → Supervisor Handle
  announce_lost none s now = s
  announce_lost (some previous) s now = emit s now (leader_lost previous)

  abbrev pub announce_elected : Option ℕ → Supervisor Handle → Millis → Supervisor Handle
  announce_elected none s now = s
  announce_elected (some node) s now = emit s now (leader_elected node)

  abbrev pub entry_id : Option (NodeEntry Handle) → Option ℕ
  entry_id none = none
  entry_id (some e) = some e.node.id

  unfoldable pub gateway_of : List (NodeEntry Handle) → Option ℕ
  gateway_of es = entry_id (find (λ e. accepts_work e.node.status && has_role e.node gateway) es)

  unfoldable pub refresh_leadership : Env Handle → Supervisor Handle → Millis → Supervisor Handle
  refresh_leadership env s now =
      let chosen = elected env s in
      let told =
        if node_eq chosen s.leader
        then s
        else record (announce_elected chosen (announce_lost s.leader s now) now) {
          leader = chosen;
        } in
      record told { gateway = gateway_of (entries s) }
