-- ===== src/Node/Defs.antt =====
-- crates/cluster-core/src/node.rs.
use gavel.Shared.{
  ℕ, ◌*◌, Bool, true, false, ◌&&◌, Option, none, some, List, [], ◌∷◌, String, leb, if◌then◌else◌,
  find,
}
use text.Mathlib.Text.{◌==◌ as str_eq}
use gavel.Time.{Millis, since}
use gavel.Role.Defs.{Role, RoleSet, compute, has, empty}

pub record NodeCapabilities : Type 0 where
  pub cores : ℕ
  pub memory_bytes : ℕ

abbrev pub compute_weight : NodeCapabilities → ℕ
compute_weight c = c.cores * 100

abbrev pub usable_ram_bytes : NodeCapabilities → ℕ
usable_ram_bytes c = c.memory_bytes

pub data NodeStatus : Type 0 where
  starting healthy suspect offline : NodeStatus

abbrev pub all_statuses : List NodeStatus
all_statuses = starting ∷ healthy ∷ suspect ∷ offline ∷ []

unfoldable pub status_as_str : NodeStatus → String
status_as_str starting = "starting"
status_as_str healthy = "healthy"
status_as_str suspect = "suspect"
status_as_str offline = "offline"

unfoldable pub parse_status : String → Option NodeStatus
unfolding status_as_str
parse_status s = find (λ v. str_eq (status_as_str v) s) all_statuses

abbrev pub accepts_work : NodeStatus → Bool
accepts_work healthy = true
accepts_work _ = false

-- The derived `==` of `NodeStatus`.
abbrev pub status_eq : NodeStatus → NodeStatus → Bool
status_eq starting starting = true
status_eq healthy healthy = true
status_eq suspect suspect = true
status_eq offline offline = true
status_eq _ _ = false

pub record NodeLoad : Type 0 where
  pub load_percent : ℕ
  pub running_tasks : ℕ
  pub free_memory_bytes : ℕ
  pub simulated : Bool

abbrev pub default_load : NodeLoad
default_load = record {
  load_percent = 0;
  running_tasks = 0;
  free_memory_bytes = 0;
  simulated = false;
}

pub record Node : Type 0 where
  pub id : ℕ
  pub status : NodeStatus
  pub roles : RoleSet
  pub capabilities : NodeCapabilities
  pub load : NodeLoad
  pub last_seen : Millis
  pub joined_at : Millis

unfoldable pub new_node : ℕ → NodeCapabilities → Millis → Node
new_node id capabilities at = record {
  id = id;
  status = starting;
  roles = empty;
  capabilities = capabilities;
  load = default_load;
  last_seen = at;
  joined_at = at;
}

abbrev pub has_role : Node → Role → Bool
has_role node role = has node.roles role

abbrev pub is_schedulable : Node → Bool
is_schedulable node = accepts_work node.status && has_role node compute

abbrev pub age_ms : Node → Millis → ℕ
age_ms node now = since now node.last_seen

pub record Heartbeat : Type 0 where
  pub node : ℕ
  pub load : NodeLoad
  pub at : Millis

pub record HealthPolicy : Type 0 where
  pub heartbeat_interval_ms : ℕ
  pub suspect_after_ms : ℕ
  pub offline_after_ms : ℕ

unfoldable pub classify : HealthPolicy → Millis → Millis → Option NodeStatus
classify policy last_seen now =
    let age = since now last_seen in
    if leb policy.offline_after_ms age
    then some offline
    else if leb policy.suspect_after_ms age
    then some suspect
    else none

abbrev pub default_health : HealthPolicy
default_health = record {
  heartbeat_interval_ms = 1000;
  suspect_after_ms = 3000;
  offline_after_ms = 6000;
}
