-- ===== src/Supervisor/Views.antt =====
-- crates/cluster-local/src/supervisor.rs: the derived views, with `JobCounts`, `RoleCounts` and
-- `ClusterSnapshot` of crates/cluster-core/src/cluster.rs (its operational counters, which the
-- supervisor leaves at their defaults, are left out).
use gavel.Shared.{
  ℕ, ◌+◌, Bool, ◌||◌, not, Option, none, some, List, [], ◌∷◌, String, ltb, ◌==◌, if◌then◌else◌,
  length, count, filter, take, is_empty,
}
use gavel.Shared.BTreeMap.{get, values}
use gavel.Job.State.{JobState}
use gavel.Job.Machine.{Job, Task, TaskAttempt}
use gavel.Role.Defs.{Role, ByRole, RolePolicies, everywhere, iter, unmet}
use gavel.Role.Defs.{get as get_role, set as set_role}
use gavel.Node.Defs.{accepts_work}
use gavel.Supervisor.State.{Supervisor, NodeEntry, Config, Store}
use gavel.Supervisor.Leadership.{entries}
use gavel.Supervisor.Dispatch.{is_active}

pub record JobCounts : Type 0 where
  pub queued : ℕ
  pub running : ℕ
  pub completed : ℕ
  pub failed : ℕ
  pub cancelled : ℕ

abbrev pub total : JobCounts → ℕ
total c = c.queued + c.running + c.completed + c.failed + c.cancelled

abbrev pub no_jobs : JobCounts
no_jobs = record { queued = 0; running = 0; completed = 0; failed = 0; cancelled = 0 }

unfoldable pub tally : JobState → JobCounts → JobCounts
tally JobState.queued c = record c { queued = c.queued + 1 }
tally JobState.running c = record c { running = c.running + 1 }
tally JobState.completed c = record c { completed = c.completed + 1 }
tally JobState.failed c = record c { failed = c.failed + 1 }
tally JobState.cancelled c = record c { cancelled = c.cancelled + 1 }

unfoldable pub count_jobs : JobCounts → List Job → JobCounts
count_jobs c [] = c
count_jobs c (j ∷ js) = count_jobs (tally j.state c) js

abbrev pub RoleCounts : Type 0
RoleCounts = ByRole ℕ

unfoldable pub increment : RoleCounts → Role → RoleCounts
increment counts role = set_role counts role (get_role counts role + 1)

unfoldable pub increment_all : RoleCounts → List Role → RoleCounts
increment_all counts [] = counts
increment_all counts (role ∷ rest) = increment_all (increment counts role) rest

pub record ClusterSnapshot : Type 0 where
  pub nodes_total : ℕ
  pub nodes_online : ℕ
  pub roles : RoleCounts
  pub policies : RolePolicies
  pub jobs : JobCounts
  pub tasks_running : ℕ
  pub tasks_queued : ℕ
  pub leader : Option ℕ
  pub gateway : Option ℕ

unfoldable pub is_degraded : ClusterSnapshot → Bool
is_degraded s =
    ltb s.nodes_online s.nodes_total || not (is_empty (unmet s.policies (get_role s.roles)))

unfoldable pub status_label : ClusterSnapshot → String
status_label s =
    if s.nodes_online == 0 then "down" else if is_degraded s then "degraded" else "healthy"

pub record JobDetail : Type 0 where
  pub job : Job
  pub tasks : List Task
  pub failures : List TaskAttempt

-- `sort_by_key`, which is stable.
module _ {ℓ} {A : Type ℓ} (before : A → A → Bool) where
  unfoldable pub sort_insert : A → List A → List A
  sort_insert a [] = a ∷ []
  sort_insert a (b ∷ bs) =
      let rest = sort_insert a bs in if before a b then a ∷ b ∷ bs else b ∷ rest

  unfoldable pub sort_from : List A → List A → List A
  sort_from done [] = done
  sort_from done (a ∷ rest) = sort_from (sort_insert a done) rest

abbrev pub stored_or {ℓ} : {A : Type ℓ} → List A → List A → List A
stored_or [] stored = stored
stored_or (x ∷ xs) stored = x ∷ xs

module _ {Handle : Type 0} where
  unfoldable pub count_roles : RoleCounts → List (NodeEntry Handle) → RoleCounts
  count_roles counts [] = counts
  count_roles counts (e ∷ es) =
      count_roles
        (if accepts_work e.node.status then increment_all counts (iter e.node.roles) else counts) es

  unfoldable pub snapshot : Config → Supervisor Handle → ClusterSnapshot
  snapshot config s = record {
    nodes_total = length s.nodes;
    nodes_online = count (λ e. accepts_work e.node.status) (entries s);
    roles = count_roles (everywhere 0) (entries s);
    policies = config.policies;
    jobs = count_jobs no_jobs (values s.jobs);
    tasks_running = count (λ t. is_active t.state) (values s.tasks);
    tasks_queued = length s.queue;
    leader = s.leader;
    gateway = s.gateway;
  }

  -- `Command::Jobs`: the newest first.
  unfoldable pub list_jobs : Supervisor Handle → ℕ → List Job
  list_jobs s limit = take limit (sort_from (λ a b. ltb b.id a.id) [] (values s.jobs))

  unfoldable pub detail_of : Supervisor Handle → Store → ℕ → Job → JobDetail
  detail_of s store id j = record {
    job = j;
    tasks =
        sort_from (λ a b. ltb a.index b.index) []
          (stored_or (filter (λ t. t.job_id == id) (values s.tasks)) (store.tasks_for_job id));
    failures = store.failures_for_job id;
  }

  unfoldable pub job_detail : Supervisor Handle → Store → ℕ → Option JobDetail
  job_detail s store id = elim (get id s.jobs) [
    | some j ↦ some (detail_of s store id j)
    | none ↦ elim (store.job id) [ none ↦ none | some j ↦ some (detail_of s store id j) ]
  ]
