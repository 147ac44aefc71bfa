-- ===== src/Supervisor/Leaders.antt =====
-- crates/cluster-local/src/supervisor.rs, `refresh_leadership`: who leads afterwards.
use gavel.Shared.{
  ℕ, ◌≡◌, refl, sym, ◌&&◌, true, false, Option, none, some, List, [], ◌∷◌, arith, All, In, filter,
  if◌then◌else◌, is_empty,
}
use gavel.Time.{Millis}
use gavel.Role.Defs.{coordinator, has}
use gavel.Node.Defs.{Node, NodeStatus, starting, healthy, suspect, offline, status_eq, accepts_work}
use gavel.Scheduler.Defs.{elect, id_less}
use gavel.Scheduler.Choice.{Elects, elect-Elects}
use gavel.Supervisor.State.{Supervisor, NodeEntry, Env, emit, node_eq}
use gavel.Supervisor.Leadership.{
  entries, coordinators, working, elected, or_else, refresh_leadership,
}

node_eq_sound : (a b : Option ℕ) → node_eq a b ≡ true → b ≡ a
node_eq_sound none none h = refl
node_eq_sound none (some b) h = absurd (ground arith)
node_eq_sound (some a) none h = absurd (ground arith)
node_eq_sound (some a) (some b) h = ground arith

abbrev AllHealthy : List Node → Type 0
AllHealthy nodes = All (λ n. accepts_work n.status ≡ true) nodes

-- An election among healthy nodes finds nobody only in an empty list.
elect_none :
    (nodes : List Node)
    → AllHealthy nodes
    → filter (λ n. accepts_work n.status) nodes ≡ []
    → nodes ≡ []
elect_none [] a e = refl
elect_none (n ∷ nodes) a e = absurd (ground arith)

least_of_All :
    (n : Node) (nodes : List Node)
    → AllHealthy nodes
    → All (λ m. accepts_work m.status ≡ true → id_less m n ≡ false) nodes
    → All (λ m. id_less m n ≡ false) nodes
least_of_All n [] a l = tt
least_of_All n (m ∷ nodes) a l = (l.0 a.0, least_of_All n nodes a.1 l.1)

-- Nobody leads if nobody may, and otherwise the one with the least id.
abbrev pub Leads : List Node → Option ℕ → Type 0
Leads nodes none = nodes ≡ []
Leads nodes (some id) = (n : Node) × In n nodes × (n.id ≡ id) × All (λ m. id_less m n ≡ false) nodes

elect-Leads : (nodes : List Node) → AllHealthy nodes → Leads nodes (elect nodes)
elect-Leads nodes a = go (elect nodes) (elect-Elects nodes)
  where
    go : (o : Option ℕ) → Elects nodes o → Leads nodes o
    go none e = elect_none nodes a e
    go (some id) (n, m, accepts, same, least) = (n, m, same, least_of_All n nodes a least)

-- The first of two elections, or the second where the first found nobody.
or_else-Leads :
    (first second : List Node) (o p : Option ℕ)
    → Leads first o
    → Leads second p
    → Leads (if is_empty first then second else first) (or_else o p)
or_else-Leads [] second none p l m = m
or_else-Leads [] second (some id) p l m = absurd l.1
or_else-Leads (n ∷ first) second none p l m = absurd (ground arith)
or_else-Leads (n ∷ first) second (some id) p l m = l

accepts_work_lem : (s : NodeStatus) → accepts_work s ≡ status_eq s healthy
accepts_work_lem starting = refl
accepts_work_lem healthy = refl
accepts_work_lem suspect = refl
accepts_work_lem offline = refl

module _ {Handle : Type 0} where
  coordinators-AllHealthy : (es : List (NodeEntry Handle)) → AllHealthy (coordinators es)
  unfolding coordinators
  coordinators-AllHealthy [] = tt
  coordinators-AllHealthy (e ∷ es) = ground (arith, coordinators-AllHealthy es)

  working-AllHealthy : (es : List (NodeEntry Handle)) → AllHealthy (working es)
  unfolding working
  working-AllHealthy [] = tt
  working-AllHealthy (e ∷ es) = ground (arith, working-AllHealthy es)

  -- The healthy nodes with the Coordinator role.
  abbrev pub leaders_by_role : List (NodeEntry Handle) → List Node
  leaders_by_role [] = []
  leaders_by_role (e ∷ es) =
      let rest = leaders_by_role es in
      if status_eq e.node.status healthy && has e.node.roles coordinator
      then e.node ∷ rest
      else rest

  -- The healthy nodes.
  abbrev pub all_healthy : List (NodeEntry Handle) → List Node
  all_healthy [] = []
  all_healthy (e ∷ es) =
      let rest = all_healthy es in if status_eq e.node.status healthy then e.node ∷ rest else rest

  -- Who may lead: the healthy nodes with the Coordinator role, or all healthy nodes where no node has
  -- it.
  abbrev pub pool : List (NodeEntry Handle) → List Node
  pool es = if is_empty (leaders_by_role es) then all_healthy es else leaders_by_role es

  coordinators_lem : (es : List (NodeEntry Handle)) → coordinators es ≡ leaders_by_role es
  unfolding coordinators
  coordinators_lem [] = refl
  coordinators_lem (e ∷ es) = ground (arith, accepts_work_lem e.node.status, coordinators_lem es)

  working_lem : (es : List (NodeEntry Handle)) → working es ≡ all_healthy es
  unfolding working
  working_lem [] = refl
  working_lem (e ∷ es) = ground (arith, accepts_work_lem e.node.status, working_lem es)

  elected-Leads :
      (env : Env Handle) (s : Supervisor Handle)
      → env.elect ≡ elect
      → Leads (pool (entries s)) (elected env s)
  unfolding elected
  elected-Leads env s e =
      let cs = coordinators (entries s) in
      let ws = working (entries s) in
      rw (e, sym (coordinators_lem (entries s)), sym (working_lem (entries s)))
        (or_else-Leads cs ws (elect cs) (elect ws)
          (elect-Leads cs (coordinators-AllHealthy (entries s)))
          (elect-Leads ws (working-AllHealthy (entries s))))

  refreshed_leader :
      (env : Env Handle) (s : Supervisor Handle) (now : Millis)
      → ((refresh_leadership env s now).leader ≡ elected env s)
        × ((refresh_leadership env s now).nodes ≡ s.nodes)
  unfolding refresh_leadership emit
  refreshed_leader env s now = ground (arith, node_eq_sound (elected env s) s.leader)

  -- After `refresh_leadership` with the election of the lowest id: nobody leads if no node is
  -- healthy; otherwise the leader is the node with the least id among the healthy ones with the
  -- Coordinator role, or among all healthy ones where none has it.
  pub refresh_leadership-Leads :
      (env : Env Handle) (s : Supervisor Handle) (now : Millis)
      → env.elect ≡ elect
      → let t = refresh_leadership env s now in Leads (pool (entries t)) t.leader
  refresh_leadership-Leads env s now e =
      let (leader, nodes) = refreshed_leader env s now in rw (leader, nodes) (elected-Leads env s e)
