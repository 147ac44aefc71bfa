-- ===== src/Supervisor/Restart.antt =====
-- crates/cluster-local/src/supervisor.rs, `bootstrap`: a supervisor comes up with the invariant of
-- its tasks.
use gavel.Shared.{
  ℕ, ◌<◌, ◌≡◌, refl, subst, inl, inr, Option, none, some, List, [], ◌∷◌, range, arith, Option-cases,
  length, max, ◌%◌, get_elem?-lt,
}
use gavel.Shared.BTreeMap.{BTreeMap, get, values, keys}
use gavel.Time.{Millis}
use gavel.Supervisor.State.{NodeEntry, emit, Supervisor, Env, Config, Store}
use gavel.Supervisor.Leadership.{refresh_leadership}
use gavel.Supervisor.Upkeep.{refresh_leadership-Tracked}
use gavel.Supervisor.Bootstrap.{
  restore_roles, assign_initial_roles, add_remote, add_simulated, new_supervisor, seq_or_zero,
  and_then, restore_recent, restore_pages, adopt_jobs, restore_jobs, introduce, introduce_all,
  bootstrap,
}
use gavel.Supervisor.Table.{Anything, Tracks}
use gavel.Supervisor.Tracked.{Tracked, Same, Tracked-Same}
use gavel.Supervisor.Adopted.{adopt_jobs-Tracked}
use gavel.Supervisor.Pages.{
  Keeps, IsPaged, restore_recent-AllStored, restore_pages-AllStored, restore_pages-ends,
}

pub empty_tracked : Tracks Anything [] []
unfolding get
empty_tracked = record {
  closed = λ k t c now p. tt;
  sorted = tt;
  kept = λ k t found. absurd (ground arith);
  alone = λ k t found. absurd (ground arith);
}

and_then-some {ℓ κ} :
    {A : Type ℓ} {B : Type κ} (o : Option A) (f : A → Option B) (b : B)
    → and_then o f ≡ some b
    → (a : A) × (o ≡ some a) × (f a ≡ some b)
and_then-some none f b e = absurd (ground arith)
and_then-some (some a) f b e = (a, refl, e)

slot_lt : (k n : ℕ) → 0 < n → k % max n 1 < n
slot_lt k n some_slot = let same : max n 1 ≡ n = omega arith in rw same (ground arith)

module _ {Handle : Type 0} where
  introduce-Same :
      (env : Env Handle) (s : Supervisor Handle) (id : ℕ) (e : NodeEntry Handle) (now : Millis)
      → Same s (introduce env s id e now)
  unfolding introduce emit
  introduce-Same env s id e now = ground arith

  introduce_all-Tracked :
      (env : Env Handle) (s : Supervisor Handle) (ids : List ℕ) (now : Millis)
      → Tracked Anything s
      → Tracked Anything (introduce_all env s ids now)
  unfolding introduce_all
  introduce_all-Tracked env s [] now h = h
  introduce_all-Tracked env s (id ∷ ids) now h = elim (Option-cases (get id s.nodes)) [
    | inl p ↦ rw (p, introduce_all) (introduce_all-Tracked env s ids now h)
    | inr (e, p) ↦
        rw (p, introduce_all)
          (introduce_all-Tracked env (introduce env s id e now) ids now
            (Tracked-Same s (introduce env s id e now) (introduce-Same env s id e now) h))
  ]

  restore_jobs-Tracked :
      (fuel : ℕ) (config : Config) (store : Store) (s t : Supervisor Handle) (now : Millis)
      → Keeps store
      → Tracked Anything s
      → restore_jobs fuel config store s now ≡ some t
      → Tracked Anything t
  unfolding restore_jobs
  restore_jobs-Tracked fuel config store s t now k h e =
      elim (Option-cases (store.recent_jobs config.job_buffer)) [
        | inl p ↦ let same : s ≡ t = ground arith in subst (λ u. Tracked Anything u) same h
        | inr (recent, p) ↦
            let restored = restore_pages fuel store none (restore_recent store recent []) in
            let read : and_then restored (λ m. some (adopt_jobs s (values m) now)) ≡ some t =
              ground arith in
            let (m, found, same) =
              and_then-some restored (λ m. some (adopt_jobs s (values m) now)) t read in
            let stored =
              restore_pages-AllStored fuel store none (restore_recent store recent []) m k
                (restore_recent-AllStored store recent [] (k.0 config.job_buffer recent p) tt)
                found in
            let over : adopt_jobs s (values m) now ≡ t = ground arith in
            subst (λ u. Tracked Anything u) over (adopt_jobs-Tracked s (values m) now stored h)
      ]

  restarted-Tracked :
      (fuel : ℕ) (env : Env Handle) (store : Store) (now : Millis) (s : Supervisor Handle)
      → Keeps store
      → bootstrap fuel env store now ≡ some s
      → Tracked Anything s
  unfolding bootstrap
  restarted-Tracked fuel env store now s k e =
      let config = env.config in
      let nodes_of = λ (simulated_nodes : BTreeMap (NodeEntry Handle)).
        restore_roles store
          (assign_initial_roles config (add_remote now config.remote_nodes simulated_nodes)) in
      let start_of = λ (simulated_nodes : BTreeMap (NodeEntry Handle)). record new_supervisor {
        nodes = nodes_of simulated_nodes;
        event_seq = seq_or_zero store.last_seq;
      } in
      let introduced = λ (simulated_nodes : BTreeMap (NodeEntry Handle)).
        introduce_all env (start_of simulated_nodes) (keys (nodes_of simulated_nodes)) now in
      let (made, _, rest) =
        and_then-some (add_simulated config now (range 0 config.node_count) [])
          (λ (simulated_nodes : BTreeMap (NodeEntry Handle)).
            and_then (restore_jobs fuel config store (introduced simulated_nodes) now)
              λ s. some (refresh_leadership env s now))
          s e in
      let (t, restored, last) =
        and_then-some (restore_jobs fuel config store (introduced made) now)
          (λ s. some (refresh_leadership env s now)) s rest in
      let led : refresh_leadership env t now ≡ s = ground arith in
      subst (λ u. Tracked Anything u) led
        (refresh_leadership-Tracked env t now (
          restore_jobs-Tracked fuel config store (introduced made) t now k
            (introduce_all-Tracked env (start_of made) (keys (nodes_of made)) now empty_tracked)
            restored))

  restore_jobs-ends :
      (fuel bound : ℕ) (config : Config) (store : Store) (s : Supervisor Handle) (now : Millis)
      → IsPaged bound store
      → bound < fuel
      → (t : Supervisor Handle) × (restore_jobs fuel config store s now ≡ some t)
  unfolding restore_jobs
  restore_jobs-ends fuel bound config store s now paged enough =
      elim (Option-cases (store.recent_jobs config.job_buffer)) [
        | inl p ↦ (s, ground arith)
        | inr (recent, p) ↦
            let (m, found) =
              restore_pages-ends fuel bound store none (restore_recent store recent []) paged
                (omega arith) (omega arith) in
            (adopt_jobs s (values m) now, rw (p, restore_jobs, found) refl)
      ]

  add_simulated-some :
      (config : Config) (now : Millis) (ids : List ℕ) (nodes : BTreeMap (NodeEntry Handle))
      → 0 < length config.profiles
      → (found : BTreeMap (NodeEntry Handle)) × (add_simulated config now ids nodes ≡ some found)
  unfolding add_simulated
  add_simulated-some config now [] nodes some_profile = (nodes, refl)
  add_simulated-some config now (index ∷ rest) nodes some_profile =
      let (profile, p) =
        get_elem?-lt config.profiles (index % max (length config.profiles) 1)
          (slot_lt index (length config.profiles) some_profile) in
      rw p (add_simulated-some config now rest _ some_profile)

  -- A restart comes up, given a profile for the simulated workers and a store whose pages advance to
  -- a bound on its job ids that is below the fuel; and where the store's jobs are consistent, with
  -- the tasks of ended jobs ended, the task table and the queue of the supervisor that comes up have
  -- their invariant.
  pub bootstrap-Tracked :
      (fuel bound : ℕ) (env : Env Handle) (store : Store) (now : Millis)
      → Keeps store
      → IsPaged bound store
      → 0 < length env.config.profiles
      → bound < fuel
      → (s : Supervisor Handle) × (bootstrap fuel env store now ≡ some s) × Tracked Anything s
  unfolding bootstrap
  bootstrap-Tracked fuel bound env store now keeps paged some_profile enough =
      let config = env.config in
      let (made, m) = add_simulated-some config now (range 0 config.node_count) [] some_profile in
      let nodes =
        restore_roles store
          (assign_initial_roles config (add_remote now config.remote_nodes made)) in
      let start = record new_supervisor { nodes = nodes; event_seq = seq_or_zero store.last_seq } in
      let (t, r) =
        restore_jobs-ends fuel bound config store (introduce_all env start (keys nodes) now) now
          paged enough in
      let up : bootstrap fuel env store now ≡ some (refresh_leadership env t now) =
        rw (m, bootstrap, r) refl in
      (refresh_leadership env t now, up, restarted-Tracked fuel env store now _ keeps up)
