-- ===== src/Supervisor/Pages.antt =====
-- crates/cluster-local/src/supervisor.rs, `bootstrap`: what is read back from the store.
use gavel.Shared.{
  ℕ, zero, suc, ◌<◌, ◌≤◌, ◌+◌, ◌≡◌, refl, subst, ◌⊎◌, inl, inr, Option, none, some, List, [], ◌∷◌,
  arith, All, Bool-cases, Option-cases, length, ◌==◌, ltb,
}
use gavel.Shared.BTreeMap.{insert, values}
use gavel.Job.Machine.{Job, Task}
use gavel.Supervisor.State.{Store}
use gavel.Supervisor.Bootstrap.{Restored, restore_recent, restore_page, restore_pages, last_id}
use gavel.Supervisor.Adopted.{IsStored}

All-insert :
    (k : ℕ) (v : Job × List Task) (m : Restored)
    → IsStored v
    → All IsStored (values m)
    → All IsStored (values (insert k v m))
unfolding insert
All-insert k v [] p a = (p, tt)
All-insert k v ((j, w) ∷ m) p a = elim (Bool-cases (ltb k j)) [
  | inl l ↦ rw l (p, a)
  | inr l ↦ elim (Bool-cases (j == k)) [
    | inl same ↦ rw (l, same) (p, a.1)
    | inr other ↦ rw (l, other) (a.0, All-insert k v m p a.1)
  ]
]

-- What the store is known for: the jobs that it gives at a restart are as it keeps them.
abbrev pub Keeps : Store → Type 0
Keeps store =
    ((limit : ℕ) (js : List Job)
      → store.recent_jobs limit ≡ some js
      → All (λ j. IsStored (j, store.tasks_for_job j.id)) js)
    × ((after : Option ℕ) (limit : ℕ) (page : List (Job × List Task))
        → store.unfinished_jobs_page after limit ≡ some page
        → All IsStored page)

abbrev AllStored : Restored → Type 0
AllStored m = All IsStored (values m)

pub restore_recent-AllStored :
    (store : Store) (js : List Job) (m : Restored)
    → All (λ j. IsStored (j, store.tasks_for_job j.id)) js
    → AllStored m
    → AllStored (restore_recent store js m)
unfolding restore_recent
restore_recent-AllStored store [] m a h = h
restore_recent-AllStored store (j ∷ js) m a h =
    restore_recent-AllStored store js (insert j.id (j, store.tasks_for_job j.id) m) a.1
      (All-insert j.id (j, store.tasks_for_job j.id) m a.0 h)

restore_page-AllStored :
    (page : List (Job × List Task)) (m : Restored)
    → All IsStored page
    → AllStored m
    → AllStored (restore_page page m)
unfolding restore_page
restore_page-AllStored [] m a h = h
restore_page-AllStored ((j, ts) ∷ rest) m a h =
    restore_page-AllStored rest (insert j.id (j, ts) m) a.1 (All-insert j.id (j, ts) m a.0 h)

-- What one page leaves: what was restored, or the page added to it, or the pages after it.
restore_pages-next :
    (fuel : ℕ) (store : Store) (after : Option ℕ) (m found : Restored)
    (page : List (Job × List Task))
    → store.unfinished_jobs_page after 200 ≡ some page
    → restore_pages (suc fuel) store after m ≡ some found
    → (m ≡ found)
      ⊎ ((restore_page page m ≡ found)
          ⊎ (restore_pages fuel store (last_id page) (restore_page page m) ≡ some found))
unfolding restore_pages
restore_pages-next fuel store after m found [] p e = inl (ground arith)
restore_pages-next fuel store after m found (q ∷ rest) p e = inr (ground arith)

pub restore_pages-AllStored :
    (fuel : ℕ) (store : Store) (after : Option ℕ) (m found : Restored)
    → Keeps store
    → AllStored m
    → restore_pages fuel store after m ≡ some found
    → AllStored found
unfolding restore_pages
restore_pages-AllStored zero store after m found k h e = absurd (ground arith)
restore_pages-AllStored (suc fuel) store after m found k h e =
    elim (Option-cases (store.unfinished_jobs_page after 200)) [
      | inl p ↦ let same : m ≡ found = ground arith in subst AllStored same h
      | inr (page, p) ↦
          let added = restore_page-AllStored page m (k.1 after 200 page p) h in
          elim (restore_pages-next fuel store after m found page p e) [
            | inl same ↦ subst AllStored same h
            | inr (inl same) ↦ subst AllStored same added
            | inr (inr later) ↦
                restore_pages-AllStored fuel store (last_id page) (restore_page page m) found k
                  added later
          ]
    ]

-- Where a page starts that comes after `after`.
abbrev pub from_id : Option ℕ → ℕ
from_id none = 0
from_id (some id) = suc id

-- What the store is known for: the last job of a page comes after the job it was asked from, and the
-- ids are below a bound.
abbrev pub IsPaged : ℕ → Store → Type 0
IsPaged bound store =
    (after : Option ℕ) (limit : ℕ) (page : List (Job × List Task)) (id : ℕ)
    → store.unfinished_jobs_page after limit ≡ some page
    → last_id page ≡ some id
    → (from_id after ≤ id) × (id < bound)

last_id-some :
    (q : Job × List Task) (rest : List (Job × List Task))
    → (id : ℕ) × (last_id (q ∷ rest) ≡ some id)
last_id-some (j, ts) [] = (j.id, refl)
last_id-some q (p ∷ rest) = last_id-some p rest

-- A page is enough, or the pages after it are read.
restore_pages-some :
    (fuel : ℕ) (store : Store) (after : Option ℕ) (m : Restored) (page : List (Job × List Task))
    → store.unfinished_jobs_page after 200 ≡ some page
    → ((id : ℕ)
        → last_id page ≡ some id
        → (found : Restored) × (restore_pages fuel store (last_id page) (restore_page page m)
            ≡ some found))
    → (found : Restored) × (restore_pages (suc fuel) store after m ≡ some found)
unfolding restore_pages
restore_pages-some fuel store after m [] p later = (m, ground arith)
restore_pages-some fuel store after m (q ∷ rest) p later =
    let (id, last) = last_id-some q rest in
    let (found, next) = later id last in
    elim (Bool-cases (length (q ∷ rest) == 200)) [
      | inl full ↦ (found, ground arith)
      | inr short ↦ (restore_page (q ∷ rest) m, ground arith)
    ]

pub restore_pages-ends :
    (fuel bound : ℕ) (store : Store) (after : Option ℕ) (m : Restored)
    → IsPaged bound store
    → bound < fuel + from_id after
    → from_id after ≤ bound
    → (found : Restored) × (restore_pages fuel store after m ≡ some found)
unfolding restore_pages
restore_pages-ends zero bound store after m paged enough below = absurd (omega arith)
restore_pages-ends (suc fuel) bound store after m paged enough below =
    elim (Option-cases (store.unfinished_jobs_page after 200)) [
      | inl p ↦ (m, ground arith)
      | inr (page, p) ↦ restore_pages-some fuel store after m page p λ id last.
          let (after_it, within) = paged after 200 page id p last in
          restore_pages-ends fuel bound store (last_id page) (restore_page page m) paged
            (rw last (omega arith)) (rw last (omega arith))
    ]
