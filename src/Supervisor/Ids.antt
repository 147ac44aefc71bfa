-- ===== src/Supervisor/Ids.antt =====
-- crates/cluster-local/src/supervisor.rs, `next_free_id`: the id that an anonymous worker is given.
use native.Mathlib.Decide.{ℕ_discrete}
use gavel.Shared.{
  ℕ, zero, suc, ◌+◌, ◌≤◌, ◌<◌, ◌≡◌, refl, subst, inl, inr, true, Option, none, some, arith, is_some,
  Option-cases,
}
use gavel.Shared.BTreeMap.{BTreeMap, get}
use gavel.Supervisor.State.{NodeEntry}
use gavel.Supervisor.Nodes.{free_id_from, next_free_id}

module _ {Handle : Type 0} where
  abbrev pub IsTaken : BTreeMap (NodeEntry Handle) → ℕ → Type 0
  IsTaken nodes id = is_some (get id nodes) ≡ true

  -- What a search of the ids from `low` to below `high` may answer.
  abbrev pub IsLeastFree : BTreeMap (NodeEntry Handle) → ℕ → ℕ → Option ℕ → Type 0
  IsLeastFree nodes low high none = (j : ℕ) → low ≤ j → j < high → IsTaken nodes j
  IsLeastFree nodes low high (some id) =
      (low ≤ id)
      × (id < high)
      × (get id nodes ≡ none)
      × ((j : ℕ) → low ≤ j → j < id → IsTaken nodes j)

  -- A search that begins one id later.
  widen :
      (nodes : BTreeMap (NodeEntry Handle)) (low high : ℕ) (o : Option ℕ)
      → IsTaken nodes low
      → IsLeastFree nodes (suc low) high o
      → IsLeastFree nodes low high o
  widen nodes low high none taken h = λ j p q. elim (ℕ_discrete low j) [
    | yes same ↦ subst (λ i. IsTaken nodes i) same taken
    | no other ↦ h j (omega arith) q
  ]
  widen nodes low high (some id) taken (p, q, free, below) = (
    omega arith,
    q,
    free,
    λ j a b. elim (ℕ_discrete low j) [
      | yes same ↦ subst (λ i. IsTaken nodes i) same taken
      | no other ↦ below j (omega arith) b
    ],
  )

  free_id_from_lem :
      (left low high : ℕ) (nodes : BTreeMap (NodeEntry Handle))
      → high ≡ low + left
      → IsLeastFree nodes low high (free_id_from left low nodes)
  unfolding free_id_from
  free_id_from_lem zero low high nodes e = λ j p q. absurd (omega arith)
  free_id_from_lem (suc left) low high nodes e = elim (Option-cases (get low nodes)) [
    | inl free ↦
        rw (free, free_id_from) (omega arith, omega arith, free, λ j p q. absurd (omega arith))
    | inr (entry, taken) ↦
        rw (taken, free_id_from)
          (widen nodes low high (free_id_from left (suc low) nodes) (rw taken refl)
            (free_id_from_lem left (suc low) high nodes (omega arith)))
  ]

  -- An anonymous worker is given the least id from 1 to 65535 that no node has, and is turned away as
  -- `full` only if every one of them is taken.
  pub next_free_id_lem :
      (nodes : BTreeMap (NodeEntry Handle)) → IsLeastFree nodes 1 65536 (next_free_id nodes)
  unfolding next_free_id
  next_free_id_lem nodes = free_id_from_lem 65535 1 65536 nodes refl
