-- ===== src/Role/Policy.antt =====
-- crates/cluster-core/src/role.rs, `RolePolicies::unmet`.
use mathlib.Core.List.{Perm, perm_middle, append-nil}
use mathlib.Core.List.Perm
use gavel.Shared.{
  ℕ, ◌≤◌, ◌≡◌, refl, subst, inl, inr, ◌↔◌, List, [], ◌∷◌, ◌++◌, arith, leb, leb→le, if◌then◌else◌,
  Bool-cases, All,
}
use gavel.Role.Defs.{
  Role, gateway, frontend, backend, compute, storage, coordinator, all_roles, RolePolicies, get,
  set, ByRole, shed_priority, deficits, sort_insert, sort_from, unmet,
}

-- A write changes the entry of its role and no other.
pub get-set {ℓ} :
    {A : Type ℓ} (a : ByRole A) (r q : Role) (x : A)
    → get (set a r x) q ≡ (if gavel.Role.Defs.role_eq r q then x else get a q)
unfolding get set
get-set a gateway q x = ground arith
get-set a frontend q x = ground arith
get-set a backend q x = ground arith
get-set a compute q x = ground arith
get-set a storage q x = ground arith
get-set a coordinator q x = ground arith

sort_insert-perm : (e : Role × ℕ) (ds : List (Role × ℕ)) → Perm (sort_insert e ds) (e ∷ ds)
unfolding sort_insert
sort_insert-perm e [] = Perm.refl (e ∷ [])
sort_insert-perm e (d ∷ ds) = elim (Bool-cases (leb (shed_priority d.0) (shed_priority e.0))) [
  | inl h ↦ rw h (Perm.trans (Perm.cons d (sort_insert-perm e ds)) (Perm.swap e d ds))
  | inr h ↦ rw h (Perm.refl (e ∷ d ∷ ds))
]

sort_from-perm : (done es : List (Role × ℕ)) → Perm (sort_from done es) (es ++ done)
unfolding sort_from
sort_from-perm done [] = Perm.refl done
sort_from-perm done (e ∷ es) =
    Perm.trans (sort_from-perm (sort_insert e done) es)
      (Perm.trans (Perm.append (Perm.refl es) (sort_insert-perm e done)) (perm_middle es done))

-- Each entry comes before those of a greater priority number.
abbrev pub IsOrdered : List (Role × ℕ) → Type 0
IsOrdered [] = Unit {0}
IsOrdered (d ∷ ds) = All (λ e. shed_priority d.0 ≤ shed_priority e.0) ds × IsOrdered ds

sort_insert-All :
    (k : ℕ) (e : Role × ℕ) (ds : List (Role × ℕ))
    → k ≤ shed_priority e.0
    → All (λ d. k ≤ shed_priority d.0) ds
    → All (λ d. k ≤ shed_priority d.0) (sort_insert e ds)
unfolding sort_insert
sort_insert-All k e [] h a = (h, tt)
sort_insert-All k e (d ∷ ds) h a = ground (arith, sort_insert-All k e ds h a.1)

All-le :
    (k m : ℕ) (ds : List (Role × ℕ))
    → k ≤ m
    → All (λ d. m ≤ shed_priority d.0) ds
    → All (λ d. k ≤ shed_priority d.0) ds
All-le k m [] h a = tt
All-le k m (d ∷ ds) h a = (omega arith, All-le k m ds h a.1)

sort_insert-IsOrdered :
    (e : Role × ℕ) (ds : List (Role × ℕ)) → IsOrdered ds → IsOrdered (sort_insert e ds)
unfolding sort_insert
sort_insert-IsOrdered e [] o = (tt, tt)
sort_insert-IsOrdered e (d ∷ ds) o =
    elim (Bool-cases (leb (shed_priority d.0) (shed_priority e.0))) [
      | inl h ↦ rw h (
        sort_insert-All (shed_priority d.0) e ds (leb→le _ _ h) o.0,
        sort_insert-IsOrdered e ds o.1,
      )
      | inr h ↦
          let le : shed_priority e.0 ≤ shed_priority d.0 = ground arith in
          rw h ((le, All-le (shed_priority e.0) (shed_priority d.0) ds le o.0), o)
    ]

sort_from-IsOrdered : (done es : List (Role × ℕ)) → IsOrdered done → IsOrdered (sort_from done es)
unfolding sort_from
sort_from-IsOrdered done [] o = o
sort_from-IsOrdered done (e ∷ es) o =
    sort_from-IsOrdered (sort_insert e done) es (sort_insert-IsOrdered e done o)

module _ (policies : RolePolicies) (counts : Role → ℕ) where
  -- The role's minimum is met.
  abbrev pub Met : Role → Type 0
  Met r = (get policies r).min_replicas ≤ counts r

  deficits-nil : (rs : List Role) → All Met rs ↔ (deficits policies counts rs ≡ [])
  unfolding deficits
  deficits-nil [] = ((λ _. refl), (λ _. tt))
  deficits-nil (r ∷ rs) = ground (arith, deficits-nil rs)

  -- `unmet` lists the deficits, each as often as the roles have it, in the order in which roles are
  -- to be kept (`shed_priority`); it is empty exactly if every role has its minimum.
  pub unmet_lem :
      Perm (unmet policies counts) (deficits policies counts all_roles)
      × IsOrdered (unmet policies counts)
      × ((unmet policies counts ≡ []) ↔ All Met all_roles)
  unfolding unmet
  unmet_lem = (
    same,
    sort_from-IsOrdered [] found tt,
    (
      (λ e.
          (deficits-nil all_roles).1 (Perm.eq-nil (Perm.symm (subst (λ l. Perm l found) e same)))),
      (λ a.
          Perm.eq-nil
            (subst (λ l. Perm (unmet policies counts) l) ((deficits-nil all_roles).0 a) same)),
    ),
  )
    where
      found : List (Role × ℕ)
      found = deficits policies counts all_roles

      same : Perm (unmet policies counts) found
      same = rw append-nil at (sort_from-perm [] found)
