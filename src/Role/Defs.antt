-- ===== src/Role/Defs.antt =====
-- crates/cluster-core/src/role.rs: roles, sets of roles and replica policies.
use Prim.Native.Nat.{bit_and, bit_or}
use gavel.Shared.{
  ℕ, ◌+◌, ◌-◌, ◌/◌, ◌%◌, ◌^◌, Bool, true, false, not, Option, none, List, [], ◌∷◌, String, ◌⋯◌,
  ◌==◌, if◌then◌else◌, ltb, leb, filter, find,
}
use text.Mathlib.Text.{◌==◌ as str_eq}

pub data Role : Type 0 where
  gateway frontend backend compute storage coordinator : Role

abbrev pub all_roles : List Role
all_roles = gateway ∷ frontend ∷ backend ∷ compute ∷ storage ∷ coordinator ∷ []

abbrev pub degradation_priority : List Role
degradation_priority = gateway ∷ frontend ∷ backend ∷ storage ∷ coordinator ∷ compute ∷ []

abbrev pub index : Role → ℕ
index gateway = 0
index frontend = 1
index backend = 2
index compute = 3
index storage = 4
index coordinator = 5

abbrev pub bit : Role → ℕ
bit role = 2 ^ index role

-- The derived `==` of `Role`.
abbrev pub role_eq : Role → Role → Bool
role_eq a b = index a == index b

unfoldable pub as_str : Role → String
as_str gateway = "gateway"
as_str frontend = "frontend"
as_str backend = "backend"
as_str compute = "compute"
as_str storage = "storage"
as_str coordinator = "coordinator"

-- `position`, and its result where nothing fits.
unfoldable pub position_or : ℕ → Role → ℕ → List Role → ℕ
position_or default role i [] = default
position_or default role i (r ∷ rs) =
    let rest = position_or default role (i + 1) rs in if role_eq r role then i else rest

unfoldable pub shed_priority : Role → ℕ
unfolding position_or
shed_priority role = position_or 18446744073709551615 role 0 degradation_priority

unfoldable pub parse_role : String → Option Role
unfolding as_str
parse_role s = find (λ r. str_eq (as_str r) s) all_roles

-- `RoleSet`: one byte.
abbrev pub RoleSet : Type 0
RoleSet = ℕ

abbrev pub empty : RoleSet
empty = 0

unfoldable pub has : RoleSet → Role → Bool
has set role = not (bit_and set (bit role) == 0)

unfoldable pub insert : RoleSet → Role → RoleSet × Bool
unfolding has
insert set role = (bit_or set (bit role), not (has set role))

-- `!role.bit()` on a u8 is 255 less the bit.
unfoldable pub remove : RoleSet → Role → RoleSet × Bool
unfolding has
remove set role = (bit_and set (255 - bit role), has set role)

unfoldable pub from_roles_onto : RoleSet → List Role → RoleSet
unfolding insert
from_roles_onto set [] = set
from_roles_onto set (role ∷ rest) = from_roles_onto (insert set role).0 rest

unfoldable pub from_roles : List Role → RoleSet
unfolding from_roles_onto
from_roles roles = from_roles_onto empty roles

abbrev pub is_empty : RoleSet → Bool
is_empty set = set == 0

-- `count_ones` of a byte.
unfoldable pub len : RoleSet → ℕ
len set =
    set % 2
    + (set / 2 % 2
        + (set / 4 % 2
            + (set / 8 % 2 + (set / 16 % 2 + (set / 32 % 2 + (set / 64 % 2 + set / 128 % 2))))))

unfoldable pub iter : RoleSet → List Role
unfolding has
iter set = filter (has set) all_roles

-- The loop of `RoleSet::fmt`: what is written after the first `first` entries.
unfoldable pub write_roles : Bool → List Role → String
unfolding as_str
write_roles first [] = if first then "none" else ""
write_roles first (role ∷ rest) =
    (if first then "" else ", ") ⋯ as_str role ⋯ write_roles false rest

unfoldable pub display : RoleSet → String
unfolding write_roles iter
display set = write_roles true (iter set)

pub record RolePolicy : Type 0 where
  pub min_replicas : ℕ
  pub max_replicas : Option ℕ

abbrev pub new_policy : ℕ → RolePolicy
new_policy min_replicas = record { min_replicas = min_replicas; max_replicas = none }

-- An array of six, indexed by `Role::index`: `[RolePolicy; 6]` and `[usize; 6]`.
pub record ByRole {ℓ} (A : Type ℓ) : Type ℓ where
  pub at_gateway : A
  pub at_frontend : A
  pub at_backend : A
  pub at_compute : A
  pub at_storage : A
  pub at_coordinator : A

module _ {ℓ} {A : Type ℓ} where
  unfoldable pub get : ByRole A → Role → A
  get a gateway = a.at_gateway
  get a frontend = a.at_frontend
  get a backend = a.at_backend
  get a compute = a.at_compute
  get a storage = a.at_storage
  get a coordinator = a.at_coordinator

  unfoldable pub set : ByRole A → Role → A → ByRole A
  set a gateway x = record a { at_gateway = x }
  set a frontend x = record a { at_frontend = x }
  set a backend x = record a { at_backend = x }
  set a compute x = record a { at_compute = x }
  set a storage x = record a { at_storage = x }
  set a coordinator x = record a { at_coordinator = x }

  abbrev pub everywhere : A → ByRole A
  everywhere x = record {
    at_gateway = x;
    at_frontend = x;
    at_backend = x;
    at_compute = x;
    at_storage = x;
    at_coordinator = x;
  }

abbrev pub RolePolicies : Type 0
RolePolicies = ByRole RolePolicy

-- `RolePolicies::default`.
unfoldable pub default_policies : RolePolicies
unfolding set
default_policies =
    let p = everywhere (new_policy 0) in
    let p = set p gateway (new_policy 1) in
    let p = set p frontend (new_policy 2) in
    let p = set p backend (new_policy 2) in
    let p = set p storage (new_policy 1) in set p coordinator (new_policy 1)

-- The `filter_map` of `unmet`: the deficits, in the order of the roles.
unfoldable pub deficits : RolePolicies → (Role → ℕ) → List Role → List (Role × ℕ)
unfolding get
deficits policies counts [] = []
deficits policies counts (role ∷ rest) =
    let want = (get policies role).min_replicas in
    let have = counts role in
    let others = deficits policies counts rest in
    if ltb have want then (role, want - have) ∷ others else others

-- `sort_by_key`, which is stable: an entry goes behind those whose key is not greater.
unfoldable pub sort_insert : Role × ℕ → List (Role × ℕ) → List (Role × ℕ)
unfolding shed_priority
sort_insert e [] = e ∷ []
sort_insert e (d ∷ ds) =
    let rest = sort_insert e ds in
    if leb (shed_priority d.0) (shed_priority e.0) then d ∷ rest else e ∷ d ∷ ds

unfoldable pub sort_from : List (Role × ℕ) → List (Role × ℕ) → List (Role × ℕ)
unfolding sort_insert
sort_from done [] = done
sort_from done (e ∷ es) = sort_from (sort_insert e done) es

unfoldable pub unmet : RolePolicies → (Role → ℕ) → List (Role × ℕ)
unfolding deficits sort_from
unmet policies counts = sort_from [] (deficits policies counts all_roles)
