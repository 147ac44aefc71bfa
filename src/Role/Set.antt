-- ===== src/Role/Set.antt =====
-- crates/cluster-core/src/role.rs, `RoleSet`: the byte is a set of roles.
use gavel.Shared.{
  if◌then◌else◌, ℕ, zero, suc, ◌<◌, ◌≡◌, refl, Bool, true, false, not, ◌&&◌, ◌||◌, List, [], ◌∷◌,
  arith, ltb, tests, ◌==◌, ==_iff, length,
}
use gavel.Role.Defs.{
  Role, gateway, frontend, backend, compute, storage, coordinator, RoleSet, role_eq, has, insert,
  remove, from_roles, from_roles_onto, len, iter, empty,
}

-- The test holds of all sets with a number under the limit: a search from the top down.
every_set : (RoleSet → Bool) → ℕ → Bool
every_set test zero = true
every_set test (suc top) = if test top then every_set test top else false

from_every_set :
    (test : RoleSet → Bool) (limit : ℕ)
    → every_set test limit ≡ true
    → (set : RoleSet) → set < limit
    → test set ≡ true
unfolding every_set
from_every_set test zero checked set under = absurd (omega arith)
from_every_set test (suc top) checked set under =
    let below : every_set test top ≡ true → set < top → test set ≡ true =
      λ c u. from_every_set test top c set u in
    ground (arith, below)

every_role : (Role → Bool) → Bool
every_role p =
    p gateway && (p frontend && (p backend && (p compute && (p storage && p coordinator))))

every_role_sound : (p : Role → Bool) (r : Role) → every_role p ≡ true → p r ≡ true
unfolding every_role
every_role_sound p gateway h = ground arith
every_role_sound p frontend h = ground arith
every_role_sound p backend h = ground arith
every_role_sound p compute h = ground arith
every_role_sound p storage h = ground arith
every_role_sound p coordinator h = ground arith

bool_eq : Bool → Bool → Bool
bool_eq true b = b
bool_eq false b = not b

bool_eq_sound : (a b : Bool) → bool_eq a b ≡ true → a ≡ b
unfolding bool_eq
bool_eq_sound a b h = ground arith

both : (a b : Bool) → (a && b) ≡ true → (a ≡ true) × (b ≡ true)
both a b h = ground arith

-- What the laws say of one byte and two roles.
insert_ok : RoleSet → Role → Role → Bool
insert_ok s r q = bool_eq (has (insert s r).0 q) (role_eq r q || has s q) && ltb (insert s r).0 256

remove_ok : RoleSet → Role → Role → Bool
remove_ok s r q =
    bool_eq (has (remove s r).0 q) (not (role_eq r q) && has s q) && ltb (remove s r).0 256

insert_table : every_set (λ s. every_role (λ r. every_role (λ q. insert_ok s r q))) 256 ≡ true
unfolding every_set every_role insert_ok bool_eq insert
insert_table = refl

remove_table : every_set (λ s. every_role (λ r. every_role (λ q. remove_ok s r q))) 256 ≡ true
unfolding every_set every_role remove_ok bool_eq remove
remove_table = refl

insert_checked : (s : RoleSet) (r q : Role) → s < 256 → insert_ok s r q ≡ true
insert_checked s r q h = every_role_sound (insert_ok s r) q (
    every_role_sound (λ r'. every_role (insert_ok s r')) r
      (from_every_set (λ s'. every_role (λ r'. every_role (insert_ok s' r'))) 256 insert_table s h))

remove_checked : (s : RoleSet) (r q : Role) → s < 256 → remove_ok s r q ≡ true
remove_checked s r q h = every_role_sound (remove_ok s r) q (
    every_role_sound (λ r'. every_role (remove_ok s r')) r
      (from_every_set (λ s'. every_role (λ r'. every_role (remove_ok s' r'))) 256 remove_table s h))

-- `insert` on a byte adds the role and nothing else, leaves a byte, and says whether the role is new.
pub insert_lem :
    (s : RoleSet) (r q : Role)
    → s < 256
    → (has (insert s r).0 q ≡ (role_eq r q || has s q))
      × ((insert s r).0 < 256)
      × ((insert s r).1 ≡ not (has s r))
unfolding insert_ok insert
insert_lem s r q h =
    let (same, byte) = both _ _ (insert_checked s r q h) in
    (bool_eq_sound _ _ same, omega tests, refl)

-- `remove` on a byte takes the role away and nothing else, leaves a byte, and says whether the role
-- was there.
pub remove_lem :
    (s : RoleSet) (r q : Role)
    → s < 256
    → (has (remove s r).0 q ≡ (not (role_eq r q) && has s q))
      × ((remove s r).0 < 256)
      × ((remove s r).1 ≡ has s r)
unfolding remove_ok remove
remove_lem s r q h =
    let (same, byte) = both _ _ (remove_checked s r q h) in
    (bool_eq_sound _ _ same, omega tests, refl)

abbrev pub listed : Role → List Role → Bool
listed q [] = false
listed q (r ∷ rs) = role_eq r q || listed q rs

from_roles_onto_lem :
    (s : RoleSet) (rs : List Role) (q : Role)
    → s < 256
    → has (from_roles_onto s rs) q ≡ (has s q || listed q rs)
unfolding from_roles_onto
from_roles_onto_lem s [] q h = ground arith
from_roles_onto_lem s (r ∷ rs) q h =
    ground (arith, insert_lem s r q h, from_roles_onto_lem (insert s r).0 rs q)

has-empty : (q : Role) → has empty q ≡ false
unfolding has
has-empty gateway = refl
has-empty frontend = refl
has-empty backend = refl
has-empty compute = refl
has-empty storage = refl
has-empty coordinator = refl

-- A set built from a list of roles has exactly the roles of the list.
pub has-from_roles : (rs : List Role) (q : Role) → has (from_roles rs) q ≡ listed q rs
unfolding from_roles
has-from_roles rs q = ground (arith, from_roles_onto_lem empty rs q, has-empty q)

iter_ok : RoleSet → Bool
iter_ok s = length (iter s) == len s && every_role (λ q. bool_eq (listed q (iter s)) (has s q))

iter_table : every_set iter_ok 64 ≡ true
unfolding every_set every_role iter_ok bool_eq iter len
iter_table = refl

-- Of a set of the six roles `iter` lists each role that it has, and `len` counts them.
pub iter_lem :
    (s : RoleSet) (q : Role) → s < 64 → (listed q (iter s) ≡ has s q) × (length (iter s) ≡ len s)
unfolding iter_ok
iter_lem s q h =
    let (same, each) = both _ _ (from_every_set iter_ok 64 iter_table s h) in
    (bool_eq_sound _ _ (every_role_sound _ q each), (==_iff _ _).0 same)
