-- ===== src/Web/Fragments/Bound.antt =====
-- crates/app-web/src/fragment_cache.rs, `get_or_build` under the lock: how many entries are kept.
use gavel.Shared.{
  ℕ, ◌+◌, ◌-◌, ◌≤◌, ◌≡◌, refl, sym, ap, subst, ◌∙◌, inl, inr, true, false, ltb, Option, none, some,
  List, [], ◌∷◌, ◌++◌, arith, length, Bool-cases,
}
use gavel.Shared.HashMap.{
  HashMap, nat_eq, get, insert, remove, IsMap, get-insert, get-remove, insert-IsMap, remove-IsMap,
}
use gavel.Shared.Bytes.{bytes_eq, bytes_eq_iff, bytes_key}
use gavel.Web.Fragments.Defs.{
  capacity, FragmentKey, OnceCell, evict, FragmentCache, new_cache, lookup_found, lookup,
}

-- The map has exactly the keys of the list.
abbrev pub Mirrors : List FragmentKey → HashMap FragmentKey ℕ → Type 0
Mirrors [] m = length m ≡ 0
Mirrors (k ∷ order) m = ((c : ℕ) × (get k m ≡ some c)) × Mirrors order (remove k m)

bytes_eq_refl : (k : FragmentKey) → bytes_eq k k ≡ true
bytes_eq_refl k = (bytes_eq_iff k k).1 refl

remove_absent : (k : FragmentKey) (m : HashMap FragmentKey ℕ) → get k m ≡ none → remove k m ≡ m
unfolding get remove
remove_absent k [] e = refl
remove_absent k ((j, v) ∷ m) e = ground (arith, remove_absent k m)

length-remove :
    (k : FragmentKey) (m : HashMap FragmentKey ℕ) (c : ℕ)
    → IsMap m
    → get k m ≡ some c
    → length (remove k m) + 1 ≡ length m
unfolding get remove
length-remove k [] c s e = absurd (ground arith)
length-remove k ((j, v) ∷ m) c s e = elim (Bool-cases (bytes_eq j k)) [
  | inl h ↦
      let same : j ≡ k = (bytes_eq_iff j k).0 h in
      let absent : get k m ≡ none = subst (λ i. get i m ≡ none) same s.0 in
      rw (h, remove_absent k m absent) (omega arith)
  | inr h ↦
      let e' : get k m ≡ some c = rw h at e in rw h (omega (arith, length-remove k m c s.1 e'))
]

length-Mirrors :
    (order : List FragmentKey) (m : HashMap FragmentKey ℕ)
    → IsMap m
    → Mirrors order m
    → length m ≡ length order
length-Mirrors [] m s r = r
length-Mirrors (k ∷ order) m s r = omega (
  arith,
  length-remove k m r.0.0 s r.0.1,
  length-Mirrors order (remove k m) (remove-IsMap k m s) r.1,
)

remove-insert :
    (j k : FragmentKey) (c : ℕ) (m : HashMap FragmentKey ℕ)
    → bytes_eq k j ≡ false
    → remove j (insert k c m) ≡ insert k c (remove j m)
unfolding remove insert
remove-insert j k c [] h = ground arith
remove-insert j k c ((i, v) ∷ m) h =
    ground (arith, remove-insert j k c m h, bytes_eq_iff i k, bytes_eq_iff i j, bytes_eq_iff k j)

remove-insert_same :
    (k : FragmentKey) (c : ℕ) (m : HashMap FragmentKey ℕ)
    → get k m ≡ none
    → remove k (insert k c m) ≡ m
unfolding remove insert get
remove-insert_same k c [] h = rw (bytes_eq_refl k) refl
remove-insert_same k c ((i, v) ∷ m) h = ground (arith, remove-insert_same k c m, bytes_eq_iff i k)

Mirrors-insert :
    (order : List FragmentKey) (k : FragmentKey) (c : ℕ) (m : HashMap FragmentKey ℕ)
    → get k m ≡ none
    → Mirrors order m
    → Mirrors (order ++ k ∷ []) (insert k c m)
Mirrors-insert [] k c m h r =
    let e = rw (bytes_eq_refl k) at (get-insert k k c m) in
    ((c, e), ap length (remove-insert_same k c m h) ∙ r)
Mirrors-insert (j ∷ order) k c m h r =
    let other : bytes_eq k j ≡ false = elim (Bool-cases (bytes_eq k j)) [
      | inl e ↦
          let n : none ≡ some r.0.0 = sym h ∙ ap (λ i. get i m) ((bytes_eq_iff k j).0 e) ∙ r.0.1 in
          absurd (ground arith)
      | inr e ↦ e
    ] in
    let e : get j (insert k c m) ≡ get j m = rw other at (get-insert k j c m) in
    (
      (r.0.0, e ∙ r.0.1),
      subst (Mirrors (order ++ k ∷ [])) (sym (remove-insert j k c m other))
          (Mirrors-insert order k c (remove j m) (ground (arith, get-remove j k m)) r.1),
    )

-- What `lookup` keeps of the cache.
pub record IsKept (order : List FragmentKey) (m : HashMap FragmentKey ℕ) : Type 0 where
  pub map_ok : IsMap m
  pub mirrors : Mirrors order m

evict-IsKept :
    (order : List FragmentKey) (m : HashMap FragmentKey ℕ)
    → IsKept order m
    → IsKept (evict order m).0 (evict order m).1 × (length (evict order m).0 ≤ capacity)
unfolding evict
evict-IsKept [] m w = (w, omega arith)
evict-IsKept (k ∷ order) m w = elim (Bool-cases (ltb capacity (length (k ∷ order)))) [
  | inl h ↦ rw h (
      evict-IsKept order (remove k m)
        (record { map_ok = remove-IsMap k m w.map_ok; mirrors = w.mirrors.1 }))
  | inr h ↦ rw h (w, ground arith)
]

Mirrors-last :
    (order : List FragmentKey) (k : FragmentKey) (m : HashMap FragmentKey ℕ)
    → Mirrors (order ++ k ∷ []) m
    → (c : ℕ) × (get k m ≡ some c)
Mirrors-last [] k m r = r.0
Mirrors-last (j ∷ order) k m r =
    let (c, e) = Mirrors-last order k (remove j m) r.1 in (c, still c e)
  where
    still : (c : ℕ) → get k (remove j m) ≡ some c → get k m ≡ some c
    still c e = ground (arith, get-remove j k m)

-- The newest key is not dropped.
get-evict :
    (order : List FragmentKey) (k : FragmentKey) (c : ℕ) (m : HashMap FragmentKey ℕ)
    → Mirrors (order ++ k ∷ []) m
    → get k m ≡ some c
    → get k (evict (order ++ k ∷ []) m).1 ≡ some c
unfolding evict
get-evict [] k c m r e = e
get-evict (j ∷ order) k c m r e = elim (Bool-cases (ltb capacity (length (j ∷ order ++ k ∷ [])))) [
  | inr h ↦ rw h e
  | inl h ↦
      let (c', e') = Mirrors-last order k (remove j m) r.1 in
      let found : get k (remove j m) ≡ some c = unremoved c' e' in
      rw h (get-evict order k c (remove j m) r.1 found)
]
  where
    unremoved : (c' : ℕ) → get k (remove j m) ≡ some c' → get k (remove j m) ≡ some c
    unremoved c' e' = ground (arith, get-remove j k m)

-- What is found after the drops stood there before.
pub get-evict_old :
    (order : List FragmentKey) (m : HashMap FragmentKey ℕ) (k : FragmentKey) (c : ℕ)
    → get k (evict order m).1 ≡ some c
    → get k m ≡ some c
unfolding evict
get-evict_old [] m k c e = e
get-evict_old (j ∷ order) m k c e = elim (Bool-cases (ltb capacity (length (j ∷ order)))) [
  | inr h ↦ let e' : get k m ≡ some c = rw h at e in e'
  | inl h ↦
      let e' : get k (evict order (remove j m)).1 ≡ some c = rw h at e in
      unremoved (get-evict_old order (remove j m) k c e')
]
  where
    unremoved : get k (remove j m) ≡ some c → get k m ≡ some c
    unremoved e = ground (arith, get-remove j k m)

-- The list lost the oldest keys at its front, as many as are over the capacity, and nothing else.
abbrev pub Drops : List FragmentKey → List FragmentKey → Type 0
Drops before after =
    (gone : List FragmentKey) × (gone ++ after ≡ before) × (length gone ≡ length before - 512)

evict-Drops : (order : List FragmentKey) (m : HashMap FragmentKey ℕ) → Drops order (evict order m).0
unfolding evict
evict-Drops [] m = ([], refl, omega arith)
evict-Drops (k ∷ order) m = elim (Bool-cases (ltb capacity (length (k ∷ order)))) [
  | inl h ↦
      let (gone, e, n) = evict-Drops order (remove k m) in
      rw h (k ∷ gone, ap (λ r. k ∷ r) e, ground arith)
  | inr h ↦ rw h ([], refl, ground arith)
]

-- The order after a call for a key that was found or not: as it was, or with the key as the newest
-- and without the oldest.
abbrev pub Orders : Option ℕ → FragmentKey → List FragmentKey → List FragmentKey → Type 0
Orders (some cell) key before after = after ≡ before
Orders none key before after = Drops (before ++ key ∷ []) after

module _ {E : Type 0} (o : OnceCell E) where
  -- What every call keeps of a cache.
  pub record IsBounded (f : FragmentCache o) : Type 0 where
    pub kept : IsKept f.order f.entries
    pub length_le : length f.order ≤ 512

  -- A new cache is empty.
  pub new_cache-IsBounded : IsBounded (new_cache o)
  unfolding new_cache
  new_cache-IsBounded = record {
    kept = record { map_ok = tt; mirrors = refl };
    length_le = omega arith;
  }

  -- When the section of `get_or_build` under the lock is done, the cache has at most 512 entries,
  -- with exactly the keys of its order, each once; the key of the call is found with the cell that
  -- the call waits on; and where the key was there, the order is as it was, otherwise the key is
  -- its newest, and of the rest the oldest are gone, as many as are over 512, and no other.
  pub lookup-IsBounded :
      (key : FragmentKey) (f : FragmentCache o)
      → IsBounded f
      → IsBounded (lookup o key f).0
        × (get key (lookup o key f).0.entries ≡ some (lookup o key f).1)
        × (length (lookup o key f).0.entries ≤ 512)
        × Orders (get key f.entries) key f.order (lookup o key f).0.order
  unfolding lookup lookup_found
  lookup-IsBounded key f w = by_found (get key f.entries) refl
    where
      by_found :
          (found : Option ℕ)
          → get key f.entries ≡ found
          → IsBounded (lookup_found o found key f).0
            × (get key (lookup_found o found key f).0.entries ≡ some (lookup_found o found key f).1)
            × (length (lookup_found o found key f).0.entries ≤ 512)
            × Orders found key f.order (lookup_found o found key f).0.order
      by_found (some cell) e = (
        w,
        e,
        omega (arith, w.length_le, length-Mirrors f.order f.entries w.kept.map_ok w.kept.mirrors),
        refl,
      )
      by_found none e =
          let order : List FragmentKey = f.order ++ key ∷ [] in
          let entries : HashMap FragmentKey ℕ = insert key f.next_cell f.entries in
          let added : IsKept order entries = record {
            map_ok = insert-IsMap key f.next_cell f.entries w.kept.map_ok;
            mirrors = Mirrors-insert f.order key f.next_cell f.entries e w.kept.mirrors;
          } in
          let (kept, le) = evict-IsKept order entries added in
          let here : get key entries ≡ some f.next_cell =
            rw (bytes_eq_refl key) at (get-insert key key f.next_cell f.entries) in
          (
            record { kept = kept; length_le = le },
            get-evict f.order key f.next_cell entries added.mirrors here,
            omega (
              arith,
              le,
              length-Mirrors (evict order entries).0 (evict order entries).1 kept.map_ok
                  kept.mirrors,
            ),
            evict-Drops order entries,
          )
