-- ===== src/Web/Fragments/Answers.antt =====
-- crates/app-web/src/fragment_cache.rs, `get_or_build`: what callers are given as their calls
-- interleave. A call takes its cell when it arrives, and settles it in any later order.
use gavel.Shared.{
  ℕ, zero, suc, ◌≤◌, ◌<◌, ◌≡◌, refl, sym, ap, subst, ◌∙◌, inl, inr, Bool, true, false, ◌==◌, Option,
  none, some, List, [], ◌∷◌, ◌++◌, arith, if◌then◌else◌, Result, ok, err, get_elem?, All, ==-refl,
  ==_iff, Bool-cases,
}
use gavel.Shared.HashMap.{nat_eq, get, insert, get-insert}
use gavel.Shared.Bytes.{bytes_eq, bytes_eq_iff, bytes_key}
use gavel.Web.Fragments.Defs.{
  FragmentKey, Html, OnceCell, FragmentCache, lookup_found, lookup, settle, new_cache, cell_of,
  or_new,
}
use gavel.Web.Fragments.Bound.{get-evict_old}

some_inj {ℓ} : {A : Type ℓ} {a b : A} → some a ≡ some b → a ≡ b
some_inj e = ground (arith, e)

none≢some {ℓ} : {A : Type ℓ} {a : A} → none ≡ some a → ⊥
none≢some e = ground (arith, e)

module _ {E : Type 0} (o : OnceCell E) where
  -- A call under way: its key, the outcome that its build has when it runs, and its cell.
  pub record Call : Type 0 where
    pub key : FragmentKey
    pub outcome : Result E Html
    pub cell : ℕ

  pub data Event : Type 0 where
    arrive : FragmentKey → Result E Html → Event
    finish : ℕ → Event

  -- The cache, the calls that have arrived, and the answers with the keys they were given for.
  pub record Service : Type 0 where
    pub cache : FragmentCache o
    pub calls : List Call
    pub answers : List (FragmentKey × Result E Html)

  abbrev pub settle_call : Option Call → Service → Service
  settle_call none s = s
  settle_call (some c) s =
      let (cache, answer) = settle o c.cell c.outcome s.cache in
      record s { cache = cache; answers = (c.key, answer) ∷ s.answers }

  abbrev pub step : Event → Service → Service
  step (arrive key outcome) s =
      let (cache, cell) = lookup o key s.cache in
      record s {
        cache = cache;
        calls = record { key = key; outcome = outcome; cell = cell } ∷ s.calls;
      }
  step (finish i) s = settle_call (get_elem? s.calls i) s

  abbrev pub serve : List Event → Service → Service
  serve [] s = s
  serve (e ∷ es) s = serve es (step e s)

  module _ (Built : FragmentKey → Html → Type 0) where
    abbrev pub Sound : FragmentKey → Result E Html → Type 0
    Sound key (ok h) = Built key h
    Sound key (err e) = Unit

    abbrev pub SoundEvent : Event → Type 0
    SoundEvent (arrive key outcome) = Sound key outcome
    SoundEvent (finish i) = Unit

    -- Each cell is of one key, its owner.
    pub record IsOwned (owner : ℕ → FragmentKey) (s : Service) : Type 0 where
      pub entries_owned :
          (key : FragmentKey) (cell : ℕ)
          → get key s.cache.entries ≡ some cell
          → (owner cell ≡ key) × (cell < s.cache.next_cell)
      pub calls_owned :
          All
            (λ c. (owner c.cell ≡ c.key) × (c.cell < s.cache.next_cell) × Sound c.key c.outcome)
            s.calls
      pub cells_sound :
          (cell : ℕ) (h : Html) → o.content (cell_of o s.cache cell) ≡ some h → Built (owner cell) h
      pub cells_new :
          (cell : ℕ) → s.cache.next_cell ≤ cell → o.content (cell_of o s.cache cell) ≡ none
      pub answers_sound : All (λ a. Sound a.0 a.1) s.answers

    try_init-Sound :
        (key : FragmentKey) (c : o.Cell) (outcome : Result E Html)
        → ((h : Html) → o.content c ≡ some h → Built key h)
        → Sound key outcome
        → ((h : Html) → o.content (o.try_init c outcome).0 ≡ some h → Built key h)
          × Sound key (o.try_init c outcome).1
    try_init-Sound key c outcome held s = by_content (o.content c) refl outcome s
      where
        by_content :
            (x : Option Html)
            → o.content c ≡ x
            → (outcome : Result E Html) → Sound key outcome
            → ((h : Html) → o.content (o.try_init c outcome).0 ≡ some h → Built key h)
              × Sound key (o.try_init c outcome).1
        by_content (some h) e outcome s =
            let (set, answer) = o.init_set c h outcome e in
            ((λ h' e'. held h' (e ∙ sym set ∙ e')), subst (Sound key) (sym answer) (held h e))
        by_content none e (ok h) s =
            let (set, answer) = o.init_ok c h e in
            (
              (λ h' e'. subst (Built key) (some_inj (sym set ∙ e')) s),
              subst (Sound key) (sym answer) s,
            )
        by_content none e (err x) s =
            let (unset, answer) = o.init_err c x e in
            ((λ h' e'. absurd (none≢some (sym unset ∙ e'))), subst (Sound key) (sym answer) tt)

    new_owner : FragmentKey → ℕ → (ℕ → FragmentKey) → ℕ → FragmentKey
    new_owner key next owner cell = if next == cell then key else owner cell

    older :
        (key : FragmentKey) (next : ℕ) (owner : ℕ → FragmentKey) (cell : ℕ)
        → cell < next
        → new_owner key next owner cell ≡ owner cell
    unfolding new_owner
    older key next owner cell h = let e : (next == cell) ≡ false = ground arith in rw e refl

    calls-older :
        (key : FragmentKey) (next : ℕ) (owner : ℕ → FragmentKey) (calls : List Call)
        → All (λ c. (owner c.cell ≡ c.key) × (c.cell < next) × Sound c.key c.outcome) calls
        → All
            (λ c.
              (new_owner key next owner c.cell ≡ c.key)
              × (c.cell < suc next)
              × Sound c.key c.outcome)
            calls
    calls-older key next owner [] a = tt
    calls-older key next owner (c ∷ calls) a = (
      (older key next owner c.cell a.0.1 ∙ a.0.0, omega (arith, a.0.1), a.0.2),
      calls-older key next owner calls a.1,
    )

    abbrev arrived : Option ℕ → FragmentKey → Result E Html → Service → Service
    arrived found key outcome s =
        let (cache, cell) = lookup_found o found key s.cache in
        record s {
          cache = cache;
          calls = record { key = key; outcome = outcome; cell = cell } ∷ s.calls;
        }

    found-IsOwned :
        (owner : ℕ → FragmentKey) (key : FragmentKey) (outcome : Result E Html) (s : Service)
        (cell : ℕ)
        → get key s.cache.entries ≡ some cell
        → Sound key outcome
        → IsOwned owner s
        → IsOwned owner (arrived (some cell) key outcome s)
    unfolding lookup_found
    found-IsOwned owner key outcome s cell e sound w =
        let (same, old) = w.entries_owned key cell e in
        record {
          entries_owned = w.entries_owned;
          calls_owned = ((same, old, sound), w.calls_owned);
          cells_sound = w.cells_sound;
          cells_new = w.cells_new;
          answers_sound = w.answers_sound;
        }

    cell-arrived :
        (key : FragmentKey) (outcome : Result E Html) (s : Service) (cell : ℕ)
        → cell_of o (arrived none key outcome s).cache cell
          ≡ (if s.cache.next_cell == cell then o.new else cell_of o s.cache cell)
    unfolding lookup_found
    cell-arrived key outcome s cell = by_number (s.cache.next_cell == cell) refl
      where
        by_number :
            (b : Bool)
            → (s.cache.next_cell == cell) ≡ b
            → or_new o (get cell (insert s.cache.next_cell o.new s.cache.cells))
              ≡ (if b then o.new else cell_of o s.cache cell)
        by_number true e =
            ap (or_new o) (rw e at (get-insert s.cache.next_cell cell o.new s.cache.cells))
        by_number false e =
            ap (or_new o) (rw e at (get-insert s.cache.next_cell cell o.new s.cache.cells))

    absent-IsOwned :
        (owner : ℕ → FragmentKey) (key : FragmentKey) (outcome : Result E Html) (s : Service)
        → Sound key outcome
        → IsOwned owner s
        → IsOwned (new_owner key s.cache.next_cell owner) (arrived none key outcome s)
    unfolding lookup_found new_owner
    absent-IsOwned owner key outcome s sound w = record {
      entries_owned = λ k cell e. entry k cell (
          get-evict_old (s.cache.order ++ key ∷ []) (insert key s.cache.next_cell s.cache.entries) k
            cell e);
      calls_owned = (
        (newest, omega arith, sound),
        calls-older key s.cache.next_cell owner s.calls w.calls_owned,
      );
      cells_sound = λ cell h e. elim (Bool-cases (s.cache.next_cell == cell)) [
        | inl q ↦
            let fresh : cell_of o (arrived none key outcome s).cache cell ≡ o.new =
              rw q at (cell-arrived key outcome s cell) in
            absurd (none≢some (sym o.content-new ∙ ap o.content (sym fresh) ∙ e))
        | inr q ↦
            let kept : cell_of o (arrived none key outcome s).cache cell ≡ cell_of o s.cache cell =
              rw q at (cell-arrived key outcome s cell) in
            rw q (w.cells_sound cell h (ap o.content (sym kept) ∙ e))
      ];
      cells_new = λ cell le.
          let q : (s.cache.next_cell == cell) ≡ false = ground arith in
          let kept : cell_of o (arrived none key outcome s).cache cell ≡ cell_of o s.cache cell =
            rw q at (cell-arrived key outcome s cell) in
          ap o.content kept ∙ w.cells_new cell (omega arith);
      answers_sound = w.answers_sound;
    }
      where
        newest : new_owner key s.cache.next_cell owner s.cache.next_cell ≡ key
        newest =
            let q : (s.cache.next_cell == s.cache.next_cell) ≡ true = ==-refl s.cache.next_cell in
            rw q refl

        entry :
            (k : FragmentKey) (cell : ℕ)
            → get k (insert key s.cache.next_cell s.cache.entries) ≡ some cell
            → (new_owner key s.cache.next_cell owner cell ≡ k) × (cell < suc s.cache.next_cell)
        entry k cell e = elim (Bool-cases (bytes_eq key k)) [
          | inl same ↦
              let here : get k (insert key s.cache.next_cell s.cache.entries)
                  ≡ some s.cache.next_cell =
                rw same at (get-insert key k s.cache.next_cell s.cache.entries) in
              let c : s.cache.next_cell ≡ cell = some_inj (sym here ∙ e) in
              subst
                (λ x. (new_owner key s.cache.next_cell owner x ≡ k) × (x < suc s.cache.next_cell)) c
                (newest ∙ (bytes_eq_iff key k).0 same, omega arith)
          | inr other ↦
              let there : get k (insert key s.cache.next_cell s.cache.entries)
                  ≡ get k s.cache.entries =
                rw other at (get-insert key k s.cache.next_cell s.cache.entries) in
              let (owned, lt) = w.entries_owned k cell (sym there ∙ e) in
              (older key s.cache.next_cell owner cell lt ∙ owned, omega arith)
        ]

    arrive-IsOwned :
        (owner : ℕ → FragmentKey) (key : FragmentKey) (outcome : Result E Html) (s : Service)
        → Sound key outcome
        → IsOwned owner s
        → (owner' : ℕ → FragmentKey) × IsOwned owner' (step (arrive key outcome) s)
    unfolding lookup
    arrive-IsOwned owner key outcome s sound w = by_found (get key s.cache.entries) refl
      where
        by_found :
            (found : Option ℕ)
            → get key s.cache.entries ≡ found
            → (owner' : ℕ → FragmentKey) × IsOwned owner' (arrived found key outcome s)
        by_found (some cell) e = (owner, found-IsOwned owner key outcome s cell e sound w)
        by_found none e =
            (new_owner key s.cache.next_cell owner, absent-IsOwned owner key outcome s sound w)

    abbrev IsCallOwned : (ℕ → FragmentKey) → Service → Option Call → Type 0
    IsCallOwned owner s none = Unit
    IsCallOwned owner s (some c) =
        (owner c.cell ≡ c.key) × (c.cell < s.cache.next_cell) × Sound c.key c.outcome

    cell-settled :
        (i cell : ℕ) (outcome : Result E Html) (f : FragmentCache o)
        → cell_of o (settle o i outcome f).0 cell
          ≡ (if i == cell then (o.try_init (cell_of o f i) outcome).0 else cell_of o f cell)
    unfolding settle
    cell-settled i cell outcome f =
        by_number (i == cell) (get-insert i cell (o.try_init (cell_of o f i) outcome).0 f.cells)
      where
        by_number :
            (b : Bool)
            → get cell (insert i (o.try_init (cell_of o f i) outcome).0 f.cells)
              ≡ (if b then some (o.try_init (cell_of o f i) outcome).0 else get cell f.cells)
            → or_new o (get cell (insert i (o.try_init (cell_of o f i) outcome).0 f.cells))
              ≡ (if b then (o.try_init (cell_of o f i) outcome).0 else cell_of o f cell)
        by_number true e = ap (or_new o) e
        by_number false e = ap (or_new o) e

    settle-IsOwned :
        (owner : ℕ → FragmentKey) (c : Call) (s : Service)
        → IsCallOwned owner s (some c)
        → IsOwned owner s
        → IsOwned owner (settle_call (some c) s)
    unfolding settle
    settle-IsOwned owner c s a w =
        let (held, sound) =
          try_init-Sound c.key (cell_of o s.cache c.cell) c.outcome
            (λ h e. subst (λ k. Built k h) a.0 (w.cells_sound c.cell h e)) a.2 in
        record {
          entries_owned = w.entries_owned;
          calls_owned = w.calls_owned;
          cells_sound = λ cell h e. elim (Bool-cases (c.cell == cell)) [
            | inl q ↦
                let set = rw q at (cell-settled c.cell cell c.outcome s.cache) in
                subst (λ k. Built k h) (sym a.0 ∙ ap owner ((==_iff c.cell cell).0 q))
                  (held h (ap o.content (sym set) ∙ e))
            | inr q ↦
                let kept = rw q at (cell-settled c.cell cell c.outcome s.cache) in
                w.cells_sound cell h (ap o.content (sym kept) ∙ e)
          ];
          cells_new = λ cell le.
              let lt : c.cell < s.cache.next_cell = a.1 in
              let q : (c.cell == cell) ≡ false = ground arith in
              let kept = rw q at (cell-settled c.cell cell c.outcome s.cache) in
              ap o.content kept ∙ w.cells_new cell le;
          answers_sound = (sound, w.answers_sound);
        }

    get_elem?-IsCallOwned :
        (owner : ℕ → FragmentKey) (s : Service) (calls : List Call) (i : ℕ)
        → All
            (λ c. (owner c.cell ≡ c.key) × (c.cell < s.cache.next_cell) × Sound c.key c.outcome)
            calls
        → IsCallOwned owner s (get_elem? calls i)
    get_elem?-IsCallOwned owner s [] i a = tt
    get_elem?-IsCallOwned owner s (c ∷ calls) zero a = a.0
    get_elem?-IsCallOwned owner s (c ∷ calls) (suc i) a = get_elem?-IsCallOwned owner s calls i a.1

    finish-IsOwned :
        (owner : ℕ → FragmentKey) (i : ℕ) (s : Service)
        → IsOwned owner s
        → IsOwned owner (step (finish i) s)
    finish-IsOwned owner i s w =
        by_call (get_elem? s.calls i) (get_elem?-IsCallOwned owner s s.calls i w.calls_owned)
      where
        by_call : (c : Option Call) → IsCallOwned owner s c → IsOwned owner (settle_call c s)
        by_call none a = w
        by_call (some c) a = settle-IsOwned owner c s a w

    serve-IsOwned :
        (events : List Event) (owner : ℕ → FragmentKey) (s : Service)
        → All SoundEvent events
        → IsOwned owner s
        → (owner' : ℕ → FragmentKey) × IsOwned owner' (serve events s)
    serve-IsOwned [] owner s a w = (owner, w)
    serve-IsOwned (arrive key outcome ∷ events) owner s a w =
        let (owner', w') = arrive-IsOwned owner key outcome s a.0 w in
        serve-IsOwned events owner' (step (arrive key outcome) s) a.1 w'
    serve-IsOwned (finish i ∷ events) owner s a w =
        serve-IsOwned events owner (step (finish i) s) a.1 (finish-IsOwned owner i s w)

  abbrev pub new_service : Service
  unfolding new_cache get
  new_service = record { cache = new_cache o; calls = []; answers = [] }

  -- However calls arrive and settle, and whatever is dropped in between: if every build that
  -- succeeds gives what its key stands for, then every fragment that is answered is what the key of
  -- that call stands for, though another call may have built it.
  pub serve-Sound :
      (Built : FragmentKey → Html → Type 0) (events : List Event)
      → All (SoundEvent Built) events
      → All (λ a. Sound Built a.0 a.1) (serve events new_service).answers
  unfolding new_cache get
  serve-Sound Built events a =
      let (owner, w) =
        serve-IsOwned Built events (λ _. []) new_service a
          (record {
            entries_owned = λ key cell e. absurd (none≢some e);
            calls_owned = tt;
            cells_sound = λ cell h e. absurd (none≢some (sym o.content-new ∙ e));
            cells_new = λ cell le. o.content-new;
            answers_sound = tt;
          }) in
      w.answers_sound
