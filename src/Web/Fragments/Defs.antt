-- ===== src/Web/Fragments/Defs.antt =====
-- crates/app-web/src/fragment_cache.rs. A call of `get_or_build` is the section under the lock, and
-- later the cell's own step with the outcome of the call's build; tokio's `OnceCell` is a parameter.
use gavel.Shared.{
  ℕ, suc, ltb, Option, none, some, List, [], ◌∷◌, ◌++◌, ◌≡◌, if◌then◌else◌, Result, ok, err, length,
  u64_add,
}
use gavel.Shared.HashMap.{HashMap, nat_eq, get, insert, remove}
use gavel.Shared.Bytes.{Bytes, bytes_key}
use gavel.Shared.Decimal.{decimal}
use gavel.Shared.Split.{join_with}

abbrev pub capacity : ℕ
capacity = 512

abbrev pub FragmentKey : Type 0
FragmentKey = Bytes

abbrev pub version_text : Option ℕ → Bytes
version_text none = b'-' ∷ []
version_text (some v) = decimal v

abbrev pub group_text : Option Bytes → Bytes
group_text none = b'*' ∷ []
group_text (some g) = g

-- `FragmentKey::new`.
unfoldable pub new_key :
    Bytes → Option ℕ → Bytes → Bytes → ℕ → Bytes → Bytes → Option Bytes → FragmentKey
new_key route version catalog region baseline_days realm locale group = join_with b'|' (
    route
    ∷ (b'v' ∷ version_text version)
    ∷ catalog
    ∷ region
    ∷ (decimal baseline_days ++ b'd' ∷ [])
    ∷ realm
    ∷ locale
    ∷ group_text group
    ∷ [])

-- `FragmentKey::etag`.
abbrev pub etag : FragmentKey → Bytes
etag key = b'"' ∷ (key ++ b'"' ∷ [])

abbrev pub Html : Type 0
Html = Bytes

-- tokio's `OnceCell`: `get_or_try_init` with the outcome of the initialiser, and what it documents.
pub record OnceCell (E : Type 0) : Type 1 where
  pub Cell : Type 0
  pub new : Cell
  pub content : Cell → Option Html
  pub try_init : Cell → Result E Html → Cell × Result E Html
  pub content-new : content new ≡ none
  pub init_set :
      (c : Cell) (h : Html) (o : Result E Html)
      → content c ≡ some h
      → (content (try_init c o).0 ≡ some h) × ((try_init c o).1 ≡ ok h)
  pub init_ok :
      (c : Cell) (h : Html)
      → content c ≡ none
      → (content (try_init c (ok h)).0 ≡ some h) × ((try_init c (ok h)).1 ≡ ok h)
  pub init_err :
      (c : Cell) (e : E)
      → content c ≡ none
      → (content (try_init c (err e)).0 ≡ none) × ((try_init c (err e)).1 ≡ err e)

-- The `while` of `get_or_build`: the oldest entries are dropped.
unfoldable pub evict :
    List FragmentKey → HashMap FragmentKey ℕ → List FragmentKey × HashMap FragmentKey ℕ
evict [] entries = ([], entries)
evict (oldest ∷ order) entries =
    let rest = evict order (remove oldest entries) in
    if ltb capacity (length (oldest ∷ order)) then rest else (oldest ∷ order, entries)

module _ {E : Type 0} (o : OnceCell E) where
  -- `FragmentCache`, with the store of the cells, a cell being shared by its number.
  pub record FragmentCache : Type 0 where
    pub entries : HashMap FragmentKey ℕ
    pub order : List FragmentKey
    pub events_epoch : ℕ
    pub cells : HashMap ℕ o.Cell
    pub next_cell : ℕ

  unfoldable pub new_cache : FragmentCache
  new_cache = record { entries = []; order = []; events_epoch = 0; cells = []; next_cell = 0 }

  -- `bump_events`.
  abbrev pub bump_events : FragmentCache → FragmentCache
  bump_events f = record f { events_epoch = u64_add f.events_epoch 1 }

  -- The cell of a call, by what the map has under its key.
  unfoldable pub lookup_found : Option ℕ → FragmentKey → FragmentCache → FragmentCache × ℕ
  lookup_found (some cell) key f = (f, cell)
  lookup_found none key f =
      let (order, entries) = evict (f.order ++ key ∷ []) (insert key f.next_cell f.entries) in
      (
        record f {
          entries = entries;
          order = order;
          cells = insert f.next_cell o.new f.cells;
          next_cell = suc f.next_cell;
        },
        f.next_cell,
      )

  -- `get_or_build` under the lock.
  unfoldable pub lookup : FragmentKey → FragmentCache → FragmentCache × ℕ
  lookup key f = lookup_found (get key f.entries) key f

  abbrev pub or_new : Option o.Cell → o.Cell
  or_new none = o.new
  or_new (some c) = c

  abbrev pub cell_of : FragmentCache → ℕ → o.Cell
  cell_of f cell = or_new (get cell f.cells)

  -- `get_or_try_init` on the cell.
  unfoldable pub settle : ℕ → Result E Html → FragmentCache → FragmentCache × Result E Html
  settle cell outcome f =
      let (c, answer) = o.try_init (cell_of f cell) outcome in
      (record f { cells = insert cell c f.cells }, answer)

  -- `get_or_build`, where nothing comes between.
  unfoldable pub get_or_build :
      FragmentKey → Result E Html → FragmentCache → FragmentCache × Result E Html
  get_or_build key outcome f = let (g, cell) = lookup key f in settle cell outcome g

  -- `len`.
  abbrev pub len : FragmentCache → ℕ
  len f = length f.entries
