-- ===== src/Web/Fragments/Again.antt =====
-- crates/app-web/src/fragment_cache.rs, `get_or_build`: what a second call with the key is given.
use gavel.Shared.{ℕ, ◌≡◌, refl, sym, ap, ◌∙◌, ==-refl, Option, none, some, Result, ok, err}
use gavel.Shared.HashMap.{nat_eq, get-insert}
use gavel.Shared.Bytes.{bytes_key}
use gavel.Web.Fragments.Defs.{
  FragmentKey, Html, OnceCell, FragmentCache, lookup_found, lookup, settle, get_or_build, cell_of,
  or_new,
}
use gavel.Web.Fragments.Bound.{IsBounded, lookup-IsBounded}

module _ {E : Type 0} (o : OnceCell E) where
  -- The answer of a second call by that of the first and the second build's outcome.
  abbrev pub after : Result E Html → Result E Html → Result E Html
  after (ok h) second = ok h
  after (err e) second = second

  init_empty :
      (c : o.Cell) (second : Result E Html) → o.content c ≡ none → (o.try_init c second).1 ≡ second
  init_empty c (ok h) e = (o.init_ok c h e).1
  init_empty c (err x) e = (o.init_err c x e).1

  init-again :
      (c : o.Cell) (first second : Result E Html)
      → (o.try_init (o.try_init c first).0 second).1 ≡ after (o.try_init c first).1 second
  init-again c first second = by_content (o.content c) refl first
    where
      by_content :
          (x : Option Html)
          → o.content c ≡ x
          → (first : Result E Html)
          → (o.try_init (o.try_init c first).0 second).1 ≡ after (o.try_init c first).1 second
      by_content (some h) e first =
          let (set, answer) = o.init_set c h first e in
          (o.init_set (o.try_init c first).0 h second set).1 ∙ sym (ap (λ r. after r second) answer)
      by_content none e (ok h) =
          let (set, answer) = o.init_ok c h e in
          (o.init_set (o.try_init c (ok h)).0 h second set).1
          ∙ sym (ap (λ r. after r second) answer)
      by_content none e (err x) =
          let (unset, answer) = o.init_err c x e in
          init_empty (o.try_init c (err x)).0 second unset ∙ sym (ap (λ r. after r second) answer)

  cell-settle :
      (cell : ℕ) (outcome : Result E Html) (f : FragmentCache o)
      → cell_of o (settle o cell outcome f).0 cell ≡ (o.try_init (cell_of o f cell) outcome).0
  unfolding settle
  cell-settle cell outcome f = ap (or_new o) (
      rw (==-refl cell) at (get-insert cell cell (o.try_init (cell_of o f cell) outcome).0 f.cells))

  lookup-again :
      (key : FragmentKey) (outcome : Result E Html) (f : FragmentCache o)
      → IsBounded o f
      → lookup o key (get_or_build o key outcome f).0
        ≡ ((get_or_build o key outcome f).0, (lookup o key f).1)
  unfolding get_or_build settle lookup lookup_found
  lookup-again key outcome f b =
      ap (λ found. lookup_found o found key (get_or_build o key outcome f).0)
        (lookup-IsBounded o key f b).1

  -- A second call with the key is given what the first was given if that is a fragment, and the
  -- outcome of its own build if the first failed: a fragment is built once, and a failure is not
  -- remembered.
  pub get_or_build-again :
      (key : FragmentKey) (first second : Result E Html) (f : FragmentCache o)
      → IsBounded o f
      → (get_or_build o key second (get_or_build o key first f).0).1
        ≡ after (get_or_build o key first f).1 second
  unfolding get_or_build settle
  get_or_build-again key first second f b =
      let (g, cell) = lookup o key f in
      ap (λ r. (settle o r.1 second r.0).1) (lookup-again key first f b)
      ∙ ap (λ c. (o.try_init c second).1) (cell-settle cell first g)
      ∙ init-again (cell_of o g cell) first second
