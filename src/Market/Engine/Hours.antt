-- ===== src/Market/Engine/Hours.antt =====
-- crates/app-core/src/market/engine.rs, `Buckets::from_observations`: one price for each hour.
use gavel.Shared.{
  ℕ, ◌/◌, ◌≡◌, refl, sym, ap, subst, ◌∙◌, ◌⊎◌, inl, inr, Bool, true, false, ◌==◌, ==_iff, Option,
  none, some, List, [], ◌∷◌, map, arith, if◌then◌else◌, Bool-cases, count,
}
use gavel.Shared.BTreeMap.{BTreeMap, get, insert, values, get-insert, IsSorted, insert-IsSorted}
use gavel.Shared.Sort.{IsAscending, sort-IsAscending, count-sort}
use gavel.Time.{Millis}
use gavel.Market.Defs.{Copper}
use gavel.Market.Latest.{hold, price_of, latest, Shows, latest_lem, Keeps-Shows}
use gavel.Market.Engine.Defs.{
  bucket_ms, Buckets, replace, latest_by_hour, price_in, from_observations,
}

abbrev pub in_hour : ℕ → Millis → Bool
in_hour hour at = at / bucket_ms == hour

replace-hold :
    (held : Option (Millis × Copper)) (at : Millis) (price : Copper)
    → some (replace held at price) ≡ hold held at price
replace-hold none at price = refl
replace-hold (some (t, p)) at price = ground arith

get-latest_by_hour :
    (hour : ℕ) (seen : List (Millis × Copper)) (m : BTreeMap (Millis × Copper))
    → get hour (latest_by_hour seen m) ≡ latest (in_hour hour) (get hour m) seen
unfolding latest_by_hour
get-latest_by_hour hour [] m = refl
get-latest_by_hour hour ((at, price) ∷ seen) m =
    get-latest_by_hour hour seen
      (insert (at / bucket_ms) (replace (get (at / bucket_ms) m) at price) m)
    ∙ ap (λ held. latest (in_hour hour) held seen) (by_hour (Bool-cases (in_hour hour at)))
  where
    by_hour :
        (in_hour hour at ≡ true) ⊎ (in_hour hour at ≡ false)
        → get hour (insert (at / bucket_ms) (replace (get (at / bucket_ms) m) at price) m)
          ≡ (if in_hour hour at then hold (get hour m) at price else get hour m)
    by_hour (inl e) =
        let here =
          rw e at
            (get-insert (at / bucket_ms) hour (replace (get (at / bucket_ms) m) at price) m) in
        let same : at / bucket_ms ≡ hour = (==_iff (at / bucket_ms) hour).0 e in
        rw e (
          here
          ∙ replace-hold (get (at / bucket_ms) m) at price
          ∙ ap (λ k. hold (get k m) at price) same)
    by_hour (inr e) =
        rw e
          (rw e at (get-insert (at / bucket_ms) hour (replace (get (at / bucket_ms) m) at price) m))

IsSorted-latest_by_hour :
    (seen : List (Millis × Copper)) (m : BTreeMap (Millis × Copper))
    → IsSorted m
    → IsSorted (latest_by_hour seen m)
unfolding latest_by_hour
IsSorted-latest_by_hour [] m s = s
IsSorted-latest_by_hour ((at, price) ∷ seen) m s =
    IsSorted-latest_by_hour seen
      (insert (at / bucket_ms) (replace (get (at / bucket_ms) m) at price) m)
      (insert-IsSorted (at / bucket_ms) (replace (get (at / bucket_ms) m) at price) m s)

-- The prices of hours, each hour once: for every hour in which something was observed the price of
-- the last observation, for the others none; and the buckets are these prices in ascending order.
pub record IsHourly (seen : List (Millis × Copper)) (b : Buckets) : Type 0 where
  pub hours : BTreeMap (Millis × Copper)
  pub once : IsSorted hours
  pub last : (hour : ℕ) → Shows (in_hour hour) seen (price_of (get hour hours))
  pub ascending : IsAscending b.prices
  pub same : (p : ℕ → Bool) → count p b.prices ≡ count p (map price_in (values hours))

-- The buckets of any observations are hourly: they have, in ascending order, the price of the last
-- observation of each hour in which there is one.
pub from_observations-IsHourly :
    (seen : List (Millis × Copper)) → IsHourly seen (from_observations seen)
unfolding from_observations get
from_observations-IsHourly seen = record {
  hours = latest_by_hour seen [];
  once = IsSorted-latest_by_hour seen [] tt;
  last = λ hour.
      subst (λ o. Shows (in_hour hour) seen (price_of o)) (sym (get-latest_by_hour hour seen []))
        (Keeps-Shows (in_hour hour) seen (latest (in_hour hour) none seen)
          (latest_lem (in_hour hour) none seen));
  ascending = sort-IsAscending (map price_in (values (latest_by_hour seen [])));
  same = λ p. count-sort p (map price_in (values (latest_by_hour seen [])));
}
