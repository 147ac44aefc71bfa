-- ===== src/Web/Fragments/Keys.antt =====
-- crates/app-web/src/fragment_cache.rs, `FragmentKey::new`: a key tells what it was built from.
use gavel.Shared.{
  ℕ, ◌≤◌, ◌≡◌, ◌≢◌, refl, ap, sym, ◌∙◌, Option, none, some, List, [], ◌∷◌, ◌++◌, arith, All,
  get_elem?, u64_max,
}
use gavel.Shared.Bytes.{Bytes}
use gavel.Shared.Decimal.{
  decimal, parse_u64, read_digits, parse_u64-decimal, decimal-IsDigit, IsDigit,
}
use gavel.Shared.Split.{split, split-join_with, split-append, Without}
use gavel.Web.Fragments.Defs.{FragmentKey, version_text, group_text, new_key}

-- What a key is built from.
pub record Parts : Type 0 where
  pub route : Bytes
  pub version : Option ℕ
  pub catalog : Bytes
  pub region : Bytes
  pub baseline_days : ℕ
  pub realm : Bytes
  pub locale : Bytes
  pub group : Option Bytes

abbrev pub key_of : Parts → FragmentKey
key_of p = new_key p.route p.version p.catalog p.region p.baseline_days p.realm p.locale p.group

abbrev pub VersionFits : Option ℕ → Type 0
VersionFits none = Unit
VersionFits (some v) = v ≤ u64_max

abbrev pub GroupPlain : Option Bytes → Type 0
GroupPlain none = Unit
GroupPlain (some g) = Without b'|' g × (g ≢ b'*' ∷ [])

-- No text has the separator, no group is the text of no group, and the numbers fit 64 bits.
pub record IsPlain (p : Parts) : Type 0 where
  pub route_plain : Without b'|' p.route
  pub version_fits : VersionFits p.version
  pub catalog_plain : Without b'|' p.catalog
  pub region_plain : Without b'|' p.region
  pub days_fit : p.baseline_days ≤ u64_max
  pub realm_plain : Without b'|' p.realm
  pub locale_plain : Without b'|' p.locale
  pub group_plain : GroupPlain p.group

digits_Without : (sep : ℕ) (t : Bytes) → 57 ≤ sep → sep ≢ 57 → All IsDigit t → Without sep t
digits_Without sep [] l n h = tt
digits_Without sep (c ∷ t) l n h = (ground (arith, h.0), digits_Without sep t l n h.1)

Without-append : (sep : ℕ) (s t : Bytes) → Without sep s → Without sep t → Without sep (s ++ t)
Without-append sep [] t a b = b
Without-append sep (c ∷ s) t a b = (a.0, Without-append sep s t a.1 b)

version_Without : (v : Option ℕ) → Without b'|' (version_text v)
version_Without none = ground arith
version_Without (some v) =
    digits_Without b'|' (decimal v) (omega arith) (ground arith) (decimal-IsDigit v)

days_Without : (n : ℕ) → Without b'|' (decimal n ++ b'd' ∷ [])
days_Without n =
    Without-append b'|' (decimal n) (b'd' ∷ [])
      (digits_Without b'|' (decimal n) (omega arith) (ground arith) (decimal-IsDigit n))
      (ground arith)

group_Without : (g : Option Bytes) → GroupPlain g → Without b'|' (group_text g)
group_Without none p = ground arith
group_Without (some g) p = p.0

abbrev fields : Parts → List Bytes
fields p =
    p.route
    ∷ (b'v' ∷ version_text p.version)
    ∷ p.catalog
    ∷ p.region
    ∷ (decimal p.baseline_days ++ b'd' ∷ [])
    ∷ p.realm
    ∷ p.locale
    ∷ group_text p.group
    ∷ []

split-key_of : (p : Parts) → IsPlain p → split b'|' (key_of p) ≡ fields p
unfolding new_key
split-key_of p h =
    let texts : All (Without b'|') (p.realm ∷ p.locale ∷ group_text p.group ∷ []) =
      (h.realm_plain, (h.locale_plain, (group_Without p.group h.group_plain, tt))) in
    let later : All (Without b'|') (
        p.catalog
        ∷ p.region
        ∷ (decimal p.baseline_days ++ b'd' ∷ [])
        ∷ p.realm
        ∷ p.locale
        ∷ group_text p.group
        ∷ []) =
      (h.catalog_plain, (h.region_plain, (days_Without p.baseline_days, texts))) in
    split-join_with b'|' (fields p) (omega arith)
      (h.route_plain, ((ground arith, version_Without p.version), later))

decimal_inj : (m n : ℕ) → m ≤ u64_max → n ≤ u64_max → decimal m ≡ decimal n → m ≡ n
decimal_inj m n a b e =
    let s : some m ≡ some n =
      sym (parse_u64-decimal m a) ∙ ap parse_u64 e ∙ parse_u64-decimal n b in
    ground arith

days_inj :
    (m n : ℕ) → m ≤ u64_max → n ≤ u64_max → decimal m ++ b'd' ∷ [] ≡ decimal n ++ b'd' ∷ [] → m ≡ n
days_inj m n a b e =
    decimal_inj m n a b (ground (arith, days_split m, days_split n, ap (split b'd') e))
  where
    days_split : (k : ℕ) → split b'd' (decimal k ++ b'd' ∷ []) ≡ decimal k ∷ split b'd' []
    days_split k =
        split-append b'd' (decimal k) []
          (digits_Without b'd' (decimal k) (omega arith) (ground arith) (decimal-IsDigit k))

dash_decimal : (v : ℕ) → v ≤ u64_max → b'-' ∷ [] ≡ decimal v → ⊥
unfolding parse_u64 read_digits
dash_decimal v b e = let s : none ≡ some v = ap parse_u64 e ∙ parse_u64-decimal v b in ground arith

version_inj :
    (v w : Option ℕ) → VersionFits v → VersionFits w → version_text v ≡ version_text w → v ≡ w
version_inj none none a b e = refl
version_inj none (some w) a b e = absurd (dash_decimal w b e)
version_inj (some v) none a b e = absurd (dash_decimal v a (sym e))
version_inj (some v) (some w) a b e = ap some (decimal_inj v w a b e)

group_inj : (g h : Option Bytes) → GroupPlain g → GroupPlain h → group_text g ≡ group_text h → g ≡ h
group_inj none none a b e = refl
group_inj none (some h) a b e = absurd (b.1 (sym e))
group_inj (some g) none a b e = absurd (a.1 e)
group_inj (some g) (some h) a b e = ap some e

abbrev tail_of : Bytes → Bytes
tail_of [] = []
tail_of (c ∷ s) = s

some_inj {ℓ} : {A : Type ℓ} {a b : A} → some a ≡ some b → a ≡ b
some_inj e = ground (arith, e)

nth : {l m : List Bytes} (i : ℕ) → l ≡ m → get_elem? l i ≡ get_elem? m i
nth i e = ap (λ l. get_elem? l i) e

parts_eq :
    (p q : Parts)
    → some p.route ≡ some q.route
    → p.version ≡ q.version
    → some p.catalog ≡ some q.catalog
    → some p.region ≡ some q.region
    → p.baseline_days ≡ q.baseline_days
    → some p.realm ≡ some q.realm
    → some p.locale ≡ some q.locale
    → p.group ≡ q.group
    → p ≡ q
parts_eq p q a b c d e f g h = ground arith

-- Keys are equal only where everything they are built from is, if no text has a `|`, no group is
-- `*`, and the numbers fit 64 bits: a fragment is not found under the key of another.
pub key_of-inj : (p q : Parts) → IsPlain p → IsPlain q → key_of p ≡ key_of q → p ≡ q
key_of-inj p q h k e =
    let f : fields p ≡ fields q = sym (split-key_of p h) ∙ ap (split b'|') e ∙ split-key_of q k in
    parts_eq p q (nth 0 f)
      (version_inj p.version q.version h.version_fits k.version_fits
        (ap tail_of (some_inj (nth 1 f))))
      (nth 2 f) (nth 3 f)
      (days_inj p.baseline_days q.baseline_days h.days_fit k.days_fit (some_inj (nth 4 f)))
      (nth 5 f) (nth 6 f)
      (group_inj p.group q.group h.group_plain k.group_plain (some_inj (nth 7 f)))
