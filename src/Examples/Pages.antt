-- ===== src/Examples/Pages.antt =====
-- Instances for crates/app-web/src: throttle.rs, fragment_cache.rs and csrf.rs.
use gavel.Shared.{
  ℕ, zero, suc, ◌+◌, ◌*◌, ◌≡◌, refl, ◌≤◌, ◌<◌, ltb, true, false, Option, none, some, List, [], ◌∷◌,
  arith, All, length, Result, ok, err,
}
use gavel.Shared.Bytes.{Bytes, bytes_key}
use gavel.Shared.HashMap.{nat_eq, get}
use gavel.Time.{Millis}
use gavel.Web.Throttle.Defs.{allows, max_global_attempts}
use gavel.Web.Throttle.Login.{Attempt, asks, fails, attempts, recent, tally, allows-tally}
use gavel.Web.Throttle.Gate.{takes, new_gate, length-takes}
use gavel.Web.Throttle.Streams.{
  Streams, default_gate, Event, begin, admit, drop_permit, release, run,
}
use gavel.Web.Throttle.Admitted.{IsAccounted, run-IsAccounted}
use gavel.Web.Fragments.Defs.{FragmentKey, Html, OnceCell, new_cache, lookup, get_or_build}
use gavel.Web.Fragments.Bound.{IsBounded, Orders, new_cache-IsBounded, lookup-IsBounded}
use gavel.Web.Fragments.Answers
use gavel.Web.Fragments.Answers.{Service, new_service, serve, Sound, SoundEvent, serve-Sound}
use gavel.Web.Fragments.Again.{after, get_or_build-again}
use gavel.Web.Fragments.Keys.{Parts, IsPlain, key_of-inj}
use gavel.Web.Csrf.Defs.{from_hex, from_pairs, verify, masked, new_token, layer_token}
use gavel.Web.Csrf.Bits.{IsByte}
use gavel.Web.Csrf.Masked.{verify-masked}
use gavel.Web.Csrf.Kept.{layer_token-wrong_length}

abbrev alice : Bytes
alice = b'A' ∷ b'l' ∷ []

abbrev alice_lower : Bytes
alice_lower = b'a' ∷ b'l' ∷ []

abbrev guesses : List (Attempt × Millis)
guesses = (fails alice, 1000) ∷ (asks alice_lower, 1500) ∷ (fails alice_lower, 2000) ∷ []

allows-tally_example :
    (allows (attempts [] guesses) alice 3000).1 ≡ ltb (recent 3000 (tally alice none guesses)) 8
allows-tally_example = allows-tally guesses 0 3000 alice (ground arith)

abbrev visits : List (ℕ × Millis)
visits = (1, 1000) ∷ (2, 1001) ∷ (1, 400000) ∷ []

length-takes_example : length (takes new_gate visits).origins ≤ 2 * max_global_attempts
length-takes_example = length-takes visits 0 (ground arith)

abbrev no_streams : Streams
no_streams = record { gate = default_gate; entering = []; refused = 0; held = []; leaving = [] }

no_streams-IsAccounted : IsAccounted 0 no_streams
unfolding get
no_streams-IsAccounted = record {
  total_eq = refl;
  below = omega arith;
  origin_eq = λ o. refl;
  origin_le = λ o. omega arith;
  total_le = omega arith;
}

abbrev comings : List Event
comings = begin 5 ∷ begin 6 ∷ admit 6 ∷ admit 5 ∷ drop_permit 6 ∷ begin 6 ∷ release 6 ∷ admit 6 ∷ []

run-IsAccounted_example : IsAccounted (0 + length comings) (run comings no_streams)
run-IsAccounted_example = run-IsAccounted comings 0 no_streams (omega arith) no_streams-IsAccounted

-- A cell that keeps the first fragment.
abbrev try_once : Option Html → Result Bytes Html → Option Html × Result Bytes Html
try_once (some h) r = (some h, ok h)
try_once none (ok h) = (some h, ok h)
try_once none (err e) = (none, err e)

set :
    (c : Option Html) (h : Html) (r : Result Bytes Html)
    → c ≡ some h
    → ((try_once c r).0 ≡ some h) × ((try_once c r).1 ≡ ok h)
set none h r e = absurd (ground (arith, e))
set (some g) h r e = (e, ground arith)

set_now :
    (c : Option Html) (h : Html)
    → c ≡ none
    → ((try_once c (ok h)).0 ≡ some h) × ((try_once c (ok h)).1 ≡ ok h)
set_now none h e = (refl, refl)
set_now (some g) h e = absurd (ground (arith, e))

unset :
    (c : Option Html) (x : Bytes)
    → c ≡ none
    → ((try_once c (err x)).0 ≡ none) × ((try_once c (err x)).1 ≡ err x)
unset none x e = (refl, refl)
unset (some g) x e = absurd (ground (arith, e))

abbrev once : OnceCell Bytes
once = record {
  Cell = Option Html;
  new = none;
  content = λ c. c;
  try_init = try_once;
  content-new = refl;
  init_set = set;
  init_ok = set_now;
  init_err = unset;
}

abbrev flasks : FragmentKey
flasks = b'f' ∷ []

lookup-IsBounded_example :
    IsBounded once (lookup once flasks (new_cache once)).0
    × (get flasks (lookup once flasks (new_cache once)).0.entries
        ≡ some (lookup once flasks (new_cache once)).1)
    × (length (lookup once flasks (new_cache once)).0.entries ≤ 512)
    × Orders
        (get flasks (new_cache once).entries)
        flasks
        (new_cache once).order
        (lookup once flasks (new_cache once)).0.order
lookup-IsBounded_example = lookup-IsBounded once flasks (new_cache once) (new_cache-IsBounded once)

get_or_build-again_example :
    (get_or_build once flasks
      (ok (b'x' ∷ []))
      (get_or_build once flasks (err []) (new_cache once)).0).1
    ≡ after once (get_or_build once flasks (err []) (new_cache once)).1 (ok (b'x' ∷ []))
get_or_build-again_example =
    get_or_build-again once flasks (err []) (ok (b'x' ∷ [])) (new_cache once)
      (new_cache-IsBounded once)

-- A fragment is right that is its key.
abbrev Echo : FragmentKey → Html → Type 0
Echo key html = html ≡ key

abbrev requests : List (Answers.Event once)
requests =
    Answers.Event.arrive flasks (ok flasks)
    ∷ Answers.Event.arrive flasks (err [])
    ∷ Answers.Event.finish 1
    ∷ Answers.Event.finish 0
    ∷ []

serve-Sound_example :
    All (λ a. Sound once Echo a.0 a.1) (serve once requests (new_service once)).answers
serve-Sound_example = serve-Sound once Echo requests (refl, (tt, (tt, (tt, tt))))

abbrev card : Parts
card = record {
  route = b'c' ∷ [];
  version = some 7;
  catalog = b'm' ∷ [];
  region = b'e' ∷ b'u' ∷ [];
  baseline_days = 14;
  realm = b'-' ∷ [];
  locale = b'e' ∷ b'n' ∷ [];
  group = none;
}

card-IsPlain : IsPlain card
card-IsPlain = record {
  route_plain = ground arith;
  version_fits = omega arith;
  catalog_plain = ground arith;
  region_plain = ground arith;
  days_fit = omega arith;
  realm_plain = ground arith;
  locale_plain = ground arith;
  group_plain = tt;
}

key_of-inj_example : card ≡ card
key_of-inj_example = key_of-inj card card card-IsPlain card-IsPlain refl

abbrev copies : ℕ → ℕ → Bytes
copies zero b = []
copies (suc n) b = b ∷ copies n b

copies-IsByte : (n b : ℕ) → b < 256 → All IsByte (copies n b)
copies-IsByte zero b h = tt
copies-IsByte (suc n) b h = (h, copies-IsByte n b h)

verify-masked_example :
    (verify (new_token (copies 32 171)) (masked (new_token (copies 32 171)) (some (copies 32 9)))
      ≡ true)
    × (verify (new_token (copies 32 171)) (masked (new_token (copies 32 171)) none) ≡ true)
verify-masked_example =
    verify-masked (copies 32 171) (copies 32 9) refl refl (copies-IsByte 32 171 (omega arith))
      (copies-IsByte 32 9 (omega arith))

abbrev short_cookie : Bytes
short_cookie = b'a' ∷ b'b' ∷ []

short_read : from_hex short_cookie ≡ some (171 ∷ [])
unfolding from_hex from_pairs
short_read = refl

layer_token-wrong_length_example :
    (layer_token (some short_cookie) (copies 32 1) ≡ (short_cookie, false))
    × (verify (layer_token (some short_cookie) (copies 32 1)).0 short_cookie ≡ false)
layer_token-wrong_length_example =
    layer_token-wrong_length short_cookie (171 ∷ []) (copies 32 1) short_cookie short_read
      (ground arith)
