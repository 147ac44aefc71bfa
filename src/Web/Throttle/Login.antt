-- ===== src/Web/Throttle/Login.antt =====
-- crates/app-web/src/throttle.rs, `LoginThrottle`: the map answers as a count of the failures of each name.
use gavel.Shared.{
  ℕ, suc, ◌+◌, ◌≤◌, ◌≡◌, refl, sym, ap, ◌∙◌, Bool, true, false, not, ◌&&◌, ◌||◌, ◌==◌, leb, ltb,
  min, Option, none, some, List, [], ◌∷◌, arith, if◌then◌else◌, inl, inr, Bool-cases,
}
use gavel.Shared.HashMap.{
  get, retain, keep, IsMap, get-insert, get-remove, get-retain, insert-IsMap, remove-IsMap,
  retain-IsMap,
}
use gavel.Shared.Bytes.{Bytes, bytes_eq, bytes_eq_iff, bytes_key, lower_byte}
use gavel.Time.{Millis}
use gavel.Web.Throttle.Defs.{
  Bucket, LoginThrottle, expired, key, allows_bucket, allows, one_more, failed, succeeded,
  drops_bucket,
}

pub data Attempt : Type 0 where
  asks fails succeeds : Bytes → Attempt

abbrev pub attempt : LoginThrottle → Attempt → Millis → LoginThrottle
attempt m (asks u) now = (allows m u now).0
attempt m (fails u) now = failed m u now
attempt m (succeeds u) now = succeeded m u

abbrev pub attempts : LoginThrottle → List (Attempt × Millis) → LoginThrottle
attempts m [] = m
attempts m ((a, now) ∷ rest) = attempts (attempt m a now) rest

-- Two letters that are one, but for their case.
abbrev pub same_letter : ℕ → ℕ → Bool
same_letter c d =
    c == d || (leb b'A' c && leb c b'Z' && c + 32 == d) || (leb b'A' d && leb d b'Z' && d + 32 == c)

-- Two names that differ in case at most.
abbrev pub same_name : Bytes → Bytes → Bool
same_name [] [] = true
same_name [] (d ∷ v) = false
same_name (c ∷ u) [] = false
same_name (c ∷ u) (d ∷ v) = same_letter c d && same_name u v

bytes_eq-key : (u v : Bytes) → bytes_eq (key u) (key v) ≡ same_name u v
unfolding bytes_eq
bytes_eq-key [] [] = refl
bytes_eq-key [] (d ∷ v) = refl
bytes_eq-key (c ∷ u) [] = refl
bytes_eq-key (c ∷ u) (d ∷ v) = rw (bytes_eq-key u v, lower_eq c d) refl
  where
    lower_eq : (c d : ℕ) → (lower_byte c == lower_byte d) ≡ same_letter c d
    lower_eq c d = ground arith

-- What is still counted of a bucket.
abbrev pub live : Millis → Option Bucket → Option Bucket
live now = keep (λ b. not (expired b now))

-- The failures of a name and the last of them, which count for 300000 ms.
abbrev pub recent : Millis → Option (ℕ × Millis) → ℕ
recent now none = 0
recent now (some (n, last)) = if ltb now (last + 300000) then n else 0

-- The count of one name alone: failures that follow one another within the window, from the last
-- success on.
abbrev pub tally_one : Bytes → Option (ℕ × Millis) → Attempt → Millis → Option (ℕ × Millis)
tally_one name o (asks u) now = o
tally_one name o (fails u) now =
    if same_name u name then some (min (suc (recent now o)) 4294967295, now) else o
tally_one name o (succeeds u) now = if same_name u name then none else o

abbrev pub tally : Bytes → Option (ℕ × Millis) → List (Attempt × Millis) → Option (ℕ × Millis)
tally name o [] = o
tally name o ((a, now) ∷ rest) = tally name (tally_one name o a now) rest

-- The count as the bucket of it.
abbrev bucket_of : Option (ℕ × Millis) → Option Bucket
bucket_of none = none
bucket_of (some (n, last)) = some (record { failures = n; last = last })

live_later :
    (t u : Millis) (a b : Option Bucket) → t ≤ u → live t a ≡ live t b → live u a ≡ live u b
live_later t u none none h e = refl
live_later t u none (some b) h e = ground arith
live_later t u (some a) none h e = ground arith
live_later t u (some a) (some b) h e = ground arith

live_allows :
    (now : Millis) (o : Option Bucket) → allows_bucket o now ≡ allows_bucket (live now o) now
live_allows now none = refl
live_allows now (some b) = ground arith

-- The map and the count of each name agree on what is still counted.
abbrev Agrees : Millis → LoginThrottle → Bytes → Option (ℕ × Millis) → Type 0
Agrees now m name o = live now (get (key name) m) ≡ live now (bucket_of o)

one_more-recent :
    (now : Millis) (o : Option (ℕ × Millis))
    → some (one_more (live now (bucket_of o)) now)
      ≡ bucket_of (some (min (suc (recent now o)) 4294967295, now))
one_more-recent now none = refl
one_more-recent now (some (n, last)) = ground arith

live_twice : (now : Millis) (o : Option Bucket) → live now (live now o) ≡ live now o
live_twice now none = refl
live_twice now (some b) = ground arith

dropped-live : (now : Millis) (o : Option Bucket) → drops_bucket o now ≡ true → live now o ≡ none
dropped-live now none h = refl
dropped-live now (some b) h = ground arith

get-key : (u k : Bytes) (m : LoginThrottle) → bytes_eq (key u) k ≡ true → get (key u) m ≡ get k m
get-key u k m h = ap (λ j. get j m) ((bytes_eq_iff (key u) k).0 h)

attempt-Agrees :
    (m : LoginThrottle) (a : Attempt) (now : Millis) (name : Bytes) (o : Option (ℕ × Millis))
    → IsMap m
    → Agrees now m name o
    → Agrees now (attempt m a now) name (tally_one name o a now)
unfolding allows failed succeeded
attempt-Agrees m (asks u) now name o s h =
    let k = key name in
    elim (Bool-cases (drops_bucket (get (key u) m) now)) [
      | inl gone ↦ elim (Bool-cases (bytes_eq (key u) k)) [
        | inl same ↦
            rw (gone, get-remove (key u) k m, same)
              (sym (dropped-live now (get (key u) m) gone) ∙ ap (live now) (get-key u k m same) ∙ h)
        | inr other ↦ rw (gone, get-remove (key u) k m, other) h
      ]
      | inr stays ↦ rw stays h
    ]
attempt-Agrees m (fails u) now name o s h =
    let k = key name in
    let fresh = λ (b : Bucket). not (expired b now) in
    let swept = retain fresh m in
    let named = bytes_eq-key u name in
    elim (Bool-cases (bytes_eq (key u) k)) [
      | inl same ↦
          let found : get (key u) swept ≡ live now (bucket_of o) =
            get-key u k swept same ∙ get-retain fresh k m s ∙ h in
          rw (get-insert (key u) k (one_more (get (key u) swept) now) swept, same, sym named ∙ same)
            (ap (live now) (ap (λ b. some (one_more b now)) found ∙ one_more-recent now o))
      | inr other ↦
          rw
            (
              get-insert (key u) k (one_more (get (key u) swept) now) swept,
              other,
              sym named ∙ other,
              get-retain fresh k m s,
            )
            (live_twice now (get k m) ∙ h)
    ]
attempt-Agrees m (succeeds u) now name o s h =
    let k = key name in
    let named = bytes_eq-key u name in
    elim (Bool-cases (bytes_eq (key u) k)) [
      | inl same ↦ rw (get-remove (key u) k m, same, sym named ∙ same) refl
      | inr other ↦ rw (get-remove (key u) k m, other, sym named ∙ other) h
    ]

attempt-IsMap : (m : LoginThrottle) (a : Attempt) (now : Millis) → IsMap m → IsMap (attempt m a now)
unfolding allows failed succeeded
attempt-IsMap m (asks u) now s = ground (arith, remove-IsMap (key u) m s)
attempt-IsMap m (fails u) now s =
    let swept = retain (λ b. not (expired b now)) m in
    insert-IsMap (key u) (one_more (get (key u) swept) now) swept
      (retain-IsMap (λ b. not (expired b now)) m s)
attempt-IsMap m (succeeds u) now s = remove-IsMap (key u) m s

-- The instants of a run do not go back, from one on, and the run ends by another.
abbrev pub InOrder : Millis → List (Attempt × Millis) → Millis → Type 0
InOrder from [] end = from ≤ end
InOrder from ((a, now) ∷ rest) end = (from ≤ now) × InOrder now rest end

attempts-Agrees :
    (m : LoginThrottle) (tries : List (Attempt × Millis)) (from end : Millis) (name : Bytes)
    (o : Option (ℕ × Millis))
    → IsMap m
    → InOrder from tries end
    → Agrees from m name o
    → Agrees end (attempts m tries) name (tally name o tries)
attempts-Agrees m [] from end name o s i h =
    live_later from end (get (key name) m) (bucket_of o) i h
attempts-Agrees m ((a, now) ∷ rest) from end name o s i h =
    attempts-Agrees (attempt m a now) rest now end name (tally_one name o a now)
      (attempt-IsMap m a now s) i.1
      (attempt-Agrees m a now name o s (live_later from now (get (key name) m) (bucket_of o) i.0 h))

allows_bucket-recent :
    (now : Millis) (o : Option (ℕ × Millis))
    → allows_bucket (bucket_of o) now ≡ ltb (recent now o) 8
allows_bucket-recent now none = refl
allows_bucket-recent now (some (n, last)) = ground arith

-- After any run of questions, failures and successes whose instants do not go back, the throttle
-- lets a name be tried exactly where fewer than eight failures of it count: those since its last
-- success that follow one another within 300000 ms, the last of them within 300000 ms before now.
-- Whatever other names did and was swept meanwhile makes no difference, and names that differ in
-- the case of their letters are one.
pub allows-tally :
    (tries : List (Attempt × Millis)) (from now : Millis) (username : Bytes)
    → InOrder from tries now
    → (allows (attempts [] tries) username now).1 ≡ ltb (recent now (tally username none tries)) 8
unfolding allows get
allows-tally tries from now username i =
    let k = key username in
    let count = tally username none tries in
    live_allows now (get k (attempts [] tries))
    ∙ ap (λ o. allows_bucket o now) (attempts-Agrees [] tries from now username none tt i refl)
    ∙ sym (live_allows now (bucket_of count))
    ∙ allows_bucket-recent now count
