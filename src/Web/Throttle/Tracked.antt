-- ===== src/Web/Throttle/Tracked.antt =====
-- crates/app-web/src/throttle.rs, `AuthGate`: how many of the addresses began in a window.
use gavel.Shared.{
  ℕ, ◌+◌, ◌≤◌, ◌<◌, ◌≡◌, refl, Bool, true, Option, none, some, [], ◌∷◌, arith, leb, ltb,
  if◌then◌else◌, min, length,
}
use gavel.Shared.HashMap.{HashMap, nat_eq, get, insert, retain}
use gavel.Time.{Millis}
use gavel.Web.Throttle.Defs.{Window, AuthGate, counted, or_fresh, max_global_attempts, window_ms}

-- The entries whose value passes a test.
abbrev pub tracked : (Window → Bool) → HashMap ℕ Window → ℕ
tracked f [] = 0
tracked f ((k, w) ∷ m) = (if f w then 1 else 0) + tracked f m

abbrev pub one_if : (Window → Bool) → Option Window → ℕ
one_if f none = 0
one_if f (some w) = if f w then 1 else 0

pub tracked-insert :
    (f : Window → Bool) (k : ℕ) (w : Window) (m : HashMap ℕ Window)
    → tracked f (insert k w m) + one_if f (get k m) ≡ tracked f m + one_if f (some w)
unfolding get insert
tracked-insert f k w [] = omega arith
tracked-insert f k w ((j, v) ∷ m) = ground (arith, tracked-insert f k w m)

pub tracked-retain :
    (f p : Window → Bool) (m : HashMap ℕ Window) → tracked f (retain p m) ≤ tracked f m
unfolding retain
tracked-retain f p [] = omega arith
tracked-retain f p ((j, v) ∷ m) = ground (arith, tracked-retain f p m)

-- A sweep leaves at most what both tests hold of.
pub tracked-retain_le :
    (f g p : Window → Bool) (m : HashMap ℕ Window)
    → ((w : Window) → f w ≡ true → p w ≡ true → g w ≡ true)
    → tracked f (retain p m) ≤ tracked g m
unfolding retain
tracked-retain_le f g p [] h = omega arith
tracked-retain_le f g p ((j, v) ∷ m) h = ground (arith, h v, tracked-retain_le f g p m h)

abbrev pub since : Millis → Window → Bool
since t w = leb t w.started

abbrev pub before : Millis → Window → Bool
before t w = ltb w.started t

pub tracked_all :
    (t : Millis) (m : HashMap ℕ Window) → length m ≡ tracked (since t) m + tracked (before t) m
tracked_all t [] = omega arith
tracked_all t ((j, v) ∷ m) = ground (arith, tracked_all t m)

-- No entry started after an instant.
abbrev pub NoneAfter : Millis → HashMap ℕ Window → Type 0
NoneAfter t [] = Unit {0}
NoneAfter t ((k, w) ∷ m) = (w.started ≤ t) × NoneAfter t m

-- What holds of the gate after a call at an instant: the current global window is open, and the entries
-- that started in it, as those from before it, are at most as many as a window allows.
pub record Bounded (g : AuthGate) (w : Window) (last : Millis) : Type 0 where
  pub global_eq : g.global ≡ some w
  pub begun : w.started ≤ last
  pub open_at : last < w.started + window_ms
  pub current : tracked (since w.started) g.origins ≤ min w.attempts max_global_attempts
  pub older : tracked (before w.started) g.origins ≤ max_global_attempts
  pub none_after : NoneAfter last g.origins

abbrev pub entry : Option Window → Millis → Window
entry o now = counted (or_fresh o now)

pub added_since :
    (t now : Millis) (o : Option Window)
    → one_if (since t) (some (entry o now)) ≤ one_if (since t) o + 1
added_since t now none = ground arith
added_since t now (some v) = ground arith

pub added_before :
    (t now : Millis) (o : Option Window)
    → t ≤ now
    → one_if (before t) (some (entry o now)) ≤ one_if (before t) o
added_before t now none h = ground arith
added_before t now (some v) h = ground arith

pub NoneAfter-later : (t u : Millis) (m : HashMap ℕ Window) → t ≤ u → NoneAfter t m → NoneAfter u m
NoneAfter-later t u [] h a = tt
NoneAfter-later t u ((k, w) ∷ m) h a = (omega arith, NoneAfter-later t u m h a.1)

pub NoneAfter-retain :
    (t : Millis) (p : Window → Bool) (m : HashMap ℕ Window)
    → NoneAfter t m
    → NoneAfter t (retain p m)
unfolding retain
NoneAfter-retain t p [] a = tt
NoneAfter-retain t p ((k, w) ∷ m) a = ground (arith, NoneAfter-retain t p m a.1)

pub NoneAfter-insert :
    (t : Millis) (k : ℕ) (w : Window) (m : HashMap ℕ Window)
    → w.started ≤ t
    → NoneAfter t m
    → NoneAfter t (insert k w m)
unfolding insert
NoneAfter-insert t k w [] h a = (h, tt)
NoneAfter-insert t k w ((j, v) ∷ m) h a = ground (arith, NoneAfter-insert t k w m h a.1)

pub NoneAfter-get :
    (t : Millis) (k : ℕ) (m : HashMap ℕ Window) → NoneAfter t m → (or_fresh (get k m) t).started ≤ t
unfolding get
NoneAfter-get t k [] a = omega arith
NoneAfter-get t k ((j, v) ∷ m) a = ground (arith, NoneAfter-get t k m a.1)

pub none_since :
    (t u : Millis) (m : HashMap ℕ Window) → t < u → NoneAfter t m → tracked (since u) m ≡ 0
none_since t u [] h a = refl
none_since t u ((k, w) ∷ m) h a = ground (arith, none_since t u m h a.1)
