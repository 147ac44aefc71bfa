-- ===== src/Web/Throttle/Defs.antt =====
-- crates/app-web/src/throttle.rs. Each method holds the lock of the map that it works on, so that it is
-- one step on it; `AuthGate::take` takes two locks one after the other, and its calls are modelled as
-- run one at a time. An address is a number.
use gavel.Shared.{
  ℕ, Bool, true, false, not, Option, none, some, ltb, leb, if◌then◌else◌, u32_max, saturating_add,
  saturating_sub,
}
use gavel.Shared.HashMap.{HashMap, get, insert, remove, retain, nat_eq}
use gavel.Shared.Bytes.{Bytes, to_ascii_lowercase, bytes_key}
use gavel.Time.{Millis}

abbrev pub max_failures : ℕ
max_failures = 8

abbrev pub window_ms : ℕ
window_ms = 300000

abbrev pub max_origin_attempts : ℕ
max_origin_attempts = 20

abbrev pub max_global_attempts : ℕ
max_global_attempts = 100

abbrev pub max_sign_ups : ℕ
max_sign_ups = 10

pub record Bucket : Type 0 where
  pub failures : ℕ
  pub last : Millis

abbrev pub LoginThrottle : Type 0
LoginThrottle = HashMap Bytes Bucket

abbrev pub expired : Bucket → Millis → Bool
expired bucket now = leb window_ms (saturating_sub now bucket.last)

abbrev pub key : Bytes → Bytes
key = to_ascii_lowercase

-- What `allows` does with the bucket that it finds.
abbrev pub allows_bucket : Option Bucket → Millis → Bool
allows_bucket none now = true
allows_bucket (some b) now = if expired b now then true else ltb b.failures max_failures

abbrev pub drops_bucket : Option Bucket → Millis → Bool
drops_bucket none now = false
drops_bucket (some b) now = expired b now

-- `LoginThrottle::allows`.
unfoldable pub allows : LoginThrottle → Bytes → Millis → LoginThrottle × Bool
allows buckets username now =
    let found = get (key username) buckets in
    (
      if drops_bucket found now then remove (key username) buckets else buckets,
      allows_bucket found now,
    )

-- The bucket of `entry(key).or_insert(...)`, one failure later.
abbrev pub one_more : Option Bucket → Millis → Bucket
one_more none now = record { failures = saturating_add u32_max 0 1; last = now }
one_more (some b) now = record { failures = saturating_add u32_max b.failures 1; last = now }

-- `LoginThrottle::failed`.
unfoldable pub failed : LoginThrottle → Bytes → Millis → LoginThrottle
failed buckets username now =
    let swept = retain (λ b. not (expired b now)) buckets in
    insert (key username) (one_more (get (key username) swept) now) swept

-- `LoginThrottle::succeeded`.
unfoldable pub succeeded : LoginThrottle → Bytes → LoginThrottle
succeeded buckets username = remove (key username) buckets

pub record Window : Type 0 where
  pub started : Millis
  pub attempts : ℕ

abbrev pub is_open : Window → Millis → Bool
is_open w now = ltb (saturating_sub now w.started) window_ms

abbrev pub fresh_window : Millis → Window
fresh_window now = record { started = now; attempts = 1 }

abbrev pub counted : Window → Window
counted w = record w { attempts = saturating_add u32_max w.attempts 1 }

-- `take_window` on the content of the cell.
unfoldable pub take_window : Option Window → Millis → ℕ → Window × Bool
take_window none now maximum = (fresh_window now, true)
take_window (some w) now maximum =
    if is_open w now
    then (counted w, leb (counted w).attempts maximum)
    else (fresh_window now, true)

-- `SignUpThrottle::take`.
unfoldable pub take_sign_up : Option Window → Millis → Window × Bool
take_sign_up cell now = take_window cell now max_sign_ups

-- The windows of an `AuthGate`.
pub record AuthGate : Type 0 where
  pub origins : HashMap ℕ Window
  pub global : Option Window

-- `entry(origin).or_insert(...)`.
abbrev pub or_fresh : Option Window → Millis → Window
or_fresh none now = record { started = now; attempts = 0 }
or_fresh (some w) now = w

-- `AuthGate::take`.
unfoldable pub take : AuthGate → ℕ → Millis → AuthGate × Bool
take g origin now =
    let (global, global_ok) = take_window g.global now max_global_attempts in
    let kept = retain (λ w. is_open w now) g.origins in
    let w = counted (or_fresh (get origin kept) now) in
    if global_ok
    then (
      record { origins = insert origin w kept; global = some global },
      leb w.attempts max_origin_attempts,
    )
    else (record g { global = some global }, false)
