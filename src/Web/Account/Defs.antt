-- ===== src/Web/Account/Defs.antt =====
-- crates/app-core/src/auth.rs and crates/app-web/src/routes/account.rs. The answer of a handler is
-- the session whose cookie it sets; whether the semaphore has a permit, the fresh token, the address
-- and the instant come with the request. Where the check of the token panics the request ends; here it
-- is `forbidden`, with the same state. `hashes` counts the passwords that are hashed.
use gavel.Shared.{
  ℕ, suc, Bool, true, false, ◌==◌, ◌&&◌, ◌||◌, leb, Option, none, some, [], ◌∷◌, if◌then◌else◌,
  length, Result, ok, err,
}
use gavel.Shared.Bytes.{Bytes}
use gavel.Time.{Millis, plus_ms}
use gavel.Web.Csrf.Defs.{Csrf, verify_request}
use gavel.Web.Throttle.Defs.{
  LoginThrottle, allows, failed, succeeded, Window, take_sign_up, AuthGate, take,
}
use gavel.Web.Account.Ports.{
  User, Credentials, Session, username_length, username_charset, password_length, username_taken,
  too_many_sign_ins, too_many_sign_ups, AppError, unauthorized, forbidden, validation,
  too_many_requests, conflict, repo, internal, Ports,
}

abbrev pub session_ttl_ms : ℕ
session_ttl_ms = 604800000

-- `is_ascii_alphanumeric`, `_` or `-`.
abbrev pub is_name_char : ℕ → Bool
is_name_char c =
    (leb 48 c && leb c 57)
    || (leb 65 c && leb c 90)
    || (leb 97 c && leb c 122)
    || c == 95
    || c == 45

abbrev pub all_chars : (ℕ → Bool) → Bytes → Bool
all_chars p [] = true
all_chars p (c ∷ s) = p c && all_chars p s

-- `validate_username`.
unfoldable pub validate_username : Bytes → Result AppError (Unit {0})
validate_username username =
    if leb 3 (length username) && leb (length username) 32
    then if all_chars is_name_char username then ok tt else err (validation username_charset)
    else err (validation username_length)

-- `validate_password`.
unfoldable pub validate_password : Bytes → Result AppError (Unit {0})
validate_password password =
    if leb 8 (length password) && leb (length password) 256
    then ok tt
    else err (validation password_length)

pub record Request : Type 0 where
  pub csrf : Csrf
  pub header_token : Option Bytes
  pub form_token : Bytes
  pub username : Bytes
  pub password : Bytes
  pub origin : ℕ
  pub now : Millis
  pub permit : Bool
  pub token : Bytes

-- `Session::is_expired`.
abbrev pub is_expired : Session → Millis → Bool
is_expired s now = leb s.expires_at now

abbrev pub is_unauthorized : AppError → Bool
is_unauthorized unauthorized = true
is_unauthorized _ = false

abbrev pub session_of : User → Bytes → Millis → Session
session_of user token now = record {
  id = token;
  user_id = user.id;
  created_at = now;
  expires_at = plus_ms now session_ttl_ms;
}

module _ (p : Ports) (absent_hash : Bytes) where
  pub record Site : Type 0 where
    pub throttle : LoginThrottle
    pub gate : AuthGate
    pub sign_ups : Option Window
    pub store : p.State
    pub hashes : ℕ

  abbrev pub Answer : Type 0
  Answer = Site × Result AppError Session

  -- `AuthService::start_session`.
  abbrev pub start_session : p.State → User → Bytes → Millis → Result Bytes p.State
  start_session store user token now = p.create_session store (session_of user token now)

  abbrev pub hash_of : Option Credentials → Bytes
  hash_of none = absent_hash
  hash_of (some c) = c.password_hash

  -- The `match` on the session of `login`.
  abbrev pub close_login : Request → Site → Result AppError (p.State × Session) → Answer
  close_login r s (ok (store, session)) =
      (record s { store = store; throttle = succeeded s.throttle r.username }, ok session)
  close_login r s (err e) = (
    if is_unauthorized e then record s { throttle = failed s.throttle r.username r.now } else s,
    err e,
  )

  abbrev pub with_session : Session → Result Bytes p.State → Result AppError (p.State × Session)
  with_session session (ok store) = ok (store, session)
  with_session session (err e) = err (repo e)

  abbrev pub login_result :
      Request → Site → Bool → Option Credentials → Result AppError (p.State × Session)
  login_result r s true (some c) =
      with_session (session_of c.user r.token r.now) (start_session s.store c.user r.token r.now)
  login_result r s true none = err unauthorized
  login_result r s false c = err unauthorized

  abbrev pub login_verified : Request → Site → Option Credentials → Result Bytes Bool → Answer
  login_verified r s c (err e) = (s, err (internal e))
  login_verified r s c (ok verified) = close_login r s (login_result r s verified c)

  abbrev pub login_found : Request → Site → Result Bytes (Option Credentials) → Answer
  login_found r s (err e) = (s, err (repo e))
  login_found r s (ok c) =
      if r.permit
      then login_verified r (record s { hashes = suc s.hashes }) c
          (p.verify_hash r.password (hash_of c))
      else (s, err (too_many_requests too_many_sign_ins))

  unfoldable pub login_gate : Request → Site → Answer
  login_gate r s =
      let (gate, allowed) = take s.gate r.origin r.now in
      let through = record s { gate = gate } in
      if allowed
      then login_found r through (p.by_username s.store r.username)
      else (through, err (too_many_requests too_many_sign_ins))

  unfoldable pub login_throttle : Request → Site → Answer
  login_throttle r s =
      let (throttle, allowed) = allows s.throttle r.username r.now in
      let through = record s { throttle = throttle } in
      if allowed then login_gate r through else (through, err (too_many_requests too_many_sign_ins))

  -- `login`.
  unfoldable pub login : Request → Site → Answer
  login r s =
      if verify_request r.csrf r.header_token (some r.form_token)
      then login_throttle r s
      else (s, err forbidden)

  abbrev pub register_session : Site → Result AppError (p.State × Session) → Answer
  register_session s (err e) = (s, err e)
  register_session s (ok (store, session)) = (record s { store = store }, ok session)

  -- `register` after the password is hashed.
  abbrev pub register_created : Request → Site → Result Bytes (p.State × User) → Answer
  register_created r s (err e) = (s, err (repo e))
  register_created r s (ok (store, user)) =
      register_session (record s { store = store })
        (with_session (session_of user r.token r.now) (start_session store user r.token r.now))

  abbrev pub register_hashed : Request → Site → Result Bytes Bytes → Answer
  register_hashed r s (err e) = (s, err (internal e))
  register_hashed r s (ok hash) = register_created r s (p.create_user s.store r.username hash r.now)

  abbrev pub register_looked : Request → Site → Result Bytes (Option Credentials) → Answer
  register_looked r s (err e) = (s, err (repo e))
  register_looked r s (ok (some c)) = (s, err (conflict username_taken))
  register_looked r s (ok none) =
      if r.permit
      then register_hashed r (record s { hashes = suc s.hashes }) (p.hash r.password)
      else (s, err (too_many_requests too_many_sign_ins))

  abbrev pub register_valid :
      Request → Site → Result AppError (Unit {0}) → Result AppError (Unit {0}) → Answer
  register_valid r s (err e) password = (s, err e)
  register_valid r s (ok u) (err e) = (s, err e)
  register_valid r s (ok u) (ok v) = register_looked r s (p.by_username s.store r.username)

  unfoldable pub register_gate : Request → Site → Answer
  register_gate r s =
      let (gate, allowed) = take s.gate r.origin r.now in
      let through = record s { gate = gate } in
      if allowed
      then register_valid r through (validate_username r.username) (validate_password r.password)
      else (through, err (too_many_requests too_many_sign_ins))

  unfoldable pub register_throttle : Request → Site → Answer
  register_throttle r s =
      let (window, allowed) = take_sign_up s.sign_ups r.now in
      let through = record s { sign_ups = some window } in
      if allowed
      then register_gate r through
      else (through, err (too_many_requests too_many_sign_ups))

  -- `register`.
  unfoldable pub register : Request → Site → Answer
  register r s =
      if verify_request r.csrf r.header_token (some r.form_token)
      then register_throttle r s
      else (s, err forbidden)
