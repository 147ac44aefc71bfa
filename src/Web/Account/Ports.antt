-- ===== src/Web/Account/Ports.antt =====
-- crates/app-core/src/{model,error,repo,auth}.rs: what accounts are made of, and the ports that the
-- handlers use. A port has its state, and an operation that fails leaves it as it was. Text is the
-- list of its characters.
use gavel.Shared.{ℕ, Bool, true, Option, some, ◌≡◌, Result, ok}
use gavel.Shared.Bytes.{Bytes}
use gavel.Time.{Millis}

pub record User : Type 0 where
  pub id : ℕ
  pub username : Bytes
  pub created_at : Millis
  pub is_admin : Bool

pub record Credentials : Type 0 where
  pub user : User
  pub password_hash : Bytes

pub record Session : Type 0 where
  pub id : Bytes
  pub user_id : ℕ
  pub created_at : Millis
  pub expires_at : Millis

pub data Message : Type 0 where
  username_length username_charset password_length username_taken : Message
  too_many_sign_ins too_many_sign_ups : Message

pub data AppError : Type 0 where
  not_found unauthorized forbidden : AppError
  validation too_many_requests conflict : Message → AppError
  integration cluster repo internal : Bytes → AppError

-- The users' and sessions' repositories, which fail with a `RepoError`, and the hasher, whose one
-- error is internal; an error is its text.
pub record Ports : Type 1 where
  pub State : Type 0
  pub by_username : State → Bytes → Result Bytes (Option Credentials)
  pub by_id : State → ℕ → Result Bytes (Option User)
  pub create_user : State → Bytes → Bytes → Millis → Result Bytes (State × User)
  pub delete_user : State → ℕ → Result Bytes (State × Bool)
  pub create_session : State → Session → Result Bytes State
  pub get_session : State → Bytes → Result Bytes (Option Session)
  pub delete_session : State → Bytes → Result Bytes State
  pub hash : Bytes → Result Bytes Bytes
  pub verify_hash : Bytes → Bytes → Result Bytes Bool

-- What the ports document: a password fits its own hash, a user who is created is found under the
-- name with the hash, and a session that is created is found and changes no user.
pub record Laws (p : Ports) : Type 0 where
  pub hash_fits : (password h : Bytes) → p.hash password ≡ ok h → p.verify_hash password h ≡ ok true
  pub created_found :
      (s t : p.State) (username h : Bytes) (now : Millis) (u : User)
      → p.create_user s username h now ≡ ok (t, u)
      → p.by_username t username ≡ ok (some (record { user = u; password_hash = h }))
  pub session_found :
      (s t : p.State) (session : Session)
      → p.create_session s session ≡ ok t
      → p.get_session t session.id ≡ ok (some session)
  pub users_kept :
      (s t : p.State) (session : Session) (username : Bytes)
      → p.create_session s session ≡ ok t
      → p.by_username t username ≡ p.by_username s username
