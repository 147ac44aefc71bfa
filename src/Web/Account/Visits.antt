-- ===== src/Web/Account/Visits.antt =====
-- crates/app-core/src/auth.rs, `authenticate`, and the handlers of account.rs and session.rs that
-- ask whose session a cookie names.
use gavel.Shared.{Bool, true, false, Option, none, some, if◌then◌else◌, Result, ok, err}
use gavel.Shared.Bytes.{Bytes}
use gavel.Time.{Millis}
use gavel.Web.Csrf.Defs.{verify_request}
use gavel.Web.Account.Ports.{
  User, Session, AppError, not_found, unauthorized, forbidden, repo, Ports,
}
use gavel.Web.Account.Defs.{Request, is_expired}

module _ (p : Ports) where
  abbrev pub dropped : p.State → Result Bytes p.State → p.State × Result AppError (Option User)
  dropped s (err e) = (s, err (repo e))
  dropped s (ok t) = (t, ok none)

  abbrev pub looked_up :
      p.State → Result Bytes (Option User) → p.State × Result AppError (Option User)
  looked_up s (err e) = (s, err (repo e))
  looked_up s (ok u) = (s, ok u)

  abbrev pub authenticate_found :
      p.State
      → Bytes
      → Millis
      → Result Bytes (Option Session)
      → p.State × Result AppError (Option User)
  authenticate_found s id now (err e) = (s, err (repo e))
  authenticate_found s id now (ok none) = (s, ok none)
  authenticate_found s id now (ok (some session)) =
      if is_expired session now
      then dropped s (p.delete_session s id)
      else looked_up s (p.by_id s session.user_id)

  -- `AuthService::authenticate`.
  unfoldable pub authenticate : p.State → Bytes → Millis → p.State × Result AppError (Option User)
  authenticate s id now = authenticate_found s id now (p.get_session s id)

  -- `current_user`, by the value of the cookie.
  abbrev pub current_user :
      p.State → Option Bytes → Millis → p.State × Result AppError (Option User)
  current_user s none now = (s, ok none)
  current_user s (some token) now = authenticate s token now

  abbrev pub has_admin_access : Option User → Bool
  has_admin_access none = false
  has_admin_access (some user) = user.is_admin

  -- What `admin_only` decides.
  abbrev pub admin_answer : Result AppError (Option User) → Bool
  admin_answer (err e) = false
  admin_answer (ok user) = has_admin_access user

  unfoldable pub admin_only : p.State → Option Bytes → Millis → p.State × Bool
  admin_only s cookie now = let (t, user) = current_user s cookie now in (t, admin_answer user)

  abbrev pub logged_out : p.State → Result Bytes p.State → p.State × Result AppError (Unit {0})
  logged_out s (err e) = (s, err (repo e))
  logged_out s (ok t) = (t, ok tt)

  abbrev pub logout_cookie : p.State → Option Bytes → p.State × Result AppError (Unit {0})
  logout_cookie s none = (s, ok tt)
  logout_cookie s (some token) = logged_out s (p.delete_session s token)

  -- `logout`.
  unfoldable pub logout : Request → Option Bytes → p.State → p.State × Result AppError (Unit {0})
  logout r cookie s =
      if verify_request r.csrf r.header_token (some r.form_token)
      then logout_cookie s cookie
      else (s, err forbidden)

  abbrev pub deleted :
      p.State → Result Bytes (p.State × Bool) → p.State × Result AppError (Unit {0})
  deleted s (err e) = (s, err (repo e))
  deleted s (ok (t, true)) = (t, ok tt)
  deleted s (ok (t, false)) = (t, err not_found)

  abbrev pub delete_user_of :
      p.State → Result AppError (Option User) → p.State × Result AppError (Unit {0})
  delete_user_of s (err e) = (s, err e)
  delete_user_of s (ok none) = (s, err unauthorized)
  delete_user_of s (ok (some user)) = deleted s (p.delete_user s user.id)

  abbrev pub delete_cookie : p.State → Option Bytes → Millis → p.State × Result AppError (Unit {0})
  delete_cookie s none now = (s, err unauthorized)
  delete_cookie s (some token) now =
      let (t, user) = authenticate s token now in delete_user_of t user

  -- `delete`.
  unfoldable pub delete : Request → Option Bytes → p.State → p.State × Result AppError (Unit {0})
  delete r cookie s =
      if verify_request r.csrf r.header_token (some r.form_token)
      then delete_cookie s cookie r.now
      else (s, err forbidden)
