-- ===== src/Web/Account/Sessions.antt =====
-- crates/app-core/src/auth.rs and crates/app-web/src/session.rs: whom a session stands for, and for
-- how long.
use gavel.Shared.{
  ◌≤◌, ◌<◌, ◌≡◌, refl, inl, inr, ◌⊎◌, Bool, true, false, Option, none, some, if◌then◌else◌, arith,
  Result, ok, err,
}
use gavel.Shared.Bytes.{Bytes}
use gavel.Time.{Millis}
use gavel.Web.Account.Ports.{User, Session, AppError, Ports}
use gavel.Web.Account.Defs.{is_expired}
use gavel.Web.Account.Visits.{
  dropped, looked_up, authenticate_found, authenticate, admin_answer, admin_only,
}

module _ (p : Ports) where
  -- The token names a session that has not expired, and the user is its user.
  pub record Stands (s : p.State) (token : Bytes) (now : Millis) (user : User) : Type 0 where
    pub session : Session
    pub known : p.get_session s token ≡ ok (some session)
    pub before : now < session.expires_at
    pub of_user : p.by_id s session.user_id ≡ ok (some user)

  -- What `authenticate` answers, and what it leaves.
  abbrev pub Means : p.State → Bytes → Millis → p.State → Result AppError (Option User) → Type 0
  Means s token now t (ok (some user)) = (t ≡ s) × Stands s token now user
  Means s token now t (ok none) =
      ((t ≡ s) × (p.get_session s token ≡ ok none))
      ⊎ ((session : Session) × (p.get_session s token ≡ ok (some session))
          × (((session.expires_at ≤ now) × (p.delete_session s token ≡ ok t))
              ⊎ ((now < session.expires_at) × (t ≡ s) × (p.by_id s session.user_id ≡ ok none))))
  Means s token now t (err e) = t ≡ s

  dropped-Means :
      (s : p.State) (token : Bytes) (now : Millis) (session : Session) (x : Result Bytes p.State)
      → p.get_session s token ≡ ok (some session)
      → session.expires_at ≤ now
      → p.delete_session s token ≡ x
      → let (t, answer) = dropped p s x in Means s token now t answer
  dropped-Means s token now session (err e) k h d = refl
  dropped-Means s token now session (ok t) k h d = inr (session, k, inl (h, d))

  looked_up-Means :
      (s : p.State) (token : Bytes) (now : Millis) (session : Session)
      (x : Result Bytes (Option User))
      → p.get_session s token ≡ ok (some session)
      → now < session.expires_at
      → p.by_id s session.user_id ≡ x
      → let (t, answer) = looked_up p s x in Means s token now t answer
  looked_up-Means s token now session (err e) k h d = refl
  looked_up-Means s token now session (ok none) k h d = inr (session, k, inr (h, refl, d))
  looked_up-Means s token now session (ok (some user)) k h d =
      (refl, record { session = session; known = k; before = h; of_user = d })

  found-Means :
      (s : p.State) (token : Bytes) (now : Millis) (x : Result Bytes (Option Session))
      → p.get_session s token ≡ x
      → let (t, answer) = authenticate_found p s token now x in Means s token now t answer
  found-Means s token now (err e) k = refl
  found-Means s token now (ok none) k = inl (refl, k)
  found-Means s token now (ok (some session)) k = by_expiry (is_expired session now) refl
    where
      by_expiry :
          (b : Bool)
          → is_expired session now ≡ b
          → let (t, answer) =
              (if b
                then dropped p s (p.delete_session s token)
                else looked_up p s (p.by_id s session.user_id)) in
            Means s token now t answer
      by_expiry true e =
          dropped-Means s token now session (p.delete_session s token) k (ground arith) refl
      by_expiry false e =
          looked_up-Means s token now session (p.by_id s session.user_id) k (ground arith) refl

  -- A token authenticates a user only by a session that is known, has not expired and is that
  -- user's, and changes nothing. Where it authenticates nobody the session is unknown, or has
  -- expired and is deleted, or its user is gone.
  pub authenticate-Means :
      (s : p.State) (token : Bytes) (now : Millis)
      → let (t, answer) = authenticate p s token now in Means s token now t answer
  unfolding authenticate
  authenticate-Means s token now = found-Means s token now (p.get_session s token) refl

  answer-admin :
      (s : p.State) (token : Bytes) (now : Millis) (t : p.State) (x : Result AppError (Option User))
      → Means s token now t x
      → admin_answer p x ≡ true
      → (user : User) × (user.is_admin ≡ true) × Stands s token now user
  answer-admin s token now t (err e) m h = absurd (ground (arith, h))
  answer-admin s token now t (ok none) m h = absurd (ground (arith, h))
  answer-admin s token now t (ok (some user)) m h = (user, h, m.1)

  -- Only an administrator, by a session of theirs that has not expired, passes the gate of the
  -- operations pages; a store that fails lets nobody pass.
  pub admin_only-Stands :
      (s : p.State) (cookie : Option Bytes) (now : Millis)
      → (admin_only p s cookie now).1 ≡ true
      → (token : Bytes) × (cookie ≡ some token)
        × ((user : User) × (user.is_admin ≡ true) × Stands s token now user)
  unfolding admin_only
  admin_only-Stands s none now h = absurd (ground (arith, h))
  admin_only-Stands s (some token) now h =
      let (t, answer) = authenticate p s token now in
      (token, refl, answer-admin s token now t answer (authenticate-Means s token now) h)
