-- ===== src/Web/Account/Register.antt =====
-- crates/app-web/src/routes/account.rs, `register`: who has an account, and that it can be used.
use gavel.Shared.{suc, ◌≡◌, refl, sym, ap, subst, ◌∙◌, Option, none, some, Result, ok, err}
use gavel.Shared.Bytes.{Bytes}
use gavel.Web.Csrf.Defs.{verify_request}
use gavel.Web.Throttle.Defs.{take, take_sign_up}
use gavel.Web.Account.Ports.{
  User, Credentials, Session, AppError, forbidden, too_many_requests, too_many_sign_ins,
  too_many_sign_ups, Ports,
}
use gavel.Web.Account.Defs.{
  Request, session_of, Site, validate_username, validate_password, with_session, register_session,
  register_created, register_hashed, register_looked, register_valid, register_gate,
  register_throttle, register,
}
use gavel.Web.Account.Login.{err≢ok, ok_inj, passed}

module _ (p : Ports) (absent_hash : Bytes) where
  -- What lies behind an account that `register` makes.
  pub record IsRegistered (r : Request) (s t : Site p absent_hash) (session : Session)
      : Type 0 where
    pub name_valid : validate_username r.username ≡ ok tt
    pub password_valid : validate_password r.password ≡ ok tt
    pub name_free : p.by_username s.store r.username ≡ ok none
    pub user : User
    pub hash : Bytes
    pub store : p.State
    pub hash_eq : p.hash r.password ≡ ok hash
    pub created : p.create_user s.store r.username hash r.now ≡ ok (store, user)
    pub session_eq : session ≡ session_of user r.token r.now
    pub stored : p.create_session store session ≡ ok t.store

  module _ (r : Request) (s g : Site p absent_hash) (session : Session)
      (same_store : g.store ≡ s.store) (name_valid : validate_username r.username ≡ ok tt)
      (password_valid : validate_password r.password ≡ ok tt)
      (name_free : p.by_username s.store r.username ≡ ok none) where
    session-IsRegistered :
        (user : User) (hash : Bytes) (store : p.State) (x : Result Bytes p.State)
        → p.hash r.password ≡ ok hash
        → p.create_user s.store r.username hash r.now ≡ ok (store, user)
        → p.create_session store (session_of user r.token r.now) ≡ x
        → (register_session p absent_hash
            (record g { store = store })
            (with_session p absent_hash (session_of user r.token r.now) x)).1
          ≡ ok session
        → IsRegistered r s
            (register_session p absent_hash
              (record g { store = store })
              (with_session p absent_hash (session_of user r.token r.now) x)).0
            session
    session-IsRegistered user hash store (err e) h c m a = absurd (err≢ok a)
    session-IsRegistered user hash store (ok last) h c m a = record {
      name_valid = name_valid;
      password_valid = password_valid;
      name_free = name_free;
      user = user;
      hash = hash;
      store = store;
      hash_eq = h;
      created = c;
      session_eq = sym (ok_inj a);
      stored = subst (λ made. p.create_session store made ≡ ok last) (ok_inj a) m;
    }

    created-IsRegistered :
        (hash : Bytes) (x : Result Bytes (p.State × User))
        → p.hash r.password ≡ ok hash
        → p.create_user s.store r.username hash r.now ≡ x
        → (register_created p absent_hash r g x).1 ≡ ok session
        → IsRegistered r s (register_created p absent_hash r g x).0 session
    created-IsRegistered hash (err e) h c a = absurd (err≢ok a)
    created-IsRegistered hash (ok (store, user)) h c a =
        session-IsRegistered user hash store
          (p.create_session store (session_of user r.token r.now)) h c refl a

    hashed-IsRegistered :
        (x : Result Bytes Bytes)
        → p.hash r.password ≡ x
        → (register_hashed p absent_hash r g x).1 ≡ ok session
        → IsRegistered r s (register_hashed p absent_hash r g x).0 session
    hashed-IsRegistered (err e) h a = absurd (err≢ok a)
    hashed-IsRegistered (ok hash) h a =
        created-IsRegistered hash (p.create_user g.store r.username hash r.now) h
          (ap (λ store. p.create_user store r.username hash r.now) (sym same_store)) a

  module _ (r : Request) (s g : Site p absent_hash) (session : Session)
      (same_store : g.store ≡ s.store) where
    looked-IsRegistered :
        (x : Result Bytes (Option Credentials))
        → validate_username r.username ≡ ok tt
        → validate_password r.password ≡ ok tt
        → p.by_username s.store r.username ≡ x
        → (register_looked p absent_hash r g x).1 ≡ ok session
        → IsRegistered r s (register_looked p absent_hash r g x).0 session
    looked-IsRegistered (err e) n w f a = absurd (err≢ok a)
    looked-IsRegistered (ok (some c)) n w f a = absurd (err≢ok a)
    looked-IsRegistered (ok none) n w f a =
        let hashed : Site p absent_hash = record g { hashes = suc g.hashes } in
        let done = register_hashed p absent_hash r hashed (p.hash r.password) in
        let (permit, e) =
          passed session r.permit done (g, err (too_many_requests too_many_sign_ins))
            (too_many_requests too_many_sign_ins) refl a in
        subst (λ x. IsRegistered r s x.0 session) (sym e)
          (hashed-IsRegistered r s hashed session same_store n w f (p.hash r.password) refl
            (ap (λ x. x.1) (sym e) ∙ a))

    valid-IsRegistered :
        (x y : Result AppError (Unit {0}))
        → validate_username r.username ≡ x
        → validate_password r.password ≡ y
        → (register_valid p absent_hash r g x y).1 ≡ ok session
        → IsRegistered r s (register_valid p absent_hash r g x y).0 session
    valid-IsRegistered (err e) y n w a = absurd (err≢ok a)
    valid-IsRegistered (ok u) (err e) n w a = absurd (err≢ok a)
    valid-IsRegistered (ok u) (ok v) n w a =
        looked-IsRegistered (p.by_username g.store r.username) n w
          (ap (λ store. p.by_username store r.username) (sym same_store)) a

  -- If `register` answers a session, the name and the password are in form and the name was free; the
  -- user that the store made has the password's hash, and the session is that user's and stored.
  pub register-IsRegistered :
      (r : Request) (s : Site p absent_hash) (session : Session)
      → (register p absent_hash r s).1 ≡ ok session
      → IsRegistered r s (register p absent_hash r s).0 session
  unfolding register register_throttle register_gate
  register-IsRegistered r s session h =
      let (csrf, a) =
        passed session (verify_request r.csrf r.header_token (some r.form_token))
          (register_throttle p absent_hash r s) (s, err forbidden) forbidden refl h in
      let first : Site p absent_hash = record s {
        sign_ups = some (take_sign_up s.sign_ups r.now).0;
      } in
      let (sign_up, b) =
        passed session (take_sign_up s.sign_ups r.now).1 (register_gate p absent_hash r first)
          (first, err (too_many_requests too_many_sign_ups)) (too_many_requests too_many_sign_ups)
          refl (ap (λ x. x.1) (sym a) ∙ h) in
      let second : Site p absent_hash = record first { gate = (take s.gate r.origin r.now).0 } in
      let (gate, c) =
        passed session (take s.gate r.origin r.now).1
          (register_valid p absent_hash r second (validate_username r.username)
            (validate_password r.password))
          (second, err (too_many_requests too_many_sign_ins)) (too_many_requests too_many_sign_ins)
          refl (ap (λ x. x.1) (sym b) ∙ ap (λ x. x.1) (sym a) ∙ h) in
      let all = a ∙ b ∙ c in
      subst (λ x. IsRegistered r s x.0 session) (sym all)
        (valid-IsRegistered r s second session refl (validate_username r.username)
          (validate_password r.password) refl refl (ap (λ x. x.1) (sym all) ∙ h))
