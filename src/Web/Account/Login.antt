-- ===== src/Web/Account/Login.antt =====
-- crates/app-web/src/routes/account.rs, `login`: who is signed in.
use gavel.Shared.{
  suc, ◌≡◌, refl, sym, ap, subst, ◌∙◌, Bool, true, false, Option, none, some, arith, if◌then◌else◌,
  Result, ok, err,
}
use gavel.Shared.Bytes.{Bytes}
use gavel.Web.Csrf.Defs.{verify_request}
use gavel.Web.Throttle.Defs.{allows, succeeded, take}
use gavel.Web.Account.Ports.{
  Credentials, Session, AppError, forbidden, too_many_requests, too_many_sign_ins, Ports,
}
use gavel.Web.Account.Defs.{
  Request, session_of, Site, Answer, hash_of, close_login, with_session, login_result,
  login_verified, login_found, login_gate, login_throttle, login,
}

pub err≢ok : {A : Type 0} {e : AppError} {a : A} → ◌≡◌ {A = Result AppError A} (err e) (ok a) → ⊥
err≢ok e = ground (arith, e)

pub ok_inj : {A : Type 0} {a b : A} → ◌≡◌ {A = Result AppError A} (ok a) (ok b) → a ≡ b
ok_inj e = ground (arith, e)

-- Past a test that refuses where it fails.
pub passed :
    {S A : Type 0} (session : A) (b : Bool) (x y : S × Result AppError A) (e : AppError)
    → y.1 ≡ err e
    → (if b then x else y).1 ≡ ok session
    → (b ≡ true) × ((if b then x else y) ≡ x)
passed session true x y e refused h = (refl, refl)
passed session false x y e refused h = absurd (err≢ok (sym refused ∙ h))

module _ (p : Ports) (absent_hash : Bytes) where
  -- What lies behind a session that `login` answers, and what it leaves behind.
  pub record IsSignedIn (r : Request) (s t : Site p absent_hash) (session : Session) : Type 0 where
    pub csrf_ok : verify_request r.csrf r.header_token (some r.form_token) ≡ true
    pub throttle_ok : (allows s.throttle r.username r.now).1 ≡ true
    pub gate_ok : (take s.gate r.origin r.now).1 ≡ true
    pub permitted : r.permit ≡ true
    pub credentials : Credentials
    pub found : p.by_username s.store r.username ≡ ok (some credentials)
    pub fits : p.verify_hash r.password credentials.password_hash ≡ ok true
    pub session_eq : session ≡ session_of credentials.user r.token r.now
    pub stored : p.create_session s.store session ≡ ok t.store
    pub cleared : t.throttle ≡ succeeded (allows s.throttle r.username r.now).0 r.username
    pub once : t.hashes ≡ suc s.hashes

  module _ (r : Request) (s : Site p absent_hash) (session : Session) where
    -- The site as it stands where the password is verified.
    abbrev entered : Site p absent_hash
    entered = record s {
      throttle = (allows s.throttle r.username r.now).0;
      gate = (take s.gate r.origin r.now).0;
      hashes = suc s.hashes;
    }

    close_login-ok :
        (x : Result AppError (p.State × Session))
        → (close_login p absent_hash r entered x).1 ≡ ok session
        → (store : p.State) × (x ≡ ok (store, session))
          × ((close_login p absent_hash r entered x).0
              ≡ record entered { store = store; throttle = succeeded entered.throttle r.username })
    close_login-ok (err e) h = absurd (err≢ok h)
    close_login-ok (ok (store, found)) h = (store, ap (λ f. ok (store, f)) (ok_inj h), refl)

    with_session-ok :
        (made : Session) (x : Result Bytes p.State) (store : p.State)
        → with_session p absent_hash made x ≡ ok (store, session)
        → (made ≡ session) × (x ≡ ok store)
    with_session-ok made (err e) store h = absurd (err≢ok h)
    with_session-ok made (ok t) store h = (ap (λ q. q.1) (ok_inj h), ap (λ q. ok q.0) (ok_inj h))

    login_result-ok :
        (verified : Bool) (c : Option Credentials) (store : p.State)
        → login_result p absent_hash r entered verified c ≡ ok (store, session)
        → (credentials : Credentials) × (verified ≡ true)
          × (c ≡ some credentials)
          × (session ≡ session_of credentials.user r.token r.now)
          × (p.create_session s.store session ≡ ok store)
    login_result-ok true none store h = absurd (err≢ok h)
    login_result-ok false c store h = absurd (err≢ok h)
    login_result-ok true (some c) store h =
        let made = session_of c.user r.token r.now in
        let (same, stored) = with_session-ok made (p.create_session s.store made) store h in
        (c, refl, refl, sym same, ap (p.create_session s.store) (sym same) ∙ stored)

    login_verified-ok :
        (c : Option Credentials) (x : Result Bytes Bool)
        → (login_verified p absent_hash r entered c x).1 ≡ ok session
        → (credentials : Credentials) × (store : p.State) × (x ≡ ok true)
          × (c ≡ some credentials)
          × (session ≡ session_of credentials.user r.token r.now)
          × (p.create_session s.store session ≡ ok store)
          × ((login_verified p absent_hash r entered c x).0
              ≡ record entered { store = store; throttle = succeeded entered.throttle r.username })
    login_verified-ok c (err e) h = absurd (err≢ok h)
    login_verified-ok c (ok verified) h =
        let (store, e, t) = close_login-ok (login_result p absent_hash r entered verified c) h in
        let (credentials, v, found, made, stored) = login_result-ok verified c store e in
        (credentials, store, ap (λ b. ok b) v, found, made, stored, t)

    abbrev through : Site p absent_hash
    through = record s {
      throttle = (allows s.throttle r.username r.now).0;
      gate = (take s.gate r.origin r.now).0;
    }

    login_found-ok :
        (x : Result Bytes (Option Credentials))
        → (login_found p absent_hash r through x).1 ≡ ok session
        → verify_request r.csrf r.header_token (some r.form_token) ≡ true
        → (allows s.throttle r.username r.now).1 ≡ true
        → (take s.gate r.origin r.now).1 ≡ true
        → p.by_username s.store r.username ≡ x
        → IsSignedIn r s (login_found p absent_hash r through x).0 session
    login_found-ok (err e) h csrf throttle gate f = absurd (err≢ok h)
    login_found-ok (ok c) h csrf throttle gate f = by_permit r.permit refl h
      where
        verified : Answer p absent_hash
        verified =
            login_verified p absent_hash r entered c
              (p.verify_hash r.password (hash_of p absent_hash c))

        by_permit :
            (b : Bool)
            → r.permit ≡ b
            → (if b then verified else (through, err (too_many_requests too_many_sign_ins))).1
              ≡ ok session
            → IsSignedIn r s
                (if b then verified else (through, err (too_many_requests too_many_sign_ins))).0
                session
        by_permit false e h = absurd (err≢ok h)
        by_permit true e h =
            let (credentials, store, v, found, made, stored, t) =
              login_verified-ok c (p.verify_hash r.password (hash_of p absent_hash c)) h in
            subst (λ site. IsSignedIn r s site session) (sym t)
              (record {
                csrf_ok = csrf;
                throttle_ok = throttle;
                gate_ok = gate;
                permitted = e;
                credentials = credentials;
                found = f ∙ ap (λ o. ok o) found;
                fits =
                    subst (λ o. p.verify_hash r.password (hash_of p absent_hash o) ≡ ok true) found
                      v;
                session_eq = made;
                stored = stored;
                cleared = refl;
                once = refl;
              })

  -- If `login` answers a session, the form's token was right, the limits of the name, the address and
  -- the hasher let it through, the user of that name is known and the password fits the user's hash;
  -- the session is that user's for seven days, and stored; the name's failures are forgotten, and one
  -- password was hashed.
  pub login-IsSignedIn :
      (r : Request) (s : Site p absent_hash) (session : Session)
      → (login p absent_hash r s).1 ≡ ok session
      → IsSignedIn r s (login p absent_hash r s).0 session
  unfolding login login_throttle login_gate
  login-IsSignedIn r s session h =
      let tested = verify_request r.csrf r.header_token (some r.form_token) in
      let (csrf, a) =
        passed session tested (login_throttle p absent_hash r s) (s, err forbidden) forbidden refl
          h in
      let first = record s { throttle = (allows s.throttle r.username r.now).0 } in
      let (throttle, b) =
        passed session (allows s.throttle r.username r.now).1 (login_gate p absent_hash r first)
          (first, err (too_many_requests too_many_sign_ins)) (too_many_requests too_many_sign_ins)
          refl (ap (λ x. x.1) (sym a) ∙ h) in
      let (gate, c) =
        passed session (take s.gate r.origin r.now).1
          (login_found p absent_hash r (through r s session) (p.by_username s.store r.username))
          (through r s session, err (too_many_requests too_many_sign_ins))
          (too_many_requests too_many_sign_ins) refl
          (ap (λ x. x.1) (sym b) ∙ ap (λ x. x.1) (sym a) ∙ h) in
      let all = a ∙ b ∙ c in
      subst (λ x. IsSignedIn r s x.0 session) (sym all)
        (login_found-ok r s session (p.by_username s.store r.username) (ap (λ x. x.1) (sym all) ∙ h)
          csrf throttle gate refl)
