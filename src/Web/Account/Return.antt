-- ===== src/Web/Account/Return.antt =====
-- crates/app-web/src/routes/account.rs: who registers can sign in.
use gavel.Shared.{
  arith, suc, ◌≡◌, refl, sym, ap, ◌∙◌, Bool, true, false, some, if◌then◌else◌, ok, err,
}
use gavel.Shared.Bytes.{Bytes}
use gavel.Web.Csrf.Defs.{verify_request}
use gavel.Web.Throttle.Defs.{allows, take}
use gavel.Web.Account.Ports.{
  Credentials, Session, forbidden, too_many_requests, too_many_sign_ins, Ports, Laws,
}
use gavel.Web.Account.Defs.{
  Request, session_of, Site, close_login, with_session, login_verified, login_found, login_gate,
  login_throttle, login, register,
}
use gavel.Web.Account.Register.{register-IsRegistered}

if_true {ℓ} : {A : Type ℓ} (b : Bool) (x y : A) → b ≡ true → (if b then x else y) ≡ x
if_true true x y e = refl
if_true false x y e = absurd (ground (arith, e))

module _ (p : Ports) (absent_hash : Bytes) where
  -- The token is right and no limit refuses the request.
  pub record IsAdmitted (q : Request) (u : Site p absent_hash) : Type 0 where
    pub csrf_ok : verify_request q.csrf q.header_token (some q.form_token) ≡ true
    pub throttle_ok : (allows u.throttle q.username q.now).1 ≡ true
    pub gate_ok : (take u.gate q.origin q.now).1 ≡ true
    pub permitted : q.permit ≡ true

  login-ok :
      (q : Request) (u : Site p absent_hash) (c : Credentials) (v : p.State)
      → IsAdmitted q u
      → p.by_username u.store q.username ≡ ok (some c)
      → p.verify_hash q.password c.password_hash ≡ ok true
      → p.create_session u.store (session_of c.user q.token q.now) ≡ ok v
      → (login p absent_hash q u).1 ≡ ok (session_of c.user q.token q.now)
  unfolding login login_throttle login_gate
  login-ok q u c v a found fits stored =
      let first : Site p absent_hash = record u {
        throttle = (allows u.throttle q.username q.now).0;
      } in
      let second : Site p absent_hash = record first { gate = (take u.gate q.origin q.now).0 } in
      let third : Site p absent_hash = record second { hashes = suc u.hashes } in
      ap (λ x. x.1)
        (if_true (verify_request q.csrf q.header_token (some q.form_token))
          (login_throttle p absent_hash q u) (u, err forbidden) a.csrf_ok)
      ∙ ap (λ x. x.1)
          (if_true (allows u.throttle q.username q.now).1 (login_gate p absent_hash q first)
            (first, err (too_many_requests too_many_sign_ins)) a.throttle_ok)
      ∙ ap (λ x. x.1)
          (if_true (take u.gate q.origin q.now).1
            (login_found p absent_hash q second (p.by_username u.store q.username))
            (second, err (too_many_requests too_many_sign_ins)) a.gate_ok)
      ∙ ap (λ x. (login_found p absent_hash q second x).1) found
      ∙ ap (λ x. x.1)
          (if_true q.permit
            (login_verified p absent_hash q third (some c)
              (p.verify_hash q.password c.password_hash))
            (second, err (too_many_requests too_many_sign_ins)) a.permitted)
      ∙ ap (λ x. (login_verified p absent_hash q third (some c) x).1) fits
      ∙ ap
          (λ x.
            (close_login p absent_hash q third
              (with_session p absent_hash (session_of c.user q.token q.now) x)).1)
          stored

  -- Whoever registered, on a site whose ports keep their word, is signed in with the same name and
  -- password while the store is as that left it, if the token is right, no limit refuses and the
  -- store takes the session; and the new session is for the same user.
  pub login-register :
      (laws : Laws p) (r q : Request) (s u : Site p absent_hash) (session : Session)
      (takes : (x : Session) → (v : p.State) × (p.create_session u.store x ≡ ok v))
      → (register p absent_hash r s).1 ≡ ok session
      → u.store ≡ (register p absent_hash r s).0.store
      → q.username ≡ r.username
      → q.password ≡ r.password
      → IsAdmitted q u
      → (again : Session) × ((login p absent_hash q u).1 ≡ ok again)
        × (again.user_id ≡ session.user_id)
  login-register laws r q s u session takes h same name password a =
      let w = register-IsRegistered p absent_hash r s session h in
      let c : Credentials = record { user = w.user; password_hash = w.hash } in
      let made : Session = session_of w.user q.token q.now in
      let found : p.by_username u.store q.username ≡ ok (some c) =
        ap (λ store. p.by_username store q.username) same
        ∙ ap (p.by_username (register p absent_hash r s).0.store) name
        ∙ laws.users_kept w.store (register p absent_hash r s).0.store session r.username w.stored
        ∙ laws.created_found s.store w.store r.username w.hash r.now w.user w.created in
      let fits : p.verify_hash q.password w.hash ≡ ok true =
        ap (λ x. p.verify_hash x w.hash) password ∙ laws.hash_fits r.password w.hash w.hash_eq in
      let (v, stored) = takes made in
      (made, login-ok q u c v a found fits stored, sym (ap (λ x. x.user_id) w.session_eq))
