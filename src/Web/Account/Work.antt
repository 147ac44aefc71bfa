-- ===== src/Web/Account/Work.antt =====
-- crates/app-web/src/routes/account.rs, `login`: what counts as a failure, and when a password is
-- hashed, on every branch.
use gavel.Shared.{
  suc, ◌≡◌, refl, ◌⊎◌, inl, inr, Bool, true, false, Option, none, some, if◌then◌else◌, Result, ok,
  err,
}
use gavel.Shared.Bytes.{Bytes}
use gavel.Web.Csrf.Defs.{verify_request}
use gavel.Web.Throttle.Defs.{allows, failed, succeeded, take}
use gavel.Web.Account.Ports.{
  Credentials, Session, AppError, unauthorized, forbidden, too_many_requests, repo, internal,
  too_many_sign_ins, Ports,
}
use gavel.Web.Account.Defs.{
  Request, session_of, Site, hash_of, close_login, with_session, login_verified, login_found,
  login_gate, login_throttle, login,
}

module _ (p : Ports) (absent_hash : Bytes) where
  -- The request passed every limit, so that one password was hashed.
  pub record Passed (r : Request) (s t : Site p absent_hash) : Type 0 where
    pub csrf_ok : verify_request r.csrf r.header_token (some r.form_token) ≡ true
    pub throttle_ok : (allows s.throttle r.username r.now).1 ≡ true
    pub gate_ok : (take s.gate r.origin r.now).1 ≡ true
    pub permitted : r.permit ≡ true
    pub once : t.hashes ≡ suc s.hashes

  -- Nothing was hashed.
  abbrev pub Idle : Site p absent_hash → Site p absent_hash → Type 0
  Idle s t = t.hashes ≡ s.hashes

  -- The failures of the names are as they were or as `allows` leaves them.
  abbrev pub Uncounted : Request → Site p absent_hash → Site p absent_hash → Type 0
  Uncounted r s t =
      (t.throttle ≡ s.throttle) ⊎ (t.throttle ≡ (allows s.throttle r.username r.now).0)

  -- What an answer of `login` leaves behind.
  abbrev pub Leaves :
      Request → Site p absent_hash → Site p absent_hash → Result AppError Session → Type 0
  Leaves r s t (ok session) =
      Passed r s t × (t.throttle ≡ succeeded (allows s.throttle r.username r.now).0 r.username)
  Leaves r s t (err unauthorized) =
      Passed r s t × (t.throttle ≡ failed (allows s.throttle r.username r.now).0 r.username r.now)
  Leaves r s t (err (too_many_requests m)) = Idle s t × Uncounted r s t
  Leaves r s t (err forbidden) = (t ≡ s) × Uncounted r s t
  Leaves r s t (err (repo e)) = (Passed r s t ⊎ Idle s t) × Uncounted r s t
  Leaves r s t (err (internal e)) = Passed r s t × Uncounted r s t
  Leaves r s t (err e) = ⊥

  module _ (r : Request) (s : Site p absent_hash)
      (csrf : verify_request r.csrf r.header_token (some r.form_token) ≡ true)
      (throttle : (allows s.throttle r.username r.now).1 ≡ true)
      (gate : (take s.gate r.origin r.now).1 ≡ true) where
    abbrev let_in : Site p absent_hash
    let_in = record s {
      throttle = (allows s.throttle r.username r.now).0;
      gate = (take s.gate r.origin r.now).0;
    }

    abbrev hashed : Site p absent_hash
    hashed = record let_in { hashes = suc s.hashes }

    hashed-Passed :
        (t : Site p absent_hash) → r.permit ≡ true → t.hashes ≡ suc s.hashes → Passed r s t
    hashed-Passed t h once = record {
      csrf_ok = csrf;
      throttle_ok = throttle;
      gate_ok = gate;
      permitted = h;
      once = once;
    }

    closed-Leaves :
        (c : Credentials) (x : Result Bytes p.State)
        → r.permit ≡ true
        → let (t, answer) =
            close_login p absent_hash r hashed
              (with_session p absent_hash (session_of c.user r.token r.now) x) in
          Leaves r s t answer
    closed-Leaves c (ok store) h = (
      hashed-Passed
          (record hashed { store = store; throttle = succeeded hashed.throttle r.username }) h refl,
      refl,
    )
    closed-Leaves c (err e) h = (inl (hashed-Passed hashed h refl), inr refl)

    verified-Leaves :
        (c : Option Credentials) (x : Result Bytes Bool)
        → r.permit ≡ true
        → let (t, answer) = login_verified p absent_hash r hashed c x in Leaves r s t answer
    verified-Leaves c (err e) h = (hashed-Passed hashed h refl, inr refl)
    verified-Leaves none (ok true) h = (
      hashed-Passed (record hashed { throttle = failed hashed.throttle r.username r.now }) h refl,
      refl,
    )
    verified-Leaves c (ok false) h = (
      hashed-Passed (record hashed { throttle = failed hashed.throttle r.username r.now }) h refl,
      refl,
    )
    verified-Leaves (some c) (ok true) h =
        closed-Leaves c (p.create_session s.store (session_of c.user r.token r.now)) h

    permitted-Leaves :
        (b : Bool) (c : Option Credentials)
        → r.permit ≡ b
        → let (t, answer) =
            (if b
              then login_verified p absent_hash r hashed c
                  (p.verify_hash r.password (hash_of p absent_hash c))
              else (let_in, err (too_many_requests too_many_sign_ins))) in
          Leaves r s t answer
    permitted-Leaves true c h =
        verified-Leaves c (p.verify_hash r.password (hash_of p absent_hash c)) h
    permitted-Leaves false c h = (refl, inr refl)

    found-Leaves :
        (x : Result Bytes (Option Credentials))
        → let (t, answer) = login_found p absent_hash r let_in x in Leaves r s t answer
    found-Leaves (err e) = (inr refl, inr refl)
    found-Leaves (ok c) = permitted-Leaves r.permit c refl

  module _ (r : Request) (s : Site p absent_hash) where
    abbrev known : Site p absent_hash
    known = record s { throttle = (allows s.throttle r.username r.now).0 }

    gate-Leaves :
        (b : Bool)
        → verify_request r.csrf r.header_token (some r.form_token) ≡ true
        → (allows s.throttle r.username r.now).1 ≡ true
        → (take s.gate r.origin r.now).1 ≡ b
        → let through = record known { gate = (take s.gate r.origin r.now).0 } in
          let (t, answer) =
            (if b
              then login_found p absent_hash r through (p.by_username s.store r.username)
              else (through, err (too_many_requests too_many_sign_ins))) in
          Leaves r s t answer
    gate-Leaves true csrf throttle gate =
        found-Leaves r s csrf throttle gate (p.by_username s.store r.username)
    gate-Leaves false csrf throttle gate = (refl, inr refl)

    throttle-Leaves :
        (b : Bool)
        → verify_request r.csrf r.header_token (some r.form_token) ≡ true
        → (allows s.throttle r.username r.now).1 ≡ b
        → let (t, answer) =
            (if b
              then login_gate p absent_hash r known
              else (known, err (too_many_requests too_many_sign_ins))) in
          Leaves r s t answer
    unfolding login_gate
    throttle-Leaves true csrf throttle =
        gate-Leaves (take s.gate r.origin r.now).1 csrf throttle refl
    throttle-Leaves false csrf throttle = (refl, inr refl)

    csrf-Leaves :
        (b : Bool)
        → verify_request r.csrf r.header_token (some r.form_token) ≡ b
        → let (t, answer) = (if b then login_throttle p absent_hash r s else (s, err forbidden)) in
          Leaves r s t answer
    unfolding login_throttle
    csrf-Leaves true csrf = throttle-Leaves (allows s.throttle r.username r.now).1 csrf refl
    csrf-Leaves false csrf = (refl, inl refl)

    -- A password is hashed at most once in a call of `login`, and only past the token and the
    -- limits of the name, the addresses and the hasher. A session forgets the name's failures, the answer that the name or the password is
    -- wrong adds a failure to the name, and no other error does; too many requests are refused
    -- without a hash, and a wrong token without any change.
    pub login-Leaves : let (t, answer) = login p absent_hash r s in Leaves r s t answer
    unfolding login
    login-Leaves = csrf-Leaves (verify_request r.csrf r.header_token (some r.form_token)) refl
