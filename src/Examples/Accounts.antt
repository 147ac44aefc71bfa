-- ===== src/Examples/Accounts.antt =====
-- Instances for crates/app-web/src/routes/account.rs and session.rs, on ports that keep users and
-- sessions in lists.
use gavel.Shared.{
  ℕ, zero, suc, ◌≡◌, refl, sym, ap, subst, true, false, ◌==◌, if◌then◌else◌, Option, none, some,
  List, [], ◌∷◌, arith, Result, ok,
}
use gavel.Shared.Bytes.{Bytes, bytes_eq, bytes_eq_iff, bytes_key}
use gavel.Shared.HashMap.{nat_eq, get, insert, remove, retain}
use gavel.Time.{Millis}
use gavel.Web.Csrf.Defs.{from_hex, from_pairs, unmask, verify, or_bits, xor_bits}
use gavel.Web.Throttle.Defs.{allows, succeeded, take, take_window, take_sign_up}
use gavel.Web.Account.Ports.{User, Credentials, Session, Ports, Laws}
use gavel.Web.Account.Defs.{
  Request, Site, login, login_throttle, login_gate, register, register_throttle, register_gate,
  validate_username, validate_password,
}
use gavel.Web.Account.Login.{IsSignedIn, login-IsSignedIn}
use gavel.Web.Account.Work.{Leaves, login-Leaves}
use gavel.Web.Account.Return.{IsAdmitted, login-register}
use gavel.Web.Account.Visits.{authenticate}
use gavel.Web.Account.Sessions.{Means, authenticate-Means}

record Book : Type 0 where
  users : List Credentials
  sessions : List Session
  next : ℕ

abbrev find_user : List Credentials → Bytes → Option Credentials
find_user [] name = none
find_user (c ∷ cs) name =
    let rest = find_user cs name in if bytes_eq c.user.username name then some c else rest

abbrev find_id : List Credentials → ℕ → Option User
find_id [] id = none
find_id (c ∷ cs) id = let rest = find_id cs id in if c.user.id == id then some c.user else rest

abbrev find_session : List Session → Bytes → Option Session
find_session [] id = none
find_session (x ∷ xs) id =
    let rest = find_session xs id in if bytes_eq x.id id then some x else rest

abbrev drop_session : List Session → Bytes → List Session
drop_session [] id = []
drop_session (x ∷ xs) id =
    let rest = drop_session xs id in if bytes_eq x.id id then rest else x ∷ rest

abbrev new_user : Book → Bytes → Millis → User
new_user s name now = record { id = s.next; username = name; created_at = now; is_admin = false }

abbrev memory : Ports
memory = record {
  State = Book;
  by_username = λ s name. ok (find_user s.users name);
  by_id = λ s id. ok (find_id s.users id);
  create_user = λ s name hash now. ok (
    record s {
      users = record { user = new_user s name now; password_hash = hash } ∷ s.users;
      next = suc s.next;
    },
    new_user s name now,
  );
  delete_user = λ s id. ok (s, false);
  create_session = λ s x. ok (record s { sessions = x ∷ s.sessions });
  get_session = λ s id. ok (find_session s.sessions id);
  delete_session = λ s id. ok (record s { sessions = drop_session s.sessions id });
  hash = λ password. ok password;
  verify_hash = λ password hash. ok (bytes_eq password hash);
}

same_bytes : (s : Bytes) → bytes_eq s s ≡ true
same_bytes s = (bytes_eq_iff s s).1 refl

ok_inj : {A : Type 0} {a b : A} → ◌≡◌ {A = Result Bytes A} (ok a) (ok b) → a ≡ b
ok_inj e = ground (arith, e)

memory-Laws : Laws memory
memory-Laws = record {
  hash_fits = λ password h e. rw (sym (ok_inj e), same_bytes password) refl;
  created_found = λ s t name h now u e.
      let made = ok_inj e in
      subst
        (λ x.
          ◌≡◌ {A = Result Bytes (Option Credentials)} (ok (find_user x.0.users name))
            (ok (some (record { user = x.1; password_hash = h }))))
        made (rw (same_bytes name) refl);
  session_found = λ s t x e.
      subst
        (λ b.
          ◌≡◌ {A = Result Bytes (Option Session)} (ok (find_session b.sessions x.id)) (ok (some x)))
        (ok_inj e) (rw (same_bytes x.id) refl);
  users_kept = λ s t x name e. ap (λ b. ok (find_user b.users name)) (sym (ok_inj e));
}

abbrev zeros : ℕ → Bytes
zeros zero = []
zeros (suc n) = b'0' ∷ zeros n

abbrev bella : Bytes
bella = b'b' ∷ b'e' ∷ b'l' ∷ b'l' ∷ b'a' ∷ []

abbrev secret : Bytes
secret = b's' ∷ b'e' ∷ b'c' ∷ b'r' ∷ b'e' ∷ b't' ∷ b'1' ∷ b'2' ∷ []

abbrev sign_up : Request
sign_up = record {
  csrf = zeros 64;
  header_token = none;
  form_token = zeros 64;
  username = bella;
  password = secret;
  origin = 5;
  now = 1000;
  permit = true;
  token = b't' ∷ [];
}

abbrev come_back : Request
come_back = record sign_up { now = 2000; token = b'u' ∷ [] }

abbrev empty_site : Site memory []
empty_site = record {
  throttle = [];
  gate = record { origins = []; global = none };
  sign_ups = none;
  store = record { users = []; sessions = []; next = 1 };
  hashes = 0;
}

abbrev first_session : Session
first_session = record { id = b't' ∷ []; user_id = 1; created_at = 1000; expires_at = 604801000 }

registered : (register memory [] sign_up empty_site).1 ≡ ok first_session
unfolding register register_throttle register_gate validate_username validate_password take_sign_up
    take take_window verify from_hex from_pairs unmask or_bits xor_bits get insert retain
registered = refl

abbrev site : Site memory []
site = (register memory [] sign_up empty_site).0

come_back-IsAdmitted : IsAdmitted memory [] come_back site
unfolding allows register register_throttle register_gate validate_username validate_password
    take_sign_up take take_window verify from_hex from_pairs unmask or_bits xor_bits get insert
    retain
come_back-IsAdmitted = record {
  csrf_ok = refl;
  throttle_ok = refl;
  gate_ok = refl;
  permitted = refl;
}

login-register_example :
    (again : Session) × ((login memory [] come_back site).1 ≡ ok again)
    × (again.user_id ≡ first_session.user_id)
login-register_example =
    login-register memory [] memory-Laws sign_up come_back empty_site site first_session
      (λ x. (record site.store { sessions = x ∷ site.store.sessions }, refl)) registered refl refl
      refl come_back-IsAdmitted

abbrev second_session : Session
second_session = record { id = b'u' ∷ []; user_id = 1; created_at = 2000; expires_at = 604802000 }

signed_in : (login memory [] come_back site).1 ≡ ok second_session
unfolding login login_throttle login_gate allows bytes_eq remove succeeded register
    register_throttle register_gate validate_username validate_password take_sign_up take
    take_window verify from_hex from_pairs unmask or_bits xor_bits get insert retain
signed_in = refl

login-IsSignedIn_example :
    IsSignedIn memory [] come_back site (login memory [] come_back site).0 second_session
login-IsSignedIn_example = login-IsSignedIn memory [] come_back site second_session signed_in

abbrev wrong_password : Request
wrong_password = record come_back { password = bella }

login-Leaves_example :
    let (t, answer) = login memory [] wrong_password site in
    Leaves memory [] wrong_password site t answer
login-Leaves_example = login-Leaves memory [] wrong_password site

authenticate-Means_example :
    let (t, answer) = authenticate memory site.store (b't' ∷ []) 5000 in
    Means memory site.store (b't' ∷ []) 5000 t answer
authenticate-Means_example = authenticate-Means memory site.store (b't' ∷ []) 5000
