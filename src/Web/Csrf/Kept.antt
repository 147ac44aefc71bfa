-- ===== src/Web/Csrf/Kept.antt =====
-- crates/app-web/src/csrf.rs, `layer`: the cookies that are kept for tokens.
use gavel.Shared.{◌≡◌, ◌≢◌, refl, sym, ◌∙◌, inl, inr, false, arith, some, length, Bool-cases}
use gavel.Shared.Bytes.{Bytes}
use gavel.Web.Csrf.Defs.{token_bytes, from_hex, verify, layer_token}
use gavel.Web.Csrf.Masked.{verify_iff, unmask-IsToken}

-- A cookie that is hexadecimal text of another length than a token's is kept for the token, no new
-- one is issued, and then no value that comes back is accepted.
pub layer_token-wrong_length :
    (cookie bytes fresh presented : Bytes)
    → from_hex cookie ≡ some bytes
    → length bytes ≢ token_bytes
    → (layer_token (some cookie) fresh ≡ (cookie, false))
      × (verify (layer_token (some cookie) fresh).0 presented ≡ false)
unfolding layer_token
layer_token-wrong_length cookie bytes fresh presented e n = (rw e refl, rw e refused)
  where
    refused : verify cookie presented ≡ false
    refused = elim (Bool-cases (verify cookie presented)) [
      | inr h ↦ h
      | inl h ↦
          let (token, t, u) = (verify_iff cookie presented).0 h in
          let same : some bytes ≡ some token = sym e ∙ t in
          let token_length = (unmask-IsToken presented token u).length_eq in
          absurd (n (ground (arith, same, token_length)))
    ]
