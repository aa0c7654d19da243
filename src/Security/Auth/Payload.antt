-- ===== src/Security/Auth/Payload.antt =====
-- The claims that `Auth._build_payload` writes.
use labfunctions.Prelude.{ℕ, ◌≡◌, Option, none, some, if◌then◌else◌, arith}
use labfunctions.Text.{Text, codes, is_empty, teq, teq_iff}
use labfunctions.Dict.{lookup, lookup-insert}
use labfunctions.Security.Types.{JwtConfig}
use labfunctions.Security.Auth.{
  Claim, text, stamp, Payload, or_text, update_text, expiry, build_payload,
}

-- The claim that a standard key has in the end: the argument, or the configuration, or what the
-- payload held.
abbrev pub overridden : Option Text → Option Claim → Option Claim
overridden none old = old
overridden (some v) old = if is_empty v then old else some (text v)

lookup-update_text :
    (k j : Text) (o : Option Text) (p : Payload)
    → lookup j (update_text k o p) ≡ (if teq k j then overridden o (lookup j p) else lookup j p)
lookup-update_text k j none p = ground arith
lookup-update_text k j (some v) p = ground (arith, lookup-insert k j (text v) p)

-- The claim at each key of the payload that is signed: "exp" is always the argument or the
-- configured delay, "iss" and "aud" are the argument, else the configured value, else the
-- payload's own claim, and every other claim is the payload's.
pub lookup-build_payload :
    (conf : JwtConfig) (now : ℕ) (p : Payload) (exp : Option ℕ) (iss aud : Option Text) (j : Text)
    → lookup j (build_payload conf now p exp iss aud) ≡ (
        if teq (codes "exp") j
        then some (stamp (expiry now conf.exp_min exp))
        else if teq (codes "aud") j
        then overridden (or_text aud conf.audience) (lookup j p)
        else if teq (codes "iss") j
        then overridden (or_text iss conf.issuer) (lookup j p)
        else lookup j p)
unfolding build_payload
lookup-build_payload conf now p exp iss aud j =
    let issued = update_text (codes "iss") (or_text iss conf.issuer) p in
    let sent = update_text (codes "aud") (or_text aud conf.audience) issued in
    rw
      (
        lookup-insert (codes "exp") j (stamp (expiry now conf.exp_min exp)) sent,
        lookup-update_text (codes "aud") j (or_text aud conf.audience) issued,
        lookup-update_text (codes "iss") j (or_text iss conf.issuer) p,
      )
      (ground (arith, teq_iff (codes "aud") j, teq_iff (codes "iss") j))
