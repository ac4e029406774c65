-- ===== src/Auth/Debug/Redacts.antt =====
-- src/auth.rs, src/signing.rs: what a printed session or key tells of its secrets.
use grindr_rs.Prelude.{Option, none, some, Text, ◌≡◌, refl}
use grindr_rs.Signing.{DeviceSigningKey}
use package.grindr_rs.Auth.Session.{SessionToken, Session}
use package.grindr_rs.Auth.Debug.{
  debug_session, debug_signing_key, debug_token, debug_credentials, debug_option,
}

-- Two sessions that a reader without their secrets cannot tell apart.
abbrev pub SameTokens : Option SessionToken → Option SessionToken → Type 0
SameTokens none none = Unit
SameTokens none (some t) = ⊥
SameTokens (some s) none = ⊥
SameTokens (some s) (some t) = (s.expires_at ≡ t.expires_at) × (s.restriction ≡ t.restriction)

abbrev pub SameButSecrets : Session → Session → Type 0
SameButSecrets s t =
    (s.credentials.email ≡ t.credentials.email)
    × (s.credentials.profile_id ≡ t.credentials.profile_id)
    × (s.credentials.kind ≡ t.credentials.kind)
    × (s.credentials.third_party_user_id ≡ t.credentials.third_party_user_id)
    × SameTokens s.token t.token

module _ (quote : Text → Text) where
  debug_option-SameTokens :
      (a b : Option SessionToken)
      → SameTokens a b
      → debug_option (debug_token quote) a ≡ debug_option (debug_token quote) b
  unfolding debug_option debug_token
  debug_option-SameTokens none none h = refl
  debug_option-SameTokens none (some b) h = elim h [ ]
  debug_option-SameTokens (some a) none h = elim h [ ]
  debug_option-SameTokens (some a) (some b) (expires, restriction) = rw (expires, restriction) refl

  -- Sessions that differ only in their long-lived token and in the id of their session print alike, and so
  -- do stored keys of one account.
  pub debug-SameButSecrets :
      (s t : Session) (k l : DeviceSigningKey)
      → SameButSecrets s t
      → k.user_id ≡ l.user_id
      → (debug_session quote s ≡ debug_session quote t)
        × (debug_signing_key quote k ≡ debug_signing_key quote l)
  unfolding debug_session debug_credentials debug_signing_key
  debug-SameButSecrets s t k l (email, profile, kind, third, tokens) account = (
    rw (email, profile, kind, third, debug_option-SameTokens s.token t.token tokens) refl,
    rw account refl,
  )
