-- ===== src/Auth/Debug.antt =====
-- src/auth.rs, src/signing.rs: `fmt::Debug` of a session and of a stored key, as `{:?}` writes it. `quote`
-- is the quoted form of a text, which rests on tables of Unicode.
pub mod Redacts
use grindr_rs.Prelude.{
  Bool, true, false, Option, none, some, List, [], ◌∷◌, ◌++◌, Text, String, codes,
}
use grindr_rs.Error.Show.{decimal, show_i32}
use grindr_rs.Signing.{DeviceSigningKey}
use package.grindr_rs.Auth.Session.{
  SessionKind, VerificationRegion, uk, br, au, us, other_region, BanDetails, Restriction,
  age_verification, timed_ban, trust_vendor_rejected, other, SessionToken, Credentials, Session,
}

-- The fields of `debug_struct`, each with its value.
debug_fields : List (Text × Text) → Text
debug_fields [] = []
debug_fields ((name, value) ∷ []) = name ++ (codes ": " ++ value)
debug_fields ((name, value) ∷ f ∷ fields) =
    name ++ (codes ": " ++ (value ++ (codes ", " ++ debug_fields (f ∷ fields))))

-- `debug_struct`, with at least one field.
unfoldable pub debug_struct : String → List (Text × Text) → Text
unfolding codes debug_fields
debug_struct name fields = codes name ++ (codes " { " ++ (debug_fields fields ++ codes " }"))

unfoldable pub debug_option {ℓ} : {A : Type ℓ} → (A → Text) → Option A → Text
unfolding codes
debug_option show none = codes "None"
debug_option show (some a) = codes "Some(" ++ (show a ++ codes ")")

unfoldable pub debug_bool : Bool → Text
unfolding codes
debug_bool true = codes "true"
debug_bool false = codes "false"

unfoldable pub debug_kind : SessionKind → Text
unfolding codes
debug_kind SessionKind.email = codes "Email"
debug_kind SessionKind.google = codes "Google"
debug_kind SessionKind.facebook = codes "Facebook"

unfoldable pub debug_region : VerificationRegion → Text
unfolding codes
debug_region uk = codes "Uk"
debug_region br = codes "Br"
debug_region au = codes "Au"
debug_region us = codes "Us"
debug_region other_region = codes "Other"

module _ (quote : Text → Text) where
  abbrev pub redacted : Text
  redacted = quote (codes "<redacted>")

  unfoldable pub debug_ban_details : BanDetails → Text
  unfolding codes debug_struct debug_option debug_bool show_i32
  debug_ban_details b = debug_struct "BanDetails" (
      (codes "expiry_time", debug_option show_i32 b.expiry_time)
      ∷ (codes "reason", debug_option quote b.reason)
      ∷ (codes "sub_reason", debug_option quote b.sub_reason)
      ∷ (codes "is_automated", debug_bool b.is_automated)
      ∷ [])

  unfoldable pub debug_restriction : Restriction → Text
  unfolding codes debug_struct debug_region debug_ban_details
  debug_restriction (age_verification region reason) =
      debug_struct "AgeVerification"
        ((codes "region", debug_region region) ∷ (codes "reason", quote reason) ∷ [])
  debug_restriction (timed_ban details) =
      codes "TimedBan(" ++ (debug_ban_details details ++ codes ")")
  debug_restriction trust_vendor_rejected = codes "TrustVendorRejected"
  debug_restriction (other reason) = codes "Other(" ++ (quote reason ++ codes ")")

  unfoldable pub debug_token : SessionToken → Text
  unfolding codes debug_struct debug_option debug_restriction decimal
  debug_token t = debug_struct "SessionToken" (
      (codes "session_id", redacted)
      ∷ (codes "expires_at", decimal t.expires_at)
      ∷ (codes "restriction", debug_option debug_restriction t.restriction)
      ∷ [])

  unfoldable pub debug_credentials : Credentials → Text
  unfolding codes debug_struct debug_option debug_kind
  debug_credentials c = debug_struct "Credentials" (
      (codes "email", quote c.email)
      ∷ (codes "profile_id", debug_option quote c.profile_id)
      ∷ (codes "auth_token", redacted)
      ∷ (codes "kind", debug_kind c.kind)
      ∷ (codes "third_party_user_id", debug_option quote c.third_party_user_id)
      ∷ [])

  unfoldable pub debug_session : Session → Text
  unfolding codes debug_struct debug_option debug_credentials debug_token
  debug_session s = debug_struct "Session" (
      (codes "credentials", debug_credentials s.credentials)
      ∷ (codes "token", debug_option debug_token s.token)
      ∷ [])

  unfoldable pub debug_signing_key : DeviceSigningKey → Text
  unfolding codes debug_struct
  debug_signing_key k =
      debug_struct "DeviceSigningKey"
        ((codes "key", redacted) ∷ (codes "user_id", quote k.user_id) ∷ [])
