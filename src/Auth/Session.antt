-- ===== src/Auth/Session.antt =====
-- src/auth.rs: the session types, the bodies and answers of the sign-in endpoints, and how an
-- answer becomes a session. A time is a number of seconds.
use grindr_rs.Prelude.{ℕ, Bool, Option, none, some, ◌++◌, Text, codes, is_none_or, ltb}
use grindr_rs.Prelude.Int.{ℤ}

pub data SessionKind : Type 0 where
  email : SessionKind
  google : SessionKind
  facebook : SessionKind

unfoldable pub third_party_vendor : SessionKind → Option ℕ
third_party_vendor email = none
third_party_vendor facebook = some 1
third_party_vendor google = some 2

pub data VerificationRegion : Type 0 where
  uk : VerificationRegion
  br : VerificationRegion
  au : VerificationRegion
  us : VerificationRegion
  other_region : VerificationRegion

pub record BanDetails : Type 0 where
  pub expiry_time : Option ℤ
  pub reason : Option Text
  pub sub_reason : Option Text
  pub is_automated : Bool

pub data Restriction : Type 0 where
  age_verification : VerificationRegion → Text → Restriction
  timed_ban : BanDetails → Restriction
  trust_vendor_rejected : Restriction
  other : Text → Restriction

pub record SessionToken : Type 0 where
  pub session_id : Text
  pub expires_at : ℕ
  pub restriction : Option Restriction

pub record Credentials : Type 0 where
  pub email : Text
  pub profile_id : Option Text
  pub auth_token : Text
  pub kind : SessionKind
  pub third_party_user_id : Option Text

pub record Session : Type 0 where
  pub credentials : Credentials
  pub token : Option SessionToken

pub record SignInResult : Type 0 where
  pub profile_id : Text
  pub restriction : Option Restriction

pub record SessionResponse : Type 0 where
  pub profile_id : Text
  pub session_id : Text
  pub auth_token : Text

pub record JwtClaims : Type 0 where
  pub exp : ℕ
  pub restriction : Option Text
  pub restriction_reason : Option Text
  pub ban_details : Option BanDetails

pub record ThirdPartySession : Type 0 where
  pub profile_id : Text
  pub session_id : Text
  pub auth_token : Text
  pub third_party_user_id : Text
  pub third_party_user_id_to_show : Option Text

pub record ThirdPartyAuthResponse : Type 0 where
  pub registered : Bool
  pub authentication_response : Option ThirdPartySession

pub record Assignment : Type 0 where
  pub key : Text
  pub value : Text

-- The JSON bodies of the sign-in and refresh requests.
pub data AuthBody : Type 0 where
  email_sign_in : Text → Text → Option Text → Option Text → AuthBody
  refresh : Text → Text → Option Text → AuthBody
  third_party_sign_in : ℕ → Text → Option Text → AuthBody
  third_party_refresh : Text → Text → Option Text → AuthBody

-- `expires_before`: a session without a token has expired.
unfoldable pub expires_before : Session → ℕ → Bool
expires_before session deadline = is_none_or session.token λ token. ltb token.expires_at deadline

pub record Authorization : Type 0 where
  pub session_id : Text
  pub profile_id : Option Text

unfoldable pub authorization_header : Authorization → Text
unfolding codes
authorization_header a = codes "Grindr3 " ++ a.session_id
