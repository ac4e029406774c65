-- ===== src/Auth/Claims.antt =====
-- src/auth.rs: the restriction in the claims of a session token, and the session of an answer.
use grindr_rs.Prelude.{
  Option, none, some, ◌++◌, Text, codes, text_eq, is_some_and, unwrap_or, if◌then◌else◌, map_option,
  Bool,
}
use grindr_rs.Error.{auth, Result, ok, err, ◌>>=◌}
use package.grindr_rs.Auth.Session.{
  SessionKind, VerificationRegion, uk, br, au, us, other_region, BanDetails, Restriction,
  age_verification, timed_ban, trust_vendor_rejected, other, Session, SignInResult, SessionResponse,
  JwtClaims, ThirdPartySession,
}

is_text : Option Text → Text → Bool
unfolding text_eq
is_text reason s = is_some_and reason λ r. text_eq r s

pub region_from_reason : Option Text → VerificationRegion
unfolding is_text codes
region_from_reason reason =
    if is_text reason (codes "UK_VERIFICATION_REQUIRED")
    then uk
    else if is_text reason (codes "BR_VERIFICATION_REQUIRED")
    then br
    else if is_text reason (codes "AU_VERIFICATION_REQUIRED")
    then au
    else if is_text reason (codes "US_VERIFICATION_REQUIRED")
    then us
    else other_region

-- `BanDetails::default()`.
abbrev no_details : BanDetails
no_details = record {
  expiry_time = none;
  reason = none;
  sub_reason = none;
  is_automated = Bool.false;
}

restriction_named : JwtClaims → Text → Restriction
unfolding codes text_eq region_from_reason
restriction_named claims restriction =
    if text_eq restriction (codes "AGE_RESTRICTED")
    then age_verification (region_from_reason claims.restriction_reason)
        (unwrap_or claims.restriction_reason (codes ""))
    else if text_eq restriction (codes "TIMED_BAN")
    then timed_ban (unwrap_or claims.ban_details no_details)
    else if text_eq restriction (codes "TRUST_VENDOR_REJECTED")
    then trust_vendor_rejected
    else other restriction

unfoldable pub restriction_from_claims : JwtClaims → Option Restriction
unfolding restriction_named
restriction_from_claims claims = map_option (restriction_named claims) claims.restriction

-- The decoder of a session token: the claims, or the text of the error.
pub record JwtLib : Type 0 where
  pub claims : Text → Option JwtClaims
  pub reason : Text → Text

module _ (jwt : JwtLib) where
  unfoldable pub decode_session_jwt : Text → Result JwtClaims
  unfolding codes
  decode_session_jwt token = elim (jwt.claims token) [
    | some claims ↦ ok claims
    | none ↦ err (auth (codes "JWT decode failed: " ++ jwt.reason token))
  ]

  -- The end of `create_session`, from the decoded answer on.
  unfoldable pub session_from_response :
      SessionResponse → Text → SessionKind → Option Text → Result (Session × SignInResult)
  unfolding decode_session_jwt restriction_from_claims
  session_from_response resp email kind third_party_user_id = do
    claims ← decode_session_jwt resp.session_id
    let restriction = restriction_from_claims claims
    ok (
      record {
        credentials = record {
          email = email;
          profile_id = some resp.profile_id;
          auth_token = resp.auth_token;
          kind = kind;
          third_party_user_id = third_party_user_id;
        };
        token = some (record {
          session_id = resp.session_id;
          expires_at = claims.exp;
          restriction = restriction;
        });
      },
      record { profile_id = resp.profile_id; restriction = restriction },
    )

  unfoldable pub session_from_third_party :
      ThirdPartySession → Text → SessionKind → Result (Session × SignInResult)
  unfolding decode_session_jwt restriction_from_claims
  session_from_third_party tp fallback_email kind = do
    claims ← decode_session_jwt tp.session_id
    let restriction = restriction_from_claims claims
    ok (
      record {
        credentials = record {
          email = unwrap_or tp.third_party_user_id_to_show fallback_email;
          profile_id = some tp.profile_id;
          auth_token = tp.auth_token;
          kind = kind;
          third_party_user_id = some tp.third_party_user_id;
        };
        token = some (record {
          session_id = tp.session_id;
          expires_at = claims.exp;
          restriction = restriction;
        });
      },
      record { profile_id = tp.profile_id; restriction = restriction },
    )
