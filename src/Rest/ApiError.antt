-- ===== src/Rest/ApiError.antt =====
-- src/rest.rs: from the status and body of an answer to a value or an error.
pub mod Classes
use grindr_rs.Prelude.{
  ℕ, Option, none, some, Text, codes, map_option, and_then, unwrap_or, if◌then◌else◌, ◌==◌,
}
use grindr_rs.Prelude.Int.{ℤ, pos, as_i32}
use grindr_rs.Error.{
  BanKind, BanInfo, GrindrError, http, api, unauthorized, banned, rate_limited, blocked, from_code,
  Result, ok, err,
}
use grindr_rs.Codec.{Codec}
use package.grindr_rs.Rest.Summary.{summarize_error_body}
use package.grindr_rs.Rest.Block.{is_success, block_kind}

-- The status and unparsed body of a response.
pub record RawResponse : Type 0 where
  pub status : ℕ
  pub body : Text

-- The `match` on the status at the end of `parse_api_error`.
unfoldable pub error_of_status : ℕ → ℤ → Text → GrindrError
error_of_status http_status code message =
    if http_status == 401
    then unauthorized code message
    else if http_status == 429
    then rate_limited
    else api code message

module _ (codec : Codec) where
  open codec use {Value, from_slice, from_slice_error, get, as_str, as_i64, as_bool}

  field : Option Value → Text → Option Value
  field json key = and_then json λ j. get j key

  unfoldable pub ban_info : BanKind → ℤ → Text → Text → BanInfo
  unfolding field codes
  ban_info kind code message bytes =
      let json = from_slice bytes in
      record {
        kind = kind;
        code = code;
        message = message;
        reason = and_then (field json (codes "reason")) as_str;
        sub_reason = and_then (field json (codes "banSubReason")) as_str;
        automated = and_then (field json (codes "isBanAutomated")) as_bool;
      }

  -- The `code` and the `message` of a JSON body.
  unfoldable pub body_code : ℕ → Value → ℤ
  unfolding codes
  body_code http_status json =
      unwrap_or (map_option as_i32 (and_then (get json (codes "code")) as_i64)) (pos http_status)

  unfoldable pub body_message : Value → Option Text
  unfolding codes
  body_message json = and_then (get json (codes "message")) as_str

  unfoldable pub extract_api_error : Text → ℕ → ℤ × Text
  extract_api_error bytes http_status =
      elim (and_then {B = ℤ × Text} (from_slice bytes)
        λ json. map_option (λ message. (body_code http_status json, message)) (body_message json)) [
          | some found ↦ found
          | none ↦ (pos http_status, summarize_error_body codec bytes)
        ]

  unfoldable pub parse_api_error : Text → ℕ → GrindrError
  parse_api_error bytes http_status = elim (block_kind codec http_status bytes) [
    | some kind ↦ blocked kind
    | none ↦
        let (code, message) = extract_api_error bytes http_status in
        elim (from_code code) [
          | some kind ↦ banned (ban_info kind code message bytes)
          | none ↦ error_of_status http_status code message
        ]
  ]

  unfoldable pub raw_or_blocked : ℕ → Text → Result RawResponse
  raw_or_blocked status body = elim (block_kind codec status body) [
    | some kind ↦ err (blocked kind)
    | none ↦ ok (record { status = status; body = body })
  ]

  -- `parse_json`; `read` is the derived decoder of the expected type.
  unfoldable pub parse_json {ℓ} : {A : Type ℓ} → (Text → Option A) → RawResponse → Result A
  parse_json read response =
      if is_success response.status
      then elim (read response.body) [
        | some a ↦ ok a
        | none ↦ err (http (from_slice_error response.body))
      ]
      else err (parse_api_error response.body response.status)
