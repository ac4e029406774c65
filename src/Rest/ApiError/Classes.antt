-- ===== src/Rest/ApiError/Classes.antt =====
-- src/rest.rs: which answers become which errors.
use grindr_rs.Prelude.{ℕ, ◌≤◌, true, none, some, Text, ◌≡◌, ◌⊎◌, inl, inr, arith, Option-cases}
use grindr_rs.Prelude.Int.{ℤ, pos}
use grindr_rs.Error.{BanInfo, unauthorized, banned, from_code, ok}
use grindr_rs.Codec.{Codec}
use package.grindr_rs.Rest.Block.{is_success, is_cloudflare_challenge, is_edge_block, block_kind}
use package.grindr_rs.Rest.ApiError.{
  error_of_status, ban_info, body_code, body_message, extract_api_error, parse_api_error,
  raw_or_blocked,
}

-- No HTTP status is itself a ban code.
from_code_status : (status : ℕ) → 100 ≤ status → from_code (pos status) ≡ none
unfolding from_code
from_code_status status h = ground arith

module _ (codec : Codec) where
  -- A success is passed on whatever its body, also one that looks like a block page.
  pub raw_or_blocked_success :
      (status : ℕ) (body : Text)
      → is_success status ≡ true
      → raw_or_blocked codec status body ≡ ok (record { status = status; body = body })
  unfolding raw_or_blocked block_kind is_cloudflare_challenge is_edge_block
  raw_or_blocked_success status body h = ground arith

  -- What a body must hold for its answer to be reported as a ban.
  pub record SaysBanned (body : Text) (status : ℕ) (info : BanInfo) : Type 0 where
    pub json : codec.Value
    pub parsed : codec.from_slice body ≡ some json
    pub message : body_message codec json ≡ some info.message
    pub code : body_code codec status json ≡ info.code
    pub kind : from_code info.code ≡ some info.kind
    pub passed : block_kind codec status body ≡ none

  -- The code and the message come from a JSON body with a message, or from the status.
  extract_cases :
      (body : Text) (status : ℕ)
      → ((json : codec.Value) × (message : Text) × (codec.from_slice body ≡ some json)
          × (body_message codec json ≡ some message)
          × (extract_api_error codec body status ≡ (body_code codec status json, message)))
        ⊎ ((extract_api_error codec body status).0 ≡ pos status)
  unfolding extract_api_error
  extract_cases body status = elim (Option-cases (codec.from_slice body)) [
    | inl e ↦ inr (ground arith)
    | inr (json, e) ↦ elim (Option-cases (body_message codec json)) [
      | inl none_said ↦ inr (ground arith)
      | inr (message, said) ↦ inl (json, message, e, said, ground arith)
    ]
  ]

  banned_parts :
      (body : Text) (status : ℕ) (info : BanInfo)
      → parse_api_error codec body status ≡ banned info
      → (block_kind codec status body ≡ none)
        × (info.code ≡ (extract_api_error codec body status).0)
        × (info.message ≡ (extract_api_error codec body status).1)
        × (from_code info.code ≡ some info.kind)
  unfolding parse_api_error error_of_status ban_info
  banned_parts body status info e = ground arith

  -- An answer with a status of at least 100 is reported as a ban only if no edge answered and its body is JSON with a string
  -- `message` and with the code of that kind of ban; the message and the code are those of the body.
  pub banned-SaysBanned :
      (body : Text) (status : ℕ) (info : BanInfo)
      → 100 ≤ status
      → parse_api_error codec body status ≡ banned info
      → SaysBanned body status info
  banned-SaysBanned body status info h e =
      let (passed, code, message, kind) = banned_parts body status info e in
      elim (extract_cases body status) [
        | inl (json, text, parsed, said, both) ↦ record {
          json = json;
          parsed = parsed;
          message = ground arith;
          code = ground arith;
          kind = kind;
          passed = passed;
        }
        | inr by_status ↦ absurd (ground (arith, from_code_status status h))
      ]

  -- An answer is reported as `Unauthorized` only if its status is 401, no edge answered, and its code
  -- is not that of a ban.
  pub unauthorized_status :
      (body : Text) (status : ℕ) (code : ℤ) (message : Text)
      → parse_api_error codec body status ≡ unauthorized code message
      → (status ≡ 401) × (block_kind codec status body ≡ none) × (from_code code ≡ none)
  unfolding parse_api_error error_of_status
  unauthorized_status body status code message e = ground arith
