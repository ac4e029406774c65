-- ===== src/Request/Body.antt =====
-- src/request.rs and src/rest.rs: a request and the headers of its body. The builder of the HTTP
-- library is the list of headers that it was given, in order, and the body.
pub mod Carried
pub mod Order
use grindr_rs.Prelude.{
  ℕ, Bool, true, false, Option, none, some, List, [], ◌∷◌, ◌++◌, Text, codes, text_eq, starts_with,
  if◌then◌else◌, ◌⊎◌, inl, inr,
}
use grindr_rs.Error.{invalid_request, Result, ok, err}
use grindr_rs.Error.Show.{decimal}
use grindr_rs.Headers.{Header}

-- `Body`; a source of a streamed body is known here by its size.
pub data Body : Type 0 where
  empty : Body
  json : Text → Body
  bytes : Text → Text → Body
  signed : Text → Text → Body
  stream : Text → ℕ → Body

pub data RequiredDeviceInfo : Type 0 where
  real : RequiredDeviceInfo
  anonymous_device : RequiredDeviceInfo

pub record Request : Type 0 where
  pub method : Text
  pub path : Text
  pub body : Body
  pub required_device_info : Option RequiredDeviceInfo
  pub extra_headers : List Header

-- `Request::new`.
unfoldable pub new : Text → Text → Body → Request
new method path body = record {
  method = method;
  path = path;
  body = body;
  required_device_info = none;
  extra_headers = [];
}

unfoldable pub is_signed : Body → Bool
is_signed (signed content_type b) = true
is_signed body = false

-- `Body::json`: the serialised value, or the text of the serialiser's error.
unfoldable pub json_body : Text ⊎ Text → Result Body
json_body (inl b) = ok (json b)
json_body (inr reason) = err (invalid_request reason)

-- `validate_path`; `debug` is the quoted form of a text.
unfoldable pub validate_path : (Text → Text) → Text → Result (Unit {0})
unfolding codes starts_with
validate_path debug path =
    if starts_with (codes "/") path
    then ok tt
    else err (invalid_request (codes "request path must begin with '/', got " ++ debug path))

-- `parse_content_type`; `valid` says whether the HTTP library takes a text as a header value.
unfoldable pub parse_content_type : (Text → Bool) → (Text → Text) → Text → Result Text
unfolding codes
parse_content_type valid debug content_type =
    if valid content_type
    then ok content_type
    else err (invalid_request (codes "invalid content type " ++ debug content_type))

-- `apply_required_device_info`.
unfoldable pub required_headers : Option RequiredDeviceInfo → List Header
unfolding codes
required_headers (some real) = (codes "requirerealdeviceinfo", codes "true") ∷ []
required_headers (some anonymous_device) = (codes "requireanondeviceinfo", codes "true") ∷ []
required_headers none = []

-- `BodyHeaders::apply`.
unfoldable pub body_headers : Text → ℕ → List Header
unfolding codes decimal
body_headers content_type length =
    (codes "content-type", content_type) ∷ (codes "content-length", decimal length) ∷ []

unfoldable pub is_encoding : Header → Bool
unfolding codes text_eq
is_encoding (name, value) = text_eq name (codes "accept-encoding")

-- The two halves of the `partition`.
unfoldable pub encodings : List Header → List Header
unfolding is_encoding
encodings [] = []
encodings (h ∷ hs) = if is_encoding h then h ∷ encodings hs else encodings hs

unfoldable pub others : List Header → List Header
unfolding is_encoding
others [] = []
others (h ∷ hs) = if is_encoding h then others hs else h ∷ others hs

-- `apply_headers_then_body`: the headers of the body stand before the accepted encodings.
unfoldable pub headers_then_body : List Header → List Header → List Header
unfolding encodings others
headers_then_body items of_body = others items ++ (of_body ++ encodings items)
