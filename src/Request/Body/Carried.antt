-- ===== src/Request/Body/Carried.antt =====
-- src/request.rs and src/headers.rs: the value of the authorization header of a request.
use grindr_rs.Prelude.{
  true, false, Option, none, some, List, [], ◌∷◌, ◌++◌, Text, codes, text_eq, eq_of_text_eq,
  if◌then◌else◌, ◌≡◌, refl, ap, ◌∙◌, inl, inr, Bool-cases, ℕ,
}
use grindr_rs.Error.{ok}
use grindr_rs.Device.{DeviceInfo}
use grindr_rs.Headers.{Header, HeaderLib, build}
use grindr_rs.Headers.Names.{built_headers, build-built}
use package.grindr_rs.Request.Body.{
  RequiredDeviceInfo, real, anonymous_device, required_headers, body_headers, is_encoding,
  encodings, others, headers_then_body,
}

abbrev pub or_else : Option Text → Option Text → Option Text
or_else none o = o
or_else (some t) o = some t

pub or_none : (o : Option Text) → or_else o none ≡ o
or_none none = refl
or_none (some t) = refl

-- The value of the first header that is called `authorization`.
unfoldable pub authorization_in : List Header → Option Text
unfolding text_eq codes
authorization_in [] = none
authorization_in ((name, value) ∷ items) =
    if text_eq name (codes "authorization") then some value else authorization_in items

pub authorization_in-append :
    (xs ys : List Header)
    → authorization_in (xs ++ ys) ≡ or_else (authorization_in xs) (authorization_in ys)
unfolding authorization_in
authorization_in-append [] ys = refl
authorization_in-append ((name, value) ∷ xs) ys =
    elim (Bool-cases (text_eq name (codes "authorization"))) [
      | inl here ↦ rw here refl
      | inr away ↦ rw away (authorization_in-append xs ys)
    ]

encoding_apart :
    (name value : Text)
    → is_encoding (name, value) ≡ true
    → text_eq name (codes "authorization") ≡ false
unfolding is_encoding text_eq codes
encoding_apart name value e = rw (eq_of_text_eq name (codes "accept-encoding") e) refl

authorization_in-encodings : (items : List Header) → authorization_in (encodings items) ≡ none
unfolding authorization_in encodings
authorization_in-encodings [] = refl
authorization_in-encodings ((name, value) ∷ items) = elim (Bool-cases (is_encoding (name, value))) [
  | inl e ↦ rw (e, encoding_apart name value e) (authorization_in-encodings items)
  | inr e ↦ rw e (authorization_in-encodings items)
]

authorization_in-others :
    (items : List Header) → authorization_in (others items) ≡ authorization_in items
unfolding authorization_in others
authorization_in-others [] = refl
authorization_in-others ((name, value) ∷ items) = elim (Bool-cases (is_encoding (name, value))) [
  | inl e ↦ rw (e, encoding_apart name value e) (authorization_in-others items)
  | inr e ↦ rw e (
      ap (λ o. if text_eq name (codes "authorization") then some value else o)
        (authorization_in-others items))
]

pub authorization_in-required :
    (info : Option RequiredDeviceInfo) (items : List Header)
    → authorization_in (required_headers info ++ items) ≡ authorization_in items
unfolding authorization_in required_headers text_eq codes
authorization_in-required none items = refl
authorization_in-required (some real) items = refl
authorization_in-required (some anonymous_device) items = refl

pub authorization_in-body :
    (content_type : Text) (length : ℕ) → authorization_in (body_headers content_type length) ≡ none
unfolding authorization_in body_headers text_eq codes
authorization_in-body content_type length = refl

-- The headers of a body bring no authorization.
pub authorization_in-headers_then_body :
    (items of_body : List Header)
    → authorization_in of_body ≡ none
    → authorization_in (headers_then_body items of_body) ≡ authorization_in items
unfolding headers_then_body
authorization_in-headers_then_body items of_body e =
    authorization_in-append (others items) (of_body ++ encodings items)
    ∙ rw
        (
          authorization_in-append of_body (encodings items),
          e,
          authorization_in-encodings items,
          authorization_in-others items,
        )
        (or_none (authorization_in items))

authorization_in-built :
    (device : DeviceInfo) (user_agent : Text) (authorization roles : Option Text)
    → authorization_in (built_headers device user_agent authorization roles) ≡ authorization
unfolding authorization_in codes text_eq
authorization_in-built device user_agent none none = refl
authorization_in-built device user_agent none (some roles) = refl
authorization_in-built device user_agent (some authorization) roles = refl

-- The headers that are built carry the authorization that is given, and no other.
pub authorization_in-build :
    (lib : HeaderLib) (device : DeviceInfo) (user_agent : Text) (authorization roles : Option Text)
    {items : List Header}
    → build lib device user_agent authorization roles ≡ ok items
    → authorization_in items ≡ authorization
authorization_in-build lib device user_agent authorization roles h =
    rw (build-built lib device user_agent authorization roles h)
      (authorization_in-built device user_agent authorization roles)
