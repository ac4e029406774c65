-- ===== src/Request/Body/Order.antt =====
-- src/request.rs `apply_headers_then_body`: the order of the headers.
use mathlib.Core.List.{Perm, perm_middle, append_assoc}
use mathlib.Core.List.Perm
use grindr_rs.Prelude.{
  some, ℕ, Text, Option, codes, text_eq, true, false, Option, none, some, ℕ, Text, text_eq, codes,
  List, [], ◌∷◌, ◌++◌, All, ◌≡◌, refl, sym, ap, subst, inl, inr, Bool-cases,
}
use grindr_rs.Headers.{Header}
use package.grindr_rs.Request.Body.{
  is_encoding, encodings, others, headers_then_body, required_headers, body_headers,
  RequiredDeviceInfo,
}

abbrev pub Encoding : Header → Type 0
Encoding h = is_encoding h ≡ true

abbrev pub Plain : Header → Type 0
Plain h = is_encoding h ≡ false

encodings-Encoding : (items : List Header) → All Encoding (encodings items)
unfolding encodings
encodings-Encoding [] = tt
encodings-Encoding (h ∷ items) = elim (Bool-cases (is_encoding h)) [
  | inl e ↦ rw e (e, encodings-Encoding items)
  | inr e ↦ rw e (encodings-Encoding items)
]

others-Plain : (items : List Header) → All Plain (others items)
unfolding others
others-Plain [] = tt
others-Plain (h ∷ items) = elim (Bool-cases (is_encoding h)) [
  | inl e ↦ rw e (others-Plain items)
  | inr e ↦ rw e (e, others-Plain items)
]

All-both : (hs ks : List Header) → All Plain hs → All Plain ks → All Plain (hs ++ ks)
All-both [] ks _ plain = plain
All-both (h ∷ hs) ks (here, rest) plain = (here, All-both hs ks rest plain)

nothing_after : (hs : List Header) → hs ++ [] ≡ hs
nothing_after [] = refl
nothing_after (h ∷ hs) = ap (λ ks. h ∷ ks) (nothing_after hs)

parted-Perm :
    (items of_body : List Header)
    → Perm ((others items ++ of_body) ++ encodings items) (items ++ of_body)
unfolding others encodings
parted-Perm [] of_body = rw (nothing_after of_body) (Perm.refl of_body)
parted-Perm (h ∷ items) of_body = elim (Bool-cases (is_encoding h)) [
  | inl e ↦ rw e (
      Perm.trans (perm_middle (others items ++ of_body) (encodings items))
        (Perm.cons h (parted-Perm items of_body)))
  | inr e ↦ rw e (Perm.cons h (parted-Perm items of_body))
]

-- The headers are those given, rearranged; all accepted encodings stand at the end.
abbrev pub EncodingsLast : List Header → List Header → Type 0
EncodingsLast headers given =
    (front : List Header) × (back : List Header) × (headers ≡ front ++ back)
    × All Plain front
    × All Encoding back
    × Perm headers given

-- The given headers and those of the body are rearranged, if the body brings no encoding.
pub headers_then_body-EncodingsLast :
    (items of_body : List Header)
    → All Plain of_body
    → EncodingsLast (headers_then_body items of_body) (items ++ of_body)
unfolding headers_then_body
headers_then_body-EncodingsLast items of_body plain =
    let assoc = append_assoc (others items) of_body (encodings items) in
    (
      others items ++ of_body,
      encodings items,
      sym assoc,
      All-both (others items) of_body (others-Plain items) plain,
      encodings-Encoding items,
      subst (λ hs. Perm hs (items ++ of_body)) assoc (parted-Perm items of_body),
    )

before-EncodingsLast :
    (h : Header) (headers given : List Header)
    → Plain h
    → EncodingsLast headers given
    → EncodingsLast (h ∷ headers) (h ∷ given)
before-EncodingsLast h headers given plain (front, back, e, fronts, backs, same) =
    (h ∷ front, back, ap (λ hs. h ∷ hs) e, (plain, fronts), backs, Perm.cons h same)

pub required-EncodingsLast :
    (info : Option RequiredDeviceInfo) (headers given : List Header)
    → EncodingsLast headers given
    → EncodingsLast (required_headers info ++ headers) (required_headers info ++ given)
unfolding required_headers is_encoding text_eq codes
required-EncodingsLast none headers given h = h
required-EncodingsLast (some RequiredDeviceInfo.real) headers given h =
    before-EncodingsLast _ headers given refl h
required-EncodingsLast (some RequiredDeviceInfo.anonymous_device) headers given h =
    before-EncodingsLast _ headers given refl h

pub body_headers-Plain :
    (content_type : Text) (length : ℕ) → All Plain (body_headers content_type length)
unfolding body_headers is_encoding text_eq codes
body_headers-Plain content_type length = (refl, (refl, tt))
