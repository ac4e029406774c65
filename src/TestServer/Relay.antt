-- ===== src/TestServer/Relay.antt =====
-- src/media/relay.rs: the media server of the tests, behind a relay that can hold back what passes through a
-- connection. The copying of bytes is not modelled: a request passes the relay if its connection is open.
pub mod Places
pub mod Passed
pub mod Muted
use grindr_rs.Prelude.{
  ℕ, zero, suc, ◌+◌, Bool, true, false, not, Option, none, some, List, [], ◌∷◌, ◌++◌, Text, text_eq,
  codes, map, length, get_elem?, and_then, map_option, unwrap_or, is_some_and, if◌then◌else◌, ◌==◌,
}
use grindr_rs.Texts.{position}

-- An address is a number.
pub record Link : Type 0 where
  pub muted : Bool
  pub upstream : ℕ

-- The `Relay` and the `Origin` of a `Cdn`.
pub record Cdn : Type 0 where
  pub links : List Link
  pub mute_new : Bool
  pub served : List (ℕ × Text)
  pub location : Option Text

abbrev pub start : Cdn
start = record { links = []; mute_new = false; served = []; location = none }

-- `Relay::serve`, of one connection, which is opened to the origin from the address.
unfoldable pub accept : ℕ → Cdn → Cdn
accept upstream c = record c {
  links = c.links ++ (record { muted = c.mute_new; upstream = upstream } ∷ []);
}

abbrev pub mute_link : Link → Link
mute_link link = record link { muted = true }

unfoldable pub mute_at : List Link → ℕ → List Link
mute_at [] i = []
mute_at (link ∷ links) zero = mute_link link ∷ links
mute_at (link ∷ links) (suc i) = link ∷ mute_at links i

-- `Cdn::mute`, which panics out of range: here nothing is muted then.
unfoldable pub mute : ℕ → Cdn → Cdn
unfolding mute_at
mute i c = record c { links = mute_at c.links i }

unfoldable pub mute_everything : Cdn → Cdn
mute_everything c = record c { mute_new = true; links = map mute_link c.links }

unfoldable pub redirect_to : Text → Cdn → Cdn
redirect_to location c = record c { location = some location }

unfoldable pub accepted : Cdn → ℕ
accepted c = length c.links

unfoldable pub is_open : Cdn → ℕ → Bool
is_open c i = is_some_and (get_elem? c.links i) λ link. not link.muted

-- `Origin::serve_connection`, of one request.
unfoldable pub receive : ℕ → Text → Cdn → Cdn
receive peer path c = record c { served = c.served ++ ((peer, path) ∷ []) }

unfoldable pub through_link : Option Link → Text → Cdn → Cdn
unfolding receive
through_link none path c = c
through_link (some link) path c = if link.muted then c else receive link.upstream path c

-- A request of the client on a connection, which `pump` lets through.
unfoldable pub request : ℕ → Text → Cdn → Cdn
unfolding through_link
request i path c = through_link (get_elem? c.links i) path c

unfoldable pub peers_of : Text → List (ℕ × Text) → List ℕ
unfolding text_eq
peers_of path [] = []
peers_of path ((peer, served) ∷ later) =
    let rest = peers_of path later in if text_eq served path then peer ∷ rest else rest

unfoldable pub addresses : List Link → List ℕ
addresses links = map (λ link. link.upstream) links

unfoldable pub places : List ℕ → List ℕ → Option (List ℕ)
unfolding position
places known [] = some []
places known (peer ∷ peers) =
    and_then (position (λ address. address == peer) known)
      λ i. map_option (λ rest. i ∷ rest) (places known peers)

-- `Cdn::served`; nothing if its `expect` panics.
unfoldable pub served : Text → Cdn → Option (List ℕ)
unfolding places addresses peers_of
served path c = places (addresses c.links) (peers_of path c.served)

-- What the origin does for a request, while the client takes it.
pub data Act : Type 0 where
  sends_response : Text → Option Text → Bool → Act
  sends_data : Text → Bool → Act
  sleeps : ℕ → Act

abbrev pub hold : ℕ
hold = 30_000

abbrev pub drip_pause : ℕ
drip_pause = 50

abbrev pub drip_pieces : ℕ
drip_pieces = 40

-- The pieces from a number on, of which so many are left.
unfoldable pub drips : ℕ → ℕ → List Act
drips piece zero = []
drips piece (suc left) =
    sleeps drip_pause ∷ sends_data (piece ∷ []) (piece + 1 == drip_pieces) ∷ drips (piece + 1) left

abbrev pub ok_status : Text
ok_status = codes "200"

unfoldable pub body_of : Text → List Act
unfolding codes text_eq drips
body_of path =
    if text_eq path (codes "/media/drip")
    then drips 0 drip_pieces
    else if text_eq path (codes "/media/stalled-body")
    then sends_data (codes "part") false ∷ sleeps hold ∷ []
    else sends_data (codes "media") true ∷ []

unfoldable pub unless_redirected : Text → Option Text → List Act
unfolding codes text_eq body_of
unless_redirected path (some location) = sends_response (codes "302") (some location) true ∷ []
unless_redirected path none =
    if text_eq path (codes "/media/held")
    then sleeps hold ∷ []
    else if text_eq path (codes "/media/empty")
    then sends_response ok_status none true ∷ []
    else sends_response ok_status none false ∷ body_of path

unfoldable pub answer : Text → Option Text → List Act
unfolding unless_redirected text_eq codes
answer path location =
    unless_redirected path (if text_eq path (codes "/media/redirect") then location else none)
