-- ===== src/TestServer/Relay/Places.antt =====
-- src/media/relay.rs: the places of addresses among those of the connections.
use mathlib.Core.Bool.{false≢true}
use grindr_rs.Prelude.{
  ℕ, zero, suc, Bool, true, false, Option, none, some, List, [], ◌∷◌, ◌++◌, Text, text_eq, map,
  get_elem?, any, any-append, map_option, if◌then◌else◌, ◌==◌, ◌≡◌, refl, ap, ◌∙◌, arith, inl, inr,
  Bool-cases,
}
use grindr_rs.Texts.{position}
use package.grindr_rs.TestServer.Relay.{Link, mute_link, mute_at, peers_of, addresses, places}

abbrev pub is_at : ℕ → ℕ → Bool
is_at peer address = address == peer

abbrev pub Differ : List ℕ → Type 0
Differ [] = Unit
Differ (a ∷ as') = (any (is_at a) as' ≡ false) × Differ as'

pub Differ-append :
    (as' : List ℕ) (b : ℕ) → Differ as' → any (is_at b) as' ≡ false → Differ (as' ++ (b ∷ []))
Differ-append [] b differ fresh = (refl, tt)
Differ-append (a ∷ as') b (here, differ) fresh =
    (any-append (is_at a) as' (b ∷ []) ∙ ground arith, Differ-append as' b differ (ground arith))

elem_apart :
    (as' : List ℕ) (i a b : ℕ)
    → any (is_at a) as' ≡ false
    → get_elem? as' i ≡ some b
    → (a == b) ≡ false
elem_apart [] i a b apart at = absurd (ground arith)
elem_apart (c ∷ as') zero a b apart at = ground arith
elem_apart (c ∷ as') (suc i) a b apart at = elem_apart as' i a b (ground arith) at

pub position_elem :
    (as' : List ℕ) (i b : ℕ)
    → Differ as'
    → get_elem? as' i ≡ some b
    → position (is_at b) as' ≡ some i
unfolding position
position_elem [] i b differ found = absurd (ground arith)
position_elem (a ∷ as') zero b differ found =
    let same : (a == b) ≡ true = ground arith in rw same refl
position_elem (a ∷ as') (suc i) b (here, differ) found =
    rw (elem_apart as' i a b here found, position_elem as' i b differ found) refl

map_suc :
    (o p : Option ℕ) (i : ℕ)
    → ((j : ℕ) → o ≡ some j → p ≡ some j)
    → map_option suc o ≡ some i
    → map_option suc p ≡ some i
map_suc none p i same found = absurd (ground arith)
map_suc (some j) p i same found = rw (same j refl) found

position_append :
    (p : ℕ → Bool) (as' bs : List ℕ) (i : ℕ)
    → position p as' ≡ some i
    → position p (as' ++ bs) ≡ some i
unfolding position
position_append p [] bs i found = absurd (ground arith)
position_append p (a ∷ as') bs i found = elim (Bool-cases (p a)) [
  | inl hit ↦ rw hit (rw hit at found)
  | inr miss ↦
      rw miss (map_suc (position p as') _ i (λ j. position_append p as' bs j) (rw miss at found))
]

-- The peers have these places among the addresses.
abbrev pub Placed : List ℕ → List ℕ → List ℕ → Type 0
Placed known [] [] = Unit
Placed known [] (i ∷ is) = false ≡ true
Placed known (peer ∷ peers) [] = false ≡ true
Placed known (peer ∷ peers) (i ∷ is) =
    (position (is_at peer) known ≡ some i) × Placed known peers is

pub places-Placed : (known peers is : List ℕ) → Placed known peers is → places known peers ≡ some is
unfolding places
places-Placed known [] [] placed = refl
places-Placed known [] (i ∷ is) placed = absurd (false≢true placed)
places-Placed known (peer ∷ peers) [] placed = absurd (false≢true placed)
places-Placed known (peer ∷ peers) (i ∷ is) (here, placed) =
    rw (here, places-Placed known peers is placed) refl

pub Placed-wider :
    (known bs peers is : List ℕ) → Placed known peers is → Placed (known ++ bs) peers is
Placed-wider known bs [] [] placed = tt
Placed-wider known bs [] (i ∷ is) placed = placed
Placed-wider known bs (peer ∷ peers) [] placed = placed
Placed-wider known bs (peer ∷ peers) (i ∷ is) (here, placed) =
    (position_append (is_at peer) known bs i here, Placed-wider known bs peers is placed)

pub Placed-append :
    (known peers is : List ℕ) (b i : ℕ)
    → Placed known peers is
    → position (is_at b) known ≡ some i
    → Placed known (peers ++ (b ∷ [])) (is ++ (i ∷ []))
Placed-append known [] [] b i placed found = (found, tt)
Placed-append known [] (j ∷ is) b i placed found = absurd (false≢true placed)
Placed-append known (peer ∷ peers) [] b i placed found = absurd (false≢true placed)
Placed-append known (peer ∷ peers) (j ∷ is) b i (here, placed) found =
    (here, Placed-append known peers is b i placed found)

pub addresses-append :
    (links : List Link) (link : Link)
    → addresses (links ++ (link ∷ [])) ≡ addresses links ++ (link.upstream ∷ [])
unfolding addresses
addresses-append [] link = refl
addresses-append (l ∷ links) link = ap (λ as'. l.upstream ∷ as') (addresses-append links link)

pub addresses-mute_at : (links : List Link) (i : ℕ) → addresses (mute_at links i) ≡ addresses links
unfolding addresses mute_at
addresses-mute_at [] i = refl
addresses-mute_at (l ∷ links) zero = refl
addresses-mute_at (l ∷ links) (suc i) = ap (λ as'. l.upstream ∷ as') (addresses-mute_at links i)

pub addresses_muted : (links : List Link) → addresses (map mute_link links) ≡ addresses links
unfolding addresses
addresses_muted [] = refl
addresses_muted (l ∷ links) = ap (λ as'. l.upstream ∷ as') (addresses_muted links)

pub elem-addresses :
    (links : List Link) (i : ℕ) (link : Link)
    → get_elem? links i ≡ some link
    → get_elem? (addresses links) i ≡ some link.upstream
unfolding addresses
elem-addresses [] i link found = absurd (ground arith)
elem-addresses (l ∷ links) zero link found = ap (λ o. map_option (λ k. k.upstream) o) found
elem-addresses (l ∷ links) (suc i) link found = elem-addresses links i link found

pub peers_of-append :
    (path : Text) (seen : List (ℕ × Text)) (peer : ℕ) (asked : Text)
    → peers_of path (seen ++ ((peer, asked) ∷ []))
      ≡ peers_of path seen ++ (if text_eq asked path then peer ∷ [] else [])
unfolding peers_of
peers_of-append path [] peer asked = refl
peers_of-append path ((other, at_path) ∷ seen) peer asked =
    elim (Bool-cases (text_eq at_path path)) [
      | inl here ↦ rw (here, peers_of-append path seen peer asked) refl
      | inr away ↦ rw (away, peers_of-append path seen peer asked) refl
    ]
