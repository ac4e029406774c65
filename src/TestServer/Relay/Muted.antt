-- ===== src/TestServer/Relay/Muted.antt =====
-- src/media/relay.rs `Cdn::mute_everything`.
use grindr_rs.Prelude.{
  all, ℕ, zero, suc, true, false, not, Option, none, some, List, [], ◌∷◌, ◌++◌, Text, text_eq, map,
  get_elem?, is_some_and, ◌≡◌, refl, arith, inl, inr, Bool-cases,
}
use package.grindr_rs.TestServer.Relay.Passed.{
  Event, accepts, mutes, mutes_everything, redirects, requests, step, passes, passed,
}
use package.grindr_rs.TestServer.Relay.{
  Link, Cdn, accept, mute_link, mute_at, mute, mute_everything, redirect_to, is_open, receive,
  through_link, request,
}

-- Every connection is muted, and the next will be.
abbrev AllMuted : Cdn → Type 0
AllMuted c = (c.mute_new ≡ true) × (all (λ link. link.muted) c.links ≡ true)

muted_links : (links : List Link) → all (λ link. link.muted) (map mute_link links) ≡ true
muted_links [] = refl
muted_links (l ∷ links) = muted_links links

muted-append :
    (links : List Link) (link : Link)
    → all (λ link. link.muted) links ≡ true
    → link.muted ≡ true
    → all (λ link. link.muted) (links ++ (link ∷ [])) ≡ true
muted-append [] link muted new = rw new refl
muted-append (l ∷ links) link muted new = ground (arith, muted-append links link)

muted-mute_at :
    (links : List Link) (i : ℕ)
    → all (λ link. link.muted) links ≡ true
    → all (λ link. link.muted) (mute_at links i) ≡ true
unfolding mute_at
muted-mute_at [] i muted = refl
muted-mute_at (l ∷ links) zero muted = ground arith
muted-mute_at (l ∷ links) (suc i) muted = ground (arith, muted-mute_at links i)

muted_elem :
    (links : List Link) (i : ℕ)
    → all (λ link. link.muted) links ≡ true
    → is_some_and (get_elem? links i) (λ link. not link.muted) ≡ false
muted_elem [] i muted = refl
muted_elem (l ∷ links) zero muted = ground arith
muted_elem (l ∷ links) (suc i) muted = muted_elem links i (ground arith)

through_link-AllMuted :
    (found : Option Link) (asked : Text) (c : Cdn)
    → AllMuted c
    → AllMuted (through_link found asked c)
unfolding through_link receive
through_link-AllMuted none asked c muted = muted
through_link-AllMuted (some link) asked c muted = elim (Bool-cases link.muted) [
  | inl mute ↦ rw mute muted
  | inr sound ↦ rw sound muted
]

step-AllMuted : (event : Event) (c : Cdn) → AllMuted c → AllMuted (step event c)
unfolding step accept mute mute_everything redirect_to request
step-AllMuted (accepts upstream) c (new, muted) = (new, muted-append c.links _ muted new)
step-AllMuted (mutes i) c (new, muted) = (new, muted-mute_at c.links i muted)
step-AllMuted mutes_everything c (new, muted) = (refl, muted_links c.links)
step-AllMuted (redirects location) c muted = muted
step-AllMuted (requests i asked) c muted = through_link-AllMuted (get_elem? c.links i) asked c muted

passes_nothing : (path : Text) (event : Event) (c : Cdn) → AllMuted c → passes path event c ≡ []
unfolding is_open
passes_nothing path (accepts upstream) c muted = refl
passes_nothing path (mutes i) c muted = refl
passes_nothing path mutes_everything c muted = refl
passes_nothing path (redirects location) c muted = refl
passes_nothing path (requests i asked) c (new, muted) = elim (Bool-cases (text_eq asked path)) [
  | inl here ↦ rw (here, muted_elem c.links i muted) refl
  | inr away ↦ rw away refl
]

muted_passes_nothing :
    (path : Text) (events : List Event) (c : Cdn) → AllMuted c → passed path events c ≡ []
muted_passes_nothing path [] c muted = refl
muted_passes_nothing path (event ∷ later) c muted =
    rw
      (
        passes_nothing path event c muted,
        muted_passes_nothing path later (step event c) (step-AllMuted event c muted),
      )
      refl

-- Once everything was muted no request passes, also over a connection that is accepted later.
pub passed-mute_everything :
    (path : Text) (events : List Event) (c : Cdn) → passed path events (mute_everything c) ≡ []
unfolding mute_everything
passed-mute_everything path events c =
    muted_passes_nothing path events (mute_everything c) (refl, muted_links c.links)
