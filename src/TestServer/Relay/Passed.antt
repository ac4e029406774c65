-- ===== src/TestServer/Relay/Passed.antt =====
-- src/media/relay.rs: whatever happens to the relay, what `Cdn::served` says of it.
use mathlib.Core.List.{append_assoc}
use grindr_rs.Prelude.{
  ℕ, false, not, Option, none, some, List, [], ◌∷◌, ◌++◌, Text, text_eq, get_elem?, any,
  is_some_and, if◌then◌else◌, ◌≡◌, refl, subst, inl, inr, Bool-cases, append_nil, ◌&&◌,
}
use package.grindr_rs.TestServer.Relay.{
  Link, Cdn, start, accept, mute, mute_everything, redirect_to, is_open, receive, through_link,
  request, peers_of, addresses, served,
}
use grindr_rs.TestServer.Relay.Places.{
  addresses_muted, addresses-mute_at, elem-addresses, Placed-wider, position_elem, Differ-append,
  Placed-append, Placed, is_at, places-Placed, addresses-append, peers_of-append, Differ,
}

pub data Event : Type 0 where
  accepts : ℕ → Event
  mutes : ℕ → Event
  mutes_everything : Event
  redirects : Text → Event
  requests : ℕ → Text → Event

unfoldable pub step : Event → Cdn → Cdn
unfolding accept mute mute_everything redirect_to request
step (accepts upstream) c = accept upstream c
step (mutes i) c = mute i c
step mutes_everything c = mute_everything c
step (redirects location) c = redirect_to location c
step (requests i path) c = request i path c

unfoldable pub run : List Event → Cdn → Cdn
unfolding step
run [] c = c
run (event ∷ later) c = run later (step event c)

-- Each connection that is accepted has an address of its own.
abbrev pub IsFresh : Event → Cdn → Type 0
IsFresh (accepts upstream) c = any (is_at upstream) (addresses c.links) ≡ false
IsFresh event c = Unit

abbrev pub AllFresh : List Event → Cdn → Type 0
AllFresh [] c = Unit
AllFresh (event ∷ later) c = IsFresh event c × AllFresh later (step event c)

-- The connections over which a request for the path passes.
abbrev pub passes : Text → Event → Cdn → List ℕ
passes path (requests i asked) c = if text_eq asked path && is_open c i then i ∷ [] else []
passes path event c = []

abbrev pub passed : Text → List Event → Cdn → List ℕ
passed path [] c = []
passed path (event ∷ later) c = passes path event c ++ passed path later (step event c)

module _ (path : Text) where
  -- The connections of the requests that the origin served have these places.
  abbrev Knows : Cdn → List ℕ → Type 0
  Knows c is = Differ (addresses c.links) × Placed (addresses c.links) (peers_of path c.served) is

  abbrev passes_link : ℕ → Text → Option Link → List ℕ
  passes_link i asked found =
      if text_eq asked path && is_some_and found (λ link. not link.muted) then i ∷ [] else []

  through_link-Knows :
      (i : ℕ) (asked : Text) (c : Cdn) (is : List ℕ) (found : Option Link)
      → get_elem? c.links i ≡ found
      → Knows c is
      → Knows (through_link found asked c) (is ++ passes_link i asked found)
  unfolding through_link receive
  through_link-Knows i asked c is none at_i knows = elim (Bool-cases (text_eq asked path)) [
    | inl here ↦ rw (here, append_nil is) knows
    | inr away ↦ rw (away, append_nil is) knows
  ]
  through_link-Knows i asked c is (some link) at_i (differ, placed) =
      elim (Bool-cases (text_eq asked path)) [
        | inr away ↦ elim (Bool-cases link.muted) [
          | inl mute ↦ rw (mute, away, append_nil is) (differ, placed)
          | inr sound ↦
              rw
                (
                  sound,
                  away,
                  append_nil is,
                  peers_of-append path c.served link.upstream asked,
                  away,
                  append_nil (peers_of path c.served),
                )
                (differ, placed)
        ]
        | inl here ↦ elim (Bool-cases link.muted) [
          | inl mute ↦ rw (mute, here, append_nil is) (differ, placed)
          | inr sound ↦
              rw (sound, here, peers_of-append path c.served link.upstream asked, here)
                (
                  differ,
                  Placed-append (addresses c.links) (peers_of path c.served) is link.upstream i
                      placed
                      (position_elem (addresses c.links) i link.upstream differ
                        (elem-addresses c.links i link at_i)),
                )
        ]
      ]

  step-Knows :
      (event : Event) (c : Cdn) (is : List ℕ)
      → IsFresh event c
      → Knows c is
      → Knows (step event c) (is ++ passes path event c)
  unfolding step accept mute mute_everything redirect_to request is_open
  step-Knows (accepts upstream) c is fresh (differ, placed) =
      rw
        (
          addresses-append c.links (record { muted = c.mute_new; upstream = upstream }),
          append_nil is,
        )
        (
          Differ-append (addresses c.links) upstream differ fresh,
          Placed-wider (addresses c.links) (upstream ∷ []) (peers_of path c.served) is placed,
        )
  step-Knows (mutes i) c is fresh knows = rw (addresses-mute_at c.links i, append_nil is) knows
  step-Knows mutes_everything c is fresh knows = rw (addresses_muted c.links, append_nil is) knows
  step-Knows (redirects location) c is fresh knows = rw (append_nil is) knows
  step-Knows (requests i asked) c is fresh knows = through_link-Knows i asked c is _ refl knows

  run-Knows :
      (events : List Event) (c : Cdn) (is : List ℕ)
      → AllFresh events c
      → Knows c is
      → Knows (run events c) (is ++ passed path events c)
  unfolding run
  run-Knows [] c is fresh knows = rw (append_nil is) knows
  run-Knows (event ∷ later) c is (fresh, rest) knows =
      subst (λ js. Knows (run later (step event c)) js)
        (append_assoc is (passes path event c) (passed path later (step event c)))
        (run-Knows later (step event c) (is ++ passes path event c) rest
          (step-Knows event c is fresh knows))

  -- The relay knows the connection of every request that the origin served, in the order of the requests:
  -- they are those for the path that passed, if each connection has an address of its own.
  pub served-passed :
      (events : List Event)
      → AllFresh events start
      → served path (run events start) ≡ some (passed path events start)
  unfolding served addresses peers_of
  served-passed events fresh = places-Placed _ _ _ (run-Knows events start [] fresh (tt, tt)).1
