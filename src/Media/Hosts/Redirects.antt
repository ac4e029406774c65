-- ===== src/Media/Hosts/Redirects.antt =====
-- src/media.rs: where redirects lead.
use grindr_rs.Prelude.{
  ℕ, suc, ◌-◌, ◌≤◌, true, List, [], ◌∷◌, length, All, ◌≡◌, arith, inl, inr, Bool-cases,
}
use package.grindr_rs.Media.Hosts.{Url, is_media_host, follows, hops, visited}

abbrev pub Allowed : Url → Type 0
Allowed url = is_media_host url ≡ true

follows-Allowed : (previous : ℕ) (url : Url) → follows previous url ≡ true → Allowed url
unfolding follows
follows-Allowed previous url h = ground arith

follows_few : (previous : ℕ) (url : Url) → follows previous url ≡ true → previous ≤ 5
unfolding follows
follows_few previous url h = ground arith

pub hops-Allowed : (previous : ℕ) (targets : List Url) → All Allowed (hops previous targets)
unfolding hops
hops-Allowed previous [] = tt
hops-Allowed previous (url ∷ targets) = elim (Bool-cases (follows previous url)) [
  | inl yes_follows ↦
      rw yes_follows (follows-Allowed previous url yes_follows, hops-Allowed (suc previous) targets)
  | inr no_follows ↦ rw no_follows tt
]

pub length-hops :
    (previous : ℕ) (targets : List Url) → length (hops previous targets) ≤ 6 - previous
unfolding hops
length-hops previous [] = omega arith
length-hops previous (url ∷ targets) = elim (Bool-cases (follows previous url)) [
  | inl yes_follows ↦
      rw yes_follows
        (omega (arith, follows_few previous url yes_follows, length-hops (suc previous) targets))
  | inr no_follows ↦ rw no_follows (omega arith)
]

-- Wherever the servers redirect to, a media request asks only for `https` URLs on the allowed hosts,
-- and for at most six.
pub visited-Allowed :
    (url : Url) (targets : List Url)
    → All Allowed (visited url targets) × (length (visited url targets) ≤ 6)
unfolding visited
visited-Allowed url targets = elim (Bool-cases (is_media_host url)) [
  | inl here ↦ rw here ((here, hops-Allowed 1 targets), omega (arith, length-hops 1 targets))
  | inr off ↦ rw off (tt, omega arith)
]
