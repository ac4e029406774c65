-- ===== src/Media/Send/Twice.antt =====
-- src/media.rs: how often a media request is sent, and to whom.
use mathlib.Core.List.{append_assoc}
use grindr_rs.Prelude.{
  ◌⊎◌, ◌+◌, sym, ap, ◌∙◌, ℕ, ◌≤◌, true, List, [], ◌∷◌, ◌++◌, Text, length, ◌≡◌, refl, length-append,
  arith, inl, inr, Bool-cases, All,
}
use grindr_rs.Error.{Result, ok, err}
use grindr_rs.Headers.{Header}
use package.grindr_rs.Media.Hosts.{Url, is_media_host}
use package.grindr_rs.Media.Hosts.Redirects.{Allowed, hops-Allowed, length-hops}
use package.grindr_rs.Media.Request.{UrlLib, Target, allowed_url, checked_url}
use package.grindr_rs.Media.Send.{
  Attempt, Outcome, answered, broken, silent, Client, Media, Requested, Sent, arrived, stalled,
  followed_of, wait, begin, concluded, attempt_of, record_progress, send_with, send_to,
  send_media_once, resendable_on, retired, retire_if_stuck, second, after_first, send_media,
}

-- A request to an https URL on an allowed host, after which at most five redirects were followed, to such
-- URLs too.
abbrev pub ToMediaHost : Requested → Type 0
ToMediaHost r = (is_media_host r.url ≡ true) × All Allowed r.followed × (length r.followed ≤ 5)

-- At most so many requests went out on top of those before, all to allowed hosts.
pub record AtMost (n : ℕ) (before after : List Requested) : Type 0 where
  pub news : List Requested
  pub split : after ≡ news ++ before
  pub few : length news ≤ n
  pub hosts : All ToMediaHost news

none_sent : {n : ℕ} {before after : List Requested} → after ≡ before → AtMost n before after
none_sent e = record { news = []; split = e; few = omega arith; hosts = tt }

All-append :
    (xs ys : List Requested) → All ToMediaHost xs → All ToMediaHost ys → All ToMediaHost (xs ++ ys)
All-append [] ys h k = k
All-append (x ∷ xs) ys (h, hs) k = (h, All-append xs ys hs k)

-- First one, then another.
both : {m n : ℕ} {a b c : List Requested} → AtMost m a b → AtMost n b c → AtMost (m + n) a c
both {a = a} first later = record {
  news = later.news ++ first.news;
  split =
      later.split
      ∙ ap (λ rs. later.news ++ rs) first.split
      ∙ sym (append_assoc later.news first.news a);
  few = omega (arith, first.few, later.few, length-append later.news first.news);
  hosts = All-append later.news first.news later.hosts first.hosts;
}

-- A URL that passed the checks.
allowed_url-hosts :
    (lib : UrlLib) (url : Text) (parsed : Url ⊎ Text) {u : Url}
    → allowed_url lib url parsed ≡ ok u
    → is_media_host u ≡ true
unfolding allowed_url
allowed_url-hosts lib url (inr e) h = ground arith
allowed_url-hosts lib url (inl parsed) h = ground arith

module _ (media : Media) where
  concluded-sent :
      (attempt : Attempt) (outcome : Outcome) (c : Client)
      → (concluded media attempt outcome c).1.sent ≡ c.sent
  unfolding concluded record_progress
  concluded-sent attempt (answered response) c = refl
  concluded-sent attempt (broken e) c = refl
  concluded-sent attempt silent c = refl

  send_with-AtMost :
      (url : Url) (built : Result (List Header)) (c : Client)
      → is_media_host url ≡ true
      → AtMost 1 c.sent (send_with media url built c).1.sent
  unfolding send_with begin wait followed_of
  send_with-AtMost url (err e) c h = none_sent refl
  send_with-AtMost url (ok items) c h = record {
    news =
        record {
          fingerprint = c.fingerprint;
          url = url;
          headers = items;
          followed = followed_of media c;
        }
        ∷ [];
    split = concluded-sent (attempt_of media url c) (media.outcome c.turn) _;
    few = omega arith;
    hosts =
        ((h, hops-Allowed 1 (media.redirects c.turn), length-hops 1 (media.redirects c.turn)), tt);
  }

  send_to-AtMost :
      (target : Target) (url : Result Url) (c : Client)
      → ((u : Url) → url ≡ ok u → is_media_host u ≡ true)
      → AtMost 1 c.sent (send_to media target url c).1.sent
  unfolding send_to wait
  send_to-AtMost target (err e) c h = none_sent refl
  send_to-AtMost target (ok url) c h = send_with-AtMost url _ (wait media c) (h url refl)

  once-AtMost :
      (target : Target) (c : Client) → AtMost 1 c.sent (send_media_once media target c).1.sent
  unfolding send_media_once checked_url
  once-AtMost target c =
      send_to-AtMost target (checked_url media.url target) c
        (λ u e. allowed_url-hosts media.url target.url (media.url.parse target.url) e)

  retire-sent : (attempt : Attempt) (c : Client) → (retire_if_stuck media attempt c).sent ≡ c.sent
  unfolding retire_if_stuck retired wait
  retire-sent attempt c = refl

  second-sent : (r : Result Sent) (c : Client) → (second media (r, c)).1.sent ≡ c.sent
  unfolding second
  second-sent (ok (arrived response progress)) c = refl
  second-sent (ok (stalled again)) c = retire-sent again c
  second-sent (err e) c = refl

  after_first-AtMost :
      (target : Target) (r : Result Sent) (c : Client)
      → AtMost 1 c.sent (after_first media target (r, c)).1.sent
  unfolding after_first
  after_first-AtMost target (ok (arrived response progress)) c = none_sent refl
  after_first-AtMost target (err e) c = none_sent refl
  after_first-AtMost target (ok (stalled attempt)) c =
      let current = retire_if_stuck media attempt c in
      elim (Bool-cases (resendable_on media attempt current.fingerprint)) [
        | inr no_second ↦ rw no_second (none_sent (retire-sent attempt c))
        | inl again ↦
            let once = once-AtMost target current in
            rw again (record {
              news = once.news;
              split =
                  second-sent (send_media_once media target current).0
                    (send_media_once media target current).1
                  ∙ once.split
                  ∙ ap (λ rs. once.news ++ rs) (retire-sent attempt c);
              few = once.few;
              hosts = once.hosts;
            })
      ]

  -- Whatever the servers answer and other tasks do, a media request goes out at most twice, each time to an
  -- https URL on an allowed host, and is redirected at most five times, to such URLs.
  pub send_media-AtMost :
      (target : Target) (c : Client) → AtMost 2 c.sent (send_media media target c).1.sent
  unfolding send_media
  send_media-AtMost target c = both (once-AtMost target c) (
      after_first-AtMost target (send_media_once media target c).0
        (send_media_once media target c).1)
