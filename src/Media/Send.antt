-- ===== src/Media/Send.antt =====
-- src/media.rs `send_media`: a media request, and its one repetition on a new connection. A
-- fingerprint has an identity, which `Arc::ptr_eq` compares.
pub mod Twice
use grindr_rs.Prelude.{
  ℕ, suc, Bool, true, false, not, ◌&&◌, Option, none, some, List, [], ◌∷◌, Text, text_eq,
  if◌then◌else◌, ◌==◌,
}
use grindr_rs.Error.{
  GrindrError, TimeoutPhase, headers, timeout, WreqError, from_wreq, Result, ok, err,
}
use grindr_rs.Device.{DeviceInfo}
use grindr_rs.Headers.{HeaderLib, Header}
use package.grindr_rs.Media.Hosts.{Url, hops}
use package.grindr_rs.Media.Request.{Target, UrlLib, checked_url, media_headers, host_of}
use package.grindr_rs.Media.Transfer.{Piece}
use package.grindr_rs.Media.Liveness.{State, Stamp, stamp, progressed, retire}

pub record Fingerprint : Type 0 where
  pub id : ℕ
  pub device : DeviceInfo
  pub user_agent : Text

-- `Attempt`.
pub record Attempt : Type 0 where
  pub fingerprint : Fingerprint
  pub stamp : Stamp
  pub redirected : Bool

-- A response of a host: the pieces of its body that arrive before the deadline of the body, and whether
-- it is whole by then.
pub record Response : Type 0 where
  pub host : Text
  pub status : ℕ
  pub content_type : Option Text
  pub content_length : Option ℕ
  pub content_range : Option Text
  pub accept_ranges : Option Text
  pub pieces : List Piece
  pub whole : Bool

-- What a request comes to within the media timeout: a response, an error, or silence.
pub data Outcome : Type 0 where
  answered : Response → Outcome
  broken : WreqError → Outcome
  silent : Outcome

-- A request that went out, and the URLs that it was redirected to and that were requested in turn.
pub record Requested : Type 0 where
  pub fingerprint : Fingerprint
  pub url : Url
  pub headers : List Header
  pub followed : List Url

-- `sent` holds the requests that went out, the newest first.
pub record Client : Type 0 where
  pub turn : ℕ
  pub fingerprint : Fingerprint
  pub liveness : State
  pub sent : List Requested

-- What the model does not decide: the libraries, and by the number of waits so far the outcomes, where
-- the servers redirect the request that leaves then before its outcome is there, the clock, the other tasks, and whether a new media client can be built and what identity its fingerprint
-- has.
pub record Media : Type 0 where
  pub url : UrlLib
  pub header : HeaderLib
  pub outcome : ℕ → Outcome
  pub redirects : ℕ → List Url
  pub now : ℕ → ℕ
  pub others : ℕ → Fingerprint × State → Fingerprint × State
  pub new_client : ℕ → Option ℕ

abbrev pub is_nonempty : List Url → Bool
is_nonempty [] = false
is_nonempty (url ∷ urls) = true

-- `Progress`.
pub record Progress : Type 0 where
  pub host : Text
  pub generation : ℕ

-- `Sent`.
pub data Sent : Type 0 where
  arrived : Response → Progress → Sent
  stalled : Attempt → Sent

module _ (media : Media) where
  unfoldable pub wait : Client → Client
  wait c =
      let (fingerprint, liveness) = media.others c.turn (c.fingerprint, c.liveness) in
      record c { turn = suc c.turn; fingerprint = fingerprint; liveness = liveness }

  -- `Progress::record`.
  unfoldable pub record_progress : Progress → Client → Client
  record_progress p c = record c {
    liveness = progressed c.liveness p.host p.generation (media.now c.turn);
  }

  -- The redirects that the policy of the request follows.
  unfoldable pub followed_of : Client → List Url
  unfolding hops
  followed_of c = hops 1 (media.redirects c.turn)

  -- The request leaves under the fingerprint of the client, and its outcome is there a turn later.
  unfoldable pub begin : Url → List Header → Client → Client
  unfolding wait followed_of
  begin url items c = wait (record c {
    sent =
        record { fingerprint = c.fingerprint; url = url; headers = items; followed = followed_of c }
        ∷ c.sent;
  })

  -- The attempt as it is once the outcome is there: its marker says whether a redirect was followed.
  unfoldable pub attempt_of : Url → Client → Attempt
  unfolding followed_of
  attempt_of url c = record {
    fingerprint = c.fingerprint;
    stamp = stamp c.liveness (host_of url) (media.now c.turn);
    redirected = is_nonempty (followed_of c);
  }

  unfoldable pub concluded : Attempt → Outcome → Client → Result Sent × Client
  unfolding record_progress
  concluded attempt (answered response) c =
      let progress : Progress = record {
        host = response.host;
        generation = attempt.stamp.generation;
      } in
      (ok (arrived response progress), record_progress progress c)
  concluded attempt (broken e) c = (err (from_wreq e), c)
  concluded attempt silent c = (ok (stalled attempt), c)

  -- The rest of `send_media_once` once the request has its headers.
  unfoldable pub send_with : Url → Result (List Header) → Client → Result Sent × Client
  unfolding begin attempt_of concluded
  send_with url (err e) c = (err e, c)
  send_with url (ok items) c =
      concluded (attempt_of url c) (media.outcome c.turn) (begin url items c)

  -- A url that was checked; the fingerprint is read after a wait.
  unfoldable pub send_to : Target → Result Url → Client → Result Sent × Client
  unfolding wait send_with media_headers
  send_to target (err e) c = (err e, c)
  send_to target (ok url) c =
      let ready = wait c in
      send_with url
        (media_headers media.header ready.fingerprint.device ready.fingerprint.user_agent
          target.fetcher target.range)
        ready

  unfoldable pub send_media_once : Target → Client → Result Sent × Client
  unfolding send_to checked_url
  send_media_once target c = send_to target (checked_url media.url target) c

  unfoldable pub resendable_on : Attempt → Fingerprint → Bool
  unfolding text_eq
  resendable_on attempt current =
      not (current.id == attempt.fingerprint.id)
      && text_eq current.device.device_id attempt.fingerprint.device.device_id

  -- `retire_if_stuck`, after its wait for the fingerprint.
  unfoldable pub retired : Attempt → Client → Client
  retired attempt c =
      let (liveness, done) =
        retire c.liveness
          (record {
            stamp = attempt.stamp;
            phase = headers;
            current = c.fingerprint.id == attempt.fingerprint.id;
            redirected = attempt.redirected;
          })
          (media.now c.turn) in
      record c {
        liveness = liveness;
        fingerprint =
            if done
            then (elim (media.new_client c.turn) [
              | some id ↦ record c.fingerprint { id = id }
              | none ↦ c.fingerprint
            ])
            else c.fingerprint;
      }

  unfoldable pub retire_if_stuck : Attempt → Client → Client
  unfolding wait retired
  retire_if_stuck attempt c = retired attempt (wait c)

  -- The second attempt.
  unfoldable pub second : Result Sent × Client → Result (Response × Progress) × Client
  second (ok (arrived response progress), c) = (ok (response, progress), c)
  second (ok (stalled again), c) = (err (timeout headers), retire_if_stuck again c)
  second (err e, c) = (err e, c)

  unfoldable pub after_first : Target → Result Sent × Client → Result (Response × Progress) × Client
  after_first target (ok (arrived response progress), c) = (ok (response, progress), c)
  after_first target (ok (stalled attempt), c) =
      let current = retire_if_stuck attempt c in
      if resendable_on attempt current.fingerprint
      then second (send_media_once target current)
      else (err (timeout headers), current)
  after_first target (err e, c) = (err e, c)

  unfoldable pub send_media : Target → Client → Result (Response × Progress) × Client
  unfolding send_media_once after_first
  send_media target c = after_first target (send_media_once target c)
