-- ===== src/TestServer/Apart.antt =====
-- src/testserver.rs: the server is one for all tests, whose threads take its locks in any order.
use grindr_rs.Prelude.{
  append_nil, codes, unwrap_or, ℕ, Bool, true, false, Option, none, some, List, [], ◌∷◌, ◌++◌, Text,
  text_eq, take, length, if◌then◌else◌, ◌≡◌, refl, ap, sym, ◌∙◌, inl, inr, Bool-cases, All,
  starts_with, is_some_and,
}
use package.grindr_rs.TestServer.State.{
  Payload, State, Recorded, Entry, new, device_info, header_of, is_from, filter, requests_from,
  queue_replies, queued_reply, pop, extend,
}
use package.grindr_rs.TestServer.Reply.{respond, without_query, or_route}
use package.grindr_rs.TestServer.Media.{Reply}
use package.grindr_rs.TestServer.Serve.{answer, or_respond, push_recording, json_reply}
use package.grindr_rs.TestServer.Own.{
  mine, AreLong, starts_with-take, text_eq_sym, pop_others, pop_own, pop-AreLong, extend_others,
  extend_own, extend-AreLong, filter-append,
}
use grindr_rs.Rest.Lossy.{from_utf8_lossy}

-- What happens under one lock: a test queues replies, or a thread finds the reply to a request, or records one.
pub data Event : Type 0 where
  queues : Entry → Event
  answers : Recorded → Event
  records : Recorded → Event

unfoldable pub happen : Event → State → State
unfolding queue_replies answer push_recording
happen (queues queued) s = queue_replies queued s
happen (answers r) s = (answer r s).0
happen (records r) s = push_recording r s

unfoldable pub happen_all : List Event → State → State
unfolding happen
happen_all [] s = s
happen_all (event ∷ later) s = happen_all later (happen event s)

unfoldable pub reply_to : Event → State → List (Option Reply)
unfolding answer
reply_to (queues queued) s = []
reply_to (answers r) s = (answer r s).1 ∷ []
reply_to (records r) s = []

-- The ids of the devices have n bytes.
module _ (n : ℕ) where
  abbrev pub Names : Event → Type 0
  Names (queues queued) = length queued.device_id ≡ n
  Names (answers r) = Unit
  Names (records r) = Unit

  -- The device that an event is about.
  abbrev pub owner : Event → Text
  owner (queues queued) = queued.device_id
  owner (answers r) = take n (device_info r.headers)
  owner (records r) = take n (device_info r.headers)

  module _ (id : Text) where
    abbrev pub is_own : Event → Bool
    is_own event = text_eq (owner event) id

    abbrev pub own_events : List Event → List Event
    own_events [] = []
    own_events (event ∷ later) = if is_own event then event ∷ own_events later else own_events later

    -- The replies to the requests of the device.
    abbrev pub told : List Event → State → List (Option Reply)
    told [] s = []
    told (event ∷ later) s =
        (if is_own event then reply_to event s else []) ++ told later (happen event s)

    abbrev Alike : State → State → Type 0
    Alike s t = (mine id s.queues ≡ mine id t.queues) × (requests_from id s ≡ requests_from id t)

    or_respond_others :
        (r : Recorded) (rest : Option Text) (s : State)
        → AreLong n s.queues
        → text_eq (take n (device_info r.headers)) id ≡ false
        → Alike (or_respond r s rest).0 s
    unfolding or_respond respond queued_reply requests_from
    or_respond_others r (some rest) s long other = (refl, refl)
    or_respond_others r none s long other =
        (pop_others n (device_info r.headers) (without_query r.path) id s.queues long other, refl)

    -- The queues of the device after a look for a reply, and the reply.
    abbrev popped : Text → Text → List Entry → List Entry × Option Payload
    popped info path es = (mine id (pop info path es).0, (pop info path es).1)

    pops_alike :
        (info path : Text) (es fs : List Entry)
        → AreLong n es
        → AreLong n fs
        → text_eq (take n info) id ≡ true
        → mine id es ≡ mine id fs
        → popped info path es ≡ popped info path fs
    pops_alike info path es fs l m own same =
        sym (pop_own n info path id es l own)
        ∙ (ap (pop info path) same ∙ pop_own n info path id fs m own)

    or_respond_own :
        (r : Recorded) (rest : Option Text) (s t : State)
        → AreLong n s.queues
        → AreLong n t.queues
        → text_eq (take n (device_info r.headers)) id ≡ true
        → Alike s t
        → Alike (or_respond r s rest).0 (or_respond r t rest).0
          × ((or_respond r s rest).1 ≡ (or_respond r t rest).1)
    unfolding or_respond respond queued_reply requests_from
    or_respond_own r (some rest) s t l m own alike = (alike, refl)
    or_respond_own r none s t l m own (same_queues, same_requests) =
        let same =
          pops_alike (device_info r.headers) (without_query r.path) s.queues t.queues l m own
            same_queues in
        (
          (ap (λ x. x.0) same, same_requests),
          ap (λ x. some (json_reply (or_route (without_query r.path) x.1))) same,
        )

    or_respond-AreLong :
        (r : Recorded) (rest : Option Text) (s : State)
        → AreLong n s.queues
        → AreLong n (or_respond r s rest).0.queues
    unfolding or_respond respond queued_reply
    or_respond-AreLong r (some rest) s long = long
    or_respond-AreLong r none s long =
        pop-AreLong n (device_info r.headers) (without_query r.path) s.queues long

    happen-AreLong :
        (event : Event) (s : State)
        → Names event
        → AreLong n s.queues
        → AreLong n (happen event s).queues
    unfolding happen queue_replies answer push_recording
    happen-AreLong (queues queued) s named long = extend-AreLong n queued s.queues named long
    happen-AreLong (answers r) s named long = or_respond-AreLong r _ s long
    happen-AreLong (records r) s named long = long

    starts_with_others :
        (header : Option Text)
        → length id ≡ n
        → text_eq (take n (unwrap_or header [])) id ≡ false
        → is_some_and header (λ info. starts_with id info) ≡ false
    starts_with_others none long other = refl
    starts_with_others (some info) long other =
        starts_with-take id info ∙ (text_eq_sym id (take (length id) info) ∙ rw long other)

    records_others :
        (r : Recorded) (s : State)
        → length id ≡ n
        → text_eq (take n (device_info r.headers)) id ≡ false
        → requests_from id (push_recording r s) ≡ requests_from id s
    unfolding push_recording requests_from filter is_from device_info
    records_others r s long other =
        filter-append (is_from id) s.recordings _
        ∙ rw (starts_with_others (header_of r.headers (codes "l-device-info")) long other)
            (append_nil (filter (is_from id) s.recordings))

    records_own :
        (r : Recorded) (s t : State)
        → requests_from id s ≡ requests_from id t
        → requests_from id (push_recording r s) ≡ requests_from id (push_recording r t)
    unfolding push_recording requests_from
    records_own r s t same =
        filter-append (is_from id) s.recordings _
        ∙ (ap (λ rs. rs ++ filter (is_from id) (record r { body = from_utf8_lossy r.body } ∷ []))
              same
            ∙ sym (filter-append (is_from id) t.recordings _))

    happen_others :
        (event : Event) (s : State)
        → length id ≡ n
        → AreLong n s.queues
        → is_own event ≡ false
        → Alike (happen event s) s
    unfolding happen queue_replies answer push_recording requests_from
    happen_others (queues queued) s size long other = (extend_others id queued s.queues other, refl)
    happen_others (answers r) s size long other = or_respond_others r _ s long other
    happen_others (records r) s size long other = (refl, records_others r s size other)

    happen_own :
        (event : Event) (s t : State)
        → AreLong n s.queues
        → AreLong n t.queues
        → is_own event ≡ true
        → Alike s t
        → Alike (happen event s) (happen event t) × (reply_to event s ≡ reply_to event t)
    unfolding happen queue_replies answer push_recording requests_from reply_to
    happen_own (queues queued) s t l m own (same_queues, same_requests) = (
      (
        sym (extend_own id queued s.queues own)
            ∙ (ap (extend queued) same_queues ∙ extend_own id queued t.queues own),
        same_requests,
      ),
      refl,
    )
    happen_own (answers r) s t l m own alike =
        let (after, same) = or_respond_own r _ s t l m own alike in
        (after, ap (λ reply. reply ∷ []) same)
    happen_own (records r) s t l m own (same_queues, same_requests) =
        ((same_queues, records_own r s t same_requests), refl)

    apart :
        (events : List Event) (s t : State)
        → length id ≡ n
        → All Names events
        → AreLong n s.queues
        → AreLong n t.queues
        → Alike s t
        → (told events s ≡ told (own_events events) t)
          × (requests_from id (happen_all events s)
              ≡ requests_from id (happen_all (own_events events) t))
    unfolding happen_all
    apart [] s t size named l m alike = (refl, alike.1)
    apart (event ∷ later) s t size (name, named) l m (same_queues, same_requests) =
        elim (Bool-cases (is_own event)) [
          | inl own ↦
              let (after, same) = happen_own event s t l m own (same_queues, same_requests) in
              let (rest, requests) =
                apart later (happen event s) (happen event t) size named
                  (happen-AreLong event s name l) (happen-AreLong event t name m) after in
              rw own (rw own (rw (same, rest) refl, requests))
          | inr other ↦
              let (queues_after, requests_after) = happen_others event s size l other in
              let (rest, requests) =
                apart later (happen event s) t size named (happen-AreLong event s name l) m
                  (queues_after ∙ same_queues, requests_after ∙ same_requests) in
              rw other (rest, requests)
        ]

    -- A device sees of a new server what it would see if it were the only one: the replies to its requests and
    -- the requests of it that are recorded are those of its own events alone, if its id and the ids for which
    -- replies are queued are all of one length, in whatever order the threads of the server take the locks.
    pub device_sees_own :
        (events : List Event)
        → length id ≡ n
        → All Names events
        → (told events new ≡ told (own_events events) new)
          × (requests_from id (happen_all events new)
              ≡ requests_from id (happen_all (own_events events) new))
    unfolding requests_from
    device_sees_own events size named = apart events new new size named tt tt (refl, refl)
