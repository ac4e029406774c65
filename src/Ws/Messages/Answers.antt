-- ===== src/Ws/Messages/Answers.antt =====
-- src/ws.rs: what the message loop does for what reaches it, and what makes it return.
use mathlib.Core.List.{append_assoc}
use grindr_rs.Prelude.{
  Bool, true, false, not, ◌&&◌, Option, none, some, List, [], ◌∷◌, ◌++◌, Text, codes, and_then,
  is_none, map_option, ◌≡◌, refl, ap, sym, ◌∙◌, arith, inl, inr, Option-cases, All,
}
use grindr_rs.Error.{Result, ok, err}
use grindr_rs.Codec.{Codec}
use grindr_rs.Auth.Session.{Session}
use package.grindr_rs.Ws.Messages.{
  text, ping, close, other, Input, ping_due, session_changed, active_changed, arrived, stream_ended,
  stream_failed, commanded, commands_closed, Output, sent_ping, sent_pong, sent_command, event,
  session_token, send, event_of, step, loop, run_message_loop,
}

module _ {A B : Type 0} (f : A → List B) where
  abbrev pub gather : List A → List B
  gather [] = []
  gather (a ∷ as') = f a ++ gather as'

  pub gather-append : (xs ys : List A) → gather (xs ++ ys) ≡ gather xs ++ gather ys
  gather-append [] ys = refl
  gather-append (x ∷ xs) ys =
      ap (λ bs. f x ++ bs) (gather-append xs ys) ∙ sym (append_assoc (f x) (gather xs) (gather ys))

abbrev pub listed : {A : Type 0} → Option A → List A
listed none = []
listed (some a) = a ∷ []

abbrev pub is_ok : Result (Unit {0}) → Bool
is_ok (ok u) = true
is_ok (err e) = false

module _ (codec : Codec) (command_text : Text → Text → Text → codec.Value → Text) where
  -- What is sent and announced, by its kind.
  abbrev pub pong_of : Output codec.Value → List Text
  pong_of (sent_pong bytes) = bytes ∷ []
  pong_of output = []

  abbrev pub command_of : Output codec.Value → List Text
  command_of (sent_command body) = body ∷ []
  command_of output = []

  abbrev pub event_in : Output codec.Value → List (Text × codec.Value)
  event_in (event kind payload) = (kind, payload) ∷ []
  event_in output = []

  abbrev pub ping_of : Output codec.Value → List (Unit {0})
  ping_of sent_ping = tt ∷ []
  ping_of output = []

  -- What reaches the loop, by its kind: the pings of the server, the commands with the token of the session,
  -- the texts that are JSON with a string `type`, and the pings that are due.
  abbrev pub pinged_by : Input codec.Value → List Text
  pinged_by (arrived (ping bytes) failure) = bytes ∷ []
  pinged_by input = []

  abbrev pub asked_by : Input codec.Value → List Text
  asked_by (commanded kind ref_id payload session failure) =
      listed (map_option (λ token. command_text kind ref_id token payload) (session_token session))
  asked_by input = []

  abbrev pub told_by : Input codec.Value → List (Text × codec.Value)
  told_by (arrived (text body) failure) = listed (
      and_then (codec.from_slice body) λ payload.
        map_option (λ kind. (kind, payload))
          (and_then (codec.get payload (codes "type")) codec.as_str))
  told_by input = []

  abbrev pub due_by : Input codec.Value → List (Unit {0})
  due_by (ping_due failure) = tt ∷ []
  due_by input = []

  -- The loop goes on as long as no send fails, the session stays, the client is active and the server is there.
  abbrev pub goes_on : Input codec.Value → Bool
  goes_on (ping_due failure) = is_none failure
  goes_on (session_changed closed session) = not closed && not (is_none session)
  goes_on (active_changed closed active) = not closed && active
  goes_on (arrived (text body) failure) = true
  goes_on (arrived (ping bytes) failure) = is_none failure
  goes_on (arrived close failure) = false
  goes_on (arrived other failure) = true
  goes_on stream_ended = false
  goes_on (stream_failed error) = false
  goes_on (commanded kind ref_id payload session failure) =
      not (is_none (session_token session)) && is_none failure
  goes_on commands_closed = false

  -- What ends the loop without an error: the session or the activity is over, or nobody is left to command.
  abbrev pub ends_well : Input codec.Value → Bool
  ends_well (session_changed closed session) = true
  ends_well (active_changed closed active) = true
  ends_well (commanded kind ref_id payload session failure) = is_none (session_token session)
  ends_well commands_closed = true
  ends_well input = false

  abbrev pub Matches : List (Input codec.Value) → List (Output codec.Value) → Type 0
  Matches inputs out =
      (gather pong_of out ≡ gather pinged_by inputs)
      × (gather command_of out ≡ gather asked_by inputs)
      × (gather event_in out ≡ gather told_by inputs)
      × (gather ping_of out ≡ gather due_by inputs)

  -- A round goes on, and does what its input asks for, or the loop returns with nothing done.
  abbrev Round : Input codec.Value → Option (Result (Unit {0})) × List (Output codec.Value) → Type 0
  Round input (none, out) = (goes_on input ≡ true) × Matches (input ∷ []) out
  Round input (some result, out) =
      (goes_on input ≡ false) × (is_ok result ≡ ends_well input) × (out ≡ [])

  text-Round :
      (body : Text) (failure : Option Text)
      → Round (arrived (text body) failure) (none, event_of codec command_text body)
  unfolding event_of
  text-Round body failure = elim (Option-cases (codec.from_slice body)) [
    | inl unread ↦ rw (unread, event_of) (refl, (refl, refl, refl, refl))
    | inr (payload, parsed) ↦
        elim (Option-cases (and_then (codec.get payload (codes "type")) codec.as_str)) [
          | inl untyped ↦ rw (parsed, event_of, untyped) (refl, (refl, refl, refl, refl))
          | inr (kind, typed) ↦ rw (parsed, event_of, typed) (refl, (refl, refl, refl, refl))
        ]
  ]

  step-Round : (input : Input codec.Value) → Round input (step codec command_text input)
  unfolding step send
  step-Round (ping_due none) = (refl, (refl, refl, refl, refl))
  step-Round (ping_due (some error)) = (refl, refl, refl)
  step-Round (session_changed true session) = (refl, refl, refl)
  step-Round (session_changed false none) = (refl, refl, refl)
  step-Round (session_changed false (some session)) = (refl, (refl, refl, refl, refl))
  step-Round (active_changed true active) = (refl, refl, refl)
  step-Round (active_changed false true) = (refl, (refl, refl, refl, refl))
  step-Round (active_changed false false) = (refl, refl, refl)
  step-Round (arrived (text body) failure) = text-Round body failure
  step-Round (arrived (ping bytes) none) = (refl, (refl, refl, refl, refl))
  step-Round (arrived (ping bytes) (some error)) = (refl, refl, refl)
  step-Round (arrived close failure) = (refl, refl, refl)
  step-Round (arrived other failure) = (refl, (refl, refl, refl, refl))
  step-Round stream_ended = (refl, refl, refl)
  step-Round (stream_failed error) = (refl, refl, refl)
  step-Round (commanded kind ref_id payload session none) =
      elim (Option-cases (session_token session)) [
        | inl signed_out ↦ rw (signed_out, step) (rw signed_out (refl, refl, refl))
        | inr (token, here) ↦ rw (here, step) (rw here (refl, (refl, refl, refl, refl)))
      ]
  step-Round (commanded kind ref_id payload session (some error)) =
      elim (Option-cases (session_token session)) [
        | inl signed_out ↦ rw (signed_out, step) (rw signed_out (refl, refl, refl))
        | inr (token, here) ↦ rw (here, step) (rw here (refl, refl, refl))
      ]
  step-Round commands_closed = (refl, refl, refl)

  went_on :
      (input : Input codec.Value) (s : Option (Result (Unit {0})) × List (Output codec.Value))
      → Round input s
      → s.0 ≡ none
      → (goes_on input ≡ true) × Matches (input ∷ []) s.1
  went_on input (none, out) round e = round
  went_on input (some result, out) round e = absurd (ground arith)

  returned_with :
      (input : Input codec.Value) (s : Option (Result (Unit {0})) × List (Output codec.Value))
      (result : Result (Unit {0}))
      → Round input s
      → s.0 ≡ some result
      → (goes_on input ≡ false) × (is_ok result ≡ ends_well input) × (s.1 ≡ [])
  returned_with input (none, out) result round e = absurd (ground arith)
  returned_with input (some r, out) result (stops, kind, nothing) e =
      let same : r ≡ result = ground arith in (stops, ap is_ok (sym same) ∙ kind, nothing)

  Matches-append :
      (inputs more : List (Input codec.Value)) (out later : List (Output codec.Value))
      → Matches inputs out
      → Matches more later
      → Matches (inputs ++ more) (out ++ later)
  Matches-append inputs more out later (p, c, e, d) (p', c', e', d') = (
    appended pong_of pinged_by p p',
    appended command_of asked_by c c',
    appended event_in told_by e e',
    appended ping_of due_by d d',
  )
    where
      appended :
          {B : Type 0} (f : Output codec.Value → List B) (g : Input codec.Value → List B)
          → gather f out ≡ gather g inputs
          → gather f later ≡ gather g more
          → gather f (out ++ later) ≡ gather g (inputs ++ more)
      appended f g here there =
          gather-append f out later ∙ (rw (here, there) (sym (gather-append g inputs more)))

  -- The inputs up to `last` were answered, and `last` made the loop return.
  pub record Answered (inputs : List (Input codec.Value)) (result : Result (Unit {0}))
      (out : List (Output codec.Value)) : Type 0 where
    pub handled : List (Input codec.Value)
    pub last : Input codec.Value
    pub unread : List (Input codec.Value)
    pub split : inputs ≡ handled ++ (last ∷ unread)
    pub went : All (λ input. goes_on input ≡ true) handled
    pub matches : Matches handled out
    pub stopped : goes_on last ≡ false
    pub kind : is_ok result ≡ ends_well last

  loop-Answered :
      (inputs : List (Input codec.Value)) (result : Result (Unit {0}))
      → (loop codec command_text inputs).0 ≡ some result
      → Answered inputs result (loop codec command_text inputs).1
  unfolding loop
  loop-Answered [] result e = absurd (ground arith)
  loop-Answered (input ∷ inputs) result e =
      let round = step-Round input in
      elim (Option-cases (step codec command_text input).0) [
        | inr (r, here) ↦
            let same : r ≡ result = ground arith in
            let (stops, kind, nothing) =
              returned_with input (step codec command_text input) result round
                (here ∙ ap some same) in
            record {
              handled = [];
              last = input;
              unread = inputs;
              split = refl;
              went = tt;
              matches = rw (here, loop, nothing) (refl, refl, refl, refl);
              stopped = stops;
              kind = kind;
            }
        | inl goes ↦
            let rest = loop-Answered inputs result (ground arith) in
            let (on, matches) = went_on input (step codec command_text input) round goes in
            record {
              handled = input ∷ rest.handled;
              last = rest.last;
              unread = rest.unread;
              split = ap (λ is. input ∷ is) rest.split;
              went = (on, rest.went);
              matches =
                  rw (goes, loop)
                    (Matches-append (input ∷ []) rest.handled (step codec command_text input).1
                      (loop codec command_text inputs).1 matches rest.matches);
              stopped = rest.stopped;
              kind = rest.kind;
            }
      ]

  -- When the message loop of a session with a token returns, every input before the one that made it return
  -- was answered: the pongs carry the pings of the server, the commands that were taken are sent, each with the
  -- token of the session then, the texts that are JSON with a string `type` are announced, and a ping is sent
  -- whenever one is due, each in its order, and nothing else. No input before it, and that one, is a send that
  -- fails, the end of the session, of the activity, of the commands or of the websocket; the result is no error
  -- exactly if that one is the end of the session, of the activity or of the commands.
  pub run_message_loop-Answered :
      (session : Option Session) (token : Text) (inputs : List (Input codec.Value))
      (result : Result (Unit {0}))
      → session_token session ≡ some token
      → (run_message_loop codec command_text session inputs).0 ≡ some result
      → Answered inputs result (run_message_loop codec command_text session inputs).1
  unfolding run_message_loop
  run_message_loop-Answered session token inputs result here e =
      let same : run_message_loop codec command_text session inputs
          ≡ loop codec command_text inputs =
        rw here refl in
      rw same (loop-Answered inputs result (ap (λ s. s.0) (sym same) ∙ e))
