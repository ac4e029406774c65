-- ===== src/Ws/Messages/Order.antt =====
-- src/ws.rs: what the loop has sent and announced when it stops.
use mathlib.Core.List.{append_assoc}
use grindr_rs.Prelude.{
  Option, none, some, List, [], ◌∷◌, ◌++◌, Text, ◌≡◌, refl, ap, sym, ◌∙◌, arith, ◌⊎◌, inl, inr,
  Option-cases,
}
use grindr_rs.Error.{Result, ok}
use grindr_rs.Codec.{Codec}
use grindr_rs.Auth.Session.{Session}
use package.grindr_rs.Ws.Messages.{Input, Output, session_token, step, loop, run_message_loop}

module _ (codec : Codec) (command_text : Text → Text → Text → codec.Value → Text) where
  -- The outputs of rounds that all go on.
  abbrev pub outputs : List (Input codec.Value) → List (Output codec.Value)
  outputs [] = []
  outputs (input ∷ inputs) = (step codec command_text input).1 ++ outputs inputs

  -- Up to the round that returned, every input was answered, in order; nothing was read after it.
  pub record Stopped (inputs : List (Input codec.Value)) (result : Result (Unit {0}))
      (out : List (Output codec.Value)) : Type 0 where
    pub handled : List (Input codec.Value)
    pub last : Input codec.Value
    pub unread : List (Input codec.Value)
    pub split : inputs ≡ handled ++ (last ∷ unread)
    pub returned : (step codec command_text last).0 ≡ some result
    pub answered : out ≡ outputs handled ++ (step codec command_text last).1

  loop_on :
      (input : Input codec.Value) (inputs : List (Input codec.Value))
      → (step codec command_text input).0 ≡ none
      → loop codec command_text (input ∷ inputs) ≡ (
        (loop codec command_text inputs).0,
        (step codec command_text input).1 ++ (loop codec command_text inputs).1,
      )
  unfolding loop
  loop_on input inputs e = rw (e, loop) refl

  loop-Stopped :
      (inputs : List (Input codec.Value)) (result : Result (Unit {0}))
      → (loop codec command_text inputs).0 ≡ some result
      → Stopped inputs result (loop codec command_text inputs).1
  unfolding loop
  loop-Stopped [] result e = absurd (ground arith)
  loop-Stopped (input ∷ inputs) result e = elim (Option-cases (step codec command_text input).0) [
    | inr (here, h) ↦ record {
      handled = [];
      last = input;
      unread = inputs;
      split = refl;
      returned = ground arith;
      answered = ground arith;
    }
    | inl goes_on ↦
        let rest = loop-Stopped inputs result (ground arith) in
        record {
          handled = input ∷ rest.handled;
          last = rest.last;
          unread = rest.unread;
          split = ap (λ is. input ∷ is) rest.split;
          returned = rest.returned;
          answered =
              ap (λ s. s.1) (loop_on input inputs goes_on)
              ∙ ap (λ os. (step codec command_text input).1 ++ os) rest.answered
              ∙ sym (
                  append_assoc (step codec command_text input).1 (outputs rest.handled)
                    (step codec command_text rest.last).1);
        }
  ]

  with_token :
      (session : Option Session) (inputs : List (Input codec.Value)) (result : Result (Unit {0}))
      (token : Text)
      → session_token session ≡ some token
      → (run_message_loop codec command_text session inputs).0 ≡ some result
      → Stopped inputs result (run_message_loop codec command_text session inputs).1
  unfolding run_message_loop
  with_token session inputs result token here e =
      let same : run_message_loop codec command_text session inputs
          ≡ loop codec command_text inputs =
        rw here refl in
      rw same (loop-Stopped inputs result (ap (λ s. s.0) (sym same) ∙ e))

  -- When the loop returns, either the session had no token and nothing was done, or every input up to
  -- the one that made it return was answered, in order, and none was read after it.
  pub run_message_loop-Stopped :
      (session : Option Session) (inputs : List (Input codec.Value)) (result : Result (Unit {0}))
      → (run_message_loop codec command_text session inputs).0 ≡ some result
      → ((session_token session ≡ none)
          × (run_message_loop codec command_text session inputs ≡ (some (ok tt), [])))
        ⊎ Stopped inputs result (run_message_loop codec command_text session inputs).1
  unfolding run_message_loop
  run_message_loop-Stopped session inputs result e = elim (Option-cases (session_token session)) [
    | inl signed_out ↦ inl (signed_out, rw signed_out refl)
    | inr (token, here) ↦ inr (with_token session inputs result token here e)
  ]
