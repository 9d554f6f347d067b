-- ===== src/Transport/Exchange/Responses.antt =====
-- src/transport/coap_client.cpp: which messages end the wait of send, and with what.
use ferriot.Prelude.{
  ℕ, zero, suc, ◌+◌, ◌≡◌, refl, Bool, true, false, not, ◌&&◌, ◌||◌, Option, some, List, [], ◌∷◌,
  ◌++◌, leb, if◌then◌else◌, Bytes, is_empty, present, arith, append-nil, append_assoc, Bool-cases,
  inl, inr, if_elim,
}
use ferriot.Prelude.Strings.{same_bytes}
use ferriot.Result.{Result, ok}
use ferriot.Transport.{CoapRequest, CoapResponse, no_response}
use ferriot.Transport.Incoming.{Message}
use ferriot.Transport.Exchange.{
  same_bytes, stored_options, receive, Arrival, response, nested_send, Waiting, take_token, arrive,
  receive_all, wait, Network, Sender, send, token_of, message_of, waiting, transmitted, with_body,
  with_pdu,
}

-- The responses that carry the token, where current_response_ points to the request's response,
-- up to a nested send that sets it.
abbrev pub answers : Bool → Bytes → List Arrival → List Message
answers is_current token [] = []
answers is_current token (response message ∷ arrivals) =
    let rest = answers is_current token arrivals in
    if is_current && same_bytes message.token token then message ∷ rest else rest
answers is_current token (nested_send tracked ∷ arrivals) =
    answers (is_current && not tracked) token arrivals

-- The options that are stored of messages, one after the other.
abbrev pub all_stored : List Message → List (ℕ × Bytes)
all_stored [] = []
all_stored (message ∷ messages) = stored_options message.options ++ all_stored messages

-- Of what comes in with a poll, those responses with the request's token are taken that come before
-- a nested send, and no other: the response is complete if it was or there is one, its options are
-- the ones it had and those stored of each, and the token stays.
receive_all_lem :
    (arrivals : List Arrival) (s : Waiting)
    → let after = receive_all s arrivals in
      let matching = answers s.is_current s.pending.token arrivals in
      (after.pending.token ≡ s.pending.token)
      × (after.pending.completed ≡ (s.pending.completed || not (is_empty matching)))
      × (after.pending.response.options ≡ s.pending.response.options ++ all_stored matching)
unfolding receive_all receive
receive_all_lem [] s = ground (arith, append-nil s.pending.response.options)
receive_all_lem (response message ∷ arrivals) s = ground (
  arith,
  receive_all_lem arrivals (arrive s (response message)),
  append_assoc s.pending.response.options (stored_options message.options)
      (all_stored (answers s.is_current s.pending.token arrivals)),
)
receive_all_lem (nested_send tracked ∷ arrivals) s =
    receive_all_lem arrivals (arrive s (nested_send tracked))

receive_all-append :
    (xs ys : List Arrival) (s : Waiting)
    → receive_all s (xs ++ ys) ≡ receive_all (receive_all s xs) ys
unfolding receive_all
receive_all-append [] ys s = refl
receive_all-append (x ∷ xs) ys s = receive_all-append xs ys (arrive s x)

-- What comes in with a number of rounds from `i` on.
abbrev pub arrivals : (ℕ → List Arrival) → ℕ → ℕ → List Arrival
arrivals arrived i zero = []
arrivals arrived i (suc rounds) = arrived i ++ arrivals arrived (suc i) rounds

module _ (elapsed : ℕ → ℕ) (arrived : ℕ → List Arrival) (limit : ℕ) where
  wait-present :
      (rounds i : ℕ) (s : Waiting)
      → leb limit (elapsed (rounds + i)) ≡ true
      → present (wait elapsed arrived limit (suc rounds) i s).1 ≡ true
  unfolding wait
  wait-present zero i s late = ground arith
  wait-present (suc rounds) i s late =
      let later : leb limit (elapsed (rounds + suc i)) ≡ true = grind arith in
      ground (arith, wait-present rounds (suc i) (receive_all s (arrived i)) later)

  wait-ok :
      (rounds i : ℕ) (s : Waiting) {answer : CoapResponse}
      → (wait elapsed arrived limit rounds i s).1 ≡ some (ok answer)
      → (k : ℕ) × ((receive_all s (arrivals arrived i k)).pending.completed ≡ true)
        × ((receive_all s (arrivals arrived i k)).pending.response ≡ answer)
  unfolding wait receive_all
  wait-ok zero i s h = absurd (ground arith)
  wait-ok (suc rounds) i s {answer} h = elim (Bool-cases s.pending.completed) [
    | inl done ↦ (0, done, ground arith)
    | inr waits ↦ elim (Bool-cases (leb limit (elapsed i))) [
      | inl late ↦ absurd (ground arith)
      | inr early ↦
          let rest : (wait elapsed arrived limit rounds (suc i) (receive_all s (arrived i))).1
              ≡ some (ok answer) =
            ground arith in
          let (k, done, same) = wait-ok rounds (suc i) (receive_all s (arrived i)) rest in
          (
            suc k,
            rw (receive_all-append (arrived i) (arrivals arrived (suc i) k) s) done,
            rw (receive_all-append (arrived i) (arrivals arrived (suc i) k) s) same,
          )
    ]
  ]

-- Where a response has come of what came in: one response there has the token and comes before a
-- nested send, and the options are those stored of each such response.
abbrev pub IsAnswered : Bytes → List Arrival → CoapResponse → Type 0
IsAnswered token arrived answer =
    (is_empty (answers true token arrived) ≡ false)
    × (answer.options ≡ all_stored (answers true token arrived))

module _ {W : Type 0} (network : Network W) (limit rounds : ℕ) where
  abbrev HasAnswer : Bytes → CoapResponse → Sender W × Option (Result CoapResponse) → Type 0
  HasAnswer token answer (c', r) =
      r ≡ some (ok answer)
      → (k : ℕ) × IsAnswered token (arrivals (network.arrived c'.world) 0 k) answer

  waiting-ok :
      (message : Message) (c : Sender W) {answer : CoapResponse}
      → HasAnswer message.token answer (waiting network limit rounds message c)
  unfolding waiting
  waiting-ok message c h =
      let begun : Waiting = record {
        pending = record { completed = false; response = no_response; token = message.token };
        is_current = true;
        next_token = c.next_token;
      } in
      let (k, done, same) =
        wait-ok (network.elapsed c.world) (network.arrived c.world) limit rounds 0 begun h in
      (k, ground (arith, receive_all_lem (arrivals (network.arrived c.world) 0 k) begun))

  transmitted-ok :
      (message : Message) (c : Sender W) (sent : Bool) {answer : CoapResponse}
      → HasAnswer message.token answer (transmitted network limit rounds message c sent)
  unfolding transmitted
  transmitted-ok message c false h = absurd (ground arith)
  transmitted-ok message c true h = waiting-ok message c h

  with_body-ok :
      (request : CoapRequest) (message : Message) (c : Sender W) {answer : CoapResponse}
      → HasAnswer message.token answer (with_body network limit rounds request message c)
  unfolding with_body
  with_body-ok request message c {answer} =
      if_elim (HasAnswer message.token answer)
        (not (is_empty request.payload) && not (network.fits message request.content_format))
        (λ h. absurd (ground arith))
        (transmitted-ok message
          (record c { world = (network.transmit message request.content_format c.world).0 })
          (network.transmit message request.content_format c.world).1)

  with_pdu-ok :
      (request : CoapRequest) (c : Sender W) (made : Bool) {answer : CoapResponse}
      → HasAnswer
          (token_of (take_token c.next_token))
          answer
          (with_pdu network limit rounds request c made)
  unfolding with_pdu message_of
  with_pdu-ok request c false h = absurd (ground arith)
  with_pdu-ok request c true h =
      let next_token = take_token c.next_token in
      with_body-ok request (message_of network.split_uri (token_of next_token) request)
        (record c { next_token = next_token }) h

  -- A request that is answered was answered by responses that came in with its own token, and
  -- before a nested send had set current_response_: there is one in the first `k` rounds, and the
  -- options of the response are those stored of each such response.
  pub send-ok :
      (request : CoapRequest) (c : Sender W) {answer : CoapResponse}
      → (send network limit rounds request c).1 ≡ some (ok answer)
      → (k : ℕ) × IsAnswered
          (token_of (take_token c.next_token))
          (arrivals (network.arrived (send network limit rounds request c).0.world) 0 k)
          answer
  unfolding send
  send-ok request c {answer} =
      if_elim (HasAnswer (token_of (take_token c.next_token)) answer) (not c.connected)
        (λ h. absurd (ground arith))
        (with_pdu-ok request (record c { world = (network.new_pdu c.world).0 })
          (network.new_pdu c.world).1)

  -- A request that is answered was passed to libcoap, by a connection that was established, and was
  -- sent there.
  pub send-transmit :
      (request : CoapRequest) (c : Sender W) {answer : CoapResponse}
      → (send network limit rounds request c).1 ≡ some (ok answer)
      → let token = token_of (take_token c.next_token) in
        (c.connected ≡ true)
        × ((network.transmit
              (message_of network.split_uri token request)
              request.content_format
              (network.new_pdu c.world).0).1
            ≡ true)
  unfolding send with_pdu with_body transmitted
  send-transmit request c h = (ground arith, ground arith)

  waiting-present :
      (message : Message) (c : Sender W)
      → leb limit (network.elapsed c.world rounds) ≡ true
      → present (waiting network limit (suc rounds) message c).1 ≡ true
  unfolding waiting
  waiting-present message c late =
      let later : leb limit (network.elapsed c.world (rounds + 0)) ≡ true = grind arith in
      wait-present (network.elapsed c.world) (network.arrived c.world) limit rounds 0 _ later

  transmitted-present :
      (message : Message) (c : Sender W) (sent : Bool)
      → leb limit (network.elapsed c.world rounds) ≡ true
      → present (transmitted network limit (suc rounds) message c sent).1 ≡ true
  unfolding transmitted
  transmitted-present message c sent late = ground (arith, waiting-present message c late)

  -- Where the clock has reached the time limit by the last round, send returns.
  pub send-present :
      (request : CoapRequest) (c : Sender W)
      → ((w : W) → leb limit (network.elapsed w rounds) ≡ true)
      → present (send network limit (suc rounds) request c).1 ≡ true
  unfolding send with_pdu with_body
  send-present request c late = grind (arith, transmitted-present, late)
