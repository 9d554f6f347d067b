-- ===== src/Client/Network/Counted/Calls.antt =====
-- src/client.cpp over src/transport/coap_client.cpp: the count of libcoap's initialisations, over any
-- sequence of calls.
use ferriot.Transport.Incoming.{Pdu}
use ferriot.Prelude.{ℕ, ◌≡◌, true, List, [], ◌∷◌, present, if_elim}
use ferriot.Prelude.Int.{ℤ}
use ferriot.Prelude.Table.{find}
use ferriot.Client.Network.Handles.{contexts}
use ferriot.Client.Network.{System, Wire, Incoming, steps_of, has_context, poll, environment}
use ferriot.Client.State.{Client}
use ferriot.Client.Registration.World.{AllKeep, IsKept}
use ferriot.Client.Calls.{Call, run, run-world}
use ferriot.Client.Network.Counted.{
  is_counted, connect-is_counted, disconnect-is_counted, take-is_counted, send-is_counted,
}

module _ {W X S A : Type 0} (wire : Wire W X S A) (widen : ℕ → ℕ) (pdu : Pdu) (now : ℤ)
    (limit rounds : ℕ) where
  steps_of-is_counted :
      (handle : ℕ) (incoming : List Incoming)
      → AllKeep is_counted (steps_of wire widen pdu now limit rounds handle incoming)
  unfolding steps_of
  steps_of-is_counted handle [] = tt
  steps_of-is_counted handle (x ∷ rest) =
      (λ s h. take-is_counted wire widen pdu now handle x s h, steps_of-is_counted handle rest)

  poll-is_counted :
      (handle time : ℕ) (s : System W X S)
      → AllKeep is_counted (poll wire widen pdu now limit rounds handle time s)
  unfolding poll
  poll-is_counted handle time s =
      if_elim (AllKeep is_counted) (has_context wire (find handle s.links))
        (λ s h. h, steps_of-is_counted handle (wire.polled handle time s.wire).1) tt

  environment-IsKept :
      ((w : W) → present (wire.coap.new_context w).1 ≡ true)
      → IsKept (environment wire widen pdu now limit rounds) is_counted
  unfolding environment
  environment-IsKept contexts = record {
    connects = λ config s h. connect-is_counted wire config s contexts h;
    disconnects = λ handle s h. disconnect-is_counted wire handle s h;
    sends =
        λ handle message s h. send-is_counted wire widen pdu now limit rounds handle message s h;
    polls = λ handle time s h. poll-is_counted handle time s;
    system_clock = λ s h. h;
    steady_clock = λ s h. h;
  }

  -- Where a context can always be created, libcoap is initialised once for each connection that
  -- has a context, among all connections of a client, whatever is called on the client and
  -- whatever comes in on its connections, if it was before.
  pub run-is_counted :
      ((w : W) → present (wire.coap.new_context w).1 ≡ true)
      → (xs : List (Call (System W X S))) (c : Client (System W X S) ℕ) → is_counted c.world ≡ true
      → is_counted (run (environment wire widen pdu now limit rounds) xs c).world ≡ true
  run-is_counted contexts xs c h =
      run-world (environment wire widen pdu now limit rounds) is_counted
        (environment-IsKept contexts) xs c h
