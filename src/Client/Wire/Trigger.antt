-- ===== src/Client/Wire/Trigger.antt =====
-- src/client.cpp: a message that triggers an update of the registration.
use ferriot.Prelude.{ℕ, ◌≡◌, refl, sym, true, Option, some, List, ◌∷◌, Bytes}
use ferriot.Prelude.Int.{ℤ}
use ferriot.Prelude.Table.{find}
use ferriot.Result.{ok}
use ferriot.Types.{resource_path}
use ferriot.Objects.Server
use ferriot.Objects.Server.{ServerInstance, ServerObject}
use ferriot.Object.Standard.{Standard, standard_objects}
use ferriot.Transport.{post, changed}
use ferriot.Transport.Incoming.{Pdu, Message, or_empty, build_request}
use ferriot.Transport.Incoming.Replies.{IsFor}
use ferriot.Transport.Incoming.Paths.{build_request-split_path}
use ferriot.Client.State.{Client, Environment}
use ferriot.Client.Registration.{update_registration}
use ferriot.Client.Loop.{registration_update_callback, handle_each}
use ferriot.Client.Requests.{levels, dispatch, execute_target, process_post, process_execute}
use ferriot.Client.Wire.{on_message, callback_of, callback_on, callback_of_request, handle_message}
use ferriot.Client.Wire.RoundTrip.{on_message-dispatch}

-- The registration update trigger of an instance that is there.
execute_resource-trigger :
    (server : ServerObject) (iid : ℕ) (arguments : Bytes) {inst : ServerInstance}
    → find iid server.table.instances ≡ some inst
    → server.has_callback ≡ true
    → Server.execute_resource server iid 8 arguments ≡ (some inst.short_server_id, ok tt)
unfolding Server.execute_resource Server.execute_in Server.execute_field Server.field_of
execute_resource-trigger server iid arguments found set = rw (found, set) refl

module _ (widen : ℕ → ℕ) (pdu : Pdu) (now : ℤ) (s : Standard) (iid : ℕ) (message : Message) where
  callback_of-trigger :
      {inst : ServerInstance}
      → IsFor post (resource_path 1 iid 8) message
      → find iid s.server.table.instances ≡ some inst
      → s.server.has_callback ≡ true
      → callback_of widen pdu s message (some post) ≡ some inst.short_server_id
  unfolding callback_of callback_of_request callback_on levels build_request
  callback_of-trigger (v, coded, sent) found set =
      let path = resource_path 1 iid 8 in
      let parsed = (build_request-split_path pdu post message path v sent).1 in
      rw (parsed, execute_resource-trigger s.server iid (or_empty message.body) found set) refl

  on_message-trigger :
      {inst : ServerInstance}
      → IsFor post (resource_path 1 iid 8) message
      → find iid s.server.table.instances ≡ some inst
      → s.server.has_callback ≡ true
      → let (s', reply) = on_message widen pdu (standard_objects now) message s in
        (s' ≡ s) × (reply.code ≡ some changed)
  unfolding dispatch process_post process_execute execute_target levels standard_objects
  on_message-trigger sent found set =
      let executed = execute_resource-trigger s.server iid (or_empty message.body) found set in
      let (after, code, body) =
        on_message-dispatch widen pdu (standard_objects now) s post (resource_path 1 iid 8) message
          sent in
      rw (after, code, executed) (refl, refl)

  -- A POST message for the registration update trigger of an instance of the Server object is replied
  -- to with 2.04 Changed, and the poll that handles it, by a client whose callback is set, updates
  -- the registration with that instance's server, before it handles the next messages.
  pub handle_each-handle_message :
      {K : Type 0} (env : Environment Standard K) (c : Client Standard K)
      (handlers : List (Standard → Standard × Option ℕ)) {inst : ServerInstance}
      → IsFor post (resource_path 1 iid 8) message
      → c.world ≡ s
      → find iid s.server.table.instances ≡ some inst
      → s.server.has_callback ≡ true
      → ((on_message widen pdu (standard_objects now) message s).1.code ≡ some changed)
        × (handle_each env (handle_message widen pdu now message ∷ handlers) c
            ≡ handle_each env handlers (update_registration env inst.short_server_id c).0)
  unfolding handle_each handle_message registration_update_callback
  handle_each-handle_message env c handlers sent here found set =
      let (same, code) = on_message-trigger sent found set in
      (code, rw (here, sent.1, same, callback_of-trigger sent found set, sym here) refl)
