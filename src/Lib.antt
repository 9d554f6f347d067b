-- ===== src/Lib.antt =====
-- Ferriot, an LWM2M client library: its data, its codec, its standard objects, its transport and its
-- client.
--
-- Parts. An object path (src/types.cpp) names an object, an instance, a resource or a resource
-- instance. A resource value (src/resource.cpp) is what objects exchange; it goes over the wire as
-- TLV records (src/codec/tlv.cpp). The standard objects (src/objects/) answer reads, writes and
-- executes of their resources with results and errors (include/lwm2m/result.hpp). The client
-- (src/client.cpp) dispatches requests to them, and keeps its registration with each server, over a
-- connection for each (src/transport/coap_client.cpp) that it opens with the Security object's
-- credentials. A firmware package can be fetched by the downloader
-- (src/transport/http_downloader.cpp).
--
-- Files.
-- - Prelude: native numbers, Boolean tests, integers, machine words, byte lists, and tables for
--   std::unordered_map and std::map.
-- - Result: Error, ErrorCode and Result<T> of include/lwm2m/result.hpp; and_then is >>=.
-- - Types: ObjectPath of include/lwm2m/types.hpp; Types.Path its to_string and parse of
--   src/types.cpp, over Types.Decimal for std::from_chars and the printing of numbers.
-- - Resource: ResourceValue, Resource and its handlers, of include/lwm2m/resource.hpp and
--   src/resource.cpp.
-- - Tlv: TlvRecord of include/lwm2m/codec/tlv.hpp. Of src/codec/tlv.cpp, Tlv.Serialize and
--   Tlv.Deserialize are the values, Tlv.Encoder and Tlv.Decoder the records. The theorems stand in
--   Tlv.Values, Framing, Loop, Structure, Depth and Truncation.
-- - Transport: CoapRequest and CoapResponse of include/lwm2m/transport/coap_client.hpp. Of
--   src/transport/coap_client.cpp, Transport.Options has the loops of send that split a path and a
--   query, Transport.Exchange send, response_handler and event_handler, Transport.Incoming
--   incoming_request_handler, and Transport.Connection connect and disconnect.
-- - Transport.Downloader: src/transport/http_downloader.cpp, as the application's calls and the steps
--   of the download's thread; Transport.Downloader.Progress has the progress, its speed and eta.
-- - Object: the interface of include/lwm2m/object.hpp as a record of operations, with the answers of
--   the base classes (src/object.cpp). Object.Standard fills it with the standard objects, as the
--   constructor of Client does.
-- - Client.Requests: handle_incoming_request of src/client.cpp and what it calls, over any objects.
--   Client.Requests.PutGet and WriteBack join it to the codec and the objects. Client.Wire joins it to
--   incoming_request_handler, for messages, and to the registration update callback. Client.Links has
--   the two lists of links, of process_discover and build_registration_payload.
-- - Client.State: the members of Client (include/lwm2m/client.hpp) as a record, over a world and a
--   type of connections, with what it calls as the record Environment. Client.Registration,
--   Client.Reconnect and Client.Loop have the rest of src/client.cpp: register_with_server,
--   update_registration and deregister; check_connection_health, try_reconnect and calculate_backoff;
--   poll, run_event_loop, start and stop; Client.Construct the constructor. Client.Invariant and
--   Client.Calls are about any sequence of them; Client.Registration.World and Client.Invariant.World
--   about what lies outside of the client. Client.Network fills Environment with the connections
--   of src/transport/coap_client.cpp.
-- - Example: src/examples/lwm2m_client.cpp, its arguments and its main.
-- - Objects.Instances: the instance tables of src/objects/security.cpp and src/objects/server.cpp.
-- - Objects.Security, Server, Firmware, Device, Connectivity and Location: the object of the file of
--   that name under src/objects/ (firmware_update.cpp for Firmware), with read_resource,
--   write_resource and execute_resource as there. An operation that changes the object returns it with the result.
-- - Tests: runs on concrete inputs, and the theorems applied.
--
-- Bounds and fuel. Identifiers are numbers below 2 ^ 16, and casts to a machine width are written
-- out. The loop of decode_impl has as fuel the number of bytes, and each record takes two or more of
-- them; its recursion has as many levels as kMaxTlvDepth leaves. The loop of ObjectPath::parse is
-- counted by the four components. A theorem of Tlv.Loop takes both counts out of the equation. The
-- loops over a path and a query have the number of bytes as fuel, and each round takes one. The loop
-- of send that waits, and that of wait_for_completion, run a number of rounds at most, and answer none
-- if they are not over then: theorems give the rounds that are enough, and Client.Network takes a send
-- that is not over as timed out. run_event_loop runs a number of rounds, as it ends only when it is
-- stopped; so does main's wait for a signal, which answers none if no signal has come by then. The
-- times of the client's clocks are not bounded.
--
-- Parameters. The widening of a float to a double in deserialize_float is a function that the
-- theorems take; the clock's time is an argument; the application's callbacks are members, or events
-- that the client records. A client's connections, its clocks and the world that they and the objects
-- change are the record Environment; libcoap is the records Coap, Pdu, Network and Wire, and libcurl's answers
-- are arguments of the steps. The operations on doubles are functions.
--
-- Not modelled: the mutexes, as calls from several threads are taken one after the other; a call of
-- update_registration from a request that is handled while another send waits, of which the outer send
-- sees that its response is no longer waited for; the options that libcurl is given, and what is written
-- to stderr and stdout. src/tests only calls the library.
pub mod Prelude
pub mod Result
pub mod Types
pub mod Resource
pub mod Tlv
pub mod Objects
pub mod Transport
pub mod Object
pub mod Client
pub mod Example
pub mod Tests
