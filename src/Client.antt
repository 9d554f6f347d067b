-- ===== src/Client.antt =====
-- include/lwm2m/client.hpp and src/client.cpp: the client.
pub mod State
pub mod Links
pub mod Registration
pub mod Reconnect
pub mod Loop
pub mod Invariant
pub mod Calls
pub mod Requests
pub mod Wire
pub mod Construct
pub mod Network
