-- ===== src/Lib.antt =====
-- A model of WebSocket-SH, the WebSocket system handle of the eProsima Integration Service, and of
-- what its code guarantees.
--
-- The program. An endpoint connects the core of the Integration Service with WebSocket peers that
-- speak a JSON protocol of topics and services. The core sets an endpoint up (subscriptions,
-- publishers, services), publishes and calls; the peers send text messages. The encoding turns calls
-- into messages and messages into calls of the endpoint; a server or a client owns the connections
-- and tells the endpoint when one opens or closes; a server may ask for a token and check it.
--
-- The files, and the code that they model:
--   Text, Dict, Dict/HashSet: byte strings, std::unordered_map and std::unordered_set as lists, with
--     the laws of their operations; Dict/Unique: no key twice.
--   Json, Encoding/Message, Encoding/Reader: the JSON values, the message objects that the encoders
--     build and the readers of fields (src/json_encoding.cpp).
--   Names: transform_type; Decimal: std::to_string of a call id.
--   Encoding: JsonEncoding, its registries of types and its encoders (src/json_encoding.cpp).
--   Endpoint: the state of an endpoint (src/Endpoint.hpp, src/Endpoint.cpp); Endpoint/Setup:
--     subscribe, create_client_proxy, create_service_proxy, startup_advertisement; Endpoint/Traffic:
--     publish, call_service, receive_response; Endpoint/Receive: the nine receive_*_ws handlers;
--     Endpoint/Lifetime: notify_connection_opened and notify_connection_closed; Endpoint/WellFormed:
--     when the tables are in order.
--   Interpret: interpret_websocket_msg (src/json_encoding.cpp); Interpret/Steps: the states that an
--     endpoint reaches; Interpret/Keeping: what the interpreter keeps if each handler does;
--     Interpret/Isolation: what a connection cannot do to another; Interpret/Delivered,
--     Interpret/Subscribed, Interpret/Answered, Interpret/Offered: a topic, a call and a service from
--     one endpoint to another.
--   Publisher: TopicPublisher, MetaTopicPublisher, make_topic_publisher (src/TopicPublisher.cpp) and
--     Endpoint::advertise.
--   Auth/Policy: VerificationPolicy and JwtValidator (src/JwtValidator.cpp); Auth/Config and
--     Auth/Glob: ServerConfig (src/ServerConfig.cpp); Auth/Regex: std::regex on the patterns that
--     ServerConfig writes.
--   Server: the handlers of src/Server.cpp; Server/Steps: the states that a server reaches;
--     Server/Presence: the open connections and the tables of the endpoint; Server/Destroying and
--     Server/Joining: the destructor, and the join of the thread in it.
--   Client: the handlers and spin_once of src/Client.cpp; Client/Steps: the states that a client
--     reaches; Client/Destroying and
--     Client/Joining: the destructor. Interpret/History: what an endpoint is told, for
--     Server/Refinement and Client/Refinement.
--   Config: the settings of a system handle; Config/Parsing: parse_port (src/Endpoint.cpp),
--     find_websocket_config_file and parse_format (src/Server.cpp), parse_hostname (src/Client.cpp);
--     Endpoint/Configure: Endpoint::configure; Server/Configure and Client/Configure: configure_* and
--     initialize_*; Config/Calls: what the calls of a set-up must come to; Config/Ensures: the rules by which the theorems on them are proved.
--   Waiting: the loops in which the destructors of a server and of a client wait.
-- The other files below those hold the lemmas and theorems about them, and Tests runs them on
-- concrete inputs.
--
-- Conventions. Code that may change state takes the state and returns the new one; an exception that
-- escapes is an outcome of the operation (Outcome), beside the state it had reached. What an endpoint
-- does to the outside is the list of its events. Pointers are numbers, compared as the source
-- compares them. xtypes, json-xtypes, the JSON parser and printer, the topic templates and the
-- callbacks of the core are fields of the record Externals, cpp-jwt those of the record Jwt, and the
-- conversions of yaml-cpp, the search for files and the TLS contexts of boost those of the record
-- Platform; what is relied on of them is a hypothesis (PrintsJson, ParsesBack, IsPlain, Ticks). The
-- set-up of a server or a client is a sequence of stages, each of which goes on, returns early or
-- throws (Setup); what it asks of websocketpp is the list of its calls, which are taken not to throw.
--
-- Bounds. The id of a call is a size_t: its counter wraps at 2^64 (size_mod). The id of a connection
-- of a server is a uint16_t, which wraps at 2^16 (id_mod). The loop of transform_type has fuel one
-- above the length of the name, and that of to_string one above the number: each round uses up a
-- byte, or a digit.
--
-- A port is an int that is cast to a uint16_t (port_mod). The wait of a destructor checks every
-- 200 ms and gives up after 10 s, so 51 rounds of fuel are enough.
--
-- Not modelled: threads, sockets and TLS handshakes, which belong to websocketpp and boost; logging;
-- the copy of cpp-jwt in the
-- repository. TLS and TCP run the same code on tables of their own, so the model has one set of
-- tables and a flag. Handlers run to their end one after the other: the interleaving of threads inside
-- a handler is not modelled. When the thread of a server or a client is joined, the handlers that it
-- still runs, or that it never returns, are a parameter.
pub mod Prelude
pub mod Text
pub mod Dict
pub mod Json
pub mod Names
pub mod External
pub mod Encoding
pub mod Decimal
pub mod Endpoint
pub mod Publisher
pub mod Auth
pub mod Config
pub mod Server
pub mod Waiting
pub mod Client
pub mod Interpret
pub mod Tests
