-- ===== src/Interpret/Safety.antt =====
-- No message of a peer, well-formed or not, breaks the tables of an endpoint
-- (src/json_encoding.cpp, src/Endpoint.cpp).
use web_socket_sh.Text.{Text}
use web_socket_sh.External.{Externals}
use web_socket_sh.Endpoint.{Endpoint, Connection}
use web_socket_sh.Endpoint.Operations.{IsConsistent}
use web_socket_sh.Endpoint.Handlers.{
  topic_advertisement-IsConsistent, publication-IsConsistent, unsubscribe-IsConsistent,
  subscribe_request-IsConsistent, service_request-IsConsistent, service_advertisement-IsConsistent,
  service_unadvertisement-IsConsistent, service_response-IsConsistent,
}
use web_socket_sh.Interpret.{interpret_websocket_msg}
use web_socket_sh.Interpret.Keeping.{HandlersKeep, interpret_websocket_msg-keeps}

module _ ⦃x : Externals⦄ where
  handlers-IsConsistent : (c : Connection) → HandlersKeep IsConsistent c
  handlers-IsConsistent c = record {
    encoding = λ encoding e h. h;
    topic_advertisement = λ topic type id e. topic_advertisement-IsConsistent topic type id c e;
    publication = λ topic message e. publication-IsConsistent topic message c e;
    subscribe_request = λ topic type id e. subscribe_request-IsConsistent topic type id c e;
    unsubscribe = λ topic id e. unsubscribe-IsConsistent topic id c e;
    service_request = λ service request id e. service_request-IsConsistent service request id c e;
    service_advertisement =
        λ service req reply e. service_advertisement-IsConsistent service req reply c e;
    service_unadvertisement =
        λ service type e. service_unadvertisement-IsConsistent service type c e;
    service_response =
        λ service response id e. service_response-IsConsistent service response id c e;
  }

  -- No text that a peer sends, be it a message or not, breaks the tables of an endpoint: no table
  -- comes to hold a key twice, and the ids of calls to come stay unused.
  pub interpret_websocket_msg-IsConsistent :
      (text : Text) (c : Connection) (e : Endpoint)
      → IsConsistent e
      → IsConsistent (interpret_websocket_msg text c e).1
  interpret_websocket_msg-IsConsistent text c e h =
      interpret_websocket_msg-keeps IsConsistent c (handlers-IsConsistent c) text e h
