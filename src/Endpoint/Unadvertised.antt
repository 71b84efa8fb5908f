-- ===== src/Endpoint/Unadvertised.antt =====
-- Subscription requests for a topic that this endpoint has not advertised yet.
use web_socket_sh.Prelude.{◌≡◌, true, false, none, some, ◌∙◌, ==-refl, nat_eq}
use web_socket_sh.Text.{Text, is_empty, text_beq-nil, text_eq}
use web_socket_sh.Dict.{find, find-assign}
use web_socket_sh.External.{Externals}
use web_socket_sh.Endpoint.{Endpoint, Connection, ok}
use web_socket_sh.Endpoint.Receive.{add_listener, receive_subscribe_request_ws}
use web_socket_sh.Endpoint.Listeners.{unadvertised, listens, listens-subscribe_request}

module _ ⦃x : Externals⦄ where
  open x use {DynamicType, type_name}

  first_entry :
      (e : Endpoint) (topic id : Text) (type : DynamicType) (c : Connection)
      → find topic e.topic_publish_info ≡ none
      → find topic (receive_subscribe_request_ws topic (some type) id c e).1.topic_publish_info
        ≡ some (add_listener c id unadvertised)
  unfolding receive_subscribe_request_ws
  first_entry e topic id type c p =
      rw (p, receive_subscribe_request_ws)
        (find-assign topic topic (add_listener c id unadvertised) e.topic_publish_info
          ∙ rw (==-refl topic))

  named_type_refused :
      (e : Endpoint) (topic i id : Text) (other : DynamicType) (c d : Connection)
      → is_empty (type_name other) ≡ false
      → find topic e.topic_publish_info ≡ some (add_listener c i unadvertised)
      → receive_subscribe_request_ws topic (some other) id d e ≡ (ok tt, e)
  unfolding receive_subscribe_request_ws add_listener
  named_type_refused e topic i id other c d named p =
      rw (p, receive_subscribe_request_ws) (rw (text_beq-nil (type_name other)) (rw named))

  -- A request for a topic without an entry makes an entry with an empty type, so the next
  -- subscriber that names a type is refused.
  pub second_subscriber_refused :
      (e : Endpoint) (topic id other_id : Text) (type other : DynamicType) (c d : Connection)
      → find topic e.topic_publish_info ≡ none
      → is_empty (type_name other) ≡ false
      → let first = (receive_subscribe_request_ws topic (some type) id c e).1 in
        (listens first topic c id ≡ true)
        × (receive_subscribe_request_ws topic (some other) other_id d first ≡ (ok tt, first))
  second_subscriber_refused e topic id other_id type other c d p named = (
    listens-subscribe_request e topic topic type id id c c
        ∙ rw (p, ==-refl topic, ==-refl c, ==-refl id),
    named_type_refused _ topic id other_id other c d named (first_entry e topic id type c p),
  )
