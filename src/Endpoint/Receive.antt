-- ===== src/Endpoint/Receive.antt =====
-- The operations of src/Endpoint.cpp that the encoding calls for an incoming message.
use web_socket_sh.Prelude.{
  Bool, false, not, Option, none, some, [], ◌∷◌, ◌==◌, nat_eq, if◌then◌else◌,
}
use web_socket_sh.Text.{Text, is_empty, text_eq}
use web_socket_sh.Dict.{find, assign, erase}
use web_socket_sh.Dict.HashSet.{HashSet, contains, insert, remove}
use web_socket_sh.External.{Externals, converted, unsupported_type, json_exception}
use web_socket_sh.Endpoint.{
  Endpoint, Connection, CallHandle, TopicSubscribeInfo, TopicPublishInfo, ServiceProviderInfo,
  ServiceRequestInfo, ClientProxyInfo, Run, ok, throws, undefined_behaviour, emit, delivered,
  requested, responded,
}

-- A connection that advertises the wrong type is ignored from now on, one that advertises the
-- right type is not.
unfoldable pub judge_advertiser : Text → Connection → TopicSubscribeInfo → TopicSubscribeInfo
judge_advertiser type connection info =
    if type == info.type
    then record info { blacklist = remove connection info.blacklist }
    else record info { blacklist = insert connection info.blacklist }

unfoldable pub listener_ids : Option (HashSet Text) → HashSet Text
listener_ids none = []
listener_ids (some ids) = ids

-- `info.listeners[connection].insert(id)`
unfoldable pub add_listener : Connection → Text → TopicPublishInfo → TopicPublishInfo
unfolding listener_ids
add_listener connection id info = record info {
  listeners =
      assign connection (insert id (listener_ids (find connection info.listeners))) info.listeners;
}

-- `listeners.erase(id)` has left these ids; a connection without ids is dropped.
unfoldable pub keep_ids : Connection → HashSet Text → TopicPublishInfo → TopicPublishInfo
keep_ids connection [] info = record info { listeners = erase connection info.listeners }
keep_ids connection (id ∷ ids) info = record info {
  listeners = assign connection (id ∷ ids) info.listeners;
}

-- An empty id stands for every id of the connection.
unfoldable pub drop_listener : Connection → Text → TopicPublishInfo → TopicPublishInfo
unfolding keep_ids
drop_listener connection id info = elim (find connection info.listeners) [
  | none ↦ info
  | some ids ↦
      if is_empty id
      then record info { listeners = erase connection info.listeners }
      else keep_ids connection (remove id ids) info
]

module _ ⦃x : Externals⦄ where
  open x use {DynamicType, DynamicData, type_name, to_json, on_response, empty_node}

  unfoldable pub receive_topic_advertisement_ws :
      Text → DynamicType → Text → Connection → Endpoint → Endpoint
  receive_topic_advertisement_ws topic message_type id connection e =
      elim (find topic e.topic_subscribe_info) [
        | none ↦ e
        | some info ↦ record e {
          topic_subscribe_info =
              assign topic (judge_advertiser (type_name message_type) connection info)
                e.topic_subscribe_info;
        }
      ]

  unfoldable pub receive_topic_unadvertisement_ws : Text → Text → Connection → Endpoint → Endpoint
  receive_topic_unadvertisement_ws topic id connection e = e

  unfoldable pub receive_publication_ws : Text → DynamicData → Connection → Endpoint → Endpoint
  receive_publication_ws topic message connection e = elim (find topic e.topic_subscribe_info) [
    | none ↦ e
    | some info ↦
        if contains connection info.blacklist then e else emit (delivered info.callback message) e
  ]

  -- A null type is read for the log where the topic is known.
  unfoldable pub receive_subscribe_request_ws :
      Text → Option DynamicType → Text → Connection → Endpoint → Run (Unit {0})
  receive_subscribe_request_ws topic message_type id connection e =
      elim (find topic e.topic_publish_info) [
        | none ↦ (
          ok tt,
          record e {
            topic_publish_info =
                assign topic (add_listener connection id (record { type = []; listeners = [] }))
                  e.topic_publish_info;
          },
        )
        | some info ↦ elim message_type [
          | none ↦ (throws undefined_behaviour, e)
          | some type ↦ if not (type_name type == info.type) then (ok tt, e) else (
            ok tt,
            record e {
              topic_publish_info =
                  assign topic (add_listener connection id info) e.topic_publish_info;
            },
          )
        ]
      ]

  unfoldable pub receive_unsubscribe_request_ws : Text → Text → Connection → Endpoint → Endpoint
  receive_unsubscribe_request_ws topic id connection e = elim (find topic e.topic_publish_info) [
    | none ↦ e
    | some info ↦ record e {
      topic_publish_info = assign topic (drop_listener connection id info) e.topic_publish_info;
    }
  ]

  unfoldable pub make_call_handle : Text → ClientProxyInfo → Text → Connection → CallHandle
  make_call_handle service info id connection = record {
    service_name = service;
    request_type = info.req_type;
    reply_type = info.reply_type;
    id = id;
    connection_handle = connection;
  }

  -- The request is converted for the log first; an exception of that conversion ends the call.
  unfoldable pub receive_service_request_ws :
      Text → DynamicData → Text → Connection → Endpoint → Endpoint
  unfolding make_call_handle
  receive_service_request_ws service request id connection e =
      elim (find service e.client_proxy_info) [
        | none ↦ e
        | some info ↦ elim (to_json request) [
          | converted _ ↦
              emit (requested info.callback request (make_call_handle service info id connection)) e
          | unsupported_type ↦ e
          | json_exception ↦ e
        ]
      ]

  unfoldable pub receive_service_advertisement_ws :
      Text → DynamicType → DynamicType → Connection → Endpoint → Endpoint
  receive_service_advertisement_ws service req_type reply_type connection e = record e {
    service_provider_info =
        assign service
          (record {
            req_type = type_name req_type;
            reply_type = type_name reply_type;
            connection_handle = some connection;
            configuration = empty_node;
          })
          e.service_provider_info;
  }

  -- `info.connection_handle == connection`
  unfoldable pub provided_by : Connection → ServiceProviderInfo → Bool
  provided_by connection info = elim info.connection_handle [
    | none ↦ false
    | some c ↦ c == connection
  ]

  unfoldable pub receive_service_unadvertisement_ws :
      Text → Option DynamicType → Connection → Endpoint → Endpoint
  unfolding provided_by
  receive_service_unadvertisement_ws service service_type connection e =
      elim (find service e.service_provider_info) [
        | none ↦ e
        | some info ↦
            if provided_by connection info
            then record e { service_provider_info = erase service e.service_provider_info }
            else e
      ]

  -- The client's callback, and the entry erased unless the callback throws.
  unfoldable pub respond : Text → ServiceRequestInfo → DynamicData → Endpoint → Endpoint
  respond id info response e =
      let answered = emit (responded info.client info.call_handle response) e in
      elim (on_response info.client info.call_handle response) [
        | converted _ ↦ record answered {
          service_request_info = erase id answered.service_request_info;
        }
        | unsupported_type ↦ answered
        | json_exception ↦ answered
      ]

  unfoldable pub receive_service_response_ws :
      Text → DynamicData → Text → Connection → Endpoint → Endpoint
  receive_service_response_ws service response id connection e =
      elim (find id e.service_request_info) [
        | none ↦ e
        | some info ↦ elim (to_json response) [
          | converted _ ↦ respond id info response e
          | unsupported_type ↦ e
          | json_exception ↦ e
        ]
      ]
