-- ===== src/Interpret/Topics.antt =====
-- Topics: a message that an encoder writes is read by the peer as the call that it stands for. -- The text is
-- assumed to parse back to the object that was printed, and names and ids to need no escapes.
use web_socket_sh.Prelude.{◌≡◌, ap, ◌∙◌, Option, none, some}
use web_socket_sh.Text.{Text, text_eq}
use web_socket_sh.Dict.{find}
use web_socket_sh.Json.{Json, obj}
use web_socket_sh.Names.{transform_type}
use web_socket_sh.External.{Externals, PrintsJson, IsPlain, converted}
use web_socket_sh.Encoding.{
  JsonEncoding, get_type, encode_subscribe_msg, encode_advertise_msg, encode_publication_msg,
}
use web_socket_sh.Encoding.Registry.{get_type-transform_type, get_type_by_topic_lem}
use web_socket_sh.Encoding.Message.{
  id_key, topic_name_key, type_name_key, msg_key, op_advertise_topic, op_publish, op_subscribe,
  publication_msg, subscribe_msg, advertise_msg,
}
use web_socket_sh.Encoding.Reader.{get_required_string, get_optional_string}
use web_socket_sh.Endpoint.{Endpoint, Connection, Run, ok}
use web_socket_sh.Endpoint.Receive.{
  receive_topic_advertisement_ws, receive_publication_ws, receive_subscribe_request_ws,
}
use web_socket_sh.Interpret.{
  interpret_publish, interpret_advertise, interpret_subscribe, interpret_websocket_msg,
}
use web_socket_sh.Interpret.Reading.{
  Has, subscribe_fields, advertise_fields, publication_fields, required_lem, optional_lem, id_lem,
}
use web_socket_sh.Interpret.Dispatching.{ParsesBack, interpret_lem, dispatch_lem, with_type_lem}

module _ ⦃x : Externals⦄ where
  open x use {DynamicType, DynamicData, Node, to_json, to_data, dump, parse}

  -- The handler of a subscription, or nothing where the type is unknown.
  abbrev pub subscribed : Text → Text → Connection → Endpoint → Option DynamicType → Run (Unit {0})
  subscribed topic id c f none = (ok tt, f)
  subscribed topic id c f (some type) = receive_subscribe_request_ws topic (some type) id c f

  interpret_subscribe_lem :
      (msg : Json) (topic type id : Text) (c : Connection) (f : Endpoint)
      → get_required_string msg topic_name_key ≡ topic
      → get_optional_string msg type_name_key ≡ type
      → get_optional_string msg id_key ≡ id
      → interpret_subscribe msg c f ≡ subscribed topic id c f (get_type type f.encoding)
  unfolding interpret_subscribe
  interpret_subscribe_lem msg topic type id c f p q r =
      λ i. subscribed (p i) (r i) c f (get_type (q i) f.encoding)

  -- A subscription message that one side encodes reaches the other side as a subscription request
  -- for the same topic and id, under the type that it knows by that name, and does nothing where
  -- it knows no such type; the strings have nothing to escape and the parser reads back the
  -- printed message.
  pub interpret-subscribe :
      (json : PrintsJson x) (topic type id : Text) (node : Node) (e : JsonEncoding) (c : Connection)
      (f : Endpoint)
      → IsPlain topic
      → IsPlain (transform_type type)
      → IsPlain id
      → ParsesBack (obj (subscribe_msg topic (transform_type type) id))
      → interpret_websocket_msg (encode_subscribe_msg topic type id node e).0 c f
        ≡ subscribed topic id c f (get_type type f.encoding)
  unfolding encode_subscribe_msg
  interpret-subscribe json topic type id node e c f plain_topic plain_type plain_id back =
      let t = transform_type type in
      let msg = obj (subscribe_msg topic t id) in
      let (op, topic_field, type_field, id_field) = subscribe_fields topic t id in
      interpret_lem msg op_subscribe c f back op
      ∙ (dispatch_lem msg c f).4
      ∙ interpret_subscribe_lem msg topic t id c f
          (required_lem json msg topic_name_key topic plain_topic topic_field)
          (optional_lem json msg type_name_key t plain_type type_field)
          (id_lem json msg id plain_id id_field)
      ∙ ap (subscribed topic id c f) (get_type-transform_type type f.encoding)

  abbrev pub advertised : Text → Text → Connection → Endpoint → Option DynamicType → Run (Unit {0})
  advertised topic id c f none = (ok tt, f)
  advertised topic id c f (some type) = (ok tt, receive_topic_advertisement_ws topic type id c f)

  interpret_advertise_lem :
      (msg : Json) (topic type id : Text) (c : Connection) (f : Endpoint)
      → get_required_string msg topic_name_key ≡ topic
      → get_required_string msg type_name_key ≡ type
      → get_optional_string msg id_key ≡ id
      → interpret_advertise msg c f ≡ advertised topic id c f (get_type type f.encoding)
  unfolding interpret_advertise
  interpret_advertise_lem msg topic type id c f p q r =
      λ i. advertised (p i) (r i) c f (get_type (q i) f.encoding)

  -- An advertisement message reaches the other side as an advertisement of the same topic and id,
  -- under the type that it knows by that name, and does nothing where it knows no such type; the
  -- strings have nothing to escape and the parser reads back the printed message.
  pub interpret-advertise :
      (json : PrintsJson x) (topic type id : Text) (node : Node) (e : JsonEncoding) (c : Connection)
      (f : Endpoint)
      → IsPlain topic
      → IsPlain (transform_type type)
      → IsPlain id
      → ParsesBack (obj (advertise_msg topic (transform_type type) id))
      → interpret_websocket_msg (encode_advertise_msg topic type id node e).0 c f
        ≡ advertised topic id c f (get_type type f.encoding)
  unfolding encode_advertise_msg
  interpret-advertise json topic type id node e c f plain_topic plain_type plain_id back =
      let t = transform_type type in
      let msg = obj (advertise_msg topic t id) in
      let (op, topic_field, type_field, id_field) = advertise_fields topic t id in
      interpret_lem msg op_advertise_topic c f back op
      ∙ (dispatch_lem msg c f).3
      ∙ interpret_advertise_lem msg topic t id c f
          (required_lem json msg topic_name_key topic plain_topic topic_field)
          (required_lem json msg type_name_key t plain_type type_field)
          (id_lem json msg id plain_id id_field)
      ∙ ap (advertised topic id c f) (get_type-transform_type type f.encoding)

  publish_known :
      (msg : Json) (topic name : Text) (v : Json) (type : DynamicType) (message : DynamicData)
      (c : Connection) (f : Endpoint)
      → get_required_string msg topic_name_key ≡ topic
      → Has msg msg_key (some v)
      → find topic f.encoding.types_by_topic ≡ some name
      → get_type name f.encoding ≡ some type
      → to_data type v ≡ converted message
      → interpret_publish msg c f ≡ (ok tt, receive_publication_ws topic message c f)
  unfolding interpret_publish
  publish_known msg topic name v type message c f p q known typed data_of =
      rw (p, get_type_by_topic_lem topic name f.encoding known, interpret_publish)
        (with_type_lem msg msg_key (get_type name f.encoding) type v message
          (λ m. receive_publication_ws topic m c) f typed q data_of)

  -- A publication message reaches the other side as a publication on the same topic, with the
  -- message that it makes of the JSON value by its own type for the topic; the topic has nothing
  -- to escape, the parser reads back the printed message, the other side knows the type of the
  -- topic and the conversions succeed.
  pub interpret-publication :
      (json : PrintsJson x) (topic own_type id name : Text) (sent message : DynamicData) (v : Json)
      (type : DynamicType) (e : JsonEncoding) (c : Connection) (f : Endpoint)
      → IsPlain topic
      → to_json sent ≡ converted v
      → ParsesBack (obj (publication_msg topic id v))
      → find topic f.encoding.types_by_topic ≡ some name
      → get_type name f.encoding ≡ some type
      → to_data type v ≡ converted message
      → interpret_websocket_msg (encode_publication_msg topic own_type id sent e).0 c f
        ≡ (ok tt, receive_publication_ws topic message c f)
  unfolding encode_publication_msg
  interpret-publication json topic own_type id name sent message v type e c f plain encoded back
        known typed data_of =
      let msg = obj (publication_msg topic id v) in
      let (op, topic_field, msg_field) = publication_fields topic id v in
      rw (encoded, encode_publication_msg)
        (interpret_lem msg op_publish c f back op
          ∙ (dispatch_lem msg c f).0
          ∙ publish_known msg topic name v type message c f
              (required_lem json msg topic_name_key topic plain topic_field) msg_field known typed
              data_of)
