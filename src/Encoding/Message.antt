-- ===== src/Encoding/Message.antt =====
-- The keys, the operation codes and the objects of the messages of src/json_encoding.cpp.
use web_socket_sh.Prelude.{Bool, if◌then◌else◌}
use web_socket_sh.Text.{Text, bytes, is_empty}
use web_socket_sh.Json.{Json, Fields, put, str, boolean, end}

-- message fields
abbrev pub op_key : Text
op_key = bytes "op"

abbrev pub id_key : Text
id_key = bytes "id"

abbrev pub topic_name_key : Text
topic_name_key = bytes "topic"

abbrev pub type_name_key : Text
type_name_key = bytes "type"

abbrev pub request_type_name_key : Text
request_type_name_key = bytes "request_type"

abbrev pub reply_type_name_key : Text
reply_type_name_key = bytes "reply_type"

abbrev pub msg_key : Text
msg_key = bytes "msg"

abbrev pub service_key : Text
service_key = bytes "service"

abbrev pub args_key : Text
args_key = bytes "args"

abbrev pub values_key : Text
values_key = bytes "values"

abbrev pub result_key : Text
result_key = bytes "result"

-- op codes
abbrev pub op_advertise_topic : Text
op_advertise_topic = bytes "advertise"

abbrev pub op_unadvertise_topic : Text
op_unadvertise_topic = bytes "unadvertise"

abbrev pub op_publish : Text
op_publish = bytes "publish"

abbrev pub op_subscribe : Text
op_subscribe = bytes "subscribe"

abbrev pub op_unsubscribe : Text
op_unsubscribe = bytes "unsubscribe"

abbrev pub op_service_request : Text
op_service_request = bytes "call_service"

abbrev pub op_advertise_service : Text
op_advertise_service = bytes "advertise_service"

abbrev pub op_unadvertise_service : Text
op_unadvertise_service = bytes "unadvertise_service"

abbrev pub op_service_response : Text
op_service_response = bytes "service_response"

-- `output["id"] = id` if there is an id.
unfoldable pub with_id : Text → Fields → Fields
with_id id output = if is_empty id then output else put id_key (str id) output

-- The objects that the encoders fill.
unfoldable pub publication_msg : Text → Text → Json → Fields
unfolding with_id
publication_msg topic id json =
    with_id id (put msg_key json (put topic_name_key (str topic) (put op_key (str op_publish) end)))

unfoldable pub service_response_msg : Text → Text → Json → Bool → Fields
unfolding with_id
service_response_msg service id json result = with_id id (
    put result_key (boolean result) (
      put values_key json
        (put service_key (str service) (put op_key (str op_service_response) end))))

unfoldable pub subscribe_msg : Text → Text → Text → Fields
unfolding with_id
subscribe_msg topic type id = with_id id (
    put type_name_key (str type)
      (put topic_name_key (str topic) (put op_key (str op_subscribe) end)))

unfoldable pub advertise_msg : Text → Text → Text → Fields
unfolding with_id
advertise_msg topic type id = with_id id (
    put type_name_key (str type)
      (put topic_name_key (str topic) (put op_key (str op_advertise_topic) end)))

unfoldable pub call_service_msg : Text → Text → Json → Fields
unfolding with_id
call_service_msg service id json =
    with_id id
      (put args_key json (put service_key (str service) (put op_key (str op_service_request) end)))

unfoldable pub advertise_service_msg : Text → Text → Text → Fields
advertise_service_msg service request_type reply_type = put service_key (str service) (
    put reply_type_name_key (str reply_type)
      (put request_type_name_key (str request_type) (put op_key (str op_advertise_service) end)))
