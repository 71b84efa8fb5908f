-- ===== src/Tests/Sample.antt =====
-- A world to run the model in: a type is its name, data is a value with its type, and the parser
-- gives back one message.
use web_socket_sh.Prelude.{◌≡◌, refl, false, some, [], ◌∷◌}
use web_socket_sh.Text.{Text, bytes, is_empty}
use web_socket_sh.Json.{Json, null, str}
use web_socket_sh.Endpoint.{Endpoint, make_endpoint}
use web_socket_sh.External.{Externals, PrintsJson, converted, quoted}

abbrev pub print : Json → Text
print (str s) = quoted s
print _ = bytes "{}"

print-is_empty : (v : Json) → is_empty (print v) ≡ false
print-is_empty (str s) = refl
print-is_empty _ = refl

abbrev pub world_of : Json → Externals
world_of msg = record {
  DynamicType = Text;
  DynamicData = Text × Json;
  Node = Unit {0};
  empty_node = tt;
  type_name = λ t. t;
  to_data = λ t v. converted (t, v);
  to_json = λ d. converted d.1;
  parse = λ s. some msg;
  dump = print;
  idl_types = (bytes "status", bytes "status") ∷ [];
  on_response = λ client handle response. converted tt;
  compute_string = λ template message. template;
}

pub world_of-PrintsJson : (msg : Json) → PrintsJson (world_of msg)
world_of-PrintsJson msg = record { dump-str = λ s h. refl; dump-is_empty = print-is_empty }

instance abbrev pub world : Externals
world = world_of null

pub prints : PrintsJson world
prints = world_of-PrintsJson null

abbrev pub chatter : Text
chatter = bytes "chatter"

abbrev pub hello : Text
hello = bytes "std/Hello"

abbrev pub greeting : Text × Json
greeting = (hello, str (bytes "hi"))

-- Connection 7 listens to a topic that is advertised, and there is a subscriber to it here too.
abbrev pub busy : Endpoint
busy = record (make_endpoint false) {
  startup_messages = bytes "first" ∷ bytes "second" ∷ [];
  topic_subscribe_info = (chatter, record { type = hello; callback = 5; blacklist = [] }) ∷ [];
  topic_publish_info =
      (chatter, record { type = hello; listeners = (7, bytes "1" ∷ []) ∷ [] }) ∷ [];
  client_proxy_info =
      (
        bytes "add",
        record { req_type = hello; reply_type = hello; callback = 6; configuration = tt },
      )
      ∷ [];
  service_provider_info =
      (
        bytes "time",
        record {
          req_type = hello;
          reply_type = hello;
          connection_handle = some 7;
          configuration = tt;
        },
      )
      ∷ [];
  service_request_info = (bytes "1", record { client = 3; call_handle = 4 }) ∷ [];
  next_service_call_id = 2;
}
