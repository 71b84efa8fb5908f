-- ===== src/Tests/Answered.antt =====
-- A call of a service and its answer, between two endpoints.
use web_socket_sh.Prelude.{◌≡◌, refl, false, true, none, some, [], ◌∷◌, ◌++◌, arith, if◌then◌else◌}
use web_socket_sh.Text.{Text, bytes, is_empty, text_beq}
use web_socket_sh.Dict.{find}
use web_socket_sh.Decimal.{to_string}
use web_socket_sh.Names.{transform_type}
use web_socket_sh.Json.{Json, null, str, obj, Fields, end, field, put}
use web_socket_sh.External.{Externals, PrintsJson, quoted}
use web_socket_sh.Encoding.{get_type}
use web_socket_sh.Encoding.Message.{call_service_msg, service_response_msg}
use web_socket_sh.Endpoint.{
  Endpoint, make_endpoint, ClientProxyInfo, ServiceProviderInfo, sent, tcp, requested, responded,
  ok,
}
use web_socket_sh.Endpoint.Traffic.{call_service, receive_response}
use web_socket_sh.Endpoint.Receive.{make_call_handle}
use web_socket_sh.Endpoint.Calls.{pending}
use web_socket_sh.Interpret.{interpret_websocket_msg}
use web_socket_sh.Interpret.Answered.{call-answered}
use web_socket_sh.Tests.Sample.{world_of, hello, greeting}

-- A printer that writes the operation of a message, and the parser that goes with it.
abbrev pub print_fields : Fields → Text
print_fields (field k (str op) fs) = b'{' ∷ op
print_fields _ = bytes "{}"

abbrev pub print_op : Json → Text
print_op (str s) = quoted s
print_op (obj fs) = print_fields fs
print_op _ = bytes "{}"

print_fields-is_empty : (fs : Fields) → is_empty (print_fields fs) ≡ false
print_fields-is_empty end = refl
print_fields-is_empty (field k null fs) = refl
print_fields-is_empty (field k (str op) fs) = refl
print_fields-is_empty (field k _ fs) = refl

pub print_op-is_empty : (v : Json) → is_empty (print_op v) ≡ false
print_op-is_empty null = refl
print_op-is_empty (str s) = refl
print_op-is_empty (obj fs) = print_fields-is_empty fs
print_op-is_empty _ = refl

abbrev hi : Json
hi = str (bytes "hi")

abbrev call : Json
call = obj (call_service_msg (bytes "add") (bytes "1") hi)

abbrev answer : Json
answer = obj (service_response_msg (bytes "add") (bytes "1") hi true)

instance abbrev two_messages : Externals
two_messages = record (world_of null) {
  dump = print_op;
  parse = λ s. some (if text_beq s (print_op call) then call else answer);
}

two_messages-PrintsJson : PrintsJson two_messages
two_messages-PrintsJson = record { dump-str = λ s h. refl; dump-is_empty = print_op-is_empty }

abbrev pub hello_name : Text
hello_name = bytes "std__Hello"

abbrev typed : Endpoint
typed = record (make_endpoint false) {
  encoding = record {
    types = (hello_name, hello) ∷ [];
    types_by_topic = [];
    types_by_service = (bytes "add", (hello_name, hello_name)) ∷ [];
  };
}

abbrev provider : ServiceProviderInfo
provider = record {
  req_type = hello;
  reply_type = hello;
  connection_handle = some 7;
  configuration = tt;
}

abbrev adder : ClientProxyInfo
adder = record { req_type = hello; reply_type = hello; callback = 6; configuration = tt }

abbrev asking : Endpoint
asking = record typed { service_provider_info = (bytes "add", provider) ∷ [] }

abbrev serving : Endpoint
serving = record typed { client_proxy_info = (bytes "add", adder) ∷ [] }

call-answered_example :
    let id = to_string 1 in
    let (outcome, called) = call_service (bytes "add") greeting 3 4 asking in
    let handle = make_call_handle (bytes "add") adder id 9 in
    (call_text answer_text : Text) × (outcome ≡ ok tt)
    × (called.events ≡ sent tcp 7 call_text ∷ [])
    × ((interpret_websocket_msg call_text 9 serving).1.events ≡ requested 6 greeting handle ∷ [])
    × ((receive_response handle greeting serving).events ≡ sent tcp 9 answer_text ∷ [])
    × ((interpret_websocket_msg answer_text 7 called).1.events
        ≡ called.events ++ responded 3 4 greeting ∷ [])
    × (pending (interpret_websocket_msg answer_text 7 called).1 id ≡ none)
unfolding get_type find text_beq transform_type make_endpoint put call_service_msg
    service_response_msg to_string
call-answered_example =
    call-answered two_messages-PrintsJson (bytes "add") hello_name hello_name hello_name hello_name
      greeting greeting greeting greeting hi hi hi hi hello hello 3 4 7 9 provider adder asking
      serving serving (omega arith) refl refl refl refl refl refl refl refl refl refl refl refl refl
      refl refl refl
