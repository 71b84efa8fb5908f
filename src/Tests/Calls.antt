-- ===== src/Tests/Calls.antt =====
-- Runs and instances for service calls and their answers.
use web_socket_sh.Prelude.{◌≡◌, refl, none, some, [], ◌∷◌, ◌++◌}
use web_socket_sh.Text.{bytes, text_beq}
use web_socket_sh.Dict.{find}
use web_socket_sh.Decimal.{to_string}
use web_socket_sh.Json.{str}
use web_socket_sh.Endpoint.{ServiceRequestInfo, throws, out_of_range, responded}
use web_socket_sh.Endpoint.Traffic.{call_service}
use web_socket_sh.Endpoint.Receive.{receive_service_response_ws}
use web_socket_sh.Endpoint.Calls.{pending, call_service_unknown}
use web_socket_sh.Endpoint.Answers.{answer_once}
use web_socket_sh.Tests.Sample.{world, greeting, busy}

abbrev first_call : ServiceRequestInfo
first_call = record { client = 3; call_handle = 4 }

call_service_unknown_example :
    let (outcome, after) = call_service (bytes "sum") greeting 8 9 busy in
    (outcome ≡ throws out_of_range)
    × (after.events ≡ busy.events)
    × (pending after (to_string 2) ≡ some (record { client = 8; call_handle = 9 }))
unfolding find text_beq
call_service_unknown_example = call_service_unknown (bytes "sum") greeting 8 9 busy refl

answer_once_example :
    let after = receive_service_response_ws (bytes "time") greeting (bytes "1") 7 busy in
    (after.events ≡ busy.events ++ responded 3 4 greeting ∷ [])
    × (pending after (bytes "1") ≡ none)
    × (receive_service_response_ws (bytes "time") greeting (bytes "1") 8 after ≡ after)
unfolding find text_beq
answer_once_example =
    answer_once (bytes "time") (bytes "1") greeting (str (bytes "hi")) 7 8 busy first_call
      (bytes "1") refl refl refl
