-- ===== src/Tests/Steps.antt =====
-- States that an endpoint reaches, on concrete inputs.
use web_socket_sh.Prelude.{◌≡◌, refl, false, some, none, arith}
use web_socket_sh.Text.{bytes, text_beq, text_eq}
use web_socket_sh.Dict.{find, assign}
use web_socket_sh.Decimal.{to_string}
use web_socket_sh.Encoding.{encode_call_service_msg}
use web_socket_sh.Endpoint.{Endpoint, make_endpoint}
use web_socket_sh.Endpoint.Setup.{create_service_proxy}
use web_socket_sh.Endpoint.Traffic.{call_service, call_provider}
use web_socket_sh.Endpoint.Receive.{provided_by}
use web_socket_sh.Endpoint.Lifetime.{notify_connection_closed}
use web_socket_sh.Endpoint.Calls.{pending}
use web_socket_sh.Endpoint.Closing.{provider}
use web_socket_sh.Endpoint.Operations.{IsConsistent}
use web_socket_sh.Interpret.Steps.{
  Reach, here, next, calling, service_proxy, Reach-IsConsistent, pending-reached, provider-reached,
}
use web_socket_sh.Tests.Sample.{world, hello, greeting}

abbrev start : Endpoint
start = make_endpoint false

abbrev with_proxy : Endpoint
with_proxy = create_service_proxy (bytes "sum") hello hello tt start

-- A call of a service that no connection provides.
abbrev called : Endpoint
called = (call_service (bytes "sum") greeting 3 4 with_proxy).1

called-Reach : Reach start called
unfolding make_endpoint create_service_proxy
called-Reach =
    next (next here (service_proxy (bytes "sum") hello hello tt start))
      (calling (bytes "sum") greeting 3 4 with_proxy (omega arith))

Reach-IsConsistent_example : IsConsistent called
Reach-IsConsistent_example = Reach-IsConsistent false called called-Reach

pending-reached_example :
    pending (call_service (bytes "sum") greeting 5 6 called).1 (bytes "1")
    ≡ some (record { client = 3; call_handle = 4 })
unfolding find call_service create_service_proxy assign make_endpoint text_beq call_provider
    encode_call_service_msg to_string
pending-reached_example =
    pending-reached false (bytes "sum") greeting 5 6 called (bytes "1")
      (record { client = 3; call_handle = 4 }) called-Reach refl

provider-reached_example :
    provider (notify_connection_closed 7 called) (bytes "sum")
    ≡ some (record {
      req_type = hello;
      reply_type = hello;
      connection_handle = none;
      configuration = tt;
    })
unfolding find call_service create_service_proxy assign make_endpoint text_beq call_provider
    encode_call_service_msg provided_by
provider-reached_example = provider-reached false called 7 (bytes "sum") called-Reach
