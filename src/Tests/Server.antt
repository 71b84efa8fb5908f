-- ===== src/Tests/Server.antt =====
-- A server on concrete inputs.
use web_socket_sh.Prelude.{
  ℕ, ◌+◌, ◌*◌, ◌==◌, ◌≡◌, ◌↔◌, ◌⊎◌, refl, true, false, none, some, [], ◌∷◌, arith, nat_eq,
}
use web_socket_sh.Text.{bytes, text_eq}
use web_socket_sh.Dict.{find}
use web_socket_sh.Dict.HashSet.{contains}
use web_socket_sh.Endpoint.{make_endpoint, sent, tcp}
use web_socket_sh.Endpoint.Listeners.{listens}
use web_socket_sh.Endpoint.Delivery.{ignores}
use web_socket_sh.Endpoint.Tables.{tables}
use web_socket_sh.Auth.Policy.{passes}
use web_socket_sh.Server.{
  Server, close, stop, make_server, handle_opening, open_connection, handle_close, handle_validate,
  runtime_advertisement, close_connection, handle_tcp_message,
}
use web_socket_sh.Server.Steps.{here, next, opening, closing, message, IsSound, Reach-IsSound}
use web_socket_sh.Server.Refinement.{endpoint-replay}
use web_socket_sh.Interpret.History.{opens, closes, hears, replay}
use web_socket_sh.Server.Closing.{handle_close-forgets, opening_while_closing_blocks}
use web_socket_sh.Server.Joining.{late_opening, late_closing, late_tcp_message}
use web_socket_sh.Server.Destroying.{destroy, destroy_ends}
use web_socket_sh.Waiting.{Waited, ClientsEnd, check_interval}
use web_socket_sh.Server.Advertising.{events-runtime_advertisement}
use web_socket_sh.Server.Validation.{Presents, handle_validate-Presents}
use web_socket_sh.Tests.Sample.{world, chatter, hello, busy}
use web_socket_sh.Tests.Auth.{jwt, doors}

abbrev started : Server
started = make_server none busy

Reach-IsSound_example : IsSound (open_connection 7 started)
unfolding make_server find handle_opening
Reach-IsSound_example =
    Reach-IsSound none busy (open_connection 7 started)
      (next here (opening started (open_connection 7 started) 7 refl (omega arith) refl))

handle_close-forgets_example :
    (after : Server) × (handle_close 7 started ≡ some after)
    × (contains 7 after.open_connections ≡ false)
    × (find 7 after.open_conn_to_id ≡ none)
    × (listens after.endpoint chatter 7 (bytes "1") ≡ false)
    × (ignores after.endpoint chatter 7 ≡ false)
unfolding make_server
handle_close-forgets_example = handle_close-forgets started 7 7 chatter (bytes "1") refl

abbrev leaving : Server
leaving = record started { closing_down = true }

opening_while_closing_blocks_example :
    (after : Server) × (handle_opening 7 leaving ≡ some after)
    × (handle_opening 8 after ≡ none)
    × (handle_close 8 after ≡ none)
unfolding make_server
opening_while_closing_blocks_example = opening_while_closing_blocks leaving 7 8 refl refl

abbrev crowded : Server
crowded = record started { open_connections = 7 ∷ 8 ∷ [] }

events-runtime_advertisement_example :
    ((false ≡ true) × (runtime_advertisement chatter hello [] tt crowded ≡ none))
    ⊎ ((false ≡ false)
        × (after : Server) × (runtime_advertisement chatter hello [] tt crowded ≡ some after)
        × (after.endpoint.events ≡ sent tcp 7 (bytes "{}") ∷ sent tcp 8 (bytes "{}") ∷ [])
        × (tables after.endpoint ≡ tables busy)
        × (after.open_connections ≡ 7 ∷ 8 ∷ [])
        × (after.open_conn_to_id ≡ [])
        × (after.locked ≡ false))
unfolding make_endpoint make_server
events-runtime_advertisement_example = events-runtime_advertisement chatter hello [] tt crowded

handle_validate-Presents_example :
    ((handle_validate 7 (bytes "h.p.s" ∷ []) (record started { jwt_validator = some doors })).0
      ≡ passes)
    ↔ Presents doors (bytes "h.p.s" ∷ [])
handle_validate-Presents_example =
    handle_validate-Presents 7 doors (bytes "h.p.s" ∷ [])
      (record started { jwt_validator = some doors }) refl

-- Connection 7 opens, and closes after a message that is not JSON.
talked : Server
talked = (handle_tcp_message 7 (bytes "{") (open_connection 7 started)).1

endpoint-replay_example :
    (close_connection 7 talked).endpoint
    ≡ replay (opens 7 ∷ hears 7 (bytes "{") ∷ closes 7 ∷ []) busy
unfolding talked make_server find handle_opening handle_close open_connection handle_tcp_message
endpoint-replay_example = endpoint-replay none busy (close_connection 7 talked) (
    next
      (next (next here (opening started (open_connection 7 started) 7 refl (omega arith) refl))
        (message (open_connection 7 started) 7 (bytes "{")))
      (closing talked (close_connection 7 talked) 7 refl))

-- Connection 7 does not close in time, on a clock that keeps the time of the sleeps; then it closes,
-- connection 9 opens, and a message comes.
destroy_ends_example :
    let now = λ (k : ℕ). (k + 1) * check_interval in
    let thread = some (late_closing 7 ∷ late_opening 9 ∷ late_tcp_message 7 (bytes "{") ∷ []) in
    (r : Waited) × ClientsEnd (λ k c. c == 8) now 0 (7 ∷ 8 ∷ []) r
    × (((after : Server) × (true ≡ true)
          × (destroy 51 (λ c. c == 8) (λ k c. c == 8) now 0 true thread crowded ≡ some (r, after))
          × (after.endpoint ≡ replay (closes 7 ∷ hears 7 (bytes "{") ∷ []) busy)
          × (after.actions ≡ close 7 ∷ stop ∷ close 9 ∷ []))
        ⊎ ((true ≡ false)
            × (destroy 51 (λ c. c == 8) (λ k c. c == 8) now 0 true thread crowded ≡ none)))
unfolding make_server
destroy_ends_example =
    destroy_ends (λ c. c == 8) (λ k c. c == 8) (λ k. (k + 1) * check_interval) 0 true
      (some (late_closing 7 ∷ late_opening 9 ∷ late_tcp_message 7 (bytes "{") ∷ []))
      (late_closing 7 ∷ late_opening 9 ∷ late_tcp_message 7 (bytes "{") ∷ []) crowded refl
      (λ k. omega arith) refl
