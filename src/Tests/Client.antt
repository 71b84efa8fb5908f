-- ===== src/Tests/Client.antt =====
-- A client on concrete inputs: one round, at which it asks for a connection.
use web_socket_sh.Prelude.{◌+◌, ◌*◌, ◌≤◌, ◌≡◌, refl, false, none, some, [], ◌∷◌, arith}
use web_socket_sh.Text.{bytes, text_eq}
use web_socket_sh.Interpret.History.{opens, replay}
use web_socket_sh.Client.{
  Client, retry_after, make_client, spin_once, handle_opening, handle_message,
}
use web_socket_sh.Client.Steps.{Timed, with_client, spinning, opening, message, Reach, here, next}
use web_socket_sh.Client.Refinement.{client_endpoint-replay}
use web_socket_sh.Client.Pacing.{connects, connects-Reach}
use web_socket_sh.Tests.Sample.{world, busy}

abbrev fresh : Timed
fresh = record { client = make_client none busy; clock = 3 }

abbrev spun : Timed
spun = record { client = (spin_once (λ c. false) 5 6 (some 7) fresh.client).1; clock = 6 }

one_round : Reach fresh spun
one_round = next here (spinning fresh (λ c. false) 5 6 (some 7) (omega arith) (omega arith))

-- The connection opens, and another one says something.
opened : Timed
opened = with_client (handle_opening 7 spun.client) spun

client_endpoint-replay_example :
    (handle_message 8 (bytes "{") opened.client).1.endpoint ≡ replay (opens 7 ∷ []) busy
unfolding opened one_round spin_once make_client handle_opening handle_message
client_endpoint-replay_example =
    client_endpoint-replay none 3 busy
      (with_client (handle_message 8 (bytes "{") opened.client).1 opened)
      (next (next one_round (opening spun 7)) (message opened 8 (bytes "{")))

connects-Reach_example : 3 + connects spun.client.requests * retry_after ≤ 6 + retry_after
connects-Reach_example = connects-Reach none 3 busy spun one_round

asked_once : connects spun.client.requests ≡ 1
unfolding connects spin_once make_client
asked_once = refl
