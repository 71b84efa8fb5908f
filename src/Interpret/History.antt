-- ===== src/Interpret/History.antt =====
-- What an endpoint (src/Endpoint.cpp) has been told, and the endpoint that this makes, whatever the
-- transport is: the calls of src/Server.cpp and src/Client.cpp on their endpoint, oldest first.
use web_socket_sh.Prelude.{◌≡◌, refl, List, [], ◌∷◌, ◌++◌}
use web_socket_sh.Text.{Text}
use web_socket_sh.External.{Externals}
use web_socket_sh.Endpoint.{Endpoint, Connection}
use web_socket_sh.Endpoint.Lifetime.{notify_connection_opened, notify_connection_closed}
use web_socket_sh.Interpret.{interpret_websocket_msg}

module _ ⦃x : Externals⦄ where
  -- A connection opens or closes, a text of a connection is heard, or a call of the core of the
  -- Integration Service leaves an endpoint.
  pub data Happening : Type 0 where
    opens closes : Connection → Happening
    hears : Connection → Text → Happening
    becomes : Endpoint → Happening

  abbrev pub perform : Happening → Endpoint → Endpoint
  perform (opens c) e = notify_connection_opened c e
  perform (closes c) e = notify_connection_closed c e
  perform (hears c text) e = (interpret_websocket_msg text c e).1
  perform (becomes f) e = f

  abbrev pub replay : List Happening → Endpoint → Endpoint
  replay [] e = e
  replay (happening ∷ more) e = replay more (perform happening e)

  pub replay-append :
      (l m : List Happening) (e : Endpoint) → replay (l ++ m) e ≡ replay m (replay l e)
  replay-append [] m e = refl
  replay-append (happening ∷ l) m e = replay-append l m (perform happening e)
