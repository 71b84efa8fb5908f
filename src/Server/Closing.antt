-- ===== src/Server/Closing.antt =====
-- What is left of a connection after it has closed (src/Server.cpp), and the mutex.
use web_socket_sh.Prelude.{◌≡◌, refl, true, false, none, some, ◌==◌, nat_eq, if◌then◌else◌}
use web_socket_sh.Text.{Text}
use web_socket_sh.Dict.{find, find-erase}
use web_socket_sh.Dict.HashSet.{contains, contains-remove}
use web_socket_sh.External.{Externals}
use web_socket_sh.Endpoint.{Connection}
use web_socket_sh.Endpoint.Listeners.{listens}
use web_socket_sh.Endpoint.Delivery.{ignores}
use web_socket_sh.Endpoint.Closing.{
  listens-notify_connection_closed, ignores-notify_connection_closed,
}
use web_socket_sh.Server.{
  Server, close, act, open_connection, handle_opening, close_connection, handle_close,
}

module _ ⦃x : Externals⦄ where
  -- When no handler has left the mutex locked, the closing of a connection ends: that connection
  -- is not open, has no id, listens to nothing and is ignored on no topic, and for the other
  -- connections all of this stays as it was.
  pub handle_close-forgets :
      (s : Server) (c d : Connection) (topic id : Text)
      → s.locked ≡ false
      → (after : Server) × (handle_close c s ≡ some after)
        × (contains d after.open_connections
            ≡ (if c == d then false else contains d s.open_connections))
        × (find d after.open_conn_to_id ≡ (if c == d then none else find d s.open_conn_to_id))
        × (listens after.endpoint topic d id
            ≡ (if c == d then false else listens s.endpoint topic d id))
        × (ignores after.endpoint topic d ≡ (if c == d then false else ignores s.endpoint topic d))
  unfolding handle_close
  handle_close-forgets s c d topic id free = (
    close_connection c s,
    rw (free, handle_close),
    unfold close_connection in contains-remove c d s.open_connections,
    unfold close_connection in find-erase c d s.open_conn_to_id,
    unfold close_connection in listens-notify_connection_closed s.endpoint c d topic id,
    unfold close_connection in ignores-notify_connection_closed s.endpoint c d topic,
  )

  -- A connection that opens while the server closes down leaves the mutex locked: every later
  -- opening or closing waits for ever.
  pub opening_while_closing_blocks :
      (s : Server) (c d : Connection)
      → s.locked ≡ false
      → s.closing_down ≡ true
      → (after : Server) × (handle_opening c s ≡ some after)
        × (handle_opening d after ≡ none)
        × (handle_close d after ≡ none)
  unfolding handle_opening open_connection handle_close
  opening_while_closing_blocks s c d free closing = (
    record (act (close c) s) { locked = true },
    rw (free, handle_opening) (rw closing),
    refl,
    refl,
  )
