-- ===== src/Endpoint/Closing.antt =====
-- What is left of a connection that has closed, and what an opened connection is sent.
use web_socket_sh.Prelude.{
  ◌≡◌, ◌∙◌, false, Option, none, some, inl, inr, List, [], ◌∷◌, ◌++◌, map, arith, ◌==◌, nat_eq,
  nat_beq_iff, if◌then◌else◌, Option-cases,
}
use mathlib.Core.List.{append_assoc, append-nil}
use web_socket_sh.Text.{Text, text_eq}
use web_socket_sh.Dict.{find, keys_where, find-erase, find-map_values, find-erase_all}
use web_socket_sh.Dict.HashSet.{contains-remove}
use web_socket_sh.Dict.Unique.{IsUnique, contains-keys_where}
use web_socket_sh.External.{Externals}
use web_socket_sh.Endpoint.{Endpoint, Connection, ServiceProviderInfo, sent, emit}
use web_socket_sh.Endpoint.Receive.{provided_by}
use web_socket_sh.Endpoint.Lifetime.{
  send_all, notify_connection_opened, forgive, stop_listening, notify_connection_closed,
}
use web_socket_sh.Endpoint.Sending.{transport, send_lem}
use web_socket_sh.Endpoint.Delivery.{ignores}
use web_socket_sh.Endpoint.Listeners.{listens}

module _ ⦃x : Externals⦄ where
  events-send_all :
      (msgs : List Text) (c : Connection) (e : Endpoint)
      → (send_all msgs c e).events ≡ e.events ++ map (sent (transport e) c) msgs
  unfolding send_all
  events-send_all [] c e = simp append-nil
  events-send_all (msg ∷ msgs) c e =
      rw (send_lem c msg e, send_all)
        (events-send_all msgs c (emit (sent (transport e) c msg) e)
          ∙ append_assoc e.events (sent (transport e) c msg ∷ []) _)

  -- A connection that opens is sent all startup messages, in order, and nothing else happens.
  pub events-notify_connection_opened :
      (c : Connection) (e : Endpoint)
      → (notify_connection_opened c e).events
        ≡ e.events ++ map (sent (transport e) c) e.startup_messages
  unfolding notify_connection_opened
  events-notify_connection_opened c e = events-send_all e.startup_messages c e

  -- A closed connection listens to nothing, and the others listen to what they did.
  pub listens-notify_connection_closed :
      (e : Endpoint) (c d : Connection) (t i : Text)
      → listens (notify_connection_closed c e) t d i ≡ (if c == d then false else listens e t d i)
  unfolding listens notify_connection_closed
  listens-notify_connection_closed e c d t i = elim (Option-cases (find t e.topic_publish_info)) [
    | inl p ↦ ground (arith, p, find-map_values (stop_listening c) t e.topic_publish_info)
    | inr (info, p) ↦ ground (
      arith,
      p,
      find-map_values (stop_listening c) t e.topic_publish_info,
      find-erase c d info.listeners,
      nat_beq_iff c d,
    )
  ]

  pub ignores-notify_connection_closed :
      (e : Endpoint) (c d : Connection) (t : Text)
      → ignores (notify_connection_closed c e) t d ≡ (if c == d then false else ignores e t d)
  unfolding ignores notify_connection_closed
  ignores-notify_connection_closed e c d t = elim (Option-cases (find t e.topic_subscribe_info)) [
    | inl p ↦ ground (arith, p, find-map_values (forgive c) t e.topic_subscribe_info)
    | inr (info, p) ↦ ground (
      arith,
      p,
      find-map_values (forgive c) t e.topic_subscribe_info,
      contains-remove c d info.blacklist,
      nat_beq_iff c d,
    )
  ]

  -- The provider of a service.
  abbrev pub provider : Endpoint → Text → Option ServiceProviderInfo
  provider e service = find service e.service_provider_info

  abbrev pub without_provider : Connection → Option ServiceProviderInfo → Option ServiceProviderInfo
  without_provider c none = none
  without_provider c (some info) = if provided_by c info then none else some info

  -- A closed connection provides no service, and the services of the others keep their entries,
  -- where the table holds a service once.
  pub provider-notify_connection_closed :
      (e : Endpoint) (c : Connection) (service : Text)
      → IsUnique e.service_provider_info
      → provider (notify_connection_closed c e) service ≡ without_provider c (provider e service)
  unfolding notify_connection_closed
  provider-notify_connection_closed e c service h = ground (
    arith,
    find-erase_all (keys_where (provided_by c) e.service_provider_info) service
        e.service_provider_info,
    contains-keys_where (provided_by c) service e.service_provider_info h,
  )
