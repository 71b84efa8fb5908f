-- ===== src/Server/Advertising.antt =====
-- Topics that a server advertises while it runs (src/Server.cpp, src/TopicPublisher.cpp).
use web_socket_sh.Prelude.{
  ◌≡◌, refl, ap, ◌∙◌, true, false, none, some, ◌⊎◌, inl, inr, Bool-cases, [], ◌∷◌, ◌++◌, map,
}
use mathlib.Core.List.{append_assoc, append-nil}
use web_socket_sh.Text.{Text}
use web_socket_sh.Dict.HashSet.{HashSet}
use web_socket_sh.Json.{obj}
use web_socket_sh.External.{Externals}
use web_socket_sh.Names.{transform_type}
use web_socket_sh.Encoding.{encode_advertise_msg}
use web_socket_sh.Encoding.Message.{advertise_msg}
use web_socket_sh.Endpoint.{Endpoint, Connection, sent}
use web_socket_sh.Endpoint.Sending.{transport, send_lem}
use web_socket_sh.Endpoint.Tables.{tables}
use web_socket_sh.Publisher.Advertising.{OnlySends}
use web_socket_sh.Server.{Server, broadcast, advertise_to, runtime_advertisement}

module _ ⦃x : Externals⦄ where
  open x use {DynamicType, Node, type_name, dump}

  events-broadcast :
      (cs : HashSet Connection) (msg : Text) (e : Endpoint)
      → (broadcast cs msg e).events ≡ e.events ++ map (λ c. sent (transport e) c msg) cs
  unfolding broadcast
  events-broadcast [] msg e = simp append-nil
  events-broadcast (c ∷ cs) msg e =
      rw (send_lem c msg e, broadcast)
        (events-broadcast cs msg _ ∙ append_assoc e.events (sent (transport e) c msg ∷ []) _)

  tables-broadcast :
      (cs : HashSet Connection) (msg : Text) (e : Endpoint) → tables (broadcast cs msg e) ≡ tables e
  unfolding broadcast
  tables-broadcast [] msg e = refl
  tables-broadcast (c ∷ cs) msg e = tables-broadcast cs msg _ ∙ ap tables (send_lem c msg e)

  events-advertise_to :
      (cs : HashSet Connection) (topic : Text) (type : DynamicType) (id : Text) (node : Node)
      (e : Endpoint)
      → ((advertise_to cs topic type id node e).events
          ≡ e.events
            ++ map
                (λ c.
                  sent
                    (transport e)
                    c
                    (dump (obj (advertise_msg topic (transform_type (type_name type)) id))))
                cs)
        × (tables (advertise_to cs topic type id node e) ≡ tables e)
  unfolding advertise_to encode_advertise_msg
  events-advertise_to cs topic type id node e = (events-broadcast cs _ _, tables-broadcast cs _ _)

  pub advertise_to-OnlySends : (cs : HashSet Connection) → OnlySends (advertise_to cs)
  advertise_to-OnlySends cs topic type id node e = (events-advertise_to cs topic type id node e).1

  -- When a handler has left the mutex locked, the advertisement of a topic at run time never
  -- returns. Otherwise a server sends it once to each connection that is open, in the order of the
  -- set, and nothing to any other; the tables of the endpoint and those of the connections stay as
  -- they are, and the mutex is free again.
  pub events-runtime_advertisement :
      (topic : Text) (type : DynamicType) (id : Text) (node : Node) (s : Server)
      → ((s.locked ≡ true) × (runtime_advertisement topic type id node s ≡ none))
        ⊎ ((s.locked ≡ false)
            × (after : Server) × (runtime_advertisement topic type id node s ≡ some after)
            × (after.endpoint.events
                ≡ s.endpoint.events
                  ++ map
                      (λ c.
                        sent
                          (transport s.endpoint)
                          c
                          (dump (obj (advertise_msg topic (transform_type (type_name type)) id))))
                      s.open_connections)
            × (tables after.endpoint ≡ tables s.endpoint)
            × (after.open_connections ≡ s.open_connections)
            × (after.open_conn_to_id ≡ s.open_conn_to_id)
            × (after.locked ≡ false))
  unfolding runtime_advertisement
  events-runtime_advertisement topic type id node s = elim (Bool-cases s.locked) [
    | inl locked ↦ inl (locked, rw (locked, runtime_advertisement) refl)
    | inr free ↦
        let (events, same) = events-advertise_to s.open_connections topic type id node s.endpoint in
        inr (
          free,
          record s { endpoint = advertise_to s.open_connections topic type id node s.endpoint },
          rw (free, runtime_advertisement) refl,
          events,
          same,
          refl,
          refl,
          free,
        )
  ]
