-- ===== src/Client/Handling.antt =====
-- What the handlers of a client do (src/Client.cpp).
use web_socket_sh.Prelude.{
  ◌≡◌, refl, ap, ◌∙◌, Option, none, some, inl, inr, [], ◌++◌, map, nat_eq, if◌then◌else◌,
  Bool-cases,
}
use mathlib.Core.List.{append-nil}
use web_socket_sh.Text.{Text}
use web_socket_sh.External.{Externals}
use web_socket_sh.Endpoint.{Connection, sent}
use web_socket_sh.Endpoint.Sending.{transport, send_lem}
use web_socket_sh.Endpoint.Closing.{events-notify_connection_opened}
use web_socket_sh.Endpoint.Tables.{tables}
use web_socket_sh.Publisher.Advertising.{OnlySends}
use web_socket_sh.Client.{Client, is_own, handle_opening, add_token, runtime_advertisement}

module _ ⦃x : Externals⦄ where
  events-add_token :
      (c : Connection) (token : Option Text) (s : Client)
      → (add_token c token s).endpoint ≡ s.endpoint
  unfolding add_token
  events-add_token c none s = refl
  events-add_token c (some token) s = refl

  -- A client sends its startup messages to the connection that it asked for when it opens, and
  -- nothing to any other connection.
  pub events-handle_opening :
      (c : Connection) (s : Client)
      → (handle_opening c s).endpoint.events
        ≡ s.endpoint.events
          ++ (if is_own c s.connection
              then map (sent (transport s.endpoint) c) s.endpoint.startup_messages
              else [])
  unfolding handle_opening
  events-handle_opening c s = elim (Bool-cases (is_own c s.connection)) [
    | inl p ↦
        rw (p, handle_opening)
          (ap (λ e. e.events) (events-add_token c s.jwt_token _)
            ∙ events-notify_connection_opened c s.endpoint)
    | inr p ↦ rw (p, handle_opening) (simp append-nil)
  ]

  pub runtime_advertisement-OnlySends :
      (c : Option Connection) → OnlySends (runtime_advertisement c)
  unfolding runtime_advertisement
  runtime_advertisement-OnlySends none topic type id node e = refl
  runtime_advertisement-OnlySends (some c) topic type id node e = ap tables (send_lem c _ _)
