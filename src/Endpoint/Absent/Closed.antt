-- ===== src/Endpoint/Absent/Closed.antt =====
-- A connection that has closed (src/Endpoint.cpp) is absent from the tables, and no other one comes
-- into them.
use web_socket_sh.Prelude.{
  ◌≡◌, refl, ap, ◌∙◌, Bool, false, true, inl, inr, ◌==◌, ==-refl, nat_eq, if◌then◌else◌,
  Option-cases, Bool-cases, arith,
}
use web_socket_sh.Text.{Text, text_eq}
use web_socket_sh.Dict.{find, keys_where, find-erase, find-map_values, find-erase_all}
use web_socket_sh.Dict.HashSet.{contains}
use web_socket_sh.Dict.Unique.{contains-keys_where-found}
use web_socket_sh.External.{Externals}
use web_socket_sh.Endpoint.{Endpoint, Connection}
use web_socket_sh.Endpoint.Receive.{provided_by}
use web_socket_sh.Endpoint.Lifetime.{stop_listening, notify_connection_closed}
use web_socket_sh.Endpoint.Delivery.{ignores}
use web_socket_sh.Endpoint.Closing.{ignores-notify_connection_closed}
use web_socket_sh.Endpoint.Absent.{is_listed, provides, if-drops}
use web_socket_sh.Endpoint.Absent.Operations.{IsAbsentFrom}

if-false : (b old : Bool) → old ≡ false → (if b then false else old) ≡ false
if-false true old h = refl
if-false false old h = h

module _ ⦃x : Externals⦄ where
  listed-closed :
      (c : Connection) (topic : Text) (e : Endpoint)
      → is_listed c (find topic (notify_connection_closed c e).topic_publish_info) ≡ false
  unfolding notify_connection_closed
  listed-closed c topic e = elim (Option-cases (find topic e.topic_publish_info)) [
    | inl p ↦ ground (arith, p, find-map_values (stop_listening c) topic e.topic_publish_info)
    | inr (info, p) ↦ ground (
      arith,
      p,
      find-map_values (stop_listening c) topic e.topic_publish_info,
      find-erase c c info.listeners,
      ==-refl c,
    )
  ]

  listed-closed-other :
      (c d : Connection) (topic : Text) (e : Endpoint)
      → is_listed c (find topic e.topic_publish_info) ≡ false
      → is_listed c (find topic (notify_connection_closed d e).topic_publish_info) ≡ false
  unfolding notify_connection_closed
  listed-closed-other c d topic e h = elim (Option-cases (find topic e.topic_publish_info)) [
    | inl p ↦ ground (arith, p, find-map_values (stop_listening d) topic e.topic_publish_info)
    | inr (info, p) ↦ ground (
      arith,
      p,
      h,
      find-map_values (stop_listening d) topic e.topic_publish_info,
      find-erase d c info.listeners,
    )
  ]

  provides-closed :
      (c : Connection) (service : Text) (e : Endpoint)
      → provides c (find service (notify_connection_closed c e).service_provider_info) ≡ false
  unfolding notify_connection_closed
  provides-closed c service e =
      let lost = keys_where (provided_by c) e.service_provider_info in
      elim (Option-cases (find service e.service_provider_info)) [
        | inl p ↦ ground (arith, p, find-erase_all lost service e.service_provider_info)
        | inr (info, p) ↦ elim (Bool-cases (provided_by c info)) [
          | inl q ↦ ground (
            arith,
            find-erase_all lost service e.service_provider_info,
            contains-keys_where-found (provided_by c) service info e.service_provider_info p q,
          )
          | inr q ↦ ground (arith, p, q, find-erase_all lost service e.service_provider_info)
        ]
      ]

  pub closed-IsAbsent :
      (c : Connection) (e : Endpoint) → IsAbsentFrom c (notify_connection_closed c e)
  closed-IsAbsent c e = record {
    unheard = λ topic. listed-closed c topic e;
    trusted = λ topic.
        unfold ignores in ignores-notify_connection_closed e c c topic ∙ rw (==-refl c) refl;
    idle = λ service. provides-closed c service e;
  }

  pub notify_connection_closed-IsAbsent :
      (c d : Connection) (e : Endpoint)
      → IsAbsentFrom c e
      → IsAbsentFrom c (notify_connection_closed d e)
  notify_connection_closed-IsAbsent c d e h = record {
    unheard = λ topic. listed-closed-other c d topic e (h.unheard topic);
    trusted = λ topic.
        unfold ignores in
        ignores-notify_connection_closed e d c topic ∙ if-false (d == c) _ (h.trusted topic);
    idle = λ service.
        unfold notify_connection_closed in
        (let lost = keys_where (provided_by d) e.service_provider_info in
          ap (provides c) (find-erase_all lost service e.service_provider_info)
          ∙ if-drops (provides c) (contains service lost) _ refl (h.idle service));
  }
