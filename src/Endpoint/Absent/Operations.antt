-- ===== src/Endpoint/Absent/Operations.antt =====
-- The operations of the core (src/Endpoint.cpp) bring no connection into the tables.
use web_socket_sh.Prelude.{ℕ, ◌≡◌, refl, ◌∙◌, sym, subst, Bool, Option, none, some}
use web_socket_sh.Text.{Text, text_eq}
use web_socket_sh.Dict.{find}
use web_socket_sh.Dict.HashSet.{contains}
use web_socket_sh.External.{Externals}
use web_socket_sh.Endpoint.{
  Endpoint, Connection, CallHandle, TopicSubscribeInfo, TopicPublishInfo, ServiceProviderInfo,
  make_endpoint,
}
use web_socket_sh.Endpoint.Tables.{tables, tables-publish, tables-send_payload}
use web_socket_sh.Endpoint.Setup.{
  subscribe_info, subscribe, create_client_proxy, create_client_proxy_one_type, provider_entry,
  create_service_proxy, create_service_proxy_one_type, advertised_info, startup_advertisement,
}
use web_socket_sh.Endpoint.Traffic.{publish, register_call, call_service, receive_response}
use web_socket_sh.Endpoint.Receive.{provided_by}
use web_socket_sh.Endpoint.Lifetime.{notify_connection_opened}
use web_socket_sh.Endpoint.Delivery.{distrusts}
use web_socket_sh.Endpoint.Operations.{tables-call_service}
use web_socket_sh.Endpoint.Handlers.{tables-send_all}
use web_socket_sh.Endpoint.Absent.{
  is_listed, provides, IsAbsent, published-IsAbsent, subscribed-IsAbsent, providers-IsAbsent,
  same-IsAbsent,
}

module _ ⦃x : Externals⦄ where
  open x use {DynamicType, DynamicData, Node}

  distrusts-subscribe_info :
      (c : Connection) (type : Text) (callback : ℕ) (o : Option TopicSubscribeInfo)
      → distrusts (some (subscribe_info type callback o)) c ≡ distrusts o c
  unfolding subscribe_info contains
  distrusts-subscribe_info c type callback none = refl
  distrusts-subscribe_info c type callback (some info) = refl

  listed-advertised_info :
      (c : Connection) (type : Text) (o : Option TopicPublishInfo)
      → is_listed c (some (advertised_info type o)) ≡ is_listed c o
  unfolding advertised_info find
  listed-advertised_info c type none = refl
  listed-advertised_info c type (some info) = refl

  provides-provider_entry :
      (c : Connection) (o : Option ServiceProviderInfo)
      → provides c (some (provider_entry o)) ≡ provides c o
  unfolding provider_entry provided_by
  provides-provider_entry c none = refl
  provides-provider_entry c (some info) = refl

  module _ (c : Connection) where
    abbrev pub IsAbsentFrom : Endpoint → Type 0
    IsAbsentFrom e = IsAbsent c (tables e)

    pub subscribe-IsAbsent :
        (topic : Text) (type : DynamicType) (callback : ℕ) (node : Node) (e : Endpoint)
        → IsAbsentFrom e
        → IsAbsentFrom (subscribe topic type callback node e).1
    unfolding subscribe
    subscribe-IsAbsent topic type callback node e h = same-IsAbsent c _ _ refl refl refl (
        subscribed-IsAbsent c (tables e) topic _
          (distrusts-subscribe_info c _ callback (find topic e.topic_subscribe_info)
            ∙ h.trusted topic)
          h)

    pub startup_advertisement-IsAbsent :
        (topic : Text) (type : DynamicType) (id : Text) (node : Node) (e : Endpoint)
        → IsAbsentFrom e
        → IsAbsentFrom (startup_advertisement topic type id node e)
    unfolding startup_advertisement
    startup_advertisement-IsAbsent topic type id node e h = same-IsAbsent c _ _ refl refl refl (
        published-IsAbsent c (tables e) topic _
          (listed-advertised_info c _ (find topic e.topic_publish_info) ∙ h.unheard topic) h)

    pub create_client_proxy-IsAbsent :
        (service : Text) (request reply : DynamicType) (callback : ℕ) (node : Node) (e : Endpoint)
        → IsAbsentFrom e
        → IsAbsentFrom (create_client_proxy service request reply callback node e).1
    unfolding create_client_proxy
    create_client_proxy-IsAbsent service request reply callback node e h =
        same-IsAbsent c (tables e) _ refl refl refl h

    pub create_client_proxy_one_type-IsAbsent :
        (service : Text) (type : DynamicType) (callback : ℕ) (node : Node) (e : Endpoint)
        → IsAbsentFrom e
        → IsAbsentFrom (create_client_proxy_one_type service type callback node e).1
    unfolding create_client_proxy_one_type
    create_client_proxy_one_type-IsAbsent service type callback node e h =
        same-IsAbsent c (tables e) _ refl refl refl h

    pub create_service_proxy-IsAbsent :
        (service : Text) (request reply : DynamicType) (node : Node) (e : Endpoint)
        → IsAbsentFrom e
        → IsAbsentFrom (create_service_proxy service request reply node e)
    unfolding create_service_proxy provided_by
    create_service_proxy-IsAbsent service request reply node e h =
        providers-IsAbsent c (tables e) service _
          (provides-provider_entry c (find service e.service_provider_info) ∙ h.idle service) h

    pub create_service_proxy_one_type-IsAbsent :
        (service : Text) (type : DynamicType) (node : Node) (e : Endpoint)
        → IsAbsentFrom e
        → IsAbsentFrom (create_service_proxy_one_type service type node e)
    unfolding create_service_proxy_one_type provided_by
    create_service_proxy_one_type-IsAbsent service type node e h =
        providers-IsAbsent c (tables e) service _
          (provides-provider_entry c (find service e.service_provider_info) ∙ h.idle service) h

    pub publish-IsAbsent :
        (topic : Text) (message : DynamicData) (e : Endpoint)
        → IsAbsentFrom e
        → IsAbsentFrom (publish topic message e).1
    publish-IsAbsent topic message e h = subst (IsAbsent c) (sym (tables-publish topic message e)) h

    pub receive_response-IsAbsent :
        (handle : CallHandle) (response : DynamicData) (e : Endpoint)
        → IsAbsentFrom e
        → IsAbsentFrom (receive_response handle response e)
    unfolding receive_response
    receive_response-IsAbsent handle response e h =
        subst (IsAbsent c) (sym (tables-send_payload handle.connection_handle _ _)) h

    pub call_service-IsAbsent :
        (service : Text) (request : DynamicData) (client handle : ℕ) (e : Endpoint)
        → IsAbsentFrom e
        → IsAbsentFrom (call_service service request client handle e).1
    call_service-IsAbsent service request client handle e h =
        subst (IsAbsent c) (sym (tables-call_service service request client handle e))
          (unfold register_call in same-IsAbsent c (tables e) _ refl refl refl h)

    pub opened-IsAbsent :
        (d : Connection) (e : Endpoint)
        → IsAbsentFrom e
        → IsAbsentFrom (notify_connection_opened d e)
    unfolding notify_connection_opened
    opened-IsAbsent d e h = subst (IsAbsent c) (sym (tables-send_all e.startup_messages d e)) h

    pub make_endpoint-IsAbsent : (use_security : Bool) → IsAbsentFrom (make_endpoint use_security)
    unfolding make_endpoint find
    make_endpoint-IsAbsent use_security = record {
      unheard = λ topic. refl;
      trusted = λ topic. refl;
      idle = λ service. refl;
    }
