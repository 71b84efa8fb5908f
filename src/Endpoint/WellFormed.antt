-- ===== src/Endpoint/WellFormed.antt =====
-- What holds of the tables of an endpoint (src/Endpoint.cpp): no key stands twice, and the ids of
-- calls to come are unused. Each change of a table keeps it.
use web_socket_sh.Prelude.{ℕ, ◌+◌, ◌%◌, ◌≤◌, ◌<◌, ◌≡◌, ◌≢◌, ◌∙◌, none, arith, ==-ne, List}
use web_socket_sh.Text.{Text, text_eq}
use web_socket_sh.Dict.{Dict, find, assign, erase, find-assign, find-erase}
use web_socket_sh.Dict.Unique.{IsUnique, assign-IsUnique, erase-IsUnique}
use web_socket_sh.Decimal.{to_string, to_string-injective}
use web_socket_sh.External.{Externals}
use web_socket_sh.Endpoint.{
  TopicSubscribeInfo, TopicPublishInfo, ClientProxyInfo, ServiceProviderInfo, ServiceRequestInfo,
  size_mod,
}
use web_socket_sh.Endpoint.Tables.{Tables}

module _ ⦃x : Externals⦄ where
  pub record IsWellFormed (t : Tables) : Type 0 where
    pub subscribed : IsUnique t.subscribed
    pub published : IsUnique t.published
    pub proxies : IsUnique t.proxies
    pub providers : IsUnique t.providers
    pub requests : IsUnique t.requests
    pub fresh : (n : ℕ) → t.next_id ≤ n → find (to_string n) t.requests ≡ none

  -- Another table in the place of one.
  pub with_subscribed :
      (t : Tables) (d : Dict Text TopicSubscribeInfo)
      → IsUnique d
      → IsWellFormed t
      → IsWellFormed (record t { subscribed = d })
  with_subscribed t d u h = record {
    subscribed = u;
    published = h.published;
    proxies = h.proxies;
    providers = h.providers;
    requests = h.requests;
    fresh = h.fresh;
  }

  pub with_published :
      (t : Tables) (d : Dict Text TopicPublishInfo)
      → IsUnique d
      → IsWellFormed t
      → IsWellFormed (record t { published = d })
  with_published t d u h = record {
    subscribed = h.subscribed;
    published = u;
    proxies = h.proxies;
    providers = h.providers;
    requests = h.requests;
    fresh = h.fresh;
  }

  pub with_proxies :
      (t : Tables) (d : Dict Text ClientProxyInfo)
      → IsUnique d
      → IsWellFormed t
      → IsWellFormed (record t { proxies = d })
  with_proxies t d u h = record {
    subscribed = h.subscribed;
    published = h.published;
    proxies = u;
    providers = h.providers;
    requests = h.requests;
    fresh = h.fresh;
  }

  pub with_providers :
      (t : Tables) (d : Dict Text ServiceProviderInfo)
      → IsUnique d
      → IsWellFormed t
      → IsWellFormed (record t { providers = d })
  with_providers t d u h = record {
    subscribed = h.subscribed;
    published = h.published;
    proxies = h.proxies;
    providers = u;
    requests = h.requests;
    fresh = h.fresh;
  }

  pub with_startup :
      (t : Tables) (messages : List Text)
      → IsWellFormed t
      → IsWellFormed (record t { startup = messages })
  with_startup t messages h = record {
    subscribed = h.subscribed;
    published = h.published;
    proxies = h.proxies;
    providers = h.providers;
    requests = h.requests;
    fresh = h.fresh;
  }

  -- A pending call that ends.
  pub without_request :
      (t : Tables) (id : Text)
      → IsWellFormed t
      → IsWellFormed (record t { requests = erase id t.requests })
  without_request t id h = record {
    subscribed = h.subscribed;
    published = h.published;
    proxies = h.proxies;
    providers = h.providers;
    requests = erase-IsUnique id t.requests h.requests;
    fresh = λ n le. find-erase id (to_string n) t.requests ∙ ground (arith, h.fresh n le);
  }

  -- A call that is registered under the next id, while the counter does not wrap.
  pub with_request :
      (t : Tables) (info : ServiceRequestInfo)
      → t.next_id + 1 < size_mod
      → IsWellFormed t
      → IsWellFormed (record t {
        requests = assign (to_string t.next_id) info t.requests;
        next_id = (t.next_id + 1) % size_mod;
      })
  with_request t info room h = record {
    subscribed = h.subscribed;
    published = h.published;
    proxies = h.proxies;
    providers = h.providers;
    requests = assign-IsUnique (to_string t.next_id) info t.requests h.requests;
    fresh = λ n le.
        let later : t.next_id + 1 ≤ n = omega (arith, room, le) in
        let other : to_string t.next_id ≢ to_string n =
          λ same. absurd (omega (arith, to_string-injective _ _ same, later)) in
        find-assign (to_string t.next_id) (to_string n) info t.requests
        ∙ rw (==-ne (to_string t.next_id) (to_string n) other) (h.fresh n (omega (arith, later)));
  }
