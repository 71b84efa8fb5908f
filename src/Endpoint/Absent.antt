-- ===== src/Endpoint/Absent.antt =====
-- A connection of which the tables of an endpoint (src/Endpoint.cpp) hold nothing: it is listed
-- for no topic, is ignored on none and provides no service. The changes of the tables that keep it so.
pub mod Operations
pub mod Handlers
pub mod Closed
use web_socket_sh.Prelude.{
  ◌≡◌, refl, sym, subst, Bool, true, false, Option, none, some, ◌==◌, nat_eq, if◌then◌else◌,
}
use web_socket_sh.Text.{Text, text_eq}
use web_socket_sh.Dict.{Dict, find, assign, erase, find-assign, find-erase}
use web_socket_sh.External.{Externals}
use web_socket_sh.Endpoint.{Connection, TopicSubscribeInfo, TopicPublishInfo, ServiceProviderInfo}
use web_socket_sh.Endpoint.Receive.{provided_by}
use web_socket_sh.Endpoint.Delivery.{distrusts}
use web_socket_sh.Endpoint.Tables.{Tables}

-- What a test says of the value of a key, after an assignment.
if-keeps :
    {V : Type 0} (test : Option V → Bool) (b : Bool) (v : V) (old : Option V)
    → test (some v) ≡ false
    → test old ≡ false
    → test (if b then some v else old) ≡ false
if-keeps test true v old h k = h
if-keeps test false v old h k = k

if-drops :
    {V : Type 0} (test : Option V → Bool) (b : Bool) (old : Option V)
    → test none ≡ false
    → test old ≡ false
    → test (if b then none else old) ≡ false
if-drops test true old h k = h
if-drops test false old h k = k

module _ {V : Type 0} (test : Option V → Bool) where
  find-assign-keeps :
      (k j : Text) (v : V) (m : Dict Text V)
      → test (some v) ≡ false
      → test (find j m) ≡ false
      → test (find j (assign k v m)) ≡ false
  find-assign-keeps k j v m h old =
      subst (λ o. test o ≡ false) (sym (find-assign k j v m))
        (if-keeps test (k == j) v (find j m) h old)

  find-erase-keeps :
      (k j : Text) (m : Dict Text V)
      → test none ≡ false
      → test (find j m) ≡ false
      → test (find j (erase k m)) ≡ false
  find-erase-keeps k j m h old =
      subst (λ o. test o ≡ false) (sym (find-erase k j m)) (if-drops test (k == j) (find j m) h old)

module _ ⦃x : Externals⦄ where
  -- Whether a publication is sent to the connection.
  abbrev pub is_listed : Connection → Option TopicPublishInfo → Bool
  is_listed c none = false
  is_listed c (some info) = elim (find c info.listeners) [ none ↦ false | some ids ↦ true ]

  abbrev pub provides : Connection → Option ServiceProviderInfo → Bool
  provides c none = false
  provides c (some info) = provided_by c info

  pub record IsAbsent (c : Connection) (t : Tables) : Type 0 where
    pub unheard : (topic : Text) → is_listed c (find topic t.published) ≡ false
    pub trusted : (topic : Text) → distrusts (find topic t.subscribed) c ≡ false
    pub idle : (service : Text) → provides c (find service t.providers) ≡ false

  module _ (c : Connection) (t : Tables) where
    pub published-IsAbsent :
        (topic : Text) (info : TopicPublishInfo)
        → is_listed c (some info) ≡ false
        → IsAbsent c t
        → IsAbsent c (record t { published = assign topic info t.published })
    published-IsAbsent topic info new h = record {
      unheard = λ k. find-assign-keeps (is_listed c) topic k info t.published new (h.unheard k);
      trusted = h.trusted;
      idle = h.idle;
    }

    pub subscribed-IsAbsent :
        (topic : Text) (info : TopicSubscribeInfo)
        → distrusts (some info) c ≡ false
        → IsAbsent c t
        → IsAbsent c (record t { subscribed = assign topic info t.subscribed })
    subscribed-IsAbsent topic info new h = record {
      unheard = h.unheard;
      trusted =
          λ k. find-assign-keeps (λ o. distrusts o c) topic k info t.subscribed new (h.trusted k);
      idle = h.idle;
    }

    pub providers-IsAbsent :
        (service : Text) (info : ServiceProviderInfo)
        → provides c (some info) ≡ false
        → IsAbsent c t
        → IsAbsent c (record t { providers = assign service info t.providers })
    providers-IsAbsent service info new h = record {
      unheard = h.unheard;
      trusted = h.trusted;
      idle = λ k. find-assign-keeps (provides c) service k info t.providers new (h.idle k);
    }

    pub erase_provider-IsAbsent :
        (service : Text)
        → IsAbsent c t
        → IsAbsent c (record t { providers = erase service t.providers })
    erase_provider-IsAbsent service h = record {
      unheard = h.unheard;
      trusted = h.trusted;
      idle = λ k. find-erase-keeps (provides c) service k t.providers refl (h.idle k);
    }

    -- The three tables are all that matters.
    pub same-IsAbsent :
        (u : Tables)
        → u.published ≡ t.published
        → u.subscribed ≡ t.subscribed
        → u.providers ≡ t.providers
        → IsAbsent c t
        → IsAbsent c u
    same-IsAbsent u p q r h = record {
      unheard = λ topic. rw p (h.unheard topic);
      trusted = λ topic. rw q (h.trusted topic);
      idle = λ service. rw r (h.idle service);
    }
