-- ===== src/Tests/Deliveries.antt =====
-- internal/server/hub.go.
use proxywi.Common.{ℕ, ◌≡◌, none, some, List, [], ◌∷◌, take, codes}
use proxywi.Common.Map.{nat_eq, get}
use proxywi.Server.Hub.{
  Event, buffer_size, subscribe, unsubscribe, client_event, metrics_event, new_hub,
}
use proxywi.Server.Hub.Delivery.{publish_all, stamped, publish_all-subscribe}

abbrev two_events : List (ℕ × Event)
two_events =
    (50, record { type = codes "client_online"; ts = 0; payload = client_event 3 (codes "a") })
    ∷ (51, record { type = codes "metrics"; ts = 40; payload = metrics_event 3 1 2 })
    ∷ []

publish_all-subscribe_example :
    (get (publish_all (subscribe new_hub).0 two_events).subs (subscribe new_hub).1
      ≡ some (take buffer_size (stamped two_events)))
    × (get
          (unsubscribe (publish_all (subscribe new_hub).0 two_events) (subscribe new_hub).1).subs
          (subscribe new_hub).1
        ≡ none)
publish_all-subscribe_example = publish_all-subscribe new_hub two_events
