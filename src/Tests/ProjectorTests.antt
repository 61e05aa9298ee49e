-- ===== src/Tests/ProjectorTests.antt =====
-- A run of projection.go, and its theorems at that input.
use kite_mcp_eventsourcing.Prelude.{
  some, String, ◌≡◌, ◌↔◌, Memᴰ, foldl, ◌==◌, if◌then◌else◌, refl, none, List, [], ◌∷◌,
}
use kite_mcp_eventsourcing.Event.{
  Event, order_modified_event, order_cancelled_event, alert_created_event, alert_triggered_event,
  position_opened_event, order_placed_event, order_filled_event, alert_deleted_event,
  position_closed_event,
}
use kite_mcp_eventsourcing.Order
use kite_mcp_eventsourcing.Order.{OrderAggregate, new_order_aggregate}
use kite_mcp_eventsourcing.Alert
use kite_mcp_eventsourcing.Alert.{new_alert_aggregate}
use kite_mcp_eventsourcing.Position
use kite_mcp_eventsourcing.Position.{new_position_aggregate}
use kite_mcp_eventsourcing.Assoc.{lookup, insert}
use kite_mcp_eventsourcing.Order.Guards.{IsActive}
use kite_mcp_eventsourcing.Alert.{active, AlertAggregate}
use kite_mcp_eventsourcing.Collections.{IsSorted}
use kite_mcp_eventsourcing.Projector.Lists.{
  list_active_orders, list_orders_for_email, list_active_alerts,
}
use kite_mcp_eventsourcing.Projector.Listed.{
  list_active_orders-project, list_orders_for_email-project, list_active_alerts-project,
}
use kite_mcp_eventsourcing.Projector.Subscribe.{
  Dispatching, DispatchingLaws, subscribe, dispatch-project,
}
use kite_mcp_eventsourcing.Tests.SampleCollections.{
  sample_collections, sample_collection_laws, sample_before_order,
}
use kite_mcp_eventsourcing.Projector.{
  Projector, new_projector, order_key, alert_key, position_key, file_under, handle_order_event,
  handle_alert_event, handle_position_event, get_order, get_alert, get_position, order_count,
  alert_count, position_count,
}
use kite_mcp_eventsourcing.Projector.Refinement.{
  project, stream, grow, get_order-project, get_alert-project, get_position-project,
}
use kite_mcp_eventsourcing.Tests.{sample}

-- Two orders, interleaved with an alert and a position.
abbrev feed : List (Event sample)
feed =
    order_placed_event (record {
      email = "u@example.com";
      order_id = "ORD-1";
      instrument = ("NSE", "INFY");
      transaction_type = "BUY";
      qty = 10;
      price = 1500;
      timestamp = 1;
    })
    ∷ alert_deleted_event (record { alert_id = "AL-1"; timestamp = 2 })
    ∷ order_filled_event
        (record { order_id = "ORD-2"; filled_price = 900; filled_qty = 5; timestamp = 3 })
    ∷ position_closed_event (record {
      email = "u@example.com";
      instrument = ("NSE", "INFY");
      product = "CNC";
      timestamp = 4;
    })
    ∷ order_filled_event
        (record { order_id = "ORD-1"; filled_price = 1499; filled_qty = 10; timestamp = 5 })
    ∷ []

feed_counts :
    (order_count (project feed) ≡ 2)
    × (alert_count (project feed) ≡ 1)
    × (position_count (project feed) ≡ 1)
unfolding order_count alert_count position_count handle_order_event handle_alert_event
    handle_position_event new_projector file_under lookup insert
feed_counts = (refl, refl, refl)

get_order-project_example :
    get_order (project feed) "ORD-1"
    ≡ grow (new_order_aggregate sample) Order.apply "ORD-1" none (stream order_key "ORD-1" feed)
get_order-project_example = get_order-project feed "ORD-1" (λ e. cc)

get_alert-project_example :
    get_alert (project feed) "AL-1"
    ≡ grow (new_alert_aggregate sample) Alert.apply "AL-1" none (stream alert_key "AL-1" feed)
get_alert-project_example = get_alert-project feed "AL-1" (λ e. cc)

get_position-project_example :
    get_position (project feed) "u@example.com"
    ≡ grow
        (new_position_aggregate sample)
        Position.apply
        "u@example.com"
        none
        (stream position_key "u@example.com" feed)
get_position-project_example = get_position-project feed "u@example.com" (λ e. cc)

list_active_orders-project_example :
    ((o : OrderAggregate sample)
      → Memᴰ o (list_active_orders sample_collections (project feed))
        ↔ ((get_order (project feed) o.id ≡ some o) × IsActive o.status))
    × IsSorted
        (λ x y. sample.before x.placed_at y.placed_at)
        (list_active_orders sample_collections (project feed))
list_active_orders-project_example =
    list_active_orders-project sample_collection_laws sample_before_order feed

list_orders_for_email-project_example :
    ((o : OrderAggregate sample)
      → Memᴰ o (list_orders_for_email sample_collections (project feed) "u@example.com")
        ↔ ((get_order (project feed) o.id ≡ some o) × (o.email ≡ "u@example.com")))
    × IsSorted
        (λ x y. sample.before x.placed_at y.placed_at)
        (list_orders_for_email sample_collections (project feed) "u@example.com")
list_orders_for_email-project_example =
    list_orders_for_email-project sample_collection_laws sample_before_order feed "u@example.com"

list_active_alerts-project_example :
    ((a : AlertAggregate sample)
      → Memᴰ a (list_active_alerts sample_collections (project feed))
        ↔ ((get_alert (project feed) a.id ≡ some a) × (a.status ≡ active)))
    × IsSorted
        (λ x y. sample.before x.created_at y.created_at)
        (list_active_alerts sample_collections (project feed))
list_active_alerts-project_example =
    list_active_alerts-project sample_collection_laws sample_before_order feed

-- A dispatcher that keeps its handlers in a list, the latest first.
abbrev type_of : Event sample → String
type_of (order_placed_event e) = "order.placed"
type_of (order_modified_event e) = "order.modified"
type_of (order_cancelled_event e) = "order.cancelled"
type_of (order_filled_event e) = "order.filled"
type_of (alert_created_event e) = "alert.created"
type_of (alert_triggered_event e) = "alert.triggered"
type_of (alert_deleted_event e) = "alert.deleted"
type_of (position_opened_event e) = "position.opened"
type_of (position_closed_event e) = "position.closed"
type_of _ = "other"

abbrev Handlers : Type 0
Handlers = List (String × (Projector sample → Event sample → Projector sample))

abbrev dispatch_all : Handlers → Event sample → Projector sample → Projector sample
dispatch_all [] e p = p
dispatch_all ((t, h) ∷ s) e p = let q = dispatch_all s e p in if type_of e == t then h q e else q

abbrev sample_dispatching : Dispatching sample
sample_dispatching = record {
  Dispatcher = Handlers;
  event_type = type_of;
  add_handler = λ s t h. (t, h) ∷ s;
  dispatch = dispatch_all;
}

sample_dispatching_laws : DispatchingLaws sample_dispatching
sample_dispatching_laws = record {
  dispatch-add_handler = λ s t h e p. refl;
  order_placed_type = λ e. refl;
  order_modified_type = λ e. refl;
  order_cancelled_type = λ e. refl;
  order_filled_type = λ e. refl;
  alert_created_type = λ e. refl;
  alert_triggered_type = λ e. refl;
  alert_deleted_type = λ e. refl;
  position_opened_type = λ e. refl;
  position_closed_type = λ e. refl;
}

dispatch-project_example :
    (s' : Handlers) × (subscribe sample_dispatching (some []) ≡ some s')
    × ((es : List (Event sample))
        → foldl (λ p e. dispatch_all s' e p) (new_projector sample) es ≡ project es)
dispatch-project_example =
    dispatch-project sample_dispatching sample_dispatching_laws [] (λ e p. refl)
