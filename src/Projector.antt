-- ===== src/Projector.antt =====
-- projection.go: the read-side projector. A map from ids to aggregates is an association list; an
-- aggregate is kept by value, where Go keeps a pointer to it.
pub mod Refinement
pub mod Lists
pub mod Filed
pub mod Listed
pub mod Subscribe
use kite_mcp_eventsourcing.Prelude.{
  ℕ, String, Option, none, some, List, [], length, ◌==◌, if◌then◌else◌,
}
use kite_mcp_eventsourcing.Domain.{Domain}
use kite_mcp_eventsourcing.Event.{
  Event, order_placed_event, order_modified_event, order_cancelled_event, order_filled_event,
  alert_created_event, alert_triggered_event, alert_deleted_event, position_opened_event,
  position_closed_event,
}
use kite_mcp_eventsourcing.Assoc.{lookup, insert}
use kite_mcp_eventsourcing.Order
use kite_mcp_eventsourcing.Order.{OrderAggregate, new_order_aggregate}
use kite_mcp_eventsourcing.Alert
use kite_mcp_eventsourcing.Alert.{AlertAggregate, new_alert_aggregate}
use kite_mcp_eventsourcing.Position
use kite_mcp_eventsourcing.Position.{PositionAggregate, new_position_aggregate}

module _ (d : Domain) where
  pub record Projector : Type 0 where
    pub orders : List (String × OrderAggregate d)
    pub alerts : List (String × AlertAggregate d)
    pub positions : List (String × PositionAggregate d)

  unfoldable pub new_projector : Projector
  new_projector = record { orders = []; alerts = []; positions = [] }

module _ {d : Domain} where
  -- the switches of the three handlers: the id that an event is filed under, if it is handled
  abbrev pub order_key : Event d → Option String
  order_key (order_placed_event e) = some e.order_id
  order_key (order_modified_event e) = some e.order_id
  order_key (order_cancelled_event e) = some e.order_id
  order_key (order_filled_event e) = some e.order_id
  order_key _ = none

  abbrev pub alert_key : Event d → Option String
  alert_key (alert_created_event e) = some e.alert_id
  alert_key (alert_triggered_event e) = some e.alert_id
  alert_key (alert_deleted_event e) = some e.alert_id
  alert_key _ = none

  abbrev pub position_key : Event d → Option String
  position_key (position_opened_event e) =
      some (d.position_aggregate_id e.email e.instrument e.product)
  position_key (position_closed_event e) =
      some (d.position_aggregate_id e.email e.instrument e.product)
  position_key _ = none

  -- The rest of a handler: with no id nothing happens; otherwise the aggregate is looked up, made
  -- anew if there is none, and the event is applied.
  unfoldable pub file_under :
      {A : Type 0}
      → (String → A)
      → (A → Event d → A)
      → Option String
      → Event d
      → List (String × A)
      → List (String × A)
  file_under fresh apply none event m = m
  file_under fresh apply (some id) event m = if id == "" then m else elim (lookup id m) [
    | none ↦ insert id (apply (fresh id) event) m
    | some agg ↦ insert id (apply agg event) m
  ]

  unfoldable pub handle_order_event : Projector d → Event d → Projector d
  handle_order_event p event = record p {
    orders = file_under (new_order_aggregate d) Order.apply (order_key event) event p.orders;
  }

  unfoldable pub handle_alert_event : Projector d → Event d → Projector d
  handle_alert_event p event = record p {
    alerts = file_under (new_alert_aggregate d) Alert.apply (alert_key event) event p.alerts;
  }

  unfoldable pub handle_position_event : Projector d → Event d → Projector d
  handle_position_event p event = record p {
    positions =
        file_under (new_position_aggregate d) Position.apply (position_key event) event p.positions;
  }

  unfoldable pub get_order : Projector d → String → Option (OrderAggregate d)
  get_order p id = lookup id p.orders

  unfoldable pub get_alert : Projector d → String → Option (AlertAggregate d)
  get_alert p id = lookup id p.alerts

  unfoldable pub get_position : Projector d → String → Option (PositionAggregate d)
  get_position p id = lookup id p.positions

  unfoldable pub order_count : Projector d → ℕ
  order_count p = length p.orders

  unfoldable pub alert_count : Projector d → ℕ
  alert_count p = length p.alerts

  unfoldable pub position_count : Projector d → ℕ
  position_count p = length p.positions
