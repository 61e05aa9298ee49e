-- ===== src/Projector/Lists.antt =====
-- projection.go: `ListActiveOrders`, `ListOrdersForEmail` and `ListActiveAlerts`.
use kite_mcp_eventsourcing.Prelude.{String, Bool, true, false, List, ◌==◌}
use kite_mcp_eventsourcing.Domain.{Domain}
use kite_mcp_eventsourcing.Collections.{Collections, filtered}
use kite_mcp_eventsourcing.Order.{OrderStatus, placed, modified, OrderAggregate}
use kite_mcp_eventsourcing.Alert.{AlertAggregate, is_active}
use kite_mcp_eventsourcing.Projector.{Projector}

-- the test of `ListActiveOrders`
abbrev pub is_working : OrderStatus → Bool
is_working placed = true
is_working modified = true
is_working _ = false

module _ {d : Domain} (c : Collections) where
  open d use {before}
  open c use {range, sort_slice}

  unfoldable pub list_active_orders : Projector d → List (OrderAggregate d)
  list_active_orders p =
      sort_slice (λ x y. before x.placed_at y.placed_at)
        (filtered (λ o. is_working o.status) (range p.orders))

  unfoldable pub list_orders_for_email : Projector d → String → List (OrderAggregate d)
  list_orders_for_email p email =
      sort_slice (λ x y. before x.placed_at y.placed_at)
        (filtered (λ o. o.email == email) (range p.orders))

  unfoldable pub list_active_alerts : Projector d → List (AlertAggregate d)
  list_active_alerts p =
      sort_slice (λ x y. before x.created_at y.created_at)
        (filtered (λ a. is_active a.status) (range p.alerts))
