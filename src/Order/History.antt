-- ===== src/Order/History.antt =====
-- What holds of an order after any calls of its commands (order_aggregate.go).
use kite_mcp_eventsourcing.Prelude.{String, ◌≡◌, refl, List, map, Option, none, some}
use kite_mcp_eventsourcing.Domain.{Domain}
use kite_mcp_eventsourcing.Event.{
  OrderEvent, OrderModified, OrderCancelled, OrderFilled, order_event, order_placed, order_modified,
  order_cancelled, order_filled,
}
use kite_mcp_eventsourcing.Aggregate.{pending_events}
use kite_mcp_eventsourcing.Aggregate.Laws.{
  replay, replay-calls, calls, calls-Trace, pending-Trace, walk, walk-Trace,
}
use kite_mcp_eventsourcing.Order.{
  OrderStatus, new, placed, modified, filled, cancelled, OrderAggregate, new_order_aggregate,
  apply_fields, emit, clear_pending,
}
use kite_mcp_eventsourcing.Order.Root.{order_root, order_emitter}
use kite_mcp_eventsourcing.Order.Lifecycle.{
  Command, execute_order, execute_order-Called, IsLegal, IsOpen, open_placed, open_modified,
}

-- The order `id` after these calls of its commands, from `NewOrderAggregate` on.
abbrev pub continue_order : {d : Domain} → OrderAggregate d → List (Command d) → OrderAggregate d
continue_order {d} = calls (order_emitter d) execute_order

abbrev pub run_order : {d : Domain} → String → List (Command d) → OrderAggregate d
run_order {d} id = calls (order_emitter d) execute_order (new_order_aggregate d id)

-- The lifecycle as an automaton that reads events.
abbrev pub next_status : {d : Domain} → OrderStatus → OrderEvent d → Option OrderStatus
next_status new (order_placed e) = some placed
next_status placed (order_modified e) = some modified
next_status placed (order_cancelled e) = some cancelled
next_status placed (order_filled e) = some filled
next_status modified (order_modified e) = some modified
next_status modified (order_cancelled e) = some cancelled
next_status modified (order_filled e) = some filled
next_status _ _ = none

module _ {d : Domain} where
  IsOpen-next_status :
      (s : OrderStatus)
      → IsOpen s
      → ((e : OrderModified d) → next_status s (order_modified e) ≡ some modified)
        × ((e : OrderCancelled d) → next_status s (order_cancelled e) ≡ some cancelled)
        × ((e : OrderFilled d) → next_status s (order_filled e) ≡ some filled)
  IsOpen-next_status s open_placed = (λ e. refl, λ e. refl, λ e. refl)
  IsOpen-next_status s open_modified = (λ e. refl, λ e. refl, λ e. refl)

  IsLegal-next_status :
      (o : OrderAggregate d) (e : OrderEvent d)
      → IsLegal d o e
      → next_status o.status e ≡ some (emit o (order_event e)).status
  unfolding emit apply_fields
  IsLegal-next_status o (order_placed e) l = rw l.0
  IsLegal-next_status o (order_modified e) l = (IsOpen-next_status o.status l.0).0 e
  IsLegal-next_status o (order_cancelled e) l = (IsOpen-next_status o.status l.0).1 e
  IsLegal-next_status o (order_filled e) l = (IsOpen-next_status o.status l.0).2 e

  -- After any calls on a new order, the events pending are a run of the lifecycle that ends in its
  -- status: nothing, or one placement, then modifications, then at most one cancellation or fill.
  pub walk-run_order :
      (id : String) (cs : List (Command d))
      → (es : List (OrderEvent d)) × (pending_events (run_order id cs).base ≡ map order_event es)
        × (walk next_status (some new) es ≡ some (run_order id cs).status)
  unfolding new_order_aggregate pending_events
  walk-run_order id cs =
      let (es, t) =
        calls-Trace (order_emitter d) execute_order execute_order-Called (new_order_aggregate d id)
          cs in
      (
        es,
        pending-Trace (order_emitter d) t,
        walk-Trace (order_emitter d) (λ o. o.status) next_status IsLegal-next_status t,
      )

  -- The aggregate is what its pending events make of a new order: after any calls, replaying them
  -- from `NewOrderAggregate` gives the aggregate with nothing pending.
  pub replay-run_order :
      (id : String) (cs : List (Command d))
      → replay (order_root d) (new_order_aggregate d id) (pending_events (run_order id cs).base)
        ≡ clear_pending (run_order id cs)
  unfolding new_order_aggregate pending_events clear_pending
  replay-run_order id cs =
      replay-calls (order_emitter d) execute_order execute_order-Called (new_order_aggregate d id)
        cs refl
