-- ===== src/Order/Lifecycle.antt =====
-- The life of an order as a relation on its status, what the event of a command promises, and the
-- four commands as one type, to speak of any calls on one aggregate (order_aggregate.go).
use kite_mcp_eventsourcing.Prelude.{String, false, not, ◌≡◌, refl, ◌≢◌, Option, none}
use kite_mcp_eventsourcing.Prelude.Word.{Int64}
use kite_mcp_eventsourcing.Result.{Error, return_if_rule, on_error_rule}
use kite_mcp_eventsourcing.Domain.{Domain, OrderParams}
use kite_mcp_eventsourcing.Domain.Values.{IsQuantity, IsPrice, IsInstrument, accepted, not_empty}
use kite_mcp_eventsourcing.Event.{
  OrderEvent, order_placed, order_modified, order_cancelled, order_filled,
}
use kite_mcp_eventsourcing.Aggregate.Laws.{Called, failed, raised}
use kite_mcp_eventsourcing.Order.{OrderStatus, new, placed, modified, is_new, OrderAggregate}
use kite_mcp_eventsourcing.Order.Root.{order_emitter}
use kite_mcp_eventsourcing.Order.Commands.{
  can_modify, can_cancel, can_fill, place, modify, cancel, fill,
}

-- An order that is placed, and neither filled nor cancelled.
pub data IsOpen : OrderStatus → Type 0 where
  open_placed : IsOpen placed
  open_modified : IsOpen modified

module _ (d : Domain) where
  open d use {Float, Time, Quantity, Money, InstrumentKey}
  open d use {new_quantity, new_inr, new_instrument_key}

  -- What an event raised on an order promises: the order was in a status that allows it, it
  -- carries the order's id, and its values were validated.
  abbrev pub IsLegal : OrderAggregate d → OrderEvent d → Type 0
  IsLegal o (order_placed e) =
      (o.status ≡ new)
      × (e.order_id ≡ o.id)
      × (e.email ≢ "")
      × IsInstrument d e.instrument
      × IsQuantity d e.quantity
      × IsPrice d e.price
  IsLegal o (order_modified e) =
      IsOpen o.status × (e.order_id ≡ o.id) × IsQuantity d e.new_quantity × IsPrice d e.new_price
  IsLegal o (order_cancelled e) = IsOpen o.status × (e.order_id ≡ o.id)
  IsLegal o (order_filled e) =
      IsOpen o.status
      × (e.order_id ≡ o.id)
      × IsPrice d e.filled_price
      × IsQuantity d e.filled_quantity

  pub data Command : Type 0 where
    place_order : OrderParams d → String → Time → Command
    modify_order : Int64 → Float → String → Time → Command
    cancel_order : Time → Command
    fill_order : Float → Int64 → Time → Command

-- A guard passes exactly on an open order.
can_modify-IsOpen : (s : OrderStatus) → can_modify s ≡ none → IsOpen s
unfolding can_modify
can_modify-IsOpen placed h = open_placed
can_modify-IsOpen modified h = open_modified
can_modify-IsOpen _ h = cc

can_cancel-IsOpen : (s : OrderStatus) → can_cancel s ≡ none → IsOpen s
unfolding can_cancel
can_cancel-IsOpen placed h = open_placed
can_cancel-IsOpen modified h = open_modified
can_cancel-IsOpen _ h = cc

can_fill-IsOpen : (s : OrderStatus) → can_fill s ≡ none → IsOpen s
unfolding can_fill
can_fill-IsOpen placed h = open_placed
can_fill-IsOpen modified h = open_modified
can_fill-IsOpen _ h = cc

was_new : (s : OrderStatus) → not (is_new s) ≡ false → s ≡ new
was_new new h = refl
was_new _ h = cc

module _ {d : Domain} where
  abbrev Outcome : OrderAggregate d → OrderAggregate d × Option Error → Type 0
  Outcome = Called (order_emitter d) (IsLegal d)

  unfoldable pub execute_order : OrderAggregate d → Command d → OrderAggregate d × Option Error
  execute_order o (place_order params email now) = place o params email now
  execute_order o (modify_order qty price order_type now) = modify o qty price order_type now
  execute_order o (cancel_order now) = cancel o now
  execute_order o (fill_order price qty now) = fill o price qty now

  -- Each command fails and leaves the order as it was, or raises one legal event.
  place-Called :
      (o : OrderAggregate d) (params : OrderParams d) (email : String) (now : d.Time)
      → Outcome o (place o params email now)
  unfolding place
  place-Called o params email now =
      return_if_rule (Outcome o) _ _ _ (λ _. failed _)
        λ s.
          on_error_rule (Outcome o) _ _ _ (λ e. failed _)
            λ q.
              return_if_rule (Outcome o) _ _ _ (λ _. failed _)
                λ t.
                  return_if_rule (Outcome o) _ _ _ (λ _. failed _)
                    λ m. raised (order_placed _) (
                      was_new _ s,
                      refl,
                      not_empty _ m,
                      (params.exchange_name, params.symbol, not_empty _ t, refl),
                      accepted d _ q,
                      (params.price, refl),
                    )

  modify-Called :
      (o : OrderAggregate d) (qty : Int64) (price : d.Float) (order_type : String) (now : d.Time)
      → Outcome o (modify o qty price order_type now)
  unfolding modify
  modify-Called o qty price order_type now =
      on_error_rule (Outcome o) _ _ _ (λ e. failed _)
        λ s.
          on_error_rule (Outcome o) _ _ _ (λ e. failed _)
            λ q.
              return_if_rule (Outcome o) _ _ _ (λ _. failed _)
                λ _.
                  raised (order_modified _)
                    (can_modify-IsOpen _ s, refl, accepted d _ q, (price, refl))

  cancel-Called : (o : OrderAggregate d) (now : d.Time) → Outcome o (cancel o now)
  unfolding cancel
  cancel-Called o now =
      on_error_rule (Outcome o) _ _ _ (λ e. failed _)
        λ s. raised (order_cancelled _) (can_cancel-IsOpen _ s, refl)

  fill-Called :
      (o : OrderAggregate d) (price : d.Float) (qty : Int64) (now : d.Time)
      → Outcome o (fill o price qty now)
  unfolding fill
  fill-Called o price qty now =
      on_error_rule (Outcome o) _ _ _ (λ e. failed _)
        λ s.
          on_error_rule (Outcome o) _ _ _ (λ e. failed _)
            λ q.
              return_if_rule (Outcome o) _ _ _ (λ _. failed _)
                λ _.
                  raised (order_filled _) (can_fill-IsOpen _ s, refl, (price, refl), accepted d _ q)

  pub execute_order-Called : (o : OrderAggregate d) (c : Command d) → Outcome o (execute_order o c)
  unfolding execute_order
  execute_order-Called o (place_order params email now) = place-Called o params email now
  execute_order-Called o (modify_order qty price order_type now) =
      modify-Called o qty price order_type now
  execute_order-Called o (cancel_order now) = cancel-Called o now
  execute_order-Called o (fill_order price qty now) = fill-Called o price qty now
