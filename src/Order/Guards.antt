-- ===== src/Order/Guards.antt =====
-- When the commands of an order succeed (order_aggregate.go).
use kite_mcp_eventsourcing.Prelude.{
  String, true, false, ◌≡◌, ◌≢◌, ◌↔◌, ◌⊎◌, eq_iff, nat_eq_iff, List, none, some, arith,
}
use kite_mcp_eventsourcing.Prelude.Word.{Int64}
use kite_mcp_eventsourcing.Result.{Error, on_error, return_if}
use kite_mcp_eventsourcing.Domain.{Domain}
use kite_mcp_eventsourcing.Event.{
  OrderEvent, order_placed, order_modified, order_cancelled, order_filled,
}
use kite_mcp_eventsourcing.Aggregate.Laws.{calls, calls-stuck}
use kite_mcp_eventsourcing.Order.{
  OrderStatus, new, placed, modified, filled, cancelled, OrderAggregate,
}
use kite_mcp_eventsourcing.Order.Root.{order_emitter}
use kite_mcp_eventsourcing.Order.Commands.{
  can_modify, can_cancel, can_fill, place, modify, cancel, fill,
}
use kite_mcp_eventsourcing.Order.Lifecycle.{
  open_placed, open_modified, Command, place_order, modify_order, cancel_order, fill_order,
  execute_order, execute_order-Called, IsLegal, IsOpen,
}

-- placed, and neither filled nor cancelled
abbrev pub IsActive : OrderStatus → Type 0
IsActive s = (s ≡ placed) ⊎ (s ≡ modified)

never_open : {s : OrderStatus} → IsOpen s → (s ≡ filled) ⊎ (s ≡ cancelled) → ⊥
never_open open_placed t = ground arith
never_open open_modified t = ground arith

module _ {d : Domain} where
  open d use {Float, new_quantity, quantity_int, float_eq, amount, float_nonpositive}

  -- the new quantity, price and order type of a modification are those of the order
  abbrev pub IsUnchanged : OrderAggregate d → Int64 → Float → String → Type 0
  IsUnchanged o qty price order_type =
      (qty ≡ quantity_int o.quantity)
      × (float_eq price (amount o.price) ≡ true)
      × ((order_type ≡ "") ⊎ (order_type ≡ o.order_type))

  -- what each command asks of the order and of its arguments
  abbrev pub IsAdmissible : OrderAggregate d → Command d → Type 0
  IsAdmissible o (place_order params email now) =
      (o.status ≡ new)
      × ((new_quantity params.quantity).1 ≡ none)
      × (params.symbol ≢ "")
      × (email ≢ "")
  IsAdmissible o (modify_order qty price order_type now) =
      IsActive o.status × ((new_quantity qty).1 ≡ none) × (¬ IsUnchanged o qty price order_type)
  IsAdmissible o (cancel_order now) = IsActive o.status
  IsAdmissible o (fill_order price qty now) =
      IsActive o.status × ((new_quantity qty).1 ≡ none) × (float_nonpositive price ≡ false)

  -- A command returns no error exactly if it is admissible: a placement on a new order, with a
  -- quantity that `NewQuantity` accepts, a symbol and an email; a modification on an active order,
  -- with an accepted quantity, that changes the quantity, the price or the order type; a
  -- cancellation of an active order; a fill of an active order with an accepted quantity and a
  -- price that is not below or at 0.
  pub execute_order-IsAdmissible :
      (o : OrderAggregate d) (c : Command d) → ((execute_order o c).1 ≡ none) ↔ IsAdmissible o c
  unfolding execute_order place modify cancel fill can_modify can_cancel can_fill on_error return_if
  execute_order-IsAdmissible o (place_order params email now) =
      ground (arith, eq_iff params.symbol "", eq_iff email "")
  execute_order-IsAdmissible o (modify_order qty price order_type now) = ground (
    arith,
    nat_eq_iff qty (quantity_int o.quantity),
    eq_iff order_type "",
    eq_iff order_type o.order_type,
  )
  execute_order-IsAdmissible o (cancel_order now) = ground arith
  execute_order-IsAdmissible o (fill_order price qty now) = ground arith

  closed_refuses :
      (o : OrderAggregate d)
      → (o.status ≡ filled) ⊎ (o.status ≡ cancelled)
      → (e : OrderEvent d) → ¬ IsLegal d o e
  closed_refuses o closed (order_placed e) l = ground arith
  closed_refuses o closed (order_modified e) l = never_open l.0 closed
  closed_refuses o closed (order_cancelled e) l = never_open l.0 closed
  closed_refuses o closed (order_filled e) l = never_open l.0 closed

  -- A filled or cancelled order refuses every command with an error, and no calls at all change
  -- anything of it.
  pub closed_absorbs :
      (o : OrderAggregate d)
      → (o.status ≡ filled) ⊎ (o.status ≡ cancelled)
      → (cs : List (Command d))
      → (calls (order_emitter d) execute_order o cs ≡ o)
        × ((c : Command d) → (e : Error) × (execute_order o c ≡ (o, some e)))
  closed_absorbs o closed cs =
      calls-stuck (order_emitter d) execute_order execute_order-Called o (closed_refuses o closed)
        cs
