-- ===== src/Order/Commands.antt =====
-- order_aggregate.go: the guards `CanModify`, `CanCancel`, `CanFill` and the commands `Place`,
-- `Modify`, `Cancel`, `Fill`. A command returns the aggregate beside its error; `now` is what
-- `time.Now().UTC()` returns.
use kite_mcp_eventsourcing.Prelude.{
  String, Bool, not, ◌&&◌, ◌||◌, Option, none, some, ◌==◌, nat_eq, if◌then◌else◌,
}
use kite_mcp_eventsourcing.Prelude.Word.{Int64}
use kite_mcp_eventsourcing.Result.{Error, message, formatted, wrapped, on_error, return_if}
use kite_mcp_eventsourcing.Domain.{Domain, OrderParams}
use kite_mcp_eventsourcing.Event.{
  order_event, order_placed, order_modified, order_cancelled, order_filled,
}
use kite_mcp_eventsourcing.Order.{
  OrderStatus, new, filled, cancelled, is_new, status_text, OrderAggregate, emit,
}

unfoldable pub can_modify : OrderStatus → Option Error
can_modify new = some (message "cannot modify order in NEW state (not yet placed)")
can_modify cancelled = some (message "cannot modify cancelled order")
can_modify filled = some (message "cannot modify filled order")
can_modify _ = none

unfoldable pub can_cancel : OrderStatus → Option Error
can_cancel new = some (message "cannot cancel order in NEW state")
can_cancel cancelled = some (message "order already cancelled")
can_cancel filled = some (message "cannot cancel filled order")
can_cancel _ = none

unfoldable pub can_fill : OrderStatus → Option Error
can_fill new = some (message "cannot fill order in NEW state")
can_fill cancelled = some (message "cannot fill cancelled order")
can_fill filled = some (message "order already filled")
can_fill _ = none

module _ {d : Domain} where
  open d use {Float, Time, new_quantity, quantity_int, new_inr, amount, new_instrument_key}
  open d use {float_eq, float_nonpositive, format_float}

  unfoldable pub place :
      OrderAggregate d → OrderParams d → String → Time → OrderAggregate d × Option Error
  place o params email now =
      return_if (not (is_new o.status))
        (o, some (formatted "eventsourcing: cannot place order in %s state" (status_text o.status)))
        (on_error (new_quantity params.quantity).1 (λ e. (o, some (wrapped "eventsourcing: %w" e)))
          (return_if (params.symbol == "")
            (o, some (message "eventsourcing: tradingsymbol is required"))
            (return_if (email == "") (o, some (message "eventsourcing: email is required"))
              (
                emit o (
                    order_event (
                      order_placed (record {
                        order_id = o.id;
                        email = email;
                        instrument = new_instrument_key params.exchange_name params.symbol;
                        transaction_type = params.transaction_type;
                        order_type = params.order_type;
                        product = params.product;
                        quantity = (new_quantity params.quantity).0;
                        price = new_inr params.price;
                        timestamp = now;
                      }))),
                none,
              ))))

  -- the test that a modification changes nothing
  abbrev pub changes_nothing : OrderAggregate d → Int64 → Float → String → Bool
  changes_nothing o new_qty new_price new_order_type =
      nat_eq new_qty (quantity_int o.quantity)
      && float_eq new_price (amount o.price)
      && (new_order_type == "" || new_order_type == o.order_type)

  abbrev pub effective_order_type : OrderAggregate d → String → String
  effective_order_type o new_order_type =
      if new_order_type == "" then o.order_type else new_order_type

  unfoldable pub modify :
      OrderAggregate d → Int64 → Float → String → Time → OrderAggregate d × Option Error
  modify o new_qty new_price new_order_type now =
      on_error (can_modify o.status) (λ e. (o, some (wrapped "eventsourcing: %w" e)))
        (on_error (new_quantity new_qty).1 (λ e. (o, some (wrapped "eventsourcing: modify: %w" e)))
          (return_if (changes_nothing o new_qty new_price new_order_type)
            (o, some (message "eventsourcing: modify must change at least one field"))
            (
              emit o (
                  order_event (
                    order_modified (record {
                      order_id = o.id;
                      new_quantity = (new_quantity new_qty).0;
                      new_price = new_inr new_price;
                      new_order_type = effective_order_type o new_order_type;
                      timestamp = now;
                    }))),
              none,
            )))

  unfoldable pub cancel : OrderAggregate d → Time → OrderAggregate d × Option Error
  cancel o now =
      on_error (can_cancel o.status) (λ e. (o, some (wrapped "eventsourcing: %w" e)))
        (emit o (order_event (order_cancelled (record { order_id = o.id; timestamp = now }))), none)

  unfoldable pub fill : OrderAggregate d → Float → Int64 → Time → OrderAggregate d × Option Error
  fill o price qty now =
      on_error (can_fill o.status) (λ e. (o, some (wrapped "eventsourcing: %w" e)))
        (on_error (new_quantity qty).1 (λ e. (o, some (wrapped "eventsourcing: fill: %w" e)))
          (return_if (float_nonpositive price)
            (
              o,
              some (
                  formatted "eventsourcing: fill price must be positive, got %f"
                    (format_float price)),
            )
            (
              emit o (
                  order_event (
                    order_filled (record {
                      order_id = o.id;
                      filled_price = new_inr price;
                      filled_quantity = (new_quantity qty).0;
                      timestamp = now;
                    }))),
              none,
            )))
