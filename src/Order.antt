-- ===== src/Order.antt =====
-- order_aggregate.go: the state of an order and `Apply`. The commands are in Order/Commands.antt,
-- the stored form in Order/Storage.antt; the other modules below prove what these do.
pub mod Commands
pub mod Root
pub mod Lifecycle
pub mod Storage
pub mod Guards
pub mod History
pub mod RoundTrip
pub mod Load
use kite_mcp_eventsourcing.Prelude.{String, Bool, true, false}
use kite_mcp_eventsourcing.Prelude.Word.{Int64, add}
use kite_mcp_eventsourcing.Domain.{Domain}
use kite_mcp_eventsourcing.Event.{
  Event, order_event, order_placed, order_modified, order_cancelled, order_filled,
  order_placed_event, order_modified_event, order_cancelled_event, order_filled_event,
}
use kite_mcp_eventsourcing.Aggregate.{
  BaseAggregate, new_base, raise, increment_version, clear_pending_events,
}

pub data OrderStatus : Type 0 where
  new placed modified filled cancelled : OrderStatus

-- the constants `OrderStatus*`
abbrev pub status_text : OrderStatus → String
status_text new = "NEW"
status_text placed = "PLACED"
status_text modified = "MODIFIED"
status_text filled = "FILLED"
status_text cancelled = "CANCELLED"

abbrev pub is_new : OrderStatus → Bool
is_new new = true
is_new _ = false

module _ (d : Domain) where
  open d use {Time, Quantity, Money, InstrumentKey}

  pub record OrderAggregate : Type 0 where
    pub base : BaseAggregate d
    pub open base use *
    pub status : OrderStatus
    pub email : String
    pub instrument : InstrumentKey
    pub transaction_type : String
    pub order_type : String
    pub product : String
    pub quantity : Quantity
    pub price : Money
    pub filled_price : Money
    pub filled_quantity : Quantity
    pub modify_count : Int64
    pub placed_at : Time
    pub modified_at : Time
    pub cancelled_at : Time
    pub filled_at : Time

  open d use {zero_time, zero_quantity, zero_money, zero_instrument}

  unfoldable pub new_order_aggregate : String → OrderAggregate
  new_order_aggregate id = record {
    base = new_base d id;
    status = new;
    email = "";
    instrument = zero_instrument;
    transaction_type = "";
    order_type = "";
    product = "";
    quantity = zero_quantity;
    price = zero_money;
    filled_price = zero_money;
    filled_quantity = zero_quantity;
    modify_count = 0;
    placed_at = zero_time;
    modified_at = zero_time;
    cancelled_at = zero_time;
    filled_at = zero_time;
  }

abbrev pub aggregate_type : String
aggregate_type = "Order"

module _ {d : Domain} where
  -- the `switch` of `Apply`
  unfoldable pub apply_fields : OrderAggregate d → Event d → OrderAggregate d
  apply_fields o (order_event (order_placed e)) = record o {
    status = placed;
    email = e.email;
    instrument = e.instrument;
    transaction_type = e.transaction_type;
    order_type = e.order_type;
    product = e.product;
    quantity = e.quantity;
    price = e.price;
    placed_at = e.timestamp;
  }
  apply_fields o (order_event (order_modified e)) = record o {
    status = modified;
    quantity = e.new_quantity;
    price = e.new_price;
    order_type = e.new_order_type;
    modify_count = add o.modify_count 1;
    modified_at = e.timestamp;
  }
  apply_fields o (order_event (order_cancelled e)) = record o {
    status = cancelled;
    cancelled_at = e.timestamp;
  }
  apply_fields o (order_event (order_filled e)) = record o {
    status = filled;
    filled_price = e.filled_price;
    filled_quantity = e.filled_quantity;
    filled_at = e.timestamp;
  }
  apply_fields o (order_placed_event e) = record o {
    status = placed;
    email = e.email;
    instrument = e.instrument;
    transaction_type = e.transaction_type;
    quantity = e.qty;
    price = e.price;
    placed_at = e.timestamp;
  }
  apply_fields o (order_modified_event e) = record o {
    status = modified;
    modify_count = add o.modify_count 1;
    modified_at = e.timestamp;
  }
  apply_fields o (order_cancelled_event e) = record o {
    status = cancelled;
    cancelled_at = e.timestamp;
  }
  apply_fields o (order_filled_event e) = record o {
    status = filled;
    filled_price = e.filled_price;
    filled_quantity = e.filled_qty;
    filled_at = e.timestamp;
  }
  apply_fields o _ = o

  unfoldable pub apply : OrderAggregate d → Event d → OrderAggregate d
  unfolding increment_version
  apply o event = let o' = apply_fields o event in record o' { base = increment_version o'.base }

  -- `o.Apply(event); o.raise(event)`
  unfoldable pub emit : OrderAggregate d → Event d → OrderAggregate d
  unfolding apply raise
  emit o event = let o' = apply o event in record o' { base = raise o'.base event }

  -- `agg.ClearPendingEvents()`
  unfoldable pub clear_pending : OrderAggregate d → OrderAggregate d
  unfolding clear_pending_events
  clear_pending o = record o { base = clear_pending_events o.base }
