-- ===== src/Position.antt =====
-- position_aggregate.go: the state of a trading position, `Apply` and the commands `Open` and
-- `Close`. The stored form is in Position/Storage.antt; the other modules below prove what these do.
pub mod Root
pub mod Lifecycle
pub mod History
pub mod Storage
pub mod RoundTrip
pub mod Load
use kite_mcp_eventsourcing.Prelude.{
  String, Bool, true, false, not, Option, none, some, ◌==◌, if◌then◌else◌,
}
use kite_mcp_eventsourcing.Prelude.Word.{Int64, is_positive}
use kite_mcp_eventsourcing.Result.{Error, message, formatted, wrapped, on_error, return_if}
use kite_mcp_eventsourcing.Domain.{Domain}
use kite_mcp_eventsourcing.Event.{
  Event, position_event, position_opened, position_closed, position_opened_event,
  position_closed_event,
}
use kite_mcp_eventsourcing.Aggregate.{
  BaseAggregate, new_base, raise, increment_version, clear_pending_events,
}

pub data PositionStatus : Type 0 where
  opened closed : PositionStatus

-- the constants `PositionStatus*`
abbrev pub status_text : PositionStatus → String
status_text opened = "OPEN"
status_text closed = "CLOSED"

abbrev pub is_open : PositionStatus → Bool
is_open opened = true
is_open closed = false

abbrev pub is_closed : PositionStatus → Bool
is_closed opened = false
is_closed closed = true

module _ (d : Domain) where
  open d use {Time, Money, Quantity, InstrumentKey}

  pub record PositionAggregate : Type 0 where
    pub base : BaseAggregate d
    pub open base use *
    pub email : String
    pub instrument : InstrumentKey
    pub product : String
    pub transaction_type : String
    pub quantity : Quantity
    pub avg_price : Money
    pub status : PositionStatus
    pub opened_at : Time
    pub closed_at : Time

  open d use {zero_time, zero_money, zero_quantity, zero_instrument}

  unfoldable pub new_position_aggregate : String → PositionAggregate
  new_position_aggregate id = record {
    base = new_base d id;
    email = "";
    instrument = zero_instrument;
    product = "";
    transaction_type = "";
    quantity = zero_quantity;
    avg_price = zero_money;
    status = opened;
    opened_at = zero_time;
    closed_at = zero_time;
  }

abbrev pub aggregate_type : String
aggregate_type = "Position"

module _ {d : Domain} where
  open d use {zero_quantity, zero_time, instrument_eq, zero_instrument}

  -- the `switch` of `Apply`
  unfoldable pub apply_fields : PositionAggregate d → Event d → PositionAggregate d
  apply_fields p (position_event (position_opened e)) = record p {
    email = e.email;
    instrument = e.instrument;
    transaction_type = e.transaction_type;
    quantity = e.quantity;
    avg_price = e.avg_price;
    status = opened;
    opened_at = e.timestamp;
  }
  apply_fields p (position_event (position_closed e)) = record p {
    status = closed;
    quantity = zero_quantity;
    closed_at = e.timestamp;
  }
  apply_fields p (position_opened_event e) = record p {
    email = e.email;
    instrument = e.instrument;
    product = e.product;
    transaction_type = e.transaction_type;
    quantity = e.qty;
    avg_price = e.avg_price;
    status = opened;
    opened_at = e.timestamp;
    closed_at = zero_time;
  }
  apply_fields p (position_closed_event e) = record p {
    status = closed;
    quantity = zero_quantity;
    closed_at = e.timestamp;
    instrument = if instrument_eq p.instrument zero_instrument then e.instrument else p.instrument;
    product = if p.product == "" then e.product else p.product;
    email = if p.email == "" then e.email else p.email;
  }
  apply_fields p _ = p

  unfoldable pub apply : PositionAggregate d → Event d → PositionAggregate d
  unfolding increment_version
  apply p event = let p' = apply_fields p event in record p' { base = increment_version p'.base }

  -- `p.Apply(event); p.raise(event)`
  unfoldable pub emit : PositionAggregate d → Event d → PositionAggregate d
  unfolding apply raise
  emit p event = let p' = apply p event in record p' { base = raise p'.base event }

  -- `agg.ClearPendingEvents()`
  unfoldable pub clear_pending : PositionAggregate d → PositionAggregate d
  unfolding clear_pending_events
  clear_pending p = record p { base = clear_pending_events p.base }

unfoldable pub can_close : PositionStatus → Option Error
can_close s =
    if is_closed s
    then some (message "position already closed")
    else if not (is_open s)
    then some (formatted "position not in OPEN state, got %s" (status_text s))
    else none

module _ {d : Domain} where
  open d use {Float, Time, new_quantity, new_inr, new_instrument_key}

  unfoldable pub open_position :
      PositionAggregate d
      → (email symbol exchange transaction_type : String) → Int64
      → Float
      → Time
      → PositionAggregate d × Option Error
  open_position p email symbol exchange transaction_type qty avg_price now =
      return_if (is_positive p.version) (p, some (message "eventsourcing: position already opened"))
        (return_if (email == "") (p, some (message "eventsourcing: email is required"))
          (return_if (symbol == "") (p, some (message "eventsourcing: symbol is required"))
            (on_error (new_quantity qty).1 (λ e. (p, some (wrapped "eventsourcing: %w" e)))
              (
                emit p (
                    position_event (
                      position_opened (record {
                        position_id = p.id;
                        email = email;
                        instrument = new_instrument_key exchange symbol;
                        transaction_type = transaction_type;
                        quantity = (new_quantity qty).0;
                        avg_price = new_inr avg_price;
                        timestamp = now;
                      }))),
                none,
              ))))

  unfoldable pub close_position :
      PositionAggregate d
      → (close_order_id close_transaction_type : String) → Time
      → PositionAggregate d × Option Error
  close_position p close_order_id close_transaction_type now =
      on_error (can_close p.status) (λ e. (p, some (wrapped "eventsourcing: %w" e)))
        (
          emit p (
              position_event (
                position_closed (record {
                  position_id = p.id;
                  close_order_id = close_order_id;
                  transaction_type = close_transaction_type;
                  timestamp = now;
                }))),
          none,
        )
