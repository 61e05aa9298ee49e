-- ===== src/Event.antt =====
-- The events. `domain.Event` is an interface: its implementations here are the private event
-- structs of the three aggregates with commands and the public structs of kite-mcp-domain that
-- the `Apply` methods name; any other implementation is `foreign`.
use kite_mcp_eventsourcing.Prelude.{String}
use kite_mcp_eventsourcing.Domain.{Domain}

module _ (d : Domain) where
  open d use {Time, Float, Quantity, Money, InstrumentKey}

  -- order_aggregate.go: the private event types
  pub record OrderPlaced : Type 0 where
    pub order_id : String
    pub email : String
    pub instrument : InstrumentKey
    pub transaction_type : String
    pub order_type : String
    pub product : String
    pub quantity : Quantity
    pub price : Money
    pub timestamp : Time

  pub record OrderModified : Type 0 where
    pub order_id : String
    pub new_quantity : Quantity
    pub new_price : Money
    pub new_order_type : String
    pub timestamp : Time

  pub record OrderCancelled : Type 0 where
    pub order_id : String
    pub timestamp : Time

  pub record OrderFilled : Type 0 where
    pub order_id : String
    pub filled_price : Money
    pub filled_quantity : Quantity
    pub timestamp : Time

  pub data OrderEvent : Type 0 where
    order_placed : OrderPlaced → OrderEvent
    order_modified : OrderModified → OrderEvent
    order_cancelled : OrderCancelled → OrderEvent
    order_filled : OrderFilled → OrderEvent

  -- alert_aggregate.go: the private event types
  pub record AlertCreated : Type 0 where
    pub alert_id : String
    pub email : String
    pub instrument : InstrumentKey
    pub target_price : Money
    pub direction : String
    pub timestamp : Time

  pub record AlertTriggered : Type 0 where
    pub alert_id : String
    pub current_price : Float
    pub timestamp : Time

  pub record AlertDeleted : Type 0 where
    pub alert_id : String
    pub timestamp : Time

  pub data AlertEvent : Type 0 where
    alert_created : AlertCreated → AlertEvent
    alert_triggered : AlertTriggered → AlertEvent
    alert_deleted : AlertDeleted → AlertEvent

  -- position_aggregate.go: the private event types
  pub record PositionOpened : Type 0 where
    pub position_id : String
    pub email : String
    pub instrument : InstrumentKey
    pub transaction_type : String
    pub quantity : Quantity
    pub avg_price : Money
    pub timestamp : Time

  pub record PositionClosed : Type 0 where
    pub position_id : String
    pub close_order_id : String
    pub transaction_type : String
    pub timestamp : Time

  pub data PositionEvent : Type 0 where
    position_opened : PositionOpened → PositionEvent
    position_closed : PositionClosed → PositionEvent

  -- The public structs of kite-mcp-domain, with the fields that this repository reads or sets.
  pub record OrderPlacedEvent : Type 0 where
    pub email : String
    pub order_id : String
    pub instrument : InstrumentKey
    pub transaction_type : String
    pub qty : Quantity
    pub price : Money
    pub timestamp : Time

  pub record OrderModifiedEvent : Type 0 where
    pub order_id : String
    pub timestamp : Time

  pub record OrderCancelledEvent : Type 0 where
    pub order_id : String
    pub timestamp : Time

  pub record OrderFilledEvent : Type 0 where
    pub order_id : String
    pub filled_price : Money
    pub filled_qty : Quantity
    pub timestamp : Time

  pub record AlertCreatedEvent : Type 0 where
    pub alert_id : String
    pub email : String
    pub instrument : InstrumentKey
    pub target_price : Money
    pub direction : String
    pub timestamp : Time

  pub record AlertTriggeredEvent : Type 0 where
    pub alert_id : String
    pub email : String
    pub instrument : InstrumentKey
    pub target_price : Money
    pub timestamp : Time

  pub record AlertDeletedEvent : Type 0 where
    pub alert_id : String
    pub timestamp : Time

  pub record PositionOpenedEvent : Type 0 where
    pub email : String
    pub instrument : InstrumentKey
    pub product : String
    pub transaction_type : String
    pub qty : Quantity
    pub avg_price : Money
    pub timestamp : Time

  pub record PositionClosedEvent : Type 0 where
    pub email : String
    pub instrument : InstrumentKey
    pub product : String
    pub timestamp : Time

  pub record SessionCreatedEvent : Type 0 where
    pub email : String
    pub session_id : String
    pub broker : String
    pub timestamp : Time

  pub record SessionClearedEvent : Type 0 where
    pub session_id : String
    pub reason : String
    pub timestamp : Time

  pub record SessionInvalidatedEvent : Type 0 where
    pub session_id : String
    pub reason : String
    pub timestamp : Time

  pub data Event : Type 0 where
    order_event : OrderEvent → Event
    alert_event : AlertEvent → Event
    position_event : PositionEvent → Event
    order_placed_event : OrderPlacedEvent → Event
    order_modified_event : OrderModifiedEvent → Event
    order_cancelled_event : OrderCancelledEvent → Event
    order_filled_event : OrderFilledEvent → Event
    alert_created_event : AlertCreatedEvent → Event
    alert_triggered_event : AlertTriggeredEvent → Event
    alert_deleted_event : AlertDeletedEvent → Event
    position_opened_event : PositionOpenedEvent → Event
    position_closed_event : PositionClosedEvent → Event
    session_created_event : SessionCreatedEvent → Event
    session_cleared_event : SessionClearedEvent → Event
    session_invalidated_event : SessionInvalidatedEvent → Event
    foreign : Event
