-- ===== src/Payload.antt =====
-- The JSON payload structs of the four aggregates, and `encoding/json` as a parameter: for each
-- type a pair of `json.Marshal` and `json.Unmarshal` at that type.
use kite_mcp_eventsourcing.Prelude.{String, ◌≡◌}
use kite_mcp_eventsourcing.Prelude.Word.{Int64}
use kite_mcp_eventsourcing.Result.{Result, ok, wrap}
use kite_mcp_eventsourcing.Domain.{Domain}
use kite_mcp_eventsourcing.Event.{
  OrderPlacedEvent, OrderModifiedEvent, OrderCancelledEvent, OrderFilledEvent, AlertCreatedEvent,
  AlertTriggeredEvent, AlertDeletedEvent, PositionOpenedEvent, PositionClosedEvent,
  SessionCreatedEvent,
}

-- The structs with no price.
pub record OrderCancelledPayload : Type 0 where
  pub reason : String

pub record PositionClosedPayload : Type 0 where
  pub close_order_id : String
  pub transaction_type : String

pub record SessionCreatedPayload : Type 0 where
  pub email : String
  pub session_id : String
  pub broker : String

pub record SessionClearedPayload : Type 0 where
  pub session_id : String
  pub reason : String

pub record SessionInvalidatedPayload : Type 0 where
  pub session_id : String
  pub reason : String

-- `AlertDeletedPayload` has no field.
abbrev pub AlertDeletedPayload : Type 0
AlertDeletedPayload = Unit {0}

module _ (d : Domain) where
  open d use {Float}

  pub record OrderPlacedPayload : Type 0 where
    pub email : String
    pub exchange : String
    pub tradingsymbol : String
    pub transaction_type : String
    pub order_type : String
    pub product : String
    pub quantity : Int64
    pub price : Float

  pub record OrderModifiedPayload : Type 0 where
    pub new_quantity : Int64
    pub new_price : Float
    pub new_order_type : String

  pub record OrderFilledPayload : Type 0 where
    pub filled_price : Float
    pub filled_quantity : Int64

  pub record AlertCreatedPayload : Type 0 where
    pub email : String
    pub symbol : String
    pub exchange : String
    pub target_price : Float
    pub direction : String

  pub record AlertTriggeredPayload : Type 0 where
    pub current_price : Float

  pub record PositionOpenedPayload : Type 0 where
    pub email : String
    pub symbol : String
    pub exchange : String
    pub transaction_type : String
    pub quantity : Int64
    pub avg_price : Float

-- `json.Marshal` and `json.Unmarshal` at one type
pub record Codec (d : Domain) (A : Type 0) : Type 0 where
  pub marshal : A → Result d.Bytes
  pub unmarshal : d.Bytes → Result A

module _ (d : Domain) where
  open d use {Float}

  pub record Json : Type 0 where
    pub order_placed : Codec d (OrderPlacedPayload d)
    pub order_modified : Codec d (OrderModifiedPayload d)
    pub order_cancelled : Codec d OrderCancelledPayload
    pub order_filled : Codec d (OrderFilledPayload d)
    pub alert_created : Codec d (AlertCreatedPayload d)
    pub alert_triggered : Codec d (AlertTriggeredPayload d)
    pub alert_deleted : Codec d AlertDeletedPayload
    pub position_opened : Codec d (PositionOpenedPayload d)
    pub position_closed : Codec d PositionClosedPayload
    pub session_created : Codec d SessionCreatedPayload
    pub session_cleared : Codec d SessionClearedPayload
    pub session_invalidated : Codec d SessionInvalidatedPayload
    -- the public structs, with the event type under which they are stored
    pub order_placed_event : Codec d (OrderPlacedEvent d)
    pub order_modified_event : Codec d (OrderModifiedEvent d)
    pub order_cancelled_event : Codec d (OrderCancelledEvent d)
    pub order_filled_event : Codec d (OrderFilledEvent d)
    pub alert_created_event : Codec d (AlertCreatedEvent d)
    pub alert_triggered_event : Codec d (AlertTriggeredEvent d)
    pub alert_deleted_event : Codec d (AlertDeletedEvent d)
    pub position_opened_event : Codec d (PositionOpenedEvent d)
    pub position_closed_event : Codec d (PositionClosedEvent d)
    pub session_created_event : Codec d (SessionCreatedEvent d)

-- A value that `json.Marshal` encodes and `json.Unmarshal` reads back.
abbrev pub Survives : {d : Domain} {A : Type 0} → Codec d A → A → Type 0
Survives {d} c v = (b : d.Bytes) × (c.marshal v ≡ ok b) × (c.unmarshal b ≡ ok v)

module _ {d : Domain} (json : Json d) (IsEncodable : d.Float → Type 0) where
  -- What the theorems take of `encoding/json`, for texts in UTF-8: a struct of texts and integers
  -- is read back as it was written; one with a `float64` is if the number is encodable. That is to
  -- leave out the infinities and NaN, which `json.Marshal` refuses, and the negative zero, which
  -- `omitempty` drops.
  pub record JsonLaws : Type 0 where
    pub placed : (v : OrderPlacedPayload d) → IsEncodable v.price → Survives json.order_placed v
    pub modified :
        (v : OrderModifiedPayload d) → IsEncodable v.new_price → Survives json.order_modified v
    pub cancelled : (v : OrderCancelledPayload) → Survives json.order_cancelled v
    pub filled :
        (v : OrderFilledPayload d) → IsEncodable v.filled_price → Survives json.order_filled v
    pub created :
        (v : AlertCreatedPayload d) → IsEncodable v.target_price → Survives json.alert_created v
    pub triggered :
        (v : AlertTriggeredPayload d)
        → IsEncodable v.current_price
        → Survives json.alert_triggered v
    pub deleted : (v : AlertDeletedPayload) → Survives json.alert_deleted v
    pub opened :
        (v : PositionOpenedPayload d) → IsEncodable v.avg_price → Survives json.position_opened v
    pub closed : (v : PositionClosedPayload) → Survives json.position_closed v

-- `MarshalPayload` of store.go, after the call of `json.Marshal`
unfoldable pub marshal_payload : {d : Domain} {A : Type 0} → Codec d A → A → Result d.Bytes
marshal_payload c v = wrap "eventsourcing: marshal payload: %w" (c.marshal v)
