-- ===== src/Tests/SampleJson.antt =====
-- A concrete JSON for the instances of the theorems: a payload is the list of its fields.
use kite_mcp_eventsourcing.Prelude.{refl, List, [], ◌∷◌}
use kite_mcp_eventsourcing.Result.{Result, ok, err, message}
use kite_mcp_eventsourcing.Event.{
  OrderPlacedEvent, OrderModifiedEvent, OrderCancelledEvent, OrderFilledEvent, AlertCreatedEvent,
  AlertTriggeredEvent, AlertDeletedEvent, PositionOpenedEvent, PositionClosedEvent,
  SessionCreatedEvent,
}
use kite_mcp_eventsourcing.Payload.{
  Json, JsonLaws, Codec, AlertCreatedPayload, AlertTriggeredPayload, OrderCancelledPayload,
  OrderFilledPayload, OrderModifiedPayload, OrderPlacedPayload, PositionClosedPayload,
  PositionOpenedPayload, SessionClearedPayload, SessionCreatedPayload, SessionInvalidatedPayload,
}
use kite_mcp_eventsourcing.Tests.{Token, text, number, sample}

abbrev read_order_placed : List Token → Result (OrderPlacedPayload sample)
read_order_placed
      (text x_email
        ∷ text x_exchange
        ∷ text x_tradingsymbol
        ∷ text x_transaction_type
        ∷ text x_order_type
        ∷ text x_product
        ∷ number x_quantity
        ∷ number x_price
        ∷ []) =
    ok (record {
      email = x_email;
      exchange = x_exchange;
      tradingsymbol = x_tradingsymbol;
      transaction_type = x_transaction_type;
      order_type = x_order_type;
      product = x_product;
      quantity = x_quantity;
      price = x_price;
    })
read_order_placed _ = err (message "malformed")

abbrev order_placed_codec : Codec sample (OrderPlacedPayload sample)
order_placed_codec = record {
  marshal = λ v. ok (
      text v.email
      ∷ text v.exchange
      ∷ text v.tradingsymbol
      ∷ text v.transaction_type
      ∷ text v.order_type
      ∷ text v.product
      ∷ number v.quantity
      ∷ number v.price
      ∷ []);
  unmarshal = read_order_placed;
}

abbrev read_order_modified : List Token → Result (OrderModifiedPayload sample)
read_order_modified (number x_new_quantity ∷ number x_new_price ∷ text x_new_order_type ∷ []) =
    ok (record {
      new_quantity = x_new_quantity;
      new_price = x_new_price;
      new_order_type = x_new_order_type;
    })
read_order_modified _ = err (message "malformed")

abbrev order_modified_codec : Codec sample (OrderModifiedPayload sample)
order_modified_codec = record {
  marshal = λ v. ok (number v.new_quantity ∷ number v.new_price ∷ text v.new_order_type ∷ []);
  unmarshal = read_order_modified;
}

abbrev read_order_cancelled : List Token → Result (OrderCancelledPayload)
read_order_cancelled (text x_reason ∷ []) = ok (record { reason = x_reason })
read_order_cancelled _ = err (message "malformed")

abbrev order_cancelled_codec : Codec sample (OrderCancelledPayload)
order_cancelled_codec = record {
  marshal = λ v. ok (text v.reason ∷ []);
  unmarshal = read_order_cancelled;
}

abbrev read_order_filled : List Token → Result (OrderFilledPayload sample)
read_order_filled (number x_filled_price ∷ number x_filled_quantity ∷ []) =
    ok (record { filled_price = x_filled_price; filled_quantity = x_filled_quantity })
read_order_filled _ = err (message "malformed")

abbrev order_filled_codec : Codec sample (OrderFilledPayload sample)
order_filled_codec = record {
  marshal = λ v. ok (number v.filled_price ∷ number v.filled_quantity ∷ []);
  unmarshal = read_order_filled;
}

abbrev read_alert_created : List Token → Result (AlertCreatedPayload sample)
read_alert_created
      (text x_email
        ∷ text x_symbol
        ∷ text x_exchange
        ∷ number x_target_price
        ∷ text x_direction
        ∷ []) =
    ok (record {
      email = x_email;
      symbol = x_symbol;
      exchange = x_exchange;
      target_price = x_target_price;
      direction = x_direction;
    })
read_alert_created _ = err (message "malformed")

abbrev alert_created_codec : Codec sample (AlertCreatedPayload sample)
alert_created_codec = record {
  marshal = λ v. ok (
      text v.email
      ∷ text v.symbol
      ∷ text v.exchange
      ∷ number v.target_price
      ∷ text v.direction
      ∷ []);
  unmarshal = read_alert_created;
}

abbrev read_alert_triggered : List Token → Result (AlertTriggeredPayload sample)
read_alert_triggered (number x_current_price ∷ []) = ok (record { current_price = x_current_price })
read_alert_triggered _ = err (message "malformed")

abbrev alert_triggered_codec : Codec sample (AlertTriggeredPayload sample)
alert_triggered_codec = record {
  marshal = λ v. ok (number v.current_price ∷ []);
  unmarshal = read_alert_triggered;
}

abbrev read_position_opened : List Token → Result (PositionOpenedPayload sample)
read_position_opened
      (text x_email
        ∷ text x_symbol
        ∷ text x_exchange
        ∷ text x_transaction_type
        ∷ number x_quantity
        ∷ number x_avg_price
        ∷ []) =
    ok (record {
      email = x_email;
      symbol = x_symbol;
      exchange = x_exchange;
      transaction_type = x_transaction_type;
      quantity = x_quantity;
      avg_price = x_avg_price;
    })
read_position_opened _ = err (message "malformed")

abbrev position_opened_codec : Codec sample (PositionOpenedPayload sample)
position_opened_codec = record {
  marshal = λ v. ok (
      text v.email
      ∷ text v.symbol
      ∷ text v.exchange
      ∷ text v.transaction_type
      ∷ number v.quantity
      ∷ number v.avg_price
      ∷ []);
  unmarshal = read_position_opened;
}

abbrev read_position_closed : List Token → Result (PositionClosedPayload)
read_position_closed (text x_close_order_id ∷ text x_transaction_type ∷ []) =
    ok (record { close_order_id = x_close_order_id; transaction_type = x_transaction_type })
read_position_closed _ = err (message "malformed")

abbrev position_closed_codec : Codec sample (PositionClosedPayload)
position_closed_codec = record {
  marshal = λ v. ok (text v.close_order_id ∷ text v.transaction_type ∷ []);
  unmarshal = read_position_closed;
}

abbrev read_session_created : List Token → Result (SessionCreatedPayload)
read_session_created (text x_email ∷ text x_session_id ∷ text x_broker ∷ []) =
    ok (record { email = x_email; session_id = x_session_id; broker = x_broker })
read_session_created _ = err (message "malformed")

abbrev session_created_codec : Codec sample (SessionCreatedPayload)
session_created_codec = record {
  marshal = λ v. ok (text v.email ∷ text v.session_id ∷ text v.broker ∷ []);
  unmarshal = read_session_created;
}

abbrev read_session_cleared : List Token → Result (SessionClearedPayload)
read_session_cleared (text x_session_id ∷ text x_reason ∷ []) =
    ok (record { session_id = x_session_id; reason = x_reason })
read_session_cleared _ = err (message "malformed")

abbrev session_cleared_codec : Codec sample (SessionClearedPayload)
session_cleared_codec = record {
  marshal = λ v. ok (text v.session_id ∷ text v.reason ∷ []);
  unmarshal = read_session_cleared;
}

abbrev read_session_invalidated : List Token → Result (SessionInvalidatedPayload)
read_session_invalidated (text x_session_id ∷ text x_reason ∷ []) =
    ok (record { session_id = x_session_id; reason = x_reason })
read_session_invalidated _ = err (message "malformed")

abbrev session_invalidated_codec : Codec sample (SessionInvalidatedPayload)
session_invalidated_codec = record {
  marshal = λ v. ok (text v.session_id ∷ text v.reason ∷ []);
  unmarshal = read_session_invalidated;
}

abbrev read_order_placed_event : List Token → Result (OrderPlacedEvent sample)
read_order_placed_event
      (text x_email
        ∷ text x_order_id
        ∷ text x_instrument_0
        ∷ text x_instrument_1
        ∷ text x_transaction_type
        ∷ number x_qty
        ∷ number x_price
        ∷ number x_timestamp
        ∷ []) =
    ok (record {
      email = x_email;
      order_id = x_order_id;
      instrument = (x_instrument_0, x_instrument_1);
      transaction_type = x_transaction_type;
      qty = x_qty;
      price = x_price;
      timestamp = x_timestamp;
    })
read_order_placed_event _ = err (message "malformed")

abbrev order_placed_event_codec : Codec sample (OrderPlacedEvent sample)
order_placed_event_codec = record {
  marshal = λ v. ok (
      text v.email
      ∷ text v.order_id
      ∷ text v.instrument.0
      ∷ text v.instrument.1
      ∷ text v.transaction_type
      ∷ number v.qty
      ∷ number v.price
      ∷ number v.timestamp
      ∷ []);
  unmarshal = read_order_placed_event;
}

abbrev read_order_modified_event : List Token → Result (OrderModifiedEvent sample)
read_order_modified_event (text x_order_id ∷ number x_timestamp ∷ []) =
    ok (record { order_id = x_order_id; timestamp = x_timestamp })
read_order_modified_event _ = err (message "malformed")

abbrev order_modified_event_codec : Codec sample (OrderModifiedEvent sample)
order_modified_event_codec = record {
  marshal = λ v. ok (text v.order_id ∷ number v.timestamp ∷ []);
  unmarshal = read_order_modified_event;
}

abbrev read_order_cancelled_event : List Token → Result (OrderCancelledEvent sample)
read_order_cancelled_event (text x_order_id ∷ number x_timestamp ∷ []) =
    ok (record { order_id = x_order_id; timestamp = x_timestamp })
read_order_cancelled_event _ = err (message "malformed")

abbrev order_cancelled_event_codec : Codec sample (OrderCancelledEvent sample)
order_cancelled_event_codec = record {
  marshal = λ v. ok (text v.order_id ∷ number v.timestamp ∷ []);
  unmarshal = read_order_cancelled_event;
}

abbrev read_order_filled_event : List Token → Result (OrderFilledEvent sample)
read_order_filled_event
      (text x_order_id ∷ number x_filled_price ∷ number x_filled_qty ∷ number x_timestamp ∷ []) =
    ok (record {
      order_id = x_order_id;
      filled_price = x_filled_price;
      filled_qty = x_filled_qty;
      timestamp = x_timestamp;
    })
read_order_filled_event _ = err (message "malformed")

abbrev order_filled_event_codec : Codec sample (OrderFilledEvent sample)
order_filled_event_codec = record {
  marshal = λ v.
      ok (text v.order_id ∷ number v.filled_price ∷ number v.filled_qty ∷ number v.timestamp ∷ []);
  unmarshal = read_order_filled_event;
}

abbrev read_alert_created_event : List Token → Result (AlertCreatedEvent sample)
read_alert_created_event
      (text x_alert_id
        ∷ text x_email
        ∷ text x_instrument_0
        ∷ text x_instrument_1
        ∷ number x_target_price
        ∷ text x_direction
        ∷ number x_timestamp
        ∷ []) =
    ok (record {
      alert_id = x_alert_id;
      email = x_email;
      instrument = (x_instrument_0, x_instrument_1);
      target_price = x_target_price;
      direction = x_direction;
      timestamp = x_timestamp;
    })
read_alert_created_event _ = err (message "malformed")

abbrev alert_created_event_codec : Codec sample (AlertCreatedEvent sample)
alert_created_event_codec = record {
  marshal = λ v. ok (
      text v.alert_id
      ∷ text v.email
      ∷ text v.instrument.0
      ∷ text v.instrument.1
      ∷ number v.target_price
      ∷ text v.direction
      ∷ number v.timestamp
      ∷ []);
  unmarshal = read_alert_created_event;
}

abbrev read_alert_triggered_event : List Token → Result (AlertTriggeredEvent sample)
read_alert_triggered_event
      (text x_alert_id
        ∷ text x_email
        ∷ text x_instrument_0
        ∷ text x_instrument_1
        ∷ number x_target_price
        ∷ number x_timestamp
        ∷ []) =
    ok (record {
      alert_id = x_alert_id;
      email = x_email;
      instrument = (x_instrument_0, x_instrument_1);
      target_price = x_target_price;
      timestamp = x_timestamp;
    })
read_alert_triggered_event _ = err (message "malformed")

abbrev alert_triggered_event_codec : Codec sample (AlertTriggeredEvent sample)
alert_triggered_event_codec = record {
  marshal = λ v. ok (
      text v.alert_id
      ∷ text v.email
      ∷ text v.instrument.0
      ∷ text v.instrument.1
      ∷ number v.target_price
      ∷ number v.timestamp
      ∷ []);
  unmarshal = read_alert_triggered_event;
}

abbrev read_alert_deleted_event : List Token → Result (AlertDeletedEvent sample)
read_alert_deleted_event (text x_alert_id ∷ number x_timestamp ∷ []) =
    ok (record { alert_id = x_alert_id; timestamp = x_timestamp })
read_alert_deleted_event _ = err (message "malformed")

abbrev alert_deleted_event_codec : Codec sample (AlertDeletedEvent sample)
alert_deleted_event_codec = record {
  marshal = λ v. ok (text v.alert_id ∷ number v.timestamp ∷ []);
  unmarshal = read_alert_deleted_event;
}

abbrev read_position_opened_event : List Token → Result (PositionOpenedEvent sample)
read_position_opened_event
      (text x_email
        ∷ text x_instrument_0
        ∷ text x_instrument_1
        ∷ text x_product
        ∷ text x_transaction_type
        ∷ number x_qty
        ∷ number x_avg_price
        ∷ number x_timestamp
        ∷ []) =
    ok (record {
      email = x_email;
      instrument = (x_instrument_0, x_instrument_1);
      product = x_product;
      transaction_type = x_transaction_type;
      qty = x_qty;
      avg_price = x_avg_price;
      timestamp = x_timestamp;
    })
read_position_opened_event _ = err (message "malformed")

abbrev position_opened_event_codec : Codec sample (PositionOpenedEvent sample)
position_opened_event_codec = record {
  marshal = λ v. ok (
      text v.email
      ∷ text v.instrument.0
      ∷ text v.instrument.1
      ∷ text v.product
      ∷ text v.transaction_type
      ∷ number v.qty
      ∷ number v.avg_price
      ∷ number v.timestamp
      ∷ []);
  unmarshal = read_position_opened_event;
}

abbrev read_position_closed_event : List Token → Result (PositionClosedEvent sample)
read_position_closed_event
      (text x_email
        ∷ text x_instrument_0
        ∷ text x_instrument_1
        ∷ text x_product
        ∷ number x_timestamp
        ∷ []) =
    ok (record {
      email = x_email;
      instrument = (x_instrument_0, x_instrument_1);
      product = x_product;
      timestamp = x_timestamp;
    })
read_position_closed_event _ = err (message "malformed")

abbrev position_closed_event_codec : Codec sample (PositionClosedEvent sample)
position_closed_event_codec = record {
  marshal = λ v. ok (
      text v.email
      ∷ text v.instrument.0
      ∷ text v.instrument.1
      ∷ text v.product
      ∷ number v.timestamp
      ∷ []);
  unmarshal = read_position_closed_event;
}

abbrev read_session_created_event : List Token → Result (SessionCreatedEvent sample)
read_session_created_event
      (text x_email ∷ text x_session_id ∷ text x_broker ∷ number x_timestamp ∷ []) =
    ok (record {
      email = x_email;
      session_id = x_session_id;
      broker = x_broker;
      timestamp = x_timestamp;
    })
read_session_created_event _ = err (message "malformed")

abbrev session_created_event_codec : Codec sample (SessionCreatedEvent sample)
session_created_event_codec = record {
  marshal = λ v. ok (text v.email ∷ text v.session_id ∷ text v.broker ∷ number v.timestamp ∷ []);
  unmarshal = read_session_created_event;
}

abbrev pub sample_json : Json sample
sample_json = record {
  order_placed = order_placed_codec;
  order_modified = order_modified_codec;
  order_cancelled = order_cancelled_codec;
  order_filled = order_filled_codec;
  alert_created = alert_created_codec;
  alert_triggered = alert_triggered_codec;
  position_opened = position_opened_codec;
  position_closed = position_closed_codec;
  session_created = session_created_codec;
  session_cleared = session_cleared_codec;
  session_invalidated = session_invalidated_codec;
  alert_deleted = record { marshal = λ v. ok []; unmarshal = λ b. ok tt };
  order_placed_event = order_placed_event_codec;
  order_modified_event = order_modified_event_codec;
  order_cancelled_event = order_cancelled_event_codec;
  order_filled_event = order_filled_event_codec;
  alert_created_event = alert_created_event_codec;
  alert_triggered_event = alert_triggered_event_codec;
  alert_deleted_event = alert_deleted_event_codec;
  position_opened_event = position_opened_event_codec;
  position_closed_event = position_closed_event_codec;
  session_created_event = session_created_event_codec;
}

pub sample_json_laws : JsonLaws sample_json (λ x. Unit)
sample_json_laws = record {
  placed = λ v _. (_, refl, refl);
  modified = λ v _. (_, refl, refl);
  cancelled = λ v. (_, refl, refl);
  filled = λ v _. (_, refl, refl);
  created = λ v _. (_, refl, refl);
  triggered = λ v _. (_, refl, refl);
  deleted = λ v. ([], refl, refl);
  opened = λ v _. (_, refl, refl);
  closed = λ v. (_, refl, refl);
}
