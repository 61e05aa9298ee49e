-- ===== src/Alert.antt =====
-- alert_aggregate.go: the state of a price alert, `Apply` and the commands `Create`, `Trigger` and
-- `Delete`. The stored form is in Alert/Storage.antt; the other modules below prove what these do.
pub mod Root
pub mod Lifecycle
pub mod History
pub mod Storage
pub mod RoundTrip
pub mod Load
use kite_mcp_eventsourcing.Prelude.{
  String, Bool, true, false, not, Option, none, some, ◌==◌, if◌then◌else◌,
}
use kite_mcp_eventsourcing.Prelude.Word.{Int64, is_positive}
use kite_mcp_eventsourcing.Result.{Error, message, formatted, wrapped, on_error, return_if}
use kite_mcp_eventsourcing.Domain.{Domain}
use kite_mcp_eventsourcing.Event.{
  Event, alert_event, alert_created, alert_triggered, alert_deleted, alert_created_event,
  alert_triggered_event, alert_deleted_event,
}
use kite_mcp_eventsourcing.Aggregate.{
  BaseAggregate, new_base, raise, increment_version, clear_pending_events,
}

pub data AlertStatus : Type 0 where
  active triggered deleted : AlertStatus

-- the constants `AlertStatus*`
abbrev pub status_text : AlertStatus → String
status_text active = "ACTIVE"
status_text triggered = "TRIGGERED"
status_text deleted = "DELETED"

abbrev pub is_active : AlertStatus → Bool
is_active active = true
is_active _ = false

abbrev pub is_deleted : AlertStatus → Bool
is_deleted deleted = true
is_deleted _ = false

module _ (d : Domain) where
  open d use {Time, Money, InstrumentKey}

  pub record AlertAggregate : Type 0 where
    pub base : BaseAggregate d
    pub open base use *
    pub email : String
    pub instrument : InstrumentKey
    pub target_price : Money
    pub direction : String
    pub status : AlertStatus
    pub created_at : Time
    pub triggered_at : Time
    pub deleted_at : Time

  open d use {zero_time, zero_money, zero_instrument}

  unfoldable pub new_alert_aggregate : String → AlertAggregate
  new_alert_aggregate id = record {
    base = new_base d id;
    email = "";
    instrument = zero_instrument;
    target_price = zero_money;
    direction = "";
    status = active;
    created_at = zero_time;
    triggered_at = zero_time;
    deleted_at = zero_time;
  }

abbrev pub aggregate_type : String
aggregate_type = "Alert"

module _ {d : Domain} where
  open d use {float_eq, float_zero, amount, instrument_eq, zero_instrument}

  -- the `switch` of `Apply`
  unfoldable pub apply_fields : AlertAggregate d → Event d → AlertAggregate d
  apply_fields a (alert_event (alert_created e)) = record a {
    email = e.email;
    instrument = e.instrument;
    target_price = e.target_price;
    direction = e.direction;
    status = active;
    created_at = e.timestamp;
  }
  apply_fields a (alert_event (alert_triggered e)) = record a {
    status = triggered;
    triggered_at = e.timestamp;
  }
  apply_fields a (alert_event (alert_deleted e)) = record a {
    status = deleted;
    deleted_at = e.timestamp;
  }
  apply_fields a (alert_created_event e) = record a {
    email = e.email;
    instrument = e.instrument;
    target_price = e.target_price;
    direction = e.direction;
    status = active;
    created_at = e.timestamp;
  }
  apply_fields a (alert_triggered_event e) = record a {
    status = triggered;
    triggered_at = e.timestamp;
    email = if a.email == "" then e.email else a.email;
    target_price =
        if float_eq (amount a.target_price) float_zero then e.target_price else a.target_price;
    instrument = if instrument_eq a.instrument zero_instrument then e.instrument else a.instrument;
  }
  apply_fields a (alert_deleted_event e) = record a { status = deleted; deleted_at = e.timestamp }
  apply_fields a _ = a

  unfoldable pub apply : AlertAggregate d → Event d → AlertAggregate d
  unfolding increment_version
  apply a event = let a' = apply_fields a event in record a' { base = increment_version a'.base }

  -- `a.Apply(event); a.raise(event)`
  unfoldable pub emit : AlertAggregate d → Event d → AlertAggregate d
  unfolding apply raise
  emit a event = let a' = apply a event in record a' { base = raise a'.base event }

  -- `agg.ClearPendingEvents()`
  unfoldable pub clear_pending : AlertAggregate d → AlertAggregate d
  unfolding clear_pending_events
  clear_pending a = record a { base = clear_pending_events a.base }

unfoldable pub can_trigger : AlertStatus → Option Error
can_trigger s =
    if not (is_active s) then some (formatted "alert not active, got %s" (status_text s)) else none

unfoldable pub can_delete : AlertStatus → Option Error
can_delete s = if is_deleted s then some (message "alert already deleted") else none

module _ {d : Domain} where
  open d use {Float, Time, new_inr, new_instrument_key, float_nonpositive, format_float}

  unfoldable pub create :
      AlertAggregate d
      → (email symbol exchange : String) → Float
      → String
      → Time
      → AlertAggregate d × Option Error
  create a email symbol exchange target_price direction now =
      return_if (is_positive a.version) (a, some (message "eventsourcing: alert already created"))
        (return_if (email == "") (a, some (message "eventsourcing: email is required"))
          (return_if (symbol == "") (a, some (message "eventsourcing: symbol is required"))
            (return_if (float_nonpositive target_price)
              (
                a,
                some (
                    formatted "eventsourcing: target price must be positive, got %f"
                      (format_float target_price)),
              )
              (
                emit a (
                    alert_event (
                      alert_created (record {
                        alert_id = a.id;
                        email = email;
                        instrument = new_instrument_key exchange symbol;
                        target_price = new_inr target_price;
                        direction = direction;
                        timestamp = now;
                      }))),
                none,
              ))))

  unfoldable pub trigger : AlertAggregate d → Float → Time → AlertAggregate d × Option Error
  trigger a current_price now =
      on_error (can_trigger a.status) (λ e. (a, some (wrapped "eventsourcing: %w" e)))
        (
          emit a (
              alert_event (
                alert_triggered
                  (record { alert_id = a.id; current_price = current_price; timestamp = now }))),
          none,
        )

  unfoldable pub delete : AlertAggregate d → Time → AlertAggregate d × Option Error
  delete a now =
      on_error (can_delete a.status) (λ e. (a, some (wrapped "eventsourcing: %w" e)))
        (emit a (alert_event (alert_deleted (record { alert_id = a.id; timestamp = now }))), none)
