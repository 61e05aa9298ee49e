-- ===== src/Alert/Root.antt =====
-- `AlertAggregate` (alert_aggregate.go) as an implementation of `AggregateRoot`, with its laws.
use kite_mcp_eventsourcing.Prelude.{◌≡◌, refl, [], ◌∷◌, ◌++◌}
use kite_mcp_eventsourcing.Domain.{Domain}
use kite_mcp_eventsourcing.Event.{
  Event, AlertEvent, alert_event, alert_created, alert_created_event,
}
use kite_mcp_eventsourcing.Aggregate.{AggregateRoot, BaseAggregate, aggregate_id, pending_events}
use kite_mcp_eventsourcing.Aggregate.Laws.{RootLaws, Emitter}
use kite_mcp_eventsourcing.Aggregate.Persistence.{IsFresh}
use kite_mcp_eventsourcing.Alert.{
  AlertAggregate, aggregate_type, new_alert_aggregate, apply, apply_fields, emit, clear_pending,
}

module _ (d : Domain) where
  abbrev pub alert_root : AggregateRoot d (AlertAggregate d)
  alert_root = record {
    root_id = λ a. aggregate_id a.base;
    root_type = λ a. aggregate_type;
    root_version = λ a. a.base.version;
    root_apply = apply;
    root_pending = λ a. pending_events a.base;
    root_clear = clear_pending;
  }

  base-apply_fields : (a : AlertAggregate d) (e : Event d) → (apply_fields a e).base ≡ a.base
  unfolding apply_fields
  base-apply_fields a (alert_event (alert_created e)) = refl
  base-apply_fields a (alert_event _) = refl
  base-apply_fields a (alert_created_event e) = refl
  base-apply_fields a _ = refl

  -- `Apply` reads nothing of the bookkeeping.
  apply_fields-base :
      (a : AlertAggregate d) (b : BaseAggregate d) (e : Event d)
      → apply_fields (record a { base = b }) e ≡ record (apply_fields a e) { base = b }
  unfolding apply_fields
  apply_fields-base a b (alert_event (alert_created e)) = refl
  apply_fields-base a b (alert_event _) = refl
  apply_fields-base a b (alert_created_event e) = refl
  apply_fields-base a b _ = refl

  pub alert_laws : RootLaws alert_root
  unfolding aggregate_id pending_events clear_pending apply
  alert_laws = record {
    version-apply = λ a e. rw base-apply_fields;
    id-apply = λ a e. rw base-apply_fields;
    pending-apply = λ a e. rw base-apply_fields;
    clear-apply =
        λ a e. rw (apply_fields-base a (record a.base { pending = [] }) e, base-apply_fields);
    pending-clear = λ a. refl;
    version-clear = λ a. refl;
    id-clear = λ a. refl;
  }

  pub clear-emit :
      (a : AlertAggregate d) (e : Event d) → clear_pending (emit a e) ≡ apply (clear_pending a) e
  unfolding clear_pending emit
  clear-emit a e = rw (apply_fields-base a (record a.base { pending = [] }) e, base-apply_fields)

  pub pending-emit :
      (a : AlertAggregate d) (e : Event d)
      → pending_events (emit a e).base ≡ pending_events a.base ++ e ∷ []
  unfolding pending_events emit
  pending-emit a e = rw base-apply_fields

  abbrev pub alert_emitter : Emitter (AlertEvent d) alert_root
  alert_emitter = record {
    inject = alert_event;
    emit = λ a e. emit a (alert_event e);
    clear-emit = λ a e. clear-emit a (alert_event e);
    pending-emit = λ a e. pending-emit a (alert_event e);
  }

  pub alert-IsFresh : IsFresh alert_emitter (new_alert_aggregate d)
  unfolding new_alert_aggregate aggregate_id pending_events clear_pending emit
  alert-IsFresh = record {
    id-fresh = λ id. refl;
    pending-fresh = λ id. refl;
    clear-fresh = λ id. refl;
    clear-clear = λ a. refl;
    id-emit = λ a e. rw base-apply_fields;
  }
