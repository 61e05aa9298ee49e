-- ===== src/Position/Root.antt =====
-- `PositionAggregate` (position_aggregate.go) as an implementation of `AggregateRoot`, with its laws.
use kite_mcp_eventsourcing.Prelude.{◌≡◌, refl, [], ◌∷◌, ◌++◌}
use kite_mcp_eventsourcing.Domain.{Domain}
use kite_mcp_eventsourcing.Event.{
  Event, PositionEvent, position_event, position_opened, position_opened_event,
}
use kite_mcp_eventsourcing.Aggregate.{AggregateRoot, BaseAggregate, aggregate_id, pending_events}
use kite_mcp_eventsourcing.Aggregate.Laws.{RootLaws, Emitter}
use kite_mcp_eventsourcing.Aggregate.Persistence.{IsFresh}
use kite_mcp_eventsourcing.Position.{
  PositionAggregate, aggregate_type, new_position_aggregate, apply, apply_fields, emit,
  clear_pending,
}

module _ (d : Domain) where
  abbrev pub position_root : AggregateRoot d (PositionAggregate d)
  position_root = record {
    root_id = λ p. aggregate_id p.base;
    root_type = λ p. aggregate_type;
    root_version = λ p. p.base.version;
    root_apply = apply;
    root_pending = λ p. pending_events p.base;
    root_clear = clear_pending;
  }

  base-apply_fields : (p : PositionAggregate d) (e : Event d) → (apply_fields p e).base ≡ p.base
  unfolding apply_fields
  base-apply_fields p (position_event (position_opened e)) = refl
  base-apply_fields p (position_event _) = refl
  base-apply_fields p (position_opened_event e) = refl
  base-apply_fields p _ = refl

  -- `Apply` reads nothing of the bookkeeping.
  apply_fields-base :
      (p : PositionAggregate d) (b : BaseAggregate d) (e : Event d)
      → apply_fields (record p { base = b }) e ≡ record (apply_fields p e) { base = b }
  unfolding apply_fields
  apply_fields-base p b (position_event (position_opened e)) = refl
  apply_fields-base p b (position_event _) = refl
  apply_fields-base p b (position_opened_event e) = refl
  apply_fields-base p b _ = refl

  pub position_laws : RootLaws position_root
  unfolding aggregate_id pending_events clear_pending apply
  position_laws = record {
    version-apply = λ p e. rw base-apply_fields;
    id-apply = λ p e. rw base-apply_fields;
    pending-apply = λ p e. rw base-apply_fields;
    clear-apply =
        λ p e. rw (apply_fields-base p (record p.base { pending = [] }) e, base-apply_fields);
    pending-clear = λ p. refl;
    version-clear = λ p. refl;
    id-clear = λ p. refl;
  }

  pub clear-emit :
      (p : PositionAggregate d) (e : Event d) → clear_pending (emit p e) ≡ apply (clear_pending p) e
  unfolding clear_pending emit
  clear-emit p e = rw (apply_fields-base p (record p.base { pending = [] }) e, base-apply_fields)

  pub pending-emit :
      (p : PositionAggregate d) (e : Event d)
      → pending_events (emit p e).base ≡ pending_events p.base ++ e ∷ []
  unfolding pending_events emit
  pending-emit p e = rw base-apply_fields

  abbrev pub position_emitter : Emitter (PositionEvent d) position_root
  position_emitter = record {
    inject = position_event;
    emit = λ p e. emit p (position_event e);
    clear-emit = λ p e. clear-emit p (position_event e);
    pending-emit = λ p e. pending-emit p (position_event e);
  }

  pub position-IsFresh : IsFresh position_emitter (new_position_aggregate d)
  unfolding new_position_aggregate aggregate_id pending_events clear_pending emit
  position-IsFresh = record {
    id-fresh = λ id. refl;
    pending-fresh = λ id. refl;
    clear-fresh = λ id. refl;
    clear-clear = λ p. refl;
    id-emit = λ p e. rw base-apply_fields;
  }
