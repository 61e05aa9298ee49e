-- ===== src/Order/Root.antt =====
-- `OrderAggregate` (order_aggregate.go) as an implementation of `AggregateRoot`, with its laws.
use kite_mcp_eventsourcing.Prelude.{◌≡◌, refl, [], ◌∷◌, ◌++◌}
use kite_mcp_eventsourcing.Domain.{Domain}
use kite_mcp_eventsourcing.Event.{Event, OrderEvent, order_event, order_placed, order_placed_event}
use kite_mcp_eventsourcing.Aggregate.{AggregateRoot, BaseAggregate, aggregate_id, pending_events}
use kite_mcp_eventsourcing.Aggregate.Laws.{RootLaws, Emitter}
use kite_mcp_eventsourcing.Order.{
  OrderAggregate, aggregate_type, apply, apply_fields, emit, clear_pending,
}

module _ (d : Domain) where
  abbrev pub order_root : AggregateRoot d (OrderAggregate d)
  order_root = record {
    root_id = λ o. aggregate_id o.base;
    root_type = λ o. aggregate_type;
    root_version = λ o. o.base.version;
    root_apply = apply;
    root_pending = λ o. pending_events o.base;
    root_clear = clear_pending;
  }

  base-apply_fields : (o : OrderAggregate d) (e : Event d) → (apply_fields o e).base ≡ o.base
  unfolding apply_fields
  base-apply_fields o (order_event (order_placed e)) = refl
  base-apply_fields o (order_event _) = refl
  base-apply_fields o (order_placed_event e) = refl
  base-apply_fields o _ = refl

  -- `Apply` reads nothing of the bookkeeping.
  apply_fields-base :
      (o : OrderAggregate d) (b : BaseAggregate d) (e : Event d)
      → apply_fields (record o { base = b }) e ≡ record (apply_fields o e) { base = b }
  unfolding apply_fields
  apply_fields-base o b (order_event (order_placed e)) = refl
  apply_fields-base o b (order_event _) = refl
  apply_fields-base o b (order_placed_event e) = refl
  apply_fields-base o b _ = refl

  pub order_laws : RootLaws order_root
  unfolding aggregate_id pending_events clear_pending apply
  order_laws = record {
    version-apply = λ o e. rw base-apply_fields;
    id-apply = λ o e. rw base-apply_fields;
    pending-apply = λ o e. rw base-apply_fields;
    clear-apply =
        λ o e. rw (apply_fields-base o (record o.base { pending = [] }) e, base-apply_fields);
    pending-clear = λ o. refl;
    version-clear = λ o. refl;
    id-clear = λ o. refl;
  }

  pub clear-emit :
      (o : OrderAggregate d) (e : Event d) → clear_pending (emit o e) ≡ apply (clear_pending o) e
  unfolding clear_pending emit
  clear-emit o e = rw (apply_fields-base o (record o.base { pending = [] }) e, base-apply_fields)

  pub pending-emit :
      (o : OrderAggregate d) (e : Event d)
      → pending_events (emit o e).base ≡ pending_events o.base ++ e ∷ []
  unfolding pending_events emit
  pending-emit o e = rw base-apply_fields

  pub id-emit : (o : OrderAggregate d) (e : Event d) → (emit o e).id ≡ o.id
  unfolding emit
  id-emit o e = rw base-apply_fields

  abbrev pub order_emitter : Emitter (OrderEvent d) order_root
  order_emitter = record {
    inject = order_event;
    emit = λ o e. emit o (order_event e);
    clear-emit = λ o e. clear-emit o (order_event e);
    pending-emit = λ o e. pending-emit o (order_event e);
  }
