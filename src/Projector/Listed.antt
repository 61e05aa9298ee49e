-- ===== src/Projector/Listed.antt =====
-- What the lists of projection.go hold after any events: exactly the aggregates that a lookup under
-- their id finds and that pass the test, sorted by time.
use kite_mcp_eventsourcing.Prelude.{
  String, Bool, true, ◌≡◌, refl, sym, subst, eq_iff, some, List, [], Memᴰ, ◌↔◌, arith,
}
use mathlib.Core.List.Permᴰ
use kite_mcp_eventsourcing.Domain.{Domain}
use kite_mcp_eventsourcing.Event.{Event}
use kite_mcp_eventsourcing.Aggregate.{aggregate_id}
use kite_mcp_eventsourcing.Assoc.{lookup}
use kite_mcp_eventsourcing.Collections.{
  Collections, CollectionLaws, IsWeakOrder, IsSorted, filtered, Permᴰ-mem, Memᴰ-filtered,
}
use kite_mcp_eventsourcing.Order
use kite_mcp_eventsourcing.Order.{OrderStatus, OrderAggregate, new_order_aggregate}
use kite_mcp_eventsourcing.Order.Root.{order_laws}
use kite_mcp_eventsourcing.Order.Guards.{IsActive}
use kite_mcp_eventsourcing.Alert
use kite_mcp_eventsourcing.Alert.{
  AlertStatus, active, is_active, AlertAggregate, new_alert_aggregate,
}
use kite_mcp_eventsourcing.Alert.Root.{alert_laws}
use kite_mcp_eventsourcing.Projector.{new_projector, order_key, alert_key, get_order, get_alert}
use kite_mcp_eventsourcing.Projector.Refinement.{project, orders-project, alerts-project}
use kite_mcp_eventsourcing.Projector.Lists.{
  is_working, list_active_orders, list_orders_for_email, list_active_alerts,
}
use kite_mcp_eventsourcing.Projector.Filed.{IsFiled, IsFiled-foldl, lookup-mem, mem-lookup}

-- A weak order of times is one of what has a time.
IsWeakOrder-by :
    {A B : Type 0} (less : B → B → Bool) (f : A → B)
    → IsWeakOrder less
    → IsWeakOrder (λ x y. less (f x) (f y))
IsWeakOrder-by less f w = record {
  asymmetric = λ x y. w.asymmetric (f x) (f y);
  negatively_transitive = λ x y z. w.negatively_transitive (f x) (f y) (f z);
}

is_working-IsActive : (s : OrderStatus) → (is_working s ≡ true) ↔ IsActive s
is_working-IsActive s = ground arith

is_active_iff : (s : AlertStatus) → (is_active s ≡ true) ↔ (s ≡ active)
is_active_iff s = ground arith

module _ {d : Domain} where
  IsFiled-orders : (es : List (Event d)) → IsFiled (λ o. o.id) (project es).orders
  unfolding aggregate_id new_order_aggregate new_projector
  IsFiled-orders es = subst (IsFiled (λ o. o.id)) (sym (orders-project es (new_projector d))) (
      IsFiled-foldl (λ o. o.id) (new_order_aggregate d) (λ id. refl) Order.apply
        ((order_laws d).id-apply) order_key es [] tt)

  IsFiled-alerts : (es : List (Event d)) → IsFiled (λ a. a.id) (project es).alerts
  unfolding aggregate_id new_alert_aggregate new_projector
  IsFiled-alerts es = subst (IsFiled (λ a. a.id)) (sym (alerts-project es (new_projector d))) (
      IsFiled-foldl (λ a. a.id) (new_alert_aggregate d) (λ id. refl) Alert.apply
        ((alert_laws d).id-apply) alert_key es [] tt)

module _ {c : Collections} (laws : CollectionLaws c) where
  open c use {range, sort_slice}

  -- What a list that is filtered and sorted holds of a map.
  Memᴰ-sort_slice :
      {A : Type 0} (less : A → A → Bool) (keeps : A → Bool) (id_of : A → String)
      (m : List (String × A))
      → IsFiled id_of m
      → (a : A)
      → Memᴰ a (sort_slice less (filtered keeps (range m)))
        ↔ ((lookup (id_of a) m ≡ some a) × (keeps a ≡ true))
  Memᴰ-sort_slice less keeps id_of m filed a = (
    λ h.
        let (visited, kept) =
          (Memᴰ-filtered keeps a (range m)).0 (Permᴰ-mem (laws.sort_slice-Permᴰ less _) h) in
        (mem-lookup id_of a m filed (Permᴰ-mem (laws.range-values m) visited), kept),
    λ (found, kept). Permᴰ-mem (Permᴰ.symm (laws.sort_slice-Permᴰ less _)) (
        (Memᴰ-filtered keeps a (range m)).1 (
          Permᴰ-mem (Permᴰ.symm (laws.range-values m)) (lookup-mem id_of (id_of a) a m found),
          kept,
        )),
  )

  module _ {d : Domain} (before_order : IsWeakOrder d.before) where
    open d use {before}

    -- For a `range` that visits each entry once, a `sort.Slice` as documented and a `time.Before`
    -- that is a weak order, after any events: the active orders that are listed are exactly those
    -- that a lookup under their id finds and that are placed or modified, and none is listed before
    -- one that was placed earlier.
    pub list_active_orders-project :
        (es : List (Event d))
        → ((o : OrderAggregate d)
            → Memᴰ o (list_active_orders c (project es))
              ↔ ((get_order (project es) o.id ≡ some o) × IsActive o.status))
          × IsSorted (λ x y. before x.placed_at y.placed_at) (list_active_orders c (project es))
    unfolding list_active_orders get_order
    list_active_orders-project es = (
      λ o.
          let (there, back) = Memᴰ-sort_slice _ _ (λ o. o.id) _ (IsFiled-orders es) o in
          let (on, off) = is_working-IsActive o.status in
          (λ h. (let (f, k) = there h in (f, on k)), λ (f, k). back (f, off k)),
      laws.sort_slice-IsSorted _ _ (IsWeakOrder-by before (λ o. o.placed_at) before_order),
    )

    -- For a `range` that visits each entry once, a `sort.Slice` as documented and a `time.Before`
    -- that is a weak order, after any events: the orders that are listed for an email are exactly
    -- those that a lookup under their id finds and that have that email, in whatever status, and
    -- none is listed before one that was placed earlier.
    pub list_orders_for_email-project :
        (es : List (Event d)) (email : String)
        → ((o : OrderAggregate d)
            → Memᴰ o (list_orders_for_email c (project es) email)
              ↔ ((get_order (project es) o.id ≡ some o) × (o.email ≡ email)))
          × IsSorted
              (λ x y. before x.placed_at y.placed_at)
              (list_orders_for_email c (project es) email)
    unfolding list_orders_for_email get_order
    list_orders_for_email-project es email = (
      λ o.
          let (there, back) = Memᴰ-sort_slice _ _ (λ o. o.id) _ (IsFiled-orders es) o in
          let (on, off) = eq_iff o.email email in
          (λ h. (let (f, k) = there h in (f, on k)), λ (f, k). back (f, off k)),
      laws.sort_slice-IsSorted _ _ (IsWeakOrder-by before (λ o. o.placed_at) before_order),
    )

    -- For a `range` that visits each entry once, a `sort.Slice` as documented and a `time.Before`
    -- that is a weak order, after any events: the active alerts that are listed are exactly those
    -- that a lookup under their id finds and that are active, and none is listed before one that
    -- was created earlier.
    pub list_active_alerts-project :
        (es : List (Event d))
        → ((a : AlertAggregate d)
            → Memᴰ a (list_active_alerts c (project es))
              ↔ ((get_alert (project es) a.id ≡ some a) × (a.status ≡ active)))
          × IsSorted (λ x y. before x.created_at y.created_at) (list_active_alerts c (project es))
    unfolding list_active_alerts get_alert
    list_active_alerts-project es = (
      λ a.
          let (there, back) = Memᴰ-sort_slice _ _ (λ a. a.id) _ (IsFiled-alerts es) a in
          let (on, off) = is_active_iff a.status in
          (λ h. (let (f, k) = there h in (f, on k)), λ (f, k). back (f, off k)),
      laws.sort_slice-IsSorted _ _ (IsWeakOrder-by before (λ a. a.created_at) before_order),
    )
