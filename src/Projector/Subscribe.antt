-- ===== src/Projector/Subscribe.antt =====
-- projection.go: `Subscribe`, over the event dispatcher of kite-mcp-domain, and what a dispatched
-- event then does to the projector.
use kite_mcp_eventsourcing.Prelude.{
  String, ◌≡◌, refl, ◌∙◌, ◌==◌, Option, none, some, List, [], ◌∷◌, foldl, foldl-ext, if◌then◌else◌,
  All, true, false,
}
use kite_mcp_eventsourcing.Domain.{Domain}
use kite_mcp_eventsourcing.Event.{
  Event, order_placed_event, order_modified_event, order_cancelled_event, order_filled_event,
  alert_created_event, alert_triggered_event, alert_deleted_event, position_opened_event,
  position_closed_event, order_event, alert_event, position_event, session_created_event,
  session_cleared_event, session_invalidated_event, foreign,
}
use kite_mcp_eventsourcing.Projector.{
  Projector, new_projector, order_key, alert_key, position_key, file_under, handle_order_event,
  handle_alert_event, handle_position_event,
}
use kite_mcp_eventsourcing.Projector.Refinement.{handle, project}

-- `domain.EventDispatcher` as far as the projector goes: a handler takes the projector and gives
-- the new one. `event_type` is the method `EventType` of any event.
pub record Dispatching (d : Domain) : Type 1 where
  pub Dispatcher : Type 0
  pub event_type : Event d → String
  pub add_handler : Dispatcher → String → (Projector d → Event d → Projector d) → Dispatcher
  pub dispatch : Dispatcher → Event d → Projector d → Projector d

module _ {d : Domain} where
  order_ignores :
      (e : Event d) → order_key e ≡ none → (p : Projector d) → handle_order_event p e ≡ p
  unfolding handle_order_event file_under
  order_ignores e h p = rw h

  alert_ignores :
      (e : Event d) → alert_key e ≡ none → (p : Projector d) → handle_alert_event p e ≡ p
  unfolding handle_alert_event file_under
  alert_ignores e h p = rw h

  position_ignores :
      (e : Event d) → position_key e ≡ none → (p : Projector d) → handle_position_event p e ≡ p
  unfolding handle_position_event file_under
  position_ignores e h p = rw h

module _ {d : Domain} (x : Dispatching d) where
  open x use {Dispatcher, event_type, add_handler, dispatch}

  unfoldable pub subscribe : Option Dispatcher → Option Dispatcher
  subscribe none = none
  subscribe (some dispatcher) =
      let s = add_handler dispatcher "order.placed" handle_order_event in
      let s = add_handler s "order.modified" handle_order_event in
      let s = add_handler s "order.cancelled" handle_order_event in
      let s = add_handler s "order.filled" handle_order_event in
      let s = add_handler s "alert.created" handle_alert_event in
      let s = add_handler s "alert.triggered" handle_alert_event in
      let s = add_handler s "alert.deleted" handle_alert_event in
      let s = add_handler s "position.opened" handle_position_event in
      some (add_handler s "position.closed" handle_position_event)

  -- A handler that is added runs, after the ones before it, on the events of its type; the public
  -- events have the types of kite-mcp-domain.
  pub record DispatchingLaws : Type 0 where
    pub dispatch-add_handler :
        (s : Dispatcher) (t : String) (h : Projector d → Event d → Projector d) (e : Event d)
        (p : Projector d)
        → dispatch (add_handler s t h) e p
          ≡ (if event_type e == t then h (dispatch s e p) e else dispatch s e p)
    pub order_placed_type : (e : _) → event_type (order_placed_event e) ≡ "order.placed"
    pub order_modified_type : (e : _) → event_type (order_modified_event e) ≡ "order.modified"
    pub order_cancelled_type : (e : _) → event_type (order_cancelled_event e) ≡ "order.cancelled"
    pub order_filled_type : (e : _) → event_type (order_filled_event e) ≡ "order.filled"
    pub alert_created_type : (e : _) → event_type (alert_created_event e) ≡ "alert.created"
    pub alert_triggered_type : (e : _) → event_type (alert_triggered_event e) ≡ "alert.triggered"
    pub alert_deleted_type : (e : _) → event_type (alert_deleted_event e) ≡ "alert.deleted"
    pub position_opened_type : (e : _) → event_type (position_opened_event e) ≡ "position.opened"
    pub position_closed_type : (e : _) → event_type (position_closed_event e) ≡ "position.closed"

  module _ (laws : DispatchingLaws) where
    open laws use {dispatch-add_handler}

    -- what `subscribe` adds, in its order
    abbrev routes : List (String × (Projector d → Event d → Projector d))
    routes =
        ("order.placed", handle_order_event)
        ∷ ("order.modified", handle_order_event)
        ∷ ("order.cancelled", handle_order_event)
        ∷ ("order.filled", handle_order_event)
        ∷ ("alert.created", handle_alert_event)
        ∷ ("alert.triggered", handle_alert_event)
        ∷ ("alert.deleted", handle_alert_event)
        ∷ ("position.opened", handle_position_event)
        ∷ ("position.closed", handle_position_event)
        ∷ []

    -- the handlers of an event's type, one after the other
    abbrev route :
        Event d → Projector d → List (String × (Projector d → Event d → Projector d)) → Projector d
    route e = foldl (λ q r. if event_type e == r.0 then r.1 q e else q)

    dispatch-route :
        (s : Dispatcher)
        → ((e : Event d) (p : Projector d) → dispatch s e p ≡ p)
        → (s' : Dispatcher) × (subscribe (some s) ≡ some s')
          × ((e : Event d) (p : Projector d) → dispatch s' e p ≡ route e p routes)
    unfolding subscribe
    dispatch-route s quiet = (
      _,
      refl,
      λ e p. rw (
        dispatch-add_handler, dispatch-add_handler, dispatch-add_handler, dispatch-add_handler,
        dispatch-add_handler, dispatch-add_handler, dispatch-add_handler, dispatch-add_handler,
        dispatch-add_handler, quiet,
      ),
    )

    route-ignored :
        (e : Event d) (rs : List (String × (Projector d → Event d → Projector d))) (p : Projector d)
        → All (λ r. (q : Projector d) → r.1 q e ≡ q) rs
        → route e p rs ≡ p
    route-ignored e [] p h = refl
    route-ignored e (r ∷ rs) p h =
        elim (event_type e == r.0) as (λ b. route e (if b then r.1 p e else p) rs ≡ p) [
          | true ↦ rw (h.0 p) (route-ignored e rs p h.1)
          | false ↦ route-ignored e rs p h.1
        ]

    ignored :
        (e : Event d)
        → ((q : Projector d) → handle_order_event q e ≡ q)
        → ((q : Projector d) → handle_alert_event q e ≡ q)
        → ((q : Projector d) → handle_position_event q e ≡ q)
        → All (λ r. (q : Projector d) → r.1 q e ≡ q) routes
    ignored e o a p = (o, (o, (o, (o, (a, (a, (a, (p, (p, tt)))))))))

    -- an event that no handler takes
    handle-ignored :
        (e : Event d) (p : Projector d)
        → order_key e ≡ none
        → alert_key e ≡ none
        → position_key e ≡ none
        → route e p routes ≡ handle p e
    handle-ignored e p o a q =
        route-ignored e routes p
          (ignored e (order_ignores e o) (alert_ignores e a) (position_ignores e q))
        ∙ rw (order_ignores e o, alert_ignores e a, position_ignores e q)

    route-handle : (e : Event d) (p : Projector d) → route e p routes ≡ handle p e
    route-handle (order_placed_event e) p = rw (
      laws.order_placed_type e,
      alert_ignores (order_placed_event e) refl,
      position_ignores (order_placed_event e) refl,
    )
    route-handle (order_modified_event e) p = rw (
      laws.order_modified_type e,
      alert_ignores (order_modified_event e) refl,
      position_ignores (order_modified_event e) refl,
    )
    route-handle (order_cancelled_event e) p = rw (
      laws.order_cancelled_type e,
      alert_ignores (order_cancelled_event e) refl,
      position_ignores (order_cancelled_event e) refl,
    )
    route-handle (order_filled_event e) p = rw (
      laws.order_filled_type e,
      alert_ignores (order_filled_event e) refl,
      position_ignores (order_filled_event e) refl,
    )
    route-handle (alert_created_event e) p = rw (
      laws.alert_created_type e,
      order_ignores (alert_created_event e) refl,
      position_ignores (alert_created_event e) refl,
    )
    route-handle (alert_triggered_event e) p = rw (
      laws.alert_triggered_type e,
      order_ignores (alert_triggered_event e) refl,
      position_ignores (alert_triggered_event e) refl,
    )
    route-handle (alert_deleted_event e) p = rw (
      laws.alert_deleted_type e,
      order_ignores (alert_deleted_event e) refl,
      position_ignores (alert_deleted_event e) refl,
    )
    route-handle (position_opened_event e) p = rw (
      laws.position_opened_type e,
      order_ignores (position_opened_event e) refl,
      alert_ignores (position_opened_event e) refl,
    )
    route-handle (position_closed_event e) p = rw (
      laws.position_closed_type e,
      order_ignores (position_closed_event e) refl,
      alert_ignores (position_closed_event e) refl,
    )
    route-handle (order_event e) p = handle-ignored (order_event e) p refl refl refl
    route-handle (alert_event e) p = handle-ignored (alert_event e) p refl refl refl
    route-handle (position_event e) p = handle-ignored (position_event e) p refl refl refl
    route-handle (session_created_event e) p =
        handle-ignored (session_created_event e) p refl refl refl
    route-handle (session_cleared_event e) p =
        handle-ignored (session_cleared_event e) p refl refl refl
    route-handle (session_invalidated_event e) p =
        handle-ignored (session_invalidated_event e) p refl refl refl
    route-handle foreign p = handle-ignored foreign p refl refl refl

    -- For a dispatcher that runs an added handler, after the ones before it, on the events of its
    -- type, and whose handlers so far leave the projector alone: `Subscribe` gives a dispatcher
    -- with which any dispatched events make of the new projector what all three handlers make of
    -- them.
    pub dispatch-project :
        (s : Dispatcher)
        → ((e : Event d) (p : Projector d) → dispatch s e p ≡ p)
        → (s' : Dispatcher) × (subscribe (some s) ≡ some s')
          × ((es : List (Event d))
              → foldl (λ p e. dispatch s' e p) (new_projector d) es ≡ project es)
    dispatch-project s quiet =
        let (s', added, routed) = dispatch-route s quiet in
        (s', added, λ es. foldl-ext _ _ (λ p e. routed e p ∙ route-handle e p) (new_projector d) es)
