-- ===== src/Projector/Refinement.antt =====
-- What the projector holds after any events (projection.go): for each id, the replay of the events
-- filed under that id, in their order, and nothing of any other event.
use kite_mcp_eventsourcing.Prelude.{
  String, Bool, true, false, ◌≡◌, ◌≢◌, refl, ap, ◌∙◌, ◌==◌, eq_iff, Option, none, some, List, [],
  ◌∷◌, foldl, arith, if◌then◌else◌, Bool-cases, inl, inr,
}
use kite_mcp_eventsourcing.Domain.{Domain}
use kite_mcp_eventsourcing.Event.{Event}
use kite_mcp_eventsourcing.Assoc.{lookup, insert, lookup-insert}
use kite_mcp_eventsourcing.Order
use kite_mcp_eventsourcing.Order.{OrderAggregate, new_order_aggregate}
use kite_mcp_eventsourcing.Alert
use kite_mcp_eventsourcing.Alert.{AlertAggregate, new_alert_aggregate}
use kite_mcp_eventsourcing.Position
use kite_mcp_eventsourcing.Position.{PositionAggregate, new_position_aggregate}
use kite_mcp_eventsourcing.Projector.{
  Projector, new_projector, order_key, alert_key, position_key, file_under, handle_order_event,
  handle_alert_event, handle_position_event, get_order, get_alert, get_position,
}

module _ {d : Domain} where
  -- the event goes to every handler; each takes its own and leaves the rest
  abbrev pub handle : Projector d → Event d → Projector d
  handle p event =
      handle_position_event (handle_alert_event (handle_order_event p event) event) event

  abbrev pub project : List (Event d) → Projector d
  project = foldl handle (new_projector d)

  -- What a stream makes of what was there: a first event makes an aggregate anew.
  abbrev pub grow :
      {A : Type 0}
      → (String → A)
      → (A → Event d → A)
      → String
      → Option A
      → List (Event d)
      → Option A
  grow fresh apply id o [] = o
  grow fresh apply id none (e ∷ es) = some (foldl apply (fresh id) (e ∷ es))
  grow fresh apply id (some a) (e ∷ es) = some (foldl apply a (e ∷ es))

  module _ (key : Event d → Option String) where
    abbrev pub is_for : String → Event d → Bool
    is_for id e = elim (key e) [ none ↦ false | some k ↦ k == id ]

    -- the events filed under `id`, in their order
    pub stream : String → List (Event d) → List (Event d)
    stream id [] = []
    stream id (e ∷ es) = if is_for id e then e ∷ stream id es else stream id es

    module _ {A : Type 0} (fresh : String → A) (apply : A → Event d → A) where
      -- The entry that a handler writes for `k` is the event applied to what was there.
      lookup-write :
          (k : String) (e : Event d) (m : List (String × A))
          → k ≢ ""
          → (id : String)
          → lookup id (file_under fresh apply (some k) e m)
            ≡ (if k == id then grow fresh apply k (lookup k m) (e ∷ []) else lookup id m)
      unfolding file_under
      lookup-write k e m some_k id =
          elim (lookup k m)
            as (λ o.
              lookup id (
                if k == "" then m else elim o [
                  | none ↦ insert k (apply (fresh k) e) m
                  | some agg ↦ insert k (apply agg e) m
                ])
              ≡ (if k == id then grow fresh apply k o (e ∷ []) else lookup id m)) [
                | none ↦
                    ground
                      (arith, eq_iff k "", eq_iff k id, lookup-insert k id (apply (fresh k) e) m)
                | some agg ↦
                    ground (arith, eq_iff k "", eq_iff k id, lookup-insert k id (apply agg e) m)
              ]

      lookup-file_under :
          (id : String) (e : Event d) (m : List (String × A))
          → id ≢ ""
          → lookup id (file_under fresh apply (key e) e m)
            ≡ (if is_for id e then grow fresh apply id (lookup id m) (e ∷ []) else lookup id m)
      unfolding file_under
      lookup-file_under id e m some_id =
          elim (key e)
            as (λ o. lookup id (file_under fresh apply o e m) ≡ (
              if elim o [ none ↦ false | some k ↦ k == id ]
              then grow fresh apply id (lookup id m) (e ∷ [])
              else lookup id m)) [
                | none ↦ refl
                | some k ↦ elim (Bool-cases (k == "")) [
                  | inl blank ↦ ground (arith, eq_iff k "", eq_iff k id)
                  | inr filled ↦
                      lookup-write k e m (λ h. ground (arith, eq_iff k "")) id
                      ∙ ground (arith, eq_iff k id)
                ]
              ]

      grow-grow :
          (id : String) (o : Option A) (e : Event d) (es : List (Event d))
          → grow fresh apply id (grow fresh apply id o (e ∷ [])) es ≡ grow fresh apply id o (e ∷ es)
      grow-grow id none e [] = refl
      grow-grow id none e (x ∷ es) = refl
      grow-grow id (some a) e [] = refl
      grow-grow id (some a) e (x ∷ es) = refl

      lookup-foldl :
          (id : String) (es : List (Event d)) (m : List (String × A))
          → id ≢ ""
          → lookup id (foldl (λ m e. file_under fresh apply (key e) e m) m es)
            ≡ grow fresh apply id (lookup id m) (stream id es)
      unfolding stream
      lookup-foldl id [] m some_id = refl
      lookup-foldl id (e ∷ es) m some_id =
          rw (lookup-foldl id es (file_under fresh apply (key e) e m) some_id) (
            rw (lookup-file_under id e m some_id)
              (elim (is_for id e)
                as (λ b.
                  grow fresh apply id
                    (if b then grow fresh apply id (lookup id m) (e ∷ []) else lookup id m)
                    (stream id es)
                  ≡ grow fresh apply id (lookup id m)
                      (if b then e ∷ stream id es else stream id es)) [
                        | true ↦ grow-grow id (lookup id m) e (stream id es)
                        | false ↦ refl
                      ]))

module _ {d : Domain} where
  pub orders-project :
      (es : List (Event d)) (p : Projector d)
      → (foldl handle p es).orders
        ≡ foldl
            (λ m e. file_under (new_order_aggregate d) Order.apply (order_key e) e m)
            p.orders
            es
  unfolding handle_order_event handle_alert_event handle_position_event
  orders-project [] p = refl
  orders-project (e ∷ es) p = orders-project es (handle p e)

  pub alerts-project :
      (es : List (Event d)) (p : Projector d)
      → (foldl handle p es).alerts
        ≡ foldl
            (λ m e. file_under (new_alert_aggregate d) Alert.apply (alert_key e) e m)
            p.alerts
            es
  unfolding handle_order_event handle_alert_event handle_position_event
  alerts-project [] p = refl
  alerts-project (e ∷ es) p = alerts-project es (handle p e)

  positions-project :
      (es : List (Event d)) (p : Projector d)
      → (foldl handle p es).positions
        ≡ foldl
            (λ m e. file_under (new_position_aggregate d) Position.apply (position_key e) e m)
            p.positions
            es
  unfolding handle_order_event handle_alert_event handle_position_event
  positions-project [] p = refl
  positions-project (e ∷ es) p = positions-project es (handle p e)

  -- For every list of events and every id that is not empty, the order that the projector then has
  -- under the id is the replay, from a new order, of the order events filed under it in their
  -- order, and there is none if there is no such event.
  pub get_order-project :
      (es : List (Event d)) (id : String)
      → id ≢ ""
      → get_order (project es) id
        ≡ grow (new_order_aggregate d) Order.apply id none (stream order_key id es)
  unfolding get_order new_projector lookup
  get_order-project es id some_id =
      ap (lookup id) (orders-project es (new_projector d))
      ∙ lookup-foldl order_key (new_order_aggregate d) Order.apply id es [] some_id

  -- For every list of events and every id that is not empty, the alert that the projector then has
  -- under the id is the replay, from a new alert, of the alert events filed under it in their
  -- order, and there is none if there is no such event.
  pub get_alert-project :
      (es : List (Event d)) (id : String)
      → id ≢ ""
      → get_alert (project es) id
        ≡ grow (new_alert_aggregate d) Alert.apply id none (stream alert_key id es)
  unfolding get_alert new_projector lookup
  get_alert-project es id some_id =
      ap (lookup id) (alerts-project es (new_projector d))
      ∙ lookup-foldl alert_key (new_alert_aggregate d) Alert.apply id es [] some_id

  -- For every list of events and every id that is not empty, the position that the projector then
  -- has under the id is the replay, from a new position, of the position events whose email,
  -- instrument and product give that id, in their order, and there is none if there is no such
  -- event.
  pub get_position-project :
      (es : List (Event d)) (id : String)
      → id ≢ ""
      → get_position (project es) id
        ≡ grow (new_position_aggregate d) Position.apply id none (stream position_key id es)
  unfolding get_position new_projector lookup
  get_position-project es id some_id =
      ap (lookup id) (positions-project es (new_projector d))
      ∙ lookup-foldl position_key (new_position_aggregate d) Position.apply id es [] some_id
