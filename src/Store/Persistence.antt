-- ===== src/Store/Persistence.antt =====
-- The order aggregate over the event store: what `ToStoredEvents` makes of an order is appended,
-- loaded and replayed (order_aggregate.go, store.go).
use kite_mcp_eventsourcing.Prelude.{
  ℕ, suc, ◌+◌, ◌^◌, ◌<◌, ◌≤◌, String, true, ◌≡◌, ◌≢◌, refl, sym, ap, subst, ◌∙◌, inl, inr, none,
  some, List, [], ◌∷◌, ◌++◌, map, length, All, arith,
}
use kite_mcp_eventsourcing.Prelude.Word.{Int64, signed_ltb}
use kite_mcp_eventsourcing.Collections.Ascending.{Ascends}
use kite_mcp_eventsourcing.Result.{Result, ok, Result-cases, ok-injective, ◌>>=◌}
use kite_mcp_eventsourcing.Domain.{Domain, DomainLaws}
use kite_mcp_eventsourcing.Event.{Event}
use kite_mcp_eventsourcing.Payload.{Json, JsonLaws}
use kite_mcp_eventsourcing.Stored.{StoredEvent, replay_stored, load_from_events}
use kite_mcp_eventsourcing.Stored.RoundTrip.{IsNumbered}
use kite_mcp_eventsourcing.Aggregate.{pending_events}
use kite_mcp_eventsourcing.Database.{EventRow, Rows, Database}
use kite_mcp_eventsourcing.Database.Laws.{Tables, complete, DatabaseLaws}
use kite_mcp_eventsourcing.Store.{append, load_events}
use kite_mcp_eventsourcing.Store.RoundTrip.{IsPlain, AllSaved, append-load_events}
use kite_mcp_eventsourcing.Order.{OrderAggregate, aggregate_type, clear_pending}
use kite_mcp_eventsourcing.Order.Lifecycle.{Command}
use kite_mcp_eventsourcing.Order.History.{run_order, continue_order}
use kite_mcp_eventsourcing.Order.Storage.{
  to_stored_events, load_order_from_events, deserialize_order_event, deserialize_public,
}
use kite_mcp_eventsourcing.Order.RoundTrip.{
  IsEncodableEvent, load-to_stored_events, load_order-continue_order,
}

module _ {d : Domain} where
  AllSaved-front :
      (front es saved : List (StoredEvent d))
      → AllSaved es saved
      → AllSaved (front ++ es) (front ++ saved)
  AllSaved-front [] es saved h = h
  AllSaved-front (f ∷ front) es saved h = ((f.id, refl, inl refl), AllSaved-front front es saved h)

  IsNumbered-above :
      (id kind : String) (start : Int64) (low i : ℕ) (es : List (StoredEvent d))
      → low < start + i
      → start + i + length es ≤ 2 ^ 63
      → IsNumbered id kind start i es
      → All (λ n. signed_ltb low n ≡ true) (map (λ e. e.sequence) es)
  IsNumbered-above id kind start low i [] above small h = tt
  IsNumbered-above id kind start low i (e ∷ es) above small (_, _, at, h) = (
    ground (arith, at),
    IsNumbered-above id kind start low (suc i) es (omega (arith, above)) (omega (arith, small)) h,
  )

  IsNumbered-Ascends :
      (id kind : String) (start : Int64) (i : ℕ) (es : List (StoredEvent d))
      → start + i + length es ≤ 2 ^ 63
      → IsNumbered id kind start i es
      → Ascends signed_ltb (map (λ e. e.sequence) es)
  IsNumbered-Ascends id kind start i [] small h = tt
  IsNumbered-Ascends id kind start i (e ∷ es) small (_, _, at, h) = (
    IsNumbered-above id kind start e.sequence (suc i) es (omega (arith, at, small))
        (omega (arith, small)) h,
    IsNumbered-Ascends id kind start (suc i) es (omega (arith, small)) h,
  )

  IsNumbered-aggregate :
      (id kind : String) (start : Int64) (i : ℕ) (es : List (StoredEvent d))
      → IsNumbered id kind start i es
      → All (λ e. e.aggregate_id ≡ id) es
  IsNumbered-aggregate id kind start i [] h = tt
  IsNumbered-aggregate id kind start i (e ∷ es) (of, _, _, h) =
      (of, IsNumbered-aggregate id kind start (suc i) es h)

  module _ {A : Type 0} (deserialize : StoredEvent d → Result (Event d))
      (blind : (s : StoredEvent d) (id : String)
        → deserialize (record s { id = id }) ≡ deserialize s)
      (apply : A → Event d → A) where
    replay_stored-saved :
        (a : A) (es saved : List (StoredEvent d))
        → AllSaved es saved
        → replay_stored deserialize apply a saved ≡ replay_stored deserialize apply a es
    unfolding replay_stored
    replay_stored-saved a [] [] h = refl
    replay_stored-saved a [] (f ∷ saved) h = elim h [ ]
    replay_stored-saved a (e ∷ es) [] h = elim h [ ]
    replay_stored-saved a (e ∷ es) (f ∷ saved) ((id, is, _), h) =
        elim (Result-cases (deserialize e)) [
          | inl (event, read) ↦
              rw (is, blind e id, read, replay_stored)
                (replay_stored-saved (apply a event) es saved h)
          | inr (x, bad) ↦
              rw (is, blind e id, bad, replay_stored, ap (λ (s : StoredEvent d). s.event_type) is)
        ]

    load_from_events-saved :
        (no_events : String) (fresh : String → A) (clear : A → A) (es saved : List (StoredEvent d))
        → AllSaved es saved
        → load_from_events no_events deserialize apply fresh clear saved
          ≡ load_from_events no_events deserialize apply fresh clear es
    unfolding load_from_events
    load_from_events-saved m fresh clear [] [] h = refl
    load_from_events-saved m fresh clear [] (f ∷ saved) h = elim h [ ]
    load_from_events-saved m fresh clear (e ∷ es) [] h = elim h [ ]
    load_from_events-saved m fresh clear (e ∷ es) (f ∷ saved) h =
        let of : f.aggregate_id ≡ e.aggregate_id =
          ap (λ (s : StoredEvent d). s.aggregate_id) h.0.1 in
        ap (λ (r : Result A). r >>= λ agg. ok (clear agg))
          (replay_stored-saved (fresh f.aggregate_id) (e ∷ es) (f ∷ saved) h
            ∙ ap (λ i. replay_stored deserialize apply (fresh i) (e ∷ es)) of)

deserialize_order_event-blind :
    {d : Domain} (json : Json d) (s : StoredEvent d) (id : String)
    → deserialize_order_event json (record s { id = id }) ≡ deserialize_order_event json s
unfolding deserialize_order_event deserialize_public
deserialize_order_event-blind json s id = refl

module _ {d : Domain} {db : Database d} {tables : db.World → Tables}
    (db_laws : DatabaseLaws db tables) (laws : DomainLaws d) {json : Json d}
    {IsEncodable : d.Float → Type 0} (encodes : JsonLaws json IsEncodable) where
  open db use {World, select_by_aggregate}

  -- An order through the store. Take any calls on a new order that leave events pending, all of
  -- whose prices can be written as JSON, and the rows that `ToStoredEvents` gives for it, numbered
  -- below 2 ^ 63, whose times and payloads read back. If the store has no events of the order,
  -- `Append` of the rows returns no error, and the rows of a later query come completely, then
  -- `LoadEvents` succeeds and `LoadOrderFromEvents` makes of the events it returns the order as it
  -- was, with nothing pending.
  pub load_order-append :
      (w : World) (id : String) (cs : List (Command d)) (start : Int64)
      (stored : List (StoredEvent d)) (rows : Rows) (answer : List EventRow)
      → All (IsEncodableEvent laws encodes) (pending_events (run_order id cs).base)
      → pending_events (run_order id cs).base ≢ []
      → to_stored_events json (run_order id cs) start ≡ ok stored
      → start + length stored ≤ 2 ^ 63
      → All (IsPlain db) stored
      → (load_events db w (run_order id cs).id).1 ≡ ok []
      → (append db w stored).1 ≡ none
      → (select_by_aggregate (append db w stored).0 (run_order id cs).id).1 ≡ ok rows
      → complete rows ≡ some answer
      → (events : List (StoredEvent d)) × ((load_events db
            (append db w stored).0
            (run_order id cs).id).1
          ≡ ok events)
        × (load_order_from_events json events ≡ ok (clear_pending (run_order id cs)))
  unfolding load_order_from_events
  load_order-append w id cs start stored rows answer enc some_event made small plain fresh done came
        complete =
      let (made', stored_ok, numbered', loaded') =
        load-to_stored_events laws encodes id cs start enc some_event in
      let same : made' ≡ stored = ok-injective (sym stored_ok ∙ made) in
      let numbered : IsNumbered (run_order id cs).id aggregate_type start 0 stored =
        subst (IsNumbered (run_order id cs).id aggregate_type start 0) same numbered' in
      let loaded : load_order_from_events json stored ≡ ok (clear_pending (run_order id cs)) =
        ap (load_order_from_events json) (sym same) ∙ loaded' in
      let (saved, all_saved, got) =
        append-load_events db_laws w (run_order id cs).id [] stored rows answer fresh done
          (IsNumbered-aggregate _ _ _ _ stored numbered) plain
          (IsNumbered-Ascends _ _ start 0 stored (omega (arith, small)) numbered) came complete in
      (
        saved,
        got,
        load_from_events-saved _ (deserialize_order_event-blind json) _ _ _ _ stored saved all_saved
            ∙ loaded,
      )

  -- An order through the store, again. Load the events of an order and the order from them, and
  -- take any calls on it, such that all prices in its pending events can be written as JSON, and
  -- the rows that `ToStoredEvents` gives for it, whose times and payloads read back and whose
  -- sequences go on ascending. If `Append` of the rows returns no error and the rows of a later
  -- query come completely, then `LoadEvents` succeeds, and `LoadOrderFromEvents` makes of the events
  -- that it returns the order as the calls left it, with nothing pending.
  pub load_order-append_more :
      (w : World) (old : List (StoredEvent d)) (o : OrderAggregate d) (cs : List (Command d))
      (start : Int64) (stored : List (StoredEvent d)) (rows : Rows) (answer : List EventRow)
      → (load_events db w o.id).1 ≡ ok old
      → load_order_from_events json old ≡ ok o
      → All (IsEncodableEvent laws encodes) (pending_events (continue_order o cs).base)
      → to_stored_events json (continue_order o cs) start ≡ ok stored
      → Ascends signed_ltb (map (λ e. e.sequence) (old ++ stored))
      → All (IsPlain db) stored
      → (append db w stored).1 ≡ none
      → (select_by_aggregate (append db w stored).0 o.id).1 ≡ ok rows
      → complete rows ≡ some answer
      → (events : List (StoredEvent d)) × ((load_events db (append db w stored).0 o.id).1
          ≡ ok events)
        × (load_order_from_events json events ≡ ok (clear_pending (continue_order o cs)))
  unfolding load_order_from_events
  load_order-append_more w old o cs start stored rows answer came loaded enc made order plain done
        came' complete =
      let (made', stored_ok, numbered, reloaded) =
        load_order-continue_order laws encodes old o cs start loaded enc in
      let same : made' ≡ stored = ok-injective (sym stored_ok ∙ made) in
      let (saved, all_saved, got) =
        append-load_events db_laws w o.id old stored rows answer came done
          (IsNumbered-aggregate _ _ _ _ stored
            (subst (IsNumbered o.id aggregate_type start 0) same numbered))
          plain order came' complete in
      (
        old ++ saved,
        got,
        load_from_events-saved _ (deserialize_order_event-blind json) _ _ _ _ (old ++ stored)
              (old ++ saved) (AllSaved-front old stored saved all_saved)
            ∙ ap (λ s. load_order_from_events json (old ++ s)) (sym same)
            ∙ reloaded,
      )
