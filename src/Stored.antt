-- ===== src/Stored.antt =====
-- `StoredEvent` of store.go, and the two loops that the aggregates share: the replay of stored
-- events (`Load*FromEvents`) and the conversion of pending events (`To*StoredEvents`).
pub mod RoundTrip
pub mod Load
use kite_mcp_eventsourcing.Prelude.{ℕ, suc, String, List, [], ◌∷◌}
use kite_mcp_eventsourcing.Prelude.Word.{Int64, add}
use kite_mcp_eventsourcing.Result.{Result, ok, err, message, formatted_wrapped, ◌>>=◌}
use kite_mcp_eventsourcing.Domain.{Domain}
use kite_mcp_eventsourcing.Event.{Event}

module _ (d : Domain) where
  open d use {Time, Bytes}

  pub record StoredEvent : Type 0 where
    pub id : String
    pub aggregate_id : String
    pub aggregate_type : String
    pub event_type : String
    pub payload : Bytes
    pub occurred_at : Time
    pub sequence : Int64
    pub email_hash : String

module _ {d : Domain} {A : Type 0} where
  -- The loop of `Load*FromEvents`: each event is deserialized and applied, the first that cannot
  -- be ends the loop.
  unfoldable pub replay_stored :
      (StoredEvent d → Result (Event d)) → (A → Event d → A) → A → List (StoredEvent d) → Result A
  replay_stored deserialize apply agg [] = ok agg
  replay_stored deserialize apply agg (stored ∷ rest) = elim (deserialize stored) [
    | ok event ↦ replay_stored deserialize apply (apply agg event) rest
    | err e ↦ err (formatted_wrapped "eventsourcing: deserialize event %s: %w" stored.event_type e)
  ]

  -- `Load*FromEvents`: with no events an error, and otherwise the replay from a new aggregate with
  -- the id of the first event, with nothing pending.
  unfoldable pub load_from_events :
      String
      → (StoredEvent d → Result (Event d))
      → (A → Event d → A)
      → (String → A)
      → (A → A)
      → List (StoredEvent d)
      → Result A
  load_from_events no_events deserialize apply fresh clear [] = err (message no_events)
  load_from_events no_events deserialize apply fresh clear (first ∷ rest) = do
    agg ← replay_stored deserialize apply (fresh first.aggregate_id) (first ∷ rest)
    ok (clear agg)

module _ {d : Domain} where
  -- The loop of `To*StoredEvents`, where `convert` gives the stored form of one event at its
  -- sequence number: `i` counts the rounds.
  unfoldable pub store_pending :
      (Event d → Int64 → Result (StoredEvent d))
      → Int64
      → ℕ
      → List (Event d)
      → Result (List (StoredEvent d))
  store_pending convert start i [] = ok []
  store_pending convert start i (event ∷ rest) = do
    stored ← convert event (add start i)
    others ← store_pending convert start (suc i) rest
    ok (stored ∷ others)
