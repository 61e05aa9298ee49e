-- ===== src/Aggregate.antt =====
-- aggregate.go: the interface `AggregateRoot`, and `BaseAggregate`, the bookkeeping that every aggregate embeds. A method with a
-- pointer receiver returns the new record.
pub mod Laws
pub mod Persistence
use kite_mcp_eventsourcing.Prelude.{String, List, [], ◌∷◌, ◌++◌}
use kite_mcp_eventsourcing.Prelude.Word.{Int64, add}
use kite_mcp_eventsourcing.Domain.{Domain}
use kite_mcp_eventsourcing.Event.{Event}

module _ (d : Domain) where
  pub record BaseAggregate : Type 0 where
    pub id : String
    pub version : Int64
    pub pending : List (Event d)

  -- The methods of the interface, for an implementation `A`.
  pub record AggregateRoot (A : Type 0) : Type 0 where
    pub root_id : A → String
    pub root_type : A → String
    pub root_version : A → Int64
    pub root_apply : A → Event d → A
    pub root_pending : A → List (Event d)
    pub root_clear : A → A

  -- `BaseAggregate{id: id}`
  abbrev pub new_base : String → BaseAggregate
  new_base id = record { id = id; version = 0; pending = [] }

module _ {d : Domain} where
  unfoldable pub aggregate_id : BaseAggregate d → String
  aggregate_id b = b.id

  unfoldable pub pending_events : BaseAggregate d → List (Event d)
  pending_events b = b.pending

  unfoldable pub clear_pending_events : BaseAggregate d → BaseAggregate d
  clear_pending_events b = record b { pending = [] }

  unfoldable pub raise : BaseAggregate d → Event d → BaseAggregate d
  raise b event = record b { pending = b.pending ++ event ∷ [] }

  unfoldable pub increment_version : BaseAggregate d → BaseAggregate d
  increment_version b = record b { version = add b.version 1 }
