-- ===== src/Lib.antt =====
-- kite-mcp-eventsourcing: event-sourced aggregates for orders, alerts, positions and sessions, the
-- form in which their events are stored, an event store with a staging outbox over SQLite, and a
-- read-side projector.
--
-- The program. A command of an aggregate (`Place`, `Create`, `Open`, …) checks its guards, applies
-- an event to the aggregate and raises it: the event waits among the pending ones.
-- `To*StoredEvents` turns pending events into rows of the event table, `Load*FromEvents` makes an
-- aggregate of such rows by applying each. Rows come in two formats, the private events of the
-- aggregates and the public events of kite-mcp-domain. The event store inserts and queries rows; the
-- outbox stages them in a table of its own, from which a pump drains them. The projector applies
-- public events to the aggregates that it keeps by id.
--
-- The files.
--   Domain.antt, Domain/     what the program takes from outside: `float64`, `time.Time` and the
--                            values of kite-mcp-domain and kite-mcp-broker, with their laws
--   Event.antt               the implementations of `domain.Event`, private and public
--   Payload.antt             the payload structs and `encoding/json`; `MarshalPayload` of store.go
--   Result.antt              Go's `error` and early returns
--   Aggregate.antt           aggregate.go: `BaseAggregate` and the interface `AggregateRoot`
--   Aggregate/Laws.antt      the laws of an aggregate, and calls of commands as a step relation
--   Aggregate/Persistence.antt   calls, then storing, then loading, for any aggregate
--   Stored.antt, Stored/     `StoredEvent` of store.go, and the loops of loading and storing
--   Order.antt, Order/       order_aggregate.go: `Apply` in Order.antt, the commands in
--                            Order/Commands.antt, the stored form in Order/Storage.antt
--   Alert.antt, Alert/       alert_aggregate.go, likewise, with the commands in Alert.antt
--   Position.antt, Position/ position_aggregate.go, likewise, with the commands in Position.antt
--   Session.antt, Session/   session_aggregate.go: `Apply`, `LoadSessionFromEvents`
--   Database.antt, Database/ what store.go and outbox.go take from outside: an operation for each
--                            SQL statement, and its behaviour on the two tables (Laws.antt)
--   Store.antt, Store/       store.go: `Append` and the queries; what an append leaves, what a scan
--                            makes of rows, the next sequence, and loading what was appended
--   Outbox.antt, Outbox/     outbox.go: `AppendToOutbox`, `Drain` and the pump; any calls one after
--                            the other in History.antt, what they leave in Histories.antt, what a
--                            drain and the pump bring about in Progress.antt and Pump.antt,
--                            the pump's goroutine beside other callers in Goroutines.antt, its steps in
--                            Steps.antt and any of them in Shutdown.antt
--   Assoc.antt               Go's maps with text keys
--   Collections.antt, Collections/   Go's `range` over a map and `sort.Slice`; sorted lists
--   Projector.antt           projection.go: the handlers, the lookups and the counts
--   Projector/Refinement.antt    what a lookup finds after any events
--   Projector/Subscribe.antt     `Subscribe`, over the dispatcher of kite-mcp-domain
--   Projector/Lists.antt         the sorted lists; Filed.antt and Listed.antt: what they hold
--   Tests.antt, Tests/       runs at concrete inputs
-- In the folder of an aggregate, Root has its laws, Lifecycle the commands as one type and what
-- each call does, Guards and History when a command succeeds and what any calls leave, RoundTrip
-- storing and then loading, Load (of a session, Replay) what loading makes of any rows.
--
-- The correspondence. A Go method on a pointer takes the aggregate and gives the new one, with the
-- error as an `Option` beside it; an aggregate embeds its `BaseAggregate` as the field `base`. A
-- status constant is a constructor. An error is the format of its text with what it wraps.
-- `time.Now().UTC()` is an argument of the command that reads it. An `int` or `int64` is a natural
-- number below 2 ^ 64 that wraps around, positive if it is between 0 and 2 ^ 63. A map is an
-- association list, and an aggregate in it is kept by value where Go keeps a pointer. Recursion is
-- structural throughout: there is no fuel.
--
-- The database. A SQL statement is an operation of its own on a `World` and gives the new one: the
-- text of the statement and SQLite's reading of it are outside, and so are ids, clock and context.
-- Any statement may fail, whatever the reason, and then changes nothing; the tables that are observed
-- of a world keep, beside the rows, those whose insertion as an event was refused. A query gives rows that
-- may fail one by one. The receiver's mutex makes each operation of the store one step, so calls
-- from several goroutines are a list of calls. The pump takes what its channels deliver as a list
-- of signals; its goroutine, the callers of `Stop` and other callers interleave as a list of
-- steps: a round of the loop, the last drain, the close of `done`, the first statement of `Stop` and
-- its return. A step that has to wait does nothing.
--
-- What is not modelled. The mutex of projection.go: a handler runs in one critical section, so a
-- run is a list of events. The logging and the timer of outbox.go. The printed Go type in the errors
-- `unknown event type %T`. The libraries, which are parameters.
pub mod Aggregate
pub mod Alert
pub mod Assoc
pub mod Collections
pub mod Database
pub mod Domain
pub mod Event
pub mod Order
pub mod Outbox
pub mod Payload
pub mod Position
pub mod Prelude
pub mod Projector
pub mod Result
pub mod Session
pub mod Store
pub mod Stored
pub mod Tests
