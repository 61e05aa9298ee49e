-- ===== src/Outbox/Goroutines.antt =====
-- The pump's goroutine, the callers of `Stop` and the other callers of the store, whose actions come
-- in any order (outbox.go).
use kite_mcp_eventsourcing.Prelude.{
  ℕ, zero, suc, Bool, true, false, Option, none, some, List, [], ◌∷◌, if◌then◌else◌,
}
use kite_mcp_eventsourcing.Domain.{Domain}
use kite_mcp_eventsourcing.Database.{Database}
use kite_mcp_eventsourcing.Outbox.{Signal, tick, stop, drain}
use kite_mcp_eventsourcing.Outbox.History.{Call, step}

-- A channel that nothing is sent on: it is closed or not.
pub data Channel : Type 0 where
  unclosed closed : Channel

-- `close(c)`, which panics on a closed channel: `none` is the panic
unfoldable pub close : Channel → Option Channel
close unclosed = some closed
close closed = none

-- `stop_once` tells whether the function of `stopOnce` has run.
pub record OutboxPump : Type 0 where
  pub stop_channel : Channel
  pub stop_once : Bool
  pub done_channel : Channel

unfoldable pub new_outbox_pump : OutboxPump
new_outbox_pump = record { stop_channel = unclosed; stop_once = false; done_channel = unclosed }

-- `p.stopOnce.Do(func() { close(p.stop) })`
unfoldable pub signal_stop : OutboxPump → Option OutboxPump
signal_stop p = if p.stop_once then some p else elim (close p.stop_channel) [
  | none ↦ none
  | some c ↦ some (record p { stop_channel = c; stop_once = true })
]

-- Where the goroutine stands in `run`: before the first drain, in the loop, after it has received
-- from `stop` and before the last drain, after that and before the deferred close of `done`, and
-- after it has ended.
pub data Phase : Type 0 where
  starting polling stopping closing ended : Phase

abbrev pub is_starting : Phase → Bool
is_starting starting = true
is_starting _ = false

abbrev pub is_polling : Phase → Bool
is_polling polling = true
is_polling _ = false

abbrev pub is_stopping : Phase → Bool
is_stopping stopping = true
is_stopping _ = false

abbrev pub is_closing : Phase → Bool
is_closing closing = true
is_closing _ = false

-- How many callers are left that wait to receive from `done`, and how many have returned, after
-- one of them has tried: a receive from a closed channel returns at once, from another it blocks.
abbrev pub left : Channel → ℕ → ℕ
left unclosed n = n
left closed zero = zero
left closed (suc n) = n

abbrev pub returned_after : Channel → ℕ → ℕ → ℕ
returned_after unclosed n r = r
returned_after closed zero r = r
returned_after closed (suc n) r = suc r

-- The steps of the goroutine, of the callers of `Stop`, and of the other callers of the store.
pub data Action (d : Domain) : Type 0 where
  start last_drain close_done stop_call stop_return : Action d
  receive : Signal → Action d
  other_call : Call d → Action d

module _ {d : Domain} where
  -- the calls of the others among the actions
  abbrev pub other_calls : List (Action d) → List (Call d)
  other_calls [] = []
  other_calls (other_call c ∷ rest) = c ∷ other_calls rest
  other_calls (_ ∷ rest) = other_calls rest

module _ {d : Domain} (db : Database d) where
  open db use {World}

  -- `waiting` counts the callers of `Stop` that wait at `<-p.done`, `returned` those that returned.
  pub record System : Type 0 where
    pub world : World
    pub phase : Phase
    pub pump : OutboxPump
    pub waiting : ℕ
    pub returned : ℕ

  -- `NewOutboxPump`: the goroutine is started.
  unfoldable pub launched : World → System
  launched w = record {
    world = w;
    phase = starting;
    pump = new_outbox_pump;
    waiting = 0;
    returned = 0;
  }

  unfoldable pub drained : System → System
  drained s = record s { world = (drain db s.world).0 }

  -- a round of the loop that receives the signal, up to the last drain
  unfoldable pub round : System → Signal → System
  round s tick = drained s
  round s stop = elim s.pump.stop_channel [ unclosed ↦ s | closed ↦ record s { phase = stopping } ]

  -- the deferred `close(p.done)`
  unfoldable pub finish : System → Option System
  finish s = elim (close s.pump.done_channel) [
    | none ↦ none
    | some c ↦ some (record s { phase = ended; pump = record s.pump { done_channel = c } })
  ]

  -- the first statement of `Stop`, after which the caller waits
  unfoldable pub begin_stop : System → Option System
  begin_stop s = elim (signal_stop s.pump) [
    | none ↦ none
    | some p ↦ some (record s { pump = p; waiting = suc s.waiting })
  ]

  -- the second statement of `Stop`, `<-p.done`
  unfoldable pub await_done : System → System
  await_done s = record s {
    waiting = left s.pump.done_channel s.waiting;
    returned = returned_after s.pump.done_channel s.waiting s.returned;
  }

  -- One step. What cannot happen yet does nothing.
  unfoldable pub act : System → Action d → Option System
  act s start =
      if is_starting s.phase then some (record (drained s) { phase = polling }) else some s
  act s (receive signal) = if is_polling s.phase then some (round s signal) else some s
  act s last_drain =
      if is_stopping s.phase then some (record (drained s) { phase = closing }) else some s
  act s close_done = if is_closing s.phase then finish s else some s
  act s stop_call = begin_stop s
  act s stop_return = some (await_done s)
  act s (other_call c) = some (record s { world = step db s.world c })

  -- The steps in the order in which they happen, up to a panic.
  unfoldable pub acts : System → List (Action d) → Option System
  acts s [] = some s
  acts s (a ∷ rest) = elim (act s a) [ none ↦ none | some next ↦ acts next rest ]
