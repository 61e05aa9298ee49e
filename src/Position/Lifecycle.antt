-- ===== src/Position/Lifecycle.antt =====
-- What the event of a position command promises, and the two commands as one type, to speak of any
-- calls on one position (position_aggregate.go).
use kite_mcp_eventsourcing.Prelude.{String, false, ◌≡◌, ◌≢◌, refl, Option, none, List, arith}
use kite_mcp_eventsourcing.Prelude.Word.{Int64, is_positive}
use kite_mcp_eventsourcing.Result.{Error, return_if_rule, on_error_rule}
use kite_mcp_eventsourcing.Domain.{Domain}
use kite_mcp_eventsourcing.Domain.Values.{IsQuantity, IsPrice, IsInstrument, accepted, not_empty}
use kite_mcp_eventsourcing.Event.{PositionEvent, position_opened, position_closed}
use kite_mcp_eventsourcing.Aggregate.Laws.{Called, failed, raised, calls}
use kite_mcp_eventsourcing.Position.{
  PositionStatus, opened, PositionAggregate, new_position_aggregate, can_close, open_position,
  close_position,
}
use kite_mcp_eventsourcing.Position.Root.{position_emitter}

module _ (d : Domain) where
  open d use {Float, Time}

  -- What an event raised on a position promises: an opening is the first event and has validated
  -- values, and only an open position closes.
  abbrev pub IsLegal : PositionAggregate d → PositionEvent d → Type 0
  IsLegal p (position_opened e) =
      (is_positive p.version ≡ false)
      × (e.position_id ≡ p.id)
      × (e.email ≢ "")
      × IsInstrument d e.instrument
      × IsQuantity d e.quantity
      × IsPrice d e.avg_price
  IsLegal p (position_closed e) = (p.status ≡ opened) × (e.position_id ≡ p.id)

  pub data Command : Type 0 where
    open_command :
        (email symbol exchange transaction_type : String) → Int64 → Float → Time → Command
    close_command : (close_order_id transaction_type : String) → Time → Command

can_close-opened : (s : PositionStatus) → can_close s ≡ none → s ≡ opened
unfolding can_close
can_close-opened s h = ground arith

module _ {d : Domain} where
  abbrev Outcome : PositionAggregate d → PositionAggregate d × Option Error → Type 0
  Outcome = Called (position_emitter d) (IsLegal d)

  unfoldable pub execute_position :
      PositionAggregate d → Command d → PositionAggregate d × Option Error
  execute_position p (open_command email symbol exchange kind qty price now) =
      open_position p email symbol exchange kind qty price now
  execute_position p (close_command order_id kind now) = close_position p order_id kind now

  open_position-Called :
      (p : PositionAggregate d) (email symbol exchange kind : String) (qty : Int64)
      (price : d.Float) (now : d.Time)
      → Outcome p (open_position p email symbol exchange kind qty price now)
  unfolding open_position
  open_position-Called p email symbol exchange kind qty price now =
      return_if_rule (Outcome p) _ _ _ (λ _. failed _)
        λ v.
          return_if_rule (Outcome p) _ _ _ (λ _. failed _)
            λ m.
              return_if_rule (Outcome p) _ _ _ (λ _. failed _)
                λ t.
                  on_error_rule (Outcome p) _ _ _ (λ e. failed _)
                    λ q. raised (position_opened _) (
                      v,
                      refl,
                      not_empty _ m,
                      (exchange, symbol, not_empty _ t, refl),
                      accepted d _ q,
                      (price, refl),
                    )

  close_position-Called :
      (p : PositionAggregate d) (order_id kind : String) (now : d.Time)
      → Outcome p (close_position p order_id kind now)
  unfolding close_position
  close_position-Called p order_id kind now =
      on_error_rule (Outcome p) _ _ _ (λ e. failed _)
        λ s. raised (position_closed _) (can_close-opened _ s, refl)

  -- For every command: either it returns an error and the position is as before, or it returns none
  -- and the position is the one before with one event applied and raised, which is legal.
  pub execute_position-Called :
      (p : PositionAggregate d) (c : Command d) → Outcome p (execute_position p c)
  unfolding execute_position
  execute_position-Called p (open_command email symbol exchange kind qty price now) =
      open_position-Called p email symbol exchange kind qty price now
  execute_position-Called p (close_command order_id kind now) =
      close_position-Called p order_id kind now

-- The position `id` after these calls of its commands, from `NewPositionAggregate` on.
abbrev pub run_position : {d : Domain} → String → List (Command d) → PositionAggregate d
run_position {d} id = calls (position_emitter d) execute_position (new_position_aggregate d id)
