-- ===== src/Alert/Lifecycle.antt =====
-- What the event of an alert command promises, and the three commands as one type, to speak of any
-- calls on one alert (alert_aggregate.go).
use kite_mcp_eventsourcing.Prelude.{String, false, ◌≡◌, ◌≢◌, refl, Option, none, List, arith}
use kite_mcp_eventsourcing.Prelude.Word.{is_positive}
use kite_mcp_eventsourcing.Result.{Error, return_if_rule, on_error_rule}
use kite_mcp_eventsourcing.Domain.{Domain}
use kite_mcp_eventsourcing.Domain.Values.{IsPrice, IsInstrument, not_empty}
use kite_mcp_eventsourcing.Event.{AlertEvent, alert_created, alert_triggered, alert_deleted}
use kite_mcp_eventsourcing.Aggregate.Laws.{Called, failed, raised, calls}
use kite_mcp_eventsourcing.Alert.{
  AlertStatus, active, deleted, AlertAggregate, new_alert_aggregate, can_trigger, can_delete,
  create, trigger, delete,
}
use kite_mcp_eventsourcing.Alert.Root.{alert_emitter}

module _ (d : Domain) where
  open d use {Float, Time}

  -- What an event raised on an alert promises: a creation is the first event and has validated
  -- values, only an active alert triggers, a deleted one is not deleted again.
  abbrev pub IsLegal : AlertAggregate d → AlertEvent d → Type 0
  IsLegal a (alert_created e) =
      (is_positive a.version ≡ false)
      × (e.alert_id ≡ a.id)
      × (e.email ≢ "")
      × IsInstrument d e.instrument
      × IsPrice d e.target_price
  IsLegal a (alert_triggered e) = (a.status ≡ active) × (e.alert_id ≡ a.id)
  IsLegal a (alert_deleted e) = (a.status ≢ deleted) × (e.alert_id ≡ a.id)

  pub data Command : Type 0 where
    create_alert : (email symbol exchange : String) → Float → String → Time → Command
    trigger_alert : Float → Time → Command
    delete_alert : Time → Command

can_trigger-active : (s : AlertStatus) → can_trigger s ≡ none → s ≡ active
unfolding can_trigger
can_trigger-active s h = ground arith

can_delete-ne : (s : AlertStatus) → can_delete s ≡ none → s ≢ deleted
unfolding can_delete
can_delete-ne s h = ground arith

module _ {d : Domain} where
  abbrev Outcome : AlertAggregate d → AlertAggregate d × Option Error → Type 0
  Outcome = Called (alert_emitter d) (IsLegal d)

  unfoldable pub execute_alert : AlertAggregate d → Command d → AlertAggregate d × Option Error
  execute_alert a (create_alert email symbol exchange price direction now) =
      create a email symbol exchange price direction now
  execute_alert a (trigger_alert price now) = trigger a price now
  execute_alert a (delete_alert now) = delete a now

  create-Called :
      (a : AlertAggregate d) (email symbol exchange : String) (price : d.Float) (direction : String)
      (now : d.Time)
      → Outcome a (create a email symbol exchange price direction now)
  unfolding create
  create-Called a email symbol exchange price direction now =
      return_if_rule (Outcome a) _ _ _ (λ _. failed _)
        λ v.
          return_if_rule (Outcome a) _ _ _ (λ _. failed _)
            λ m.
              return_if_rule (Outcome a) _ _ _ (λ _. failed _)
                λ t.
                  return_if_rule (Outcome a) _ _ _ (λ _. failed _)
                    λ p. raised (alert_created _) (
                      v,
                      refl,
                      not_empty _ m,
                      (exchange, symbol, not_empty _ t, refl),
                      (price, refl),
                    )

  trigger-Called :
      (a : AlertAggregate d) (price : d.Float) (now : d.Time) → Outcome a (trigger a price now)
  unfolding trigger
  trigger-Called a price now =
      on_error_rule (Outcome a) _ _ _ (λ e. failed _)
        λ s. raised (alert_triggered _) (can_trigger-active _ s, refl)

  delete-Called : (a : AlertAggregate d) (now : d.Time) → Outcome a (delete a now)
  unfolding delete
  delete-Called a now =
      on_error_rule (Outcome a) _ _ _ (λ e. failed _)
        λ s. raised (alert_deleted _) (can_delete-ne _ s, refl)

  -- For every command: either it returns an error and the alert is as before, or it returns none
  -- and the alert is the one before with one event applied and raised, which is legal.
  pub execute_alert-Called : (a : AlertAggregate d) (c : Command d) → Outcome a (execute_alert a c)
  unfolding execute_alert
  execute_alert-Called a (create_alert email symbol exchange price direction now) =
      create-Called a email symbol exchange price direction now
  execute_alert-Called a (trigger_alert price now) = trigger-Called a price now
  execute_alert-Called a (delete_alert now) = delete-Called a now

-- The alert `id` after these calls of its commands, from `NewAlertAggregate` on.
abbrev pub run_alert : {d : Domain} → String → List (Command d) → AlertAggregate d
run_alert {d} id = calls (alert_emitter d) execute_alert (new_alert_aggregate d id)
