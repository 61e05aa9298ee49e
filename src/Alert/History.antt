-- ===== src/Alert/History.antt =====
-- When the commands of an alert succeed, and what holds after any calls of them
-- (alert_aggregate.go).
use kite_mcp_eventsourcing.Prelude.{
  ℕ, zero, suc, ◌+◌, ◌<◌, ◌^◌, String, false, ◌≡◌, ◌≢◌, ◌↔◌, refl, ap, List, map, length,
  length-map, Option, none, some, eq_iff, arith,
}
use kite_mcp_eventsourcing.Result.{on_error, return_if}
use kite_mcp_eventsourcing.Domain.{Domain}
use kite_mcp_eventsourcing.Event.{
  AlertEvent, alert_event, alert_created, alert_triggered, alert_deleted,
}
use kite_mcp_eventsourcing.Aggregate.{pending_events}
use kite_mcp_eventsourcing.Aggregate.Laws.{
  calls-Trace, pending-Trace, replay, replay-calls, walk, walk-Trace_inv,
}
use kite_mcp_eventsourcing.Alert.{
  AlertStatus, active, triggered, deleted, AlertAggregate, new_alert_aggregate, apply_fields, emit,
  clear_pending, create, trigger, delete, can_trigger, can_delete,
}
use kite_mcp_eventsourcing.Alert.Root.{alert_root, alert_emitter}
use kite_mcp_eventsourcing.Alert.Lifecycle.{
  Command, create_alert, trigger_alert, delete_alert, execute_alert, execute_alert-Called, IsLegal,
  run_alert,
}

-- Where an alert is in its life: nothing yet, or some event happened and it has a status.
abbrev pub stage_of : ℕ → AlertStatus → Option AlertStatus
stage_of zero s = none
stage_of (suc v) s = some s

-- The lifecycle as an automaton that reads events.
abbrev pub next_stage :
    {d : Domain} → Option AlertStatus → AlertEvent d → Option (Option AlertStatus)
next_stage none (alert_created e) = some (some active)
next_stage none (alert_triggered e) = some (some triggered)
next_stage none (alert_deleted e) = some (some deleted)
next_stage (some active) (alert_triggered e) = some (some triggered)
next_stage (some active) (alert_deleted e) = some (some deleted)
next_stage (some triggered) (alert_deleted e) = some (some deleted)
next_stage _ _ = none

module _ {d : Domain} where
  open d use {float_nonpositive}

  -- what each command asks of the alert and of its arguments
  abbrev pub IsAdmissible : AlertAggregate d → Command d → Type 0
  IsAdmissible a (create_alert email symbol exchange price direction now) =
      (¬ ((0 < a.version) × (a.version < 2 ^ 63)))
      × (email ≢ "")
      × (symbol ≢ "")
      × (float_nonpositive price ≡ false)
  IsAdmissible a (trigger_alert price now) = a.status ≡ active
  IsAdmissible a (delete_alert now) = a.status ≢ deleted

  -- A command returns no error exactly if it is admissible: a creation on an alert whose version is
  -- not a positive number, with an email, a symbol and a target price that is not below or at 0; a
  -- trigger of an active alert; a deletion of an alert that is not deleted.
  pub execute_alert-IsAdmissible :
      (a : AlertAggregate d) (c : Command d) → ((execute_alert a c).1 ≡ none) ↔ IsAdmissible a c
  unfolding execute_alert create trigger delete can_trigger can_delete on_error return_if
  execute_alert-IsAdmissible a (create_alert email symbol exchange price direction now) =
      ground (arith, eq_iff symbol "", eq_iff email "")
  execute_alert-IsAdmissible a (trigger_alert price now) = ground arith
  execute_alert-IsAdmissible a (delete_alert now) = ground arith

  -- `n` more events leave the version a positive number, and nothing happened to an alert of
  -- version 0.
  abbrev IsYoung : ℕ → AlertAggregate d → Type 0
  IsYoung n a = (a.version + n < 2 ^ 63) × (a.version ≡ 0 → a.status ≡ active)

  IsLegal-next_stage :
      (n : ℕ) (a : AlertAggregate d) (e : AlertEvent d)
      → IsYoung (suc n) a
      → IsLegal d a e
      → (next_stage (stage_of a.version a.status) e
          ≡ some (stage_of (emit a (alert_event e)).version (emit a (alert_event e)).status))
        × IsYoung n (emit a (alert_event e))
  unfolding emit apply_fields
  IsLegal-next_stage n a (alert_created e) y l = ground arith
  IsLegal-next_stage n a (alert_triggered e) y l = ground arith
  IsLegal-next_stage n a (alert_deleted e) y l = ground arith

  -- After any calls on a new alert that leave fewer than 2 ^ 63 events, the events pending are a
  -- run of the lifecycle that ends in its status: a creation comes first or not at all, then at
  -- most one trigger, then at most one deletion.
  pub walk-run_alert :
      (id : String) (cs : List (Command d))
      → length (pending_events (run_alert id cs).base) < 2 ^ 63
      → (es : List (AlertEvent d)) × (pending_events (run_alert id cs).base ≡ map alert_event es)
        × (walk next_stage (some none) es
            ≡ some (stage_of (run_alert id cs).version (run_alert id cs).status))
  unfolding new_alert_aggregate pending_events
  walk-run_alert id cs few =
      let (es, t) =
        calls-Trace (alert_emitter d) execute_alert execute_alert-Called (new_alert_aggregate d id)
          cs in
      let pending = pending-Trace (alert_emitter d) t in
      (
        es,
        pending,
        walk-Trace_inv (alert_emitter d) (λ a. stage_of a.version a.status) next_stage IsYoung
            IsLegal-next_stage t
            (omega (arith, ap length pending, length-map alert_event es), λ _. refl),
      )

  -- The aggregate is what its pending events make of a new alert: after any calls, replaying them
  -- from `NewAlertAggregate` gives the aggregate with nothing pending.
  pub replay-run_alert :
      (id : String) (cs : List (Command d))
      → replay (alert_root d) (new_alert_aggregate d id) (pending_events (run_alert id cs).base)
        ≡ clear_pending (run_alert id cs)
  unfolding new_alert_aggregate pending_events clear_pending
  replay-run_alert id cs =
      replay-calls (alert_emitter d) execute_alert execute_alert-Called (new_alert_aggregate d id)
        cs refl
