-- ===== src/Outbox/Shutdown.antt =====
-- The pump, the callers of `Stop` and any other callers, over any steps of theirs (outbox.go).
use kite_mcp_eventsourcing.Prelude.{
  suc, if◌then◌else◌, true, ◌≡◌, refl, sym, ap, ◌∙◌, Bool-cases, ◌⊎◌, inl, inr, some, List, [], ◌∷◌,
  arith,
}
use kite_mcp_eventsourcing.Domain.{Domain}
use kite_mcp_eventsourcing.Database.{Database}
use kite_mcp_eventsourcing.Outbox.History.{step, run}
use kite_mcp_eventsourcing.Outbox.Goroutines.{
  unclosed, closed, new_outbox_pump, ended, Action, start, last_drain, close_done, stop_call,
  stop_return, receive, other_call, System, launched, await_done, act, acts, other_calls,
}
use kite_mcp_eventsourcing.Outbox.Steps.{
  IsConsistent, has_drained, not_late-has_drained, HasDrained, Since, Since-Moves, act-Acts,
  stopped, signal_stop-first, signal_stop-again, begin_stop-some,
}

module _ {d : Domain} (db : Database d) where
  open db use {World}

  acts-IsConsistent :
      (origin s : System db) (actions : List (Action d))
      → IsConsistent db s
      → Since db origin s
      → (t : System db) × (acts db s actions ≡ some t) × IsConsistent db t × Since db origin t
  unfolding acts
  acts-IsConsistent origin s [] h since = (s, refl, h, since)
  acts-IsConsistent origin s (a ∷ rest) h since =
      let (next, moved, h', moves) = act-Acts db s a h in
      let (t, reached, h'', since') =
        acts-IsConsistent origin next rest h' (Since-Moves db origin s next since moves) in
      (t, rw (moved, acts) reached, h'', since')

  acts-IsConsistent_any :
      (s : System db) (actions : List (Action d))
      → IsConsistent db s
      → (t : System db) × (acts db s actions ≡ some t) × IsConsistent db t
  unfolding acts
  acts-IsConsistent_any s [] h = (s, refl, h)
  acts-IsConsistent_any s (a ∷ rest) h =
      let (next, moved, h', _) = act-Acts db s a h in
      let (t, reached, h'') = acts-IsConsistent_any next rest h' in
      (t, rw (moved, acts) reached, h'')

  -- The steps lead on, and only the calls of the others touch the database.
  abbrev pub IsQuiet : System db → List (Action d) → Type 0
  IsQuiet s actions =
      (t : System db) × (acts db s actions ≡ some t)
      × (t.world ≡ run db s.world (other_calls actions))

  abbrev EndedAct : System db → Action d → List (Action d) → Type 0
  EndedAct s a rest =
      (next : System db) × (act db s a ≡ some next)
      × (next.phase ≡ ended)
      × IsConsistent db next
      × (run db next.world (other_calls rest) ≡ run db s.world (other_calls (a ∷ rest)))

  ended-stop_call :
      (s : System db) (rest : List (Action d))
      → s.phase ≡ ended
      → IsConsistent db s
      → EndedAct s stop_call rest
  ended-stop_call s rest e (stops, done, late, returns) = elim (Bool-cases s.pump.stop_once) [
    | inl once ↦ (
      record s { waiting = suc s.waiting },
      begin_stop-some db s s.pump (signal_stop-again s.pump once),
      e,
      (stops, done, late, returns),
      refl,
    )
    | inr never ↦ (
      record s { pump = stopped s.pump; waiting = suc s.waiting },
      begin_stop-some db s (stopped s.pump)
          (signal_stop-first s.pump never (stops ∙ ap (λ b. if b then closed else unclosed) never)),
      e,
      (refl, done, inr refl, returns),
      refl,
    )
  ]

  ended-act :
      (s : System db) (a : Action d) (rest : List (Action d))
      → s.phase ≡ ended
      → IsConsistent db s
      → EndedAct s a rest
  unfolding act await_done
  ended-act s start rest e h = (s, rw e, e, h, refl)
  ended-act s (receive signal) rest e h = (s, rw e, e, h, refl)
  ended-act s last_drain rest e h = (s, rw e, e, h, refl)
  ended-act s close_done rest e h = (s, rw e, e, h, refl)
  ended-act s stop_call rest e h = ended-stop_call s rest e h
  ended-act s stop_return rest e (stops, done, late, returns) =
      (await_done db s, refl, e, (stops, done, late, inr e), refl)
  ended-act s (other_call c) rest e h = (record s { world = step db s.world c }, refl, e, h, refl)

  ended-IsQuiet :
      (s : System db) (actions : List (Action d))
      → s.phase ≡ ended
      → IsConsistent db s
      → IsQuiet s actions
  unfolding acts
  ended-IsQuiet s [] e h = (s, refl, refl)
  ended-IsQuiet s (a ∷ rest) e h =
      let (next, moved, e', h', same) = ended-act s a rest e h in
      let (t, reached, world) = ended-IsQuiet next rest e' h' in
      (t, rw (moved, acts) reached, world ∙ same)

  -- Before a first `Stop` no last drain is over, so one that is over comes after.
  Since-first : (s : System db) → IsConsistent db s → (s.pump.stop_once ≡ true) ⊎ Since db s s
  Since-first s (stops, done, inr once, returns) = inl once
  Since-first s (stops, done, inl not_late, returns) =
      inr (inl (not_late-has_drained s.phase not_late, ([], refl)))

  over-HasDrained : (s t : System db) → t.phase ≡ ended → Since db s t → HasDrained db s t
  over-HasDrained s t e (inr drains) = drains
  over-HasDrained s t e (inl (not_yet, led)) =
      absurd (ground (arith, sym not_yet ∙ ap has_drained e))

  -- A `Stop` that returned: unless one was called before, a drain came after its call; and from now
  -- on the pump leaves the database alone.
  abbrev pub IsShutDown : System db → System db → List (Action d) → Type 0
  IsShutDown before s after =
      ((before.pump.stop_once ≡ true) ⊎ HasDrained db before s) × IsQuiet s after

  -- Let the pump's goroutine, any callers of `Stop` and any other callers of the store take steps,
  -- in any order: those of `front`, then a call of `Stop`, and those of `back`. None panics. If a
  -- call of `Stop` has returned by then, the database is what calls with a drain among them make of
  -- the database as it was before `Stop` was called (unless another `Stop` was called before that),
  -- and from then on, whatever steps follow, it changes by the calls of the others alone.
  pub acts-IsShutDown :
      (w : World) (front back after : List (Action d))
      → (before s : System db) × (acts db (launched db w) front ≡ some before)
        × (acts db before (stop_call ∷ back) ≡ some s)
        × ((s.returned ≡ 0) ⊎ IsShutDown before s after)
  unfolding launched new_outbox_pump
  acts-IsShutDown w front back after =
      let (before, reached, h) =
        acts-IsConsistent_any (launched db w) front (refl, refl, inl refl, inl refl) in
      elim (Since-first before h) [
        | inl once ↦
            let (s, later, h') = acts-IsConsistent_any before (stop_call ∷ back) h in
            (
              before,
              s,
              reached,
              later,
              elim h'.3 [
                | inl none_yet ↦ inl none_yet
                | inr over ↦ inr (inl once, ended-IsQuiet s after over h')
              ],
            )
        | inr since ↦
            let (s, later, h', since') =
              acts-IsConsistent before before (stop_call ∷ back) h since in
            (
              before,
              s,
              reached,
              later,
              elim h'.3 [
                | inl none_yet ↦ inl none_yet
                | inr over ↦
                    inr (inr (over-HasDrained before s over since'), ended-IsQuiet s after over h')
              ],
            )
      ]
