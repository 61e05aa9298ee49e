-- ===== src/Outbox/Steps.antt =====
-- What one step of the pump, of a caller of `Stop`, or of another caller does (outbox.go).
use kite_mcp_eventsourcing.Prelude.{
  ℕ, suc, Bool, true, false, ◌≡◌, refl, sym, ◌++◌, ap, ◌∙◌, Bool-cases, ◌⊎◌, inl, inr, Option, none,
  some, List, [], ◌∷◌, if◌then◌else◌, arith, append_assoc,
}
use kite_mcp_eventsourcing.Domain.{Domain}
use kite_mcp_eventsourcing.Database.{Database}
use kite_mcp_eventsourcing.Outbox.{Signal, tick, stop}
use kite_mcp_eventsourcing.Outbox.History.{Call, drain_call, step, run}
use kite_mcp_eventsourcing.Outbox.Goroutines.{
  Channel, unclosed, closed, close, OutboxPump, signal_stop, Phase, starting, polling, stopping,
  closing, ended, is_starting, is_polling, is_stopping, is_closing, returned_after, Action, start,
  last_drain, close_done, stop_call, stop_return, receive, other_call, System, drained, round,
  finish, begin_stop, await_done, act,
}

abbrev pub stopped : OutboxPump → OutboxPump
stopped p = record p { stop_channel = closed; stop_once = true }

pub signal_stop-first :
    (p : OutboxPump)
    → p.stop_once ≡ false
    → p.stop_channel ≡ unclosed
    → signal_stop p ≡ some (stopped p)
unfolding signal_stop close
signal_stop-first p never still = simp (never, still)

pub signal_stop-again : (p : OutboxPump) → p.stop_once ≡ true → signal_stop p ≡ some p
unfolding signal_stop
signal_stop-again p once = simp once

abbrev pub done_of : Phase → Channel
done_of ended = closed
done_of _ = unclosed

-- The goroutine has received from `stop`.
abbrev pub is_late : Phase → Bool
is_late starting = false
is_late polling = false
is_late _ = true

-- The last drain is over.
abbrev pub has_drained : Phase → Bool
has_drained closing = true
has_drained ended = true
has_drained _ = false

starting_lem : (p : Phase) → is_starting p ≡ true → p ≡ starting
starting_lem starting h = refl
starting_lem polling h = ground arith
starting_lem stopping h = ground arith
starting_lem closing h = ground arith
starting_lem ended h = ground arith

polling_lem : (p : Phase) → is_polling p ≡ true → p ≡ polling
polling_lem polling h = refl
polling_lem starting h = ground arith
polling_lem stopping h = ground arith
polling_lem closing h = ground arith
polling_lem ended h = ground arith

stopping_lem : (p : Phase) → is_stopping p ≡ true → p ≡ stopping
stopping_lem stopping h = refl
stopping_lem starting h = ground arith
stopping_lem polling h = ground arith
stopping_lem closing h = ground arith
stopping_lem ended h = ground arith

closing_lem : (p : Phase) → is_closing p ≡ true → p ≡ closing
closing_lem closing h = refl
closing_lem starting h = ground arith
closing_lem polling h = ground arith
closing_lem stopping h = ground arith
closing_lem ended h = ground arith

pub closed-ended : (p : Phase) → (done_of p ≡ unclosed) ⊎ (p ≡ ended)
closed-ended starting = inl refl
closed-ended polling = inl refl
closed-ended stopping = inl refl
closed-ended closing = inl refl
closed-ended ended = inr refl

pub not_late-has_drained : (p : Phase) → is_late p ≡ false → has_drained p ≡ false
not_late-has_drained starting h = refl
not_late-has_drained polling h = refl
not_late-has_drained stopping h = refl
not_late-has_drained closing h = h
not_late-has_drained ended h = h

module _ {d : Domain} (db : Database d) where
  open db use {World}

  -- The second world is what some calls make of the first.
  abbrev pub Leads : System db → System db → Type 0
  Leads s t = (cs : List (Call d)) × (t.world ≡ run db s.world cs)

  -- The second world is what some calls, with a drain among them, make of the first.
  abbrev pub HasDrained : System db → System db → Type 0
  HasDrained s t = (cs cs' : List (Call d)) × (t.world ≡ run db s.world (cs ++ drain_call ∷ cs'))

  run-append :
      (w : World) (cs cs' : List (Call d)) → run db w (cs ++ cs') ≡ run db (run db w cs) cs'
  run-append w [] cs' = refl
  run-append w (c ∷ cs) cs' = run-append (step db w c) cs cs'

  Leads-trans : (s t u : System db) → Leads s t → Leads t u → Leads s u
  Leads-trans s t u (cs, h) (cs', h') =
      (cs ++ cs', h' ∙ ap (λ w. run db w cs') h ∙ sym (run-append s.world cs cs'))

  HasDrained-Leads : (s t : System db) → HasDrained s t → Leads s t
  HasDrained-Leads s t (cs, cs', h) = (cs ++ drain_call ∷ cs', h)

  Leads-HasDrained : (s t u : System db) → Leads s t → HasDrained t u → HasDrained s u
  Leads-HasDrained s t u (cs, h) (front, back, h') = (
    cs ++ front,
    back,
    h'
        ∙ ap (λ w. run db w (front ++ drain_call ∷ back)) h
        ∙ sym (run-append s.world cs (front ++ drain_call ∷ back))
        ∙ ap (run db s.world) (sym (append_assoc cs front (drain_call ∷ back))),
  )

  HasDrained-then : (s t u : System db) → HasDrained s t → Leads t u → HasDrained s u
  HasDrained-then s t u (front, back, h) (cs, h') = (
    front,
    back ++ cs,
    h'
        ∙ ap (λ w. run db w cs) h
        ∙ sym (run-append s.world (front ++ drain_call ∷ back) cs)
        ∙ ap (run db s.world) (append_assoc front (drain_call ∷ back) cs),
  )

  -- What a step does to the world, and to the last drain.
  abbrev pub Moves : System db → System db → Type 0
  Moves s t = ((has_drained t.phase ≡ has_drained s.phase) × Leads s t) ⊎ HasDrained s t

  abbrev pub Since : System db → System db → Type 0
  Since s t = ((has_drained t.phase ≡ false) × Leads s t) ⊎ HasDrained s t

  pub Since-Moves : (s t u : System db) → Since s t → Moves t u → Since s u
  Since-Moves s t u (inl (not_yet, led)) (inl (same, led')) =
      inl (same ∙ not_yet, Leads-trans s t u led led')
  Since-Moves s t u (inl (not_yet, led)) (inr drains) = inr (Leads-HasDrained s t u led drains)
  Since-Moves s t u (inr drains) (inl (same, led)) = inr (HasDrained-then s t u drains led)
  Since-Moves s t u (inr drains) (inr again) =
      inr (HasDrained-then s t u drains (HasDrained-Leads t u again))

  -- `stop` is closed once the function of `stopOnce` has run, `done` once the goroutine has ended;
  -- the goroutine leaves the loop after `stop` is closed, and a `Stop` returns after `done` is.
  abbrev pub IsConsistent : System db → Type 0
  IsConsistent s =
      (s.pump.stop_channel ≡ (if s.pump.stop_once then closed else unclosed))
      × (s.pump.done_channel ≡ done_of s.phase)
      × ((is_late s.phase ≡ false) ⊎ (s.pump.stop_once ≡ true))
      × ((s.returned ≡ 0) ⊎ (s.phase ≡ ended))

  abbrev pub Acts : System db → Action d → Type 0
  Acts s a = (t : System db) × (act db s a ≡ some t) × IsConsistent t × Moves s t

  -- no `Stop` has returned while the goroutine has not ended
  still_none : {p q : Phase} {r : ℕ} → p ≡ q → done_of q ≡ unclosed → (r ≡ 0) ⊎ (p ≡ ended) → r ≡ 0
  still_none same open_still (inl none_yet) = none_yet
  still_none same open_still (inr over) =
      absurd (ground (arith, sym open_still ∙ ap done_of (sym same ∙ over)))

  Leads-drained : (s : System db) → Leads s (drained db s)
  unfolding step drained
  Leads-drained s = (drain_call ∷ [], refl)

  start-Acts : (s : System db) → IsConsistent s → Acts s start
  unfolding act drained
  start-Acts s (stops, done, late, returns) = elim (Bool-cases (is_starting s.phase)) [
    | inr h ↦ (s, rw h, (stops, done, late, returns), inl (refl, ([], refl)))
    | inl h ↦
        let e = starting_lem s.phase h in
        (
          record (drained db s) { phase = polling },
          rw h,
          (stops, done ∙ ap done_of e, inl refl, inl (still_none e refl returns)),
          inl (ap has_drained (sym e), Leads-drained s),
        )
  ]

  receive-Acts : (s : System db) (signal : Signal) → IsConsistent s → Acts s (receive signal)
  unfolding act round drained
  receive-Acts s tick (stops, done, late, returns) = elim (Bool-cases (is_polling s.phase)) [
    | inr h ↦ (s, rw h, (stops, done, late, returns), inl (refl, ([], refl)))
    | inl h ↦ (drained db s, rw h, (stops, done, late, returns), inl (refl, Leads-drained s))
  ]
  receive-Acts s stop (stops, done, late, returns) = elim (Bool-cases (is_polling s.phase)) [
    | inr h ↦ (s, rw h, (stops, done, late, returns), inl (refl, ([], refl)))
    | inl h ↦
        let e = polling_lem s.phase h in
        elim (Bool-cases s.pump.stop_once) [
          | inl once ↦ (
            record s { phase = stopping },
            rw (h, stops, once),
            (stops, done ∙ ap done_of e, inr once, inl (still_none e refl returns)),
            inl (ap has_drained (sym e), ([], refl)),
          )
          | inr never ↦
              (s, rw (h, stops, never), (stops, done, late, returns), inl (refl, ([], refl)))
        ]
  ]

  last_drain-Acts : (s : System db) → IsConsistent s → Acts s last_drain
  unfolding act drained step
  last_drain-Acts s (stops, done, late, returns) = elim (Bool-cases (is_stopping s.phase)) [
    | inr h ↦ (s, rw h, (stops, done, late, returns), inl (refl, ([], refl)))
    | inl h ↦
        let e = stopping_lem s.phase h in
        (
          record (drained db s) { phase = closing },
          rw h,
          (
            stops,
            done ∙ ap done_of e,
            elim late [
              | inl not_late ↦ absurd (ground (arith, sym not_late ∙ ap is_late e))
              | inr once ↦ inr once
            ],
            inl (still_none e refl returns),
          ),
          inr ([], [], refl),
        )
  ]

  close_done-Acts : (s : System db) → IsConsistent s → Acts s close_done
  unfolding act finish close
  close_done-Acts s (stops, done, late, returns) = elim (Bool-cases (is_closing s.phase)) [
    | inr h ↦ (s, rw h, (stops, done, late, returns), inl (refl, ([], refl)))
    | inl h ↦
        let e = closing_lem s.phase h in
        (
          record s { phase = ended; pump = record s.pump { done_channel = closed } },
          rw (h, done ∙ ap done_of e),
          (
            stops,
            refl,
            elim late [
              | inl not_late ↦ absurd (ground (arith, sym not_late ∙ ap is_late e))
              | inr once ↦ inr once
            ],
            inr refl,
          ),
          inl (ap has_drained (sym e), ([], refl)),
        )
  ]

  pub begin_stop-some :
      (s : System db) (p : OutboxPump)
      → signal_stop s.pump ≡ some p
      → act db s stop_call ≡ some (record s { pump = p; waiting = suc s.waiting })
  unfolding act begin_stop
  begin_stop-some s p h =
      ap
        (λ (r : Option OutboxPump). elim r [
          | none ↦ none
          | some p ↦ some (record s { pump = p; waiting = suc s.waiting })
        ])
        h

  stop_call-Acts : (s : System db) → IsConsistent s → Acts s stop_call
  stop_call-Acts s (stops, done, late, returns) = elim (Bool-cases s.pump.stop_once) [
    | inl once ↦ (
      record s { waiting = suc s.waiting },
      begin_stop-some s s.pump (signal_stop-again s.pump once),
      (stops, done, late, returns),
      inl (refl, ([], refl)),
    )
    | inr never ↦ (
      record s { pump = stopped s.pump; waiting = suc s.waiting },
      begin_stop-some s (stopped s.pump)
          (signal_stop-first s.pump never (stops ∙ ap (λ b. if b then closed else unclosed) never)),
      (refl, done, inr refl, returns),
      inl (refl, ([], refl)),
    )
  ]

  await_done-returned :
      (c : Channel) (p : Phase) (n r : ℕ)
      → c ≡ done_of p
      → (r ≡ 0) ⊎ (p ≡ ended)
      → (returned_after c n r ≡ 0) ⊎ (p ≡ ended)
  await_done-returned c p n r done (inr over) = inr over
  await_done-returned c p n r done (inl none_yet) = elim (closed-ended p) [
    | inr over ↦ inr over
    | inl undone ↦ inl (ap (λ c. returned_after c n r) (done ∙ undone) ∙ none_yet)
  ]

  stop_return-Acts : (s : System db) → IsConsistent s → Acts s stop_return
  unfolding act await_done
  stop_return-Acts s (stops, done, late, returns) = (
    await_done db s,
    refl,
    (
      stops,
      done,
      late,
      await_done-returned s.pump.done_channel s.phase s.waiting s.returned done returns,
    ),
    inl (refl, ([], refl)),
  )

  -- Every step keeps what holds of the channels, and none panics.
  pub act-Acts : (s : System db) (a : Action d) → IsConsistent s → Acts s a
  unfolding act
  act-Acts s start h = start-Acts s h
  act-Acts s (receive signal) h = receive-Acts s signal h
  act-Acts s last_drain h = last_drain-Acts s h
  act-Acts s close_done h = close_done-Acts s h
  act-Acts s stop_call h = stop_call-Acts s h
  act-Acts s stop_return h = stop_return-Acts s h
  act-Acts s (other_call c) h =
      (record s { world = step db s.world c }, refl, h, inl (refl, (c ∷ [], refl)))
