-- ===== src/Aggregate/Laws.antt =====
-- What an implementation of `AggregateRoot` (aggregate.go) owes, and what follows for all of them:
-- the replay of a list of events, and the commands, each of which fails or applies and raises one
-- event.
use kite_mcp_eventsourcing.Prelude.{
  ℕ, suc, ◌+◌, ◌%◌, ◌^◌, ◌≡◌, refl, sym, ap, ◌∙◌, subst, ◌⊎◌, inl, inr, Option, none, some, map,
  List, [], ◌∷◌, ◌++◌, foldl, arith, All, length, append-nil, append_assoc,
}
use kite_mcp_eventsourcing.Prelude.Word.{add}
use kite_mcp_eventsourcing.Result.{Error}
use kite_mcp_eventsourcing.Domain.{Domain}
use kite_mcp_eventsourcing.Event.{Event}
use kite_mcp_eventsourcing.Aggregate.{AggregateRoot}

module _ {d : Domain} {A : Type 0} (r : AggregateRoot d A) where
  open r use {root_id, root_version, root_apply, root_pending, root_clear}

  -- `Apply` counts one version, and touches neither the identity nor the pending events;
  -- `ClearPendingEvents` touches nothing else.
  pub record RootLaws : Type 0 where
    pub version-apply :
        (a : A) (e : Event d) → root_version (root_apply a e) ≡ add (root_version a) 1
    pub id-apply : (a : A) (e : Event d) → root_id (root_apply a e) ≡ root_id a
    pub pending-apply : (a : A) (e : Event d) → root_pending (root_apply a e) ≡ root_pending a
    pub clear-apply :
        (a : A) (e : Event d) → root_clear (root_apply a e) ≡ root_apply (root_clear a) e
    pub pending-clear : (a : A) → root_pending (root_clear a) ≡ []
    pub version-clear : (a : A) → root_version (root_clear a) ≡ root_version a
    pub id-clear : (a : A) → root_id (root_clear a) ≡ root_id a

  -- all the events of a stream, in order
  abbrev pub replay : A → List (Event d) → A
  replay = foldl root_apply

  module _ (laws : RootLaws) where
    open laws use {version-apply, id-apply, pending-apply, clear-apply}

    -- The version after a replay is the number of events more, on a 64-bit counter.
    pub version-replay :
        (a : A) (es : List (Event d))
        → root_version (replay a es) % 2 ^ 64 ≡ (root_version a + length es) % 2 ^ 64
    version-replay a [] = omega arith
    version-replay a (e ∷ es) = omega (arith, version-replay (root_apply a e) es, version-apply a e)

    pub id-replay : (a : A) (es : List (Event d)) → root_id (replay a es) ≡ root_id a
    id-replay a [] = refl
    id-replay a (e ∷ es) = id-replay (root_apply a e) es ∙ id-apply a e

    pub pending-replay : (a : A) (es : List (Event d)) → root_pending (replay a es) ≡ root_pending a
    pending-replay a [] = refl
    pending-replay a (e ∷ es) = pending-replay (root_apply a e) es ∙ pending-apply a e

    pub clear-replay :
        (a : A) (es : List (Event d)) → root_clear (replay a es) ≡ replay (root_clear a) es
    clear-replay a [] = refl
    clear-replay a (e ∷ es) =
        clear-replay (root_apply a e) es ∙ ap (λ x. replay x es) (clear-apply a e)

-- The commands of an aggregate. `E` is the type of the private events, `emit` applies one and
-- raises it, and `Legal a e` says what is promised of an event raised on `a`.
module _ {d : Domain} {A : Type 0} (E : Type 0) (r : AggregateRoot d A) where
  open r use {root_apply, root_pending, root_clear}

  pub record Emitter : Type 0 where
    pub inject : E → Event d
    pub emit : A → E → A
    pub clear-emit : (a : A) (e : E) → root_clear (emit a e) ≡ root_apply (root_clear a) (inject e)
    pub pending-emit : (a : A) (e : E) → root_pending (emit a e) ≡ root_pending a ++ inject e ∷ []

-- An automaton that reads events; it stops where it has no next state.
abbrev pub walk : {S E : Type 0} → (S → E → Option S) → Option S → List E → Option S
walk next s [] = s
walk next none (e ∷ es) = none
walk next (some s) (e ∷ es) = walk next (next s e) es

module _ {d : Domain} {A E : Type 0} {r : AggregateRoot d A} (m : Emitter E r) where
  open r use {root_apply, root_pending, root_clear}
  open m use {inject, emit, clear-emit, pending-emit}

  -- The result of a call: it failed and the aggregate is as before, or it raised one legal event.
  pub data Called (Legal : A → E → Type 0) (a : A) : A × Option Error → Type 0 where
    failed : (e : Error) → Called Legal a (a, some e)
    raised : (e : E) → Legal a e → Called Legal a (emit a e, none)

  -- What a call did to the aggregate, without its error.
  Called-cases :
      {Legal : A → E → Type 0} {a : A} {result : A × Option Error}
      → Called Legal a result
      → (result.0 ≡ a) ⊎ ((e : E) × Legal a e × (result.0 ≡ emit a e))
  Called-cases (failed e) = inl refl
  Called-cases (raised e l) = inr (e, l, refl)

  -- The events of successive calls, each legal where it was raised.
  pub data Trace (Legal : A → E → Type 0) : A → List E → A → Type 0 where
    done : (a : A) → Trace Legal a [] a
    step :
        (a : A) (e : E) {es : List E} {b : A}
        → Legal a e
        → Trace Legal (emit a e) es b
        → Trace Legal a (e ∷ es) b

  module _ {Legal : A → E → Type 0} where
    pub pending-Trace :
        {a b : A} {es : List E}
        → Trace Legal a es b
        → root_pending b ≡ root_pending a ++ map inject es
    pending-Trace (done a) = sym (append-nil (root_pending a))
    pending-Trace (step a e {es = es} l t) =
        pending-Trace t
        ∙ rw pending-emit (append_assoc (root_pending a) (inject e ∷ []) (map inject es))

    pub clear-Trace :
        {a b : A} {es : List E}
        → Trace Legal a es b
        → root_clear b ≡ replay r (root_clear a) (map inject es)
    clear-Trace (done a) = refl
    clear-Trace (step a e {es = es} l t) =
        clear-Trace t ∙ ap (λ x. replay r x (map inject es)) (clear-emit a e)

    -- If each legal event takes the automaton from status to status, so does the trace.
    pub walk-Trace :
        {S : Type 0} (status : A → S) (next : S → E → Option S)
        → ((a : A) (e : E) → Legal a e → next (status a) e ≡ some (status (emit a e)))
        → {a b : A} {es : List E} → Trace Legal a es b
        → walk next (some (status a)) es ≡ some (status b)
    walk-Trace status next moves (done a) = refl
    walk-Trace status next moves (step a e l t) = rw (moves a e l) (walk-Trace status next moves t)

    -- The same where the moves need an invariant of the aggregate and of the events still to come.
    pub walk-Trace_inv :
        {S : Type 0} (status : A → S) (next : S → E → Option S) (Inv : ℕ → A → Type 0)
        → ((n : ℕ) (a : A) (e : E)
            → Inv (suc n) a
            → Legal a e
            → (next (status a) e ≡ some (status (emit a e))) × Inv n (emit a e))
        → {a b : A} {es : List E} → Trace Legal a es b
        → Inv (length es) a
        → walk next (some (status a)) es ≡ some (status b)
    walk-Trace_inv status next Inv moves (done a) i = refl
    walk-Trace_inv status next Inv moves (step a e {es = es} l t) i =
        let (move, kept) = moves (length es) a e i l in
        rw move (walk-Trace_inv status next Inv moves t kept)

    -- What each call keeps of the aggregate, and makes sure of in its event, over a whole trace.
    pub Trace-All :
        (Keep : A → Type 0) (Q : E → Type 0)
        → ((a : A) (e : E) → Keep a → Legal a e → Keep (emit a e) × Q e)
        → {a b : A} {es : List E} → Trace Legal a es b
        → Keep a
        → Keep b × All Q es
    Trace-All Keep Q keep (done a) k = (k, tt)
    Trace-All Keep Q keep (step a e l t) k =
        let (k', q) = keep a e k l in let (kb, qs) = Trace-All Keep Q keep t k' in (kb, (q, qs))

  module _ {C : Type 0} (execute : A → C → A × Option Error) where
    -- calls in a row, whatever errors they return
    unfoldable pub calls : A → List C → A
    calls a [] = a
    calls a (c ∷ cs) = calls (execute a c).0 cs

    pub calls-Trace :
        {Legal : A → E → Type 0}
        → ((a : A) (c : C) → Called Legal a (execute a c))
        → (a : A) (cs : List C) → (es : List E) × Trace Legal a es (calls a cs)
    unfolding calls
    calls-Trace called a [] = ([], done a)
    calls-Trace {Legal} called a (c ∷ cs) =
        let (es, t) = calls-Trace called (execute a c).0 cs in
        elim (Called-cases (called a c)) [
          | inl same ↦ (es, subst (λ x. Trace Legal x es (calls (execute a c).0 cs)) same t)
          | inr (e, l, new) ↦
              (e ∷ es, step a e l (subst (λ x. Trace Legal x es (calls (execute a c).0 cs)) new t))
        ]

    -- Event sourcing: after any calls on an aggregate with nothing pending, the replay of the
    -- pending events from where it started is the aggregate, with nothing pending.
    pub replay-calls :
        {Legal : A → E → Type 0}
        → ((a : A) (c : C) → Called Legal a (execute a c))
        → (a : A) (cs : List C) → root_pending a ≡ []
        → replay r (root_clear a) (root_pending (calls a cs)) ≡ root_clear (calls a cs)
    replay-calls called a cs clean =
        let (es, t) = calls-Trace called a cs in rw (pending-Trace t, clean) (sym (clear-Trace t))

    -- Where no event is legal, every call fails, and nothing ever changes.
    refused :
        {Legal : A → E → Type 0} {a : A} {result : A × Option Error}
        → Called Legal a result
        → ((e : E) → ¬ Legal a e)
        → (err : Error) × (result ≡ (a, some err))
    refused (failed e) never = (e, refl)
    refused (raised e l) never = absurd (never e l)

    pub calls-stuck :
        {Legal : A → E → Type 0}
        → ((a : A) (c : C) → Called Legal a (execute a c))
        → (a : A) → ((e : E) → ¬ Legal a e)
        → (cs : List C)
        → (calls a cs ≡ a) × ((c : C) → (err : Error) × (execute a c ≡ (a, some err)))
    unfolding calls
    calls-stuck called a never [] = (refl, λ c. refused (called a c) never)
    calls-stuck called a never (c ∷ cs) =
        let (err, same) = refused (called a c) never in
        (
          ap (λ r. calls r.0 cs) same ∙ (calls-stuck called a never cs).0,
          λ c. refused (called a c) never,
        )
