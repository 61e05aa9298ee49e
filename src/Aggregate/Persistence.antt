-- ===== src/Aggregate/Persistence.antt =====
-- Any aggregate with commands survives its stored form, if each legal event does: the stored form
-- of what is pending after any calls loads back to the aggregate with nothing pending.
use kite_mcp_eventsourcing.Prelude.{
  String, ◌≡◌, ◌≢◌, refl, sym, ap, subst, ◌∙◌, Option, List, [], ◌++◌, map, All, All-map, All-mp,
  map-All,
}
use kite_mcp_eventsourcing.Prelude.Word.{Int64}
use kite_mcp_eventsourcing.Result.{Error, Result, ok}
use kite_mcp_eventsourcing.Domain.{Domain}
use kite_mcp_eventsourcing.Event.{Event}
use kite_mcp_eventsourcing.Stored.{StoredEvent, load_from_events, store_pending}
use kite_mcp_eventsourcing.Stored.RoundTrip.{
  IsStorable, IsNumbered, load-store_pending, replay_stored-store_pending, load_from_events-append,
}
use kite_mcp_eventsourcing.Aggregate.{AggregateRoot}
use kite_mcp_eventsourcing.Aggregate.Laws.{
  Emitter, RootLaws, clear-replay, Called, Trace, calls, calls-Trace, replay-calls, pending-Trace,
  Trace-All, replay,
}

module _ {d : Domain} {A E : Type 0} {r : AggregateRoot d A} (m : Emitter E r) where
  open r use {root_id, root_apply, root_pending, root_clear}
  open m use {inject, emit}

  -- A constructor of new aggregates, which have the id given and nothing pending.
  pub record IsFresh (fresh : String → A) : Type 0 where
    pub id-fresh : (id : String) → root_id (fresh id) ≡ id
    pub pending-fresh : (id : String) → root_pending (fresh id) ≡ []
    pub clear-fresh : (id : String) → root_clear (fresh id) ≡ fresh id
    pub clear-clear : (a : A) → root_clear (root_clear a) ≡ root_clear a
    pub id-emit : (a : A) (e : E) → root_id (emit a e) ≡ root_id a

  module _ {Legal : A → E → Type 0} {C : Type 0} {execute : A → C → A × Option Error}
      (called : (a : A) (c : C) → Called m Legal a (execute a c)) (fresh : String → A)
      (is_fresh : IsFresh fresh) (IsEncodable : Event d → Type 0) (kind : String)
      (convert : A → Event d → Int64 → Result (StoredEvent d))
      (deserialize : StoredEvent d → Result (Event d)) where
    open is_fresh use {id-fresh, pending-fresh, clear-fresh, clear-clear, id-emit}

    abbrev WillStore : A → Event d → Type 0
    WillStore agg = IsStorable (root_id agg) kind (convert agg) deserialize root_apply

    module _
        (storable : (agg a : A) (e : E)
          → root_id a ≡ root_id agg
          → Legal a e
          → IsEncodable (inject e)
          → IsStorable (root_id agg) kind (convert agg) deserialize root_apply (inject e)) where
      -- Every event of a trace that starts from the id of `agg` can be stored.
      Trace-WillStore :
          (agg : A) {a b : A} {es : List E}
          → Trace m Legal a es b
          → root_id a ≡ root_id agg
          → (root_id b ≡ root_id agg)
            × All (λ e. IsEncodable (inject e) → WillStore agg (inject e)) es
      Trace-WillStore agg t start =
          Trace-All m (λ a. root_id a ≡ root_id agg) _
            (λ a e same l. (id-emit a e ∙ same, storable agg a e same l)) t start

      calls-WillStore :
          (a : A) (cs : List C)
          → root_pending a ≡ []
          → All IsEncodable (root_pending (calls m execute a cs))
          → (root_id (calls m execute a cs) ≡ root_id a)
            × All (WillStore (calls m execute a cs)) (root_pending (calls m execute a cs))
      calls-WillStore a cs clean enc =
          let (es, t) = calls-Trace m execute called a cs in
          let same = (Trace-WillStore a t refl).0 in
          let pending : root_pending (calls m execute a cs) ≡ map inject es =
            rw (pending-Trace m t, clean) in
          let agg = calls m execute a cs in
          (
            same,
            subst (All (WillStore agg)) (sym pending) (
                All-map _ inject es (
                  All-mp _ _ es
                    (map-All IsEncodable inject es (subst (All IsEncodable) pending enc))
                    (Trace-WillStore agg t (sym same)).1)),
          )

      pub load-calls :
          (no_events id : String) (cs : List C) (start : Int64)
          → All IsEncodable (root_pending (calls m execute (fresh id) cs))
          → root_pending (calls m execute (fresh id) cs) ≢ []
          → (stored : List (StoredEvent d)) × (store_pending
                (convert (calls m execute (fresh id) cs))
                start
                0
                (root_pending (calls m execute (fresh id) cs))
              ≡ ok stored)
            × IsNumbered (root_id (calls m execute (fresh id) cs)) kind start 0 stored
            × (load_from_events no_events deserialize root_apply fresh root_clear stored
                ≡ ok (root_clear (calls m execute (fresh id) cs)))
      load-calls no_events id cs start enc some_event =
          let agg = calls m execute (fresh id) cs in
          let (kept, storable) = calls-WillStore (fresh id) cs (pending-fresh id) enc in
          let same : root_id agg ≡ id = kept ∙ id-fresh id in
          let (stored, made, numbered, loaded) =
            load-store_pending {A = A} (root_id agg) kind (convert agg) deserialize root_apply
              no_events fresh root_clear start (root_pending agg) storable some_event in
          let replayed : replay r (fresh (root_id agg)) (root_pending agg) ≡ root_clear agg =
            ap (λ x. replay r (fresh x) (root_pending agg)) same
            ∙ ap (λ x. replay r x (root_pending agg)) (sym (clear-fresh id))
            ∙ replay-calls m execute called (fresh id) cs (pending-fresh id) in
          (
            stored,
            made,
            numbered,
            loaded ∙ ap (λ x. ok (root_clear x)) replayed ∙ ap ok (clear-clear agg),
          )

      -- The same for an aggregate that was loaded, and is called again.
      pub resume-calls :
          RootLaws r
          → (no_events : String) (old : List (StoredEvent d)) (a : A) (cs : List C) (start : Int64)
          → load_from_events no_events deserialize root_apply fresh root_clear old ≡ ok a
          → All IsEncodable (root_pending (calls m execute a cs))
          → (stored : List (StoredEvent d)) × (store_pending
                (convert (calls m execute a cs))
                start
                0
                (root_pending (calls m execute a cs))
              ≡ ok stored)
            × IsNumbered (root_id a) kind start 0 stored
            × (load_from_events no_events deserialize root_apply fresh root_clear (old ++ stored)
                ≡ ok (root_clear (calls m execute a cs)))
      resume-calls laws no_events old a cs start loaded enc =
          let agg = calls m execute a cs in
          let (b, is, goes_on) =
            load_from_events-append deserialize root_apply no_events fresh root_clear old a
              loaded in
          let clean : root_pending a ≡ [] = ap root_pending (sym is) ∙ laws.pending-clear b in
          let (same, storable) = calls-WillStore a cs clean enc in
          let (stored, made, replayed, numbered, long) =
            replay_stored-store_pending {A = A} (root_id agg) kind (convert agg) deserialize
              root_apply b start 0 (root_pending agg) storable in
          let cleared : root_clear (replay r b (root_pending agg)) ≡ root_clear agg =
            clear-replay r laws b (root_pending agg)
            ∙ ap (λ x. replay r x (root_pending agg)) (sym (clear-clear b) ∙ ap root_clear is)
            ∙ replay-calls m execute called a cs clean in
          (
            stored,
            made,
            subst (λ id. IsNumbered id kind start 0 stored) same numbered,
            goes_on stored (replay r b (root_pending agg)) replayed ∙ ap ok cleared,
          )
