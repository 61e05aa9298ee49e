-- ===== src/Stored/RoundTrip.antt =====
-- Storing pending events and replaying the stored ones, for the loops of Stored.antt: if each event
-- comes back from its stored form, the whole stream does.
use kite_mcp_eventsourcing.Prelude.{
  ℕ, suc, String, ◌≡◌, ◌≢◌, refl, ap, ◌∙◌, inl, inr, ◌++◌, List, [], ◌∷◌, foldl, All, length, arith,
}
use kite_mcp_eventsourcing.Prelude.Word.{Int64, add}
use kite_mcp_eventsourcing.Result.{Result, ok, Result-cases, ok-injective, err-ne-ok, ◌>>=◌}
use kite_mcp_eventsourcing.Domain.{Domain}
use kite_mcp_eventsourcing.Event.{Event}
use kite_mcp_eventsourcing.Stored.{StoredEvent, replay_stored, load_from_events, store_pending}

-- The rows are numbered from `start + i` on, and belong to the aggregate `id`.
abbrev pub IsNumbered : {d : Domain} → String → String → Int64 → ℕ → List (StoredEvent d) → Type 0
IsNumbered id kind start i [] = Unit
IsNumbered id kind start i (s ∷ rest) =
    (s.aggregate_id ≡ id)
    × (s.aggregate_type ≡ kind)
    × (s.sequence ≡ add start i)
    × IsNumbered id kind start (suc i) rest

module _ {d : Domain} {A : Type 0} where
  module _ (id kind : String) (convert : Event d → Int64 → Result (StoredEvent d))
      (deserialize : StoredEvent d → Result (Event d)) (apply : A → Event d → A) where
    -- The event is stored under the id, the type and the number given, and is read back.
    abbrev pub IsStorable : Event d → Type 0
    IsStorable e =
        (seq : Int64)
        → (s : StoredEvent d) × (convert e seq ≡ ok s)
          × (deserialize s ≡ ok e)
          × (s.aggregate_id ≡ id)
          × (s.aggregate_type ≡ kind)
          × (s.sequence ≡ seq)

    pub replay_stored-store_pending :
        (a : A) (start : Int64) (i : ℕ) (es : List (Event d))
        → All IsStorable es
        → (stored : List (StoredEvent d)) × (store_pending convert start i es ≡ ok stored)
          × (replay_stored deserialize apply a stored ≡ ok (foldl apply a es))
          × IsNumbered id kind start i stored
          × (length stored ≡ length es)
    unfolding replay_stored store_pending
    replay_stored-store_pending a start i [] h = ([], refl, refl, tt, refl)
    replay_stored-store_pending a start i (e ∷ es) h =
        let (s, made, back, of, type, at) = h.0 (add start i) in
        let (stored, rest, replayed, numbered, long) =
          replay_stored-store_pending (apply a e) start (suc i) es h.1 in
        (
          s ∷ stored,
          rw (made, rest),
          rw (back, replay_stored) replayed,
          (of, type, at, numbered),
          omega arith,
        )

    -- The same for the functions themselves, where there is an event to load from.
    pub load-store_pending :
        (no_events : String) (fresh : String → A) (clear : A → A) (start : Int64)
        (es : List (Event d))
        → All IsStorable es
        → es ≢ []
        → (stored : List (StoredEvent d)) × (store_pending convert start 0 es ≡ ok stored)
          × IsNumbered id kind start 0 stored
          × (load_from_events no_events deserialize apply fresh clear stored
              ≡ ok (clear (foldl apply (fresh id) es)))
    unfolding load_from_events
    load-store_pending no_events fresh clear start [] h some_event = absurd (some_event refl)
    load-store_pending no_events fresh clear start (e ∷ es) h _ =
        let (stored, made, replayed, numbered, long) =
          replay_stored-store_pending (fresh id) start 0 (e ∷ es) h in
        (stored, made, numbered, loaded stored replayed numbered long)
      where
        loaded :
            (stored : List (StoredEvent d))
            → replay_stored deserialize apply (fresh id) stored
              ≡ ok (foldl apply (fresh id) (e ∷ es))
            → IsNumbered id kind start 0 stored
            → length stored ≡ length (e ∷ es)
            → load_from_events no_events deserialize apply fresh clear stored
              ≡ ok (clear (foldl apply (fresh id) (e ∷ es)))
        loaded [] replayed numbered long = absurd (omega arith)
        loaded (first ∷ rest) replayed numbered long =
            ap
              (λ x.
                replay_stored deserialize apply (fresh x) (first ∷ rest) >>= λ agg. ok (clear agg))
              numbered.0
            ∙ rw replayed

-- Loading goes on where more events follow.
module _ {d : Domain} {A : Type 0} (deserialize : StoredEvent d → Result (Event d))
    (apply : A → Event d → A) where
  replay_stored-append :
      (a b : A) (old new : List (StoredEvent d))
      → replay_stored deserialize apply a old ≡ ok b
      → replay_stored deserialize apply a (old ++ new) ≡ replay_stored deserialize apply b new
  unfolding replay_stored
  replay_stored-append a b [] new h =
      ap (λ x. replay_stored deserialize apply x new) (ok-injective h)
  replay_stored-append a b (e ∷ old) new h = elim (Result-cases (deserialize e)) [
    | inl (event, read) ↦
        rw (read, replay_stored)
          (replay_stored-append (apply a event) b old new (rw (read, replay_stored) at h))
    | inr (x, bad) ↦ absurd (err-ne-ok (rw (bad, replay_stored) at h))
  ]

  pub load_from_events-append :
      (no_events : String) (fresh : String → A) (clear : A → A) (old : List (StoredEvent d)) (a : A)
      → load_from_events no_events deserialize apply fresh clear old ≡ ok a
      → (b : A) × (clear b ≡ a)
        × ((new : List (StoredEvent d)) (c : A)
            → replay_stored deserialize apply b new ≡ ok c
            → load_from_events no_events deserialize apply fresh clear (old ++ new) ≡ ok (clear c))
  unfolding load_from_events
  load_from_events-append m fresh clear [] a h = absurd (err-ne-ok h)
  load_from_events-append m fresh clear (e ∷ old) a h =
      elim (Result-cases (replay_stored deserialize apply (fresh e.aggregate_id) (e ∷ old))) [
        | inr (x, bad) ↦ absurd (err-ne-ok (rw bad at h))
        | inl (b, replayed) ↦ (
          b,
          ok-injective (rw replayed at h),
          λ new c more.
              ap (λ (r : Result A). r >>= λ agg. ok (clear agg))
                (replay_stored-append (fresh e.aggregate_id) b (e ∷ old) new replayed ∙ more),
        )
      ]
