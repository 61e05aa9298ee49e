-- ===== src/Stored/Load.antt =====
-- What `Load*FromEvents` gives, for the loops of Stored.antt: it succeeds exactly if there is a row
-- and every row can be deserialized, and then the last row decides what every event overwrites.
use kite_mcp_eventsourcing.Prelude.{
  ◌+◌, ◌<◌, ◌%◌, ◌^◌, String, ◌≡◌, ◌≢◌, ◌↔◌, refl, sym, ap, subst, ◌∙◌, inl, inr, List, [], ◌∷◌,
  All, length, arith,
}
use kite_mcp_eventsourcing.Result.{Result, ok, Result-cases, ok-injective, err-ne-ok, >>=-eq-ok}
use kite_mcp_eventsourcing.Domain.{Domain}
use kite_mcp_eventsourcing.Event.{Event}
use kite_mcp_eventsourcing.Aggregate.{AggregateRoot}
use kite_mcp_eventsourcing.Aggregate.Laws.{RootLaws}
use kite_mcp_eventsourcing.Stored.{StoredEvent, replay_stored, load_from_events}

abbrev pub last_or {ℓ} : {A : Type ℓ} → A → List A → A
last_or x [] = x
last_or x (y ∷ ys) = last_or y ys

module _ {d : Domain} (deserialize : StoredEvent d → Result (Event d)) where
  -- the row can be deserialized
  abbrev pub IsReadable : StoredEvent d → Type 0
  IsReadable s = (e : Event d) × (deserialize s ≡ ok e)

  module _ {A : Type 0} (apply : A → Event d → A) where
    -- One round of a replay that succeeds.
    replay_stored-step :
        (a : A) (s : StoredEvent d) (rows : List (StoredEvent d)) {b : A}
        → replay_stored deserialize apply a (s ∷ rows) ≡ ok b
        → (e : Event d) × (deserialize s ≡ ok e)
          × (replay_stored deserialize apply (apply a e) rows ≡ ok b)
    unfolding replay_stored
    replay_stored-step a s rows h = elim (Result-cases (deserialize s)) [
      | inl (e, read) ↦ (e, read, rw (read, replay_stored) at h)
      | inr (x, bad) ↦ absurd (err-ne-ok (rw (bad, replay_stored) at h))
    ]

    replay_stored-IsReadable :
        (a : A) (rows : List (StoredEvent d)) {b : A}
        → replay_stored deserialize apply a rows ≡ ok b
        → All IsReadable rows
    replay_stored-IsReadable a [] h = tt
    replay_stored-IsReadable a (s ∷ rows) h =
        let (e, read, rest) = replay_stored-step a s rows h in
        ((e, read), replay_stored-IsReadable (apply a e) rows rest)

    IsReadable-replay_stored :
        (a : A) (rows : List (StoredEvent d))
        → All IsReadable rows
        → (b : A) × (replay_stored deserialize apply a rows ≡ ok b)
    unfolding replay_stored
    IsReadable-replay_stored a [] h = (a, refl)
    IsReadable-replay_stored a (s ∷ rows) h =
        let (e, read) = h.0 in
        let (b, rest) = IsReadable-replay_stored (apply a e) rows h.1 in
        (b, rw (read, replay_stored) rest)

    -- An invariant of the steps holds at the end.
    replay_stored-inv :
        (P : A → Type 0)
        → ((a : A) (e : Event d) → P a → P (apply a e))
        → (a : A) (rows : List (StoredEvent d)) {b : A}
        → replay_stored deserialize apply a rows ≡ ok b
        → P a
        → P b
    unfolding replay_stored
    replay_stored-inv P keep a [] h p = subst P (ok-injective h) p
    replay_stored-inv P keep a (s ∷ rows) h p =
        let (e, read, rest) = replay_stored-step a s rows h in
        replay_stored-inv P keep (apply a e) rows rest (keep a e p)

    -- What each row decides anew is decided by the last.
    replay_stored-last :
        (P : StoredEvent d → A → Type 0)
        → ((a : A) (s : StoredEvent d) (e : Event d) → deserialize s ≡ ok e → P s (apply a e))
        → (a : A) (s : StoredEvent d) (rows : List (StoredEvent d)) {b : A}
        → replay_stored deserialize apply a (s ∷ rows) ≡ ok b
        → P (last_or s rows) b
    unfolding replay_stored
    replay_stored-last P decides a s [] h =
        let (e, read, rest) = replay_stored-step a s [] h in
        subst (P s) (ok-injective rest) (decides a s e read)
    replay_stored-last P decides a s (s' ∷ rows) h =
        let (e, read, rest) = replay_stored-step a s (s' ∷ rows) h in
        replay_stored-last P decides (apply a e) s' rows rest

module _ {d : Domain} {A : Type 0} (r : AggregateRoot d A) (laws : RootLaws r) (fresh : String → A)
    (fresh_version : (id : String) → r.root_version (fresh id) ≡ 0)
    (fresh_id : (id : String) → r.root_id (fresh id) ≡ id) (no_events : String)
    (deserialize : StoredEvent d → Result (Event d)) where
  open r use {root_id, root_version, root_apply, root_pending, root_clear}

  abbrev load : List (StoredEvent d) → Result A
  load = load_from_events no_events deserialize root_apply fresh root_clear

  replay_stored-version :
      (a : A) (rows : List (StoredEvent d)) {b : A}
      → replay_stored deserialize root_apply a rows ≡ ok b
      → root_version b % 2 ^ 64 ≡ (root_version a + length rows) % 2 ^ 64
  unfolding replay_stored
  replay_stored-version a [] h = omega (arith, ap root_version (ok-injective h))
  replay_stored-version a (s ∷ rows) h =
      let (e, read, rest) = replay_stored-step deserialize root_apply a s rows h in
      omega (arith, replay_stored-version (root_apply a e) rows rest, laws.version-apply a e)

  version_bounded :
      (a : A) (rows : List (StoredEvent d)) {b : A}
      → replay_stored deserialize root_apply a rows ≡ ok b
      → root_version a < 2 ^ 64
      → root_version b < 2 ^ 64
  version_bounded =
      replay_stored-inv deserialize root_apply (λ a. root_version a < 2 ^ 64)
        (λ a e h. omega (arith, laws.version-apply a e))

  -- Loading succeeds exactly if there is a row and every row can be deserialized.
  pub load-IsReadable :
      (rows : List (StoredEvent d))
      → ((agg : A) × (load rows ≡ ok agg)) ↔ ((rows ≢ []) × All (IsReadable deserialize) rows)
  unfolding load_from_events
  load-IsReadable [] = (λ (agg, h). cc, λ (some_row, h). absurd (some_row refl))
  load-IsReadable (first ∷ rest) = (
    λ (agg, h).
        let (b, replayed, _) = >>=-eq-ok _ _ h in
        ((λ e. cc), replay_stored-IsReadable deserialize root_apply _ (first ∷ rest) replayed),
    λ (_, readable).
        let (b, replayed) =
          IsReadable-replay_stored deserialize root_apply (fresh first.aggregate_id) (first ∷ rest)
            readable in
        (root_clear b, rw replayed),
  )

  -- What is loaded has the id of the first row, no event pending, and as many versions as there
  -- were rows, on a 64-bit counter.
  pub load-root :
      (first : StoredEvent d) (rest : List (StoredEvent d)) {agg : A}
      → load (first ∷ rest) ≡ ok agg
      → (root_id agg ≡ first.aggregate_id)
        × (root_pending agg ≡ [])
        × (root_version agg ≡ length (first ∷ rest) % 2 ^ 64)
  unfolding load_from_events
  load-root first rest {agg} h =
      let start = fresh first.aggregate_id in
      let (b, replayed, same) = >>=-eq-ok _ _ h in
      let same' : root_clear b ≡ agg = ok-injective same in
      let counted = replay_stored-version start (first ∷ rest) replayed in
      let bounded =
        version_bounded start (first ∷ rest) replayed
          (omega (arith, fresh_version first.aggregate_id)) in
      let named =
        replay_stored-inv deserialize root_apply (λ a. root_id a ≡ first.aggregate_id)
          (λ a e p. laws.id-apply a e ∙ p) start (first ∷ rest) replayed (fresh_id _) in
      (
        ap root_id (sym same') ∙ laws.id-clear b ∙ named,
        ap root_pending (sym same') ∙ laws.pending-clear b,
        omega (
          arith,
          counted,
          bounded,
          fresh_version first.aggregate_id,
          ap root_version same',
          laws.version-clear b,
        ),
      )

  -- What every event that is read decides, and clearing keeps, is decided by the last row.
  pub load-last :
      (P : StoredEvent d → A → Type 0)
      → ((a : A) (s : StoredEvent d) (e : Event d) → deserialize s ≡ ok e → P s (root_apply a e))
      → ((a : A) (s : StoredEvent d) → P s a → P s (root_clear a))
      → (first : StoredEvent d) (rest : List (StoredEvent d)) {agg : A}
      → load (first ∷ rest) ≡ ok agg
      → P (last_or first rest) agg
  unfolding load_from_events
  load-last P decides keeps first rest {agg} h =
      let (b, replayed, same) = >>=-eq-ok _ _ h in
      subst (P (last_or first rest)) (ok-injective same) (
        keeps b _ (
          replay_stored-last deserialize root_apply P decides (fresh first.aggregate_id) first rest
            replayed))
