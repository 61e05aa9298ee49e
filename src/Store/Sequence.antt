-- ===== src/Store/Sequence.antt =====
-- The number that `NextSequence` gives (store.go).
use kite_mcp_eventsourcing.Prelude.{
  Memᴰ, suc, refl, ◌⊎◌, Bool-cases, eq_iff, ◌==◌, ◌-◌, ◌^◌, ◌<◌, String, false, ◌≡◌, inl, inr, List,
  [], ◌∷◌, All, All-Memᴰ, arith,
}
use kite_mcp_eventsourcing.Prelude.Word.{Int64, add, signed_ltb}
use kite_mcp_eventsourcing.Collections.{filtered, Memᴰ-filtered}
use kite_mcp_eventsourcing.Result.{Error, Result, ok, err, Result-cases}
use kite_mcp_eventsourcing.Domain.{Domain}
use kite_mcp_eventsourcing.Database.{EventRow, Database}
use kite_mcp_eventsourcing.Database.Laws.{Tables, IsMaxSequence, DatabaseLaws}
use kite_mcp_eventsourcing.Store.{next_sequence}

-- the rows of an aggregate
abbrev pub rows_of : String → List EventRow → List EventRow
rows_of id rows = filtered (λ r. r.aggregate_id == id) rows

-- The sequences of an aggregate are not negative and not the largest number.
abbrev pub IsNumbered : String → List EventRow → Type 0
IsNumbered id rows = All (λ r. r.sequence < 2 ^ 63 - 1) (rows_of id rows)

-- Larger than every sequence of the aggregate, and one more than one of them, or 1 if it has none.
abbrev pub IsNext : String → List EventRow → Int64 → Type 0
IsNext id rows n =
    (n < 2 ^ 63)
    × All (λ r. r.sequence < n) (rows_of id rows)
    × (((r : EventRow) × Memᴰ r (rows_of id rows) × (n ≡ suc r.sequence))
        ⊎ ((rows_of id rows ≡ []) × (n ≡ 1)))

signed_ltb-small :
    (m k : Int64) → m < 2 ^ 63 - 1 → k < 2 ^ 63 - 1 → signed_ltb m k ≡ false → k < add m 1
signed_ltb-small m k hm hk h = ground (arith, h)

above :
    (id : String) (rows : List EventRow) (m : Int64)
    → m < 2 ^ 63 - 1
    → IsNumbered id rows
    → All (λ r. r.aggregate_id ≡ id → signed_ltb m r.sequence ≡ false) rows
    → All (λ r. r.sequence < add m 1) (rows_of id rows)
unfolding filtered
above id [] m small h k = tt
above id (r ∷ rows) m small h (here, k) = elim (Bool-cases (r.aggregate_id == id)) [
  | inl mine ↦
      let (now, h') : All (λ r. r.sequence < 2 ^ 63 - 1) (r ∷ rows_of id rows) = rw mine at h in
      rw mine (
        signed_ltb-small m r.sequence small now (here ((eq_iff r.aggregate_id id).0 mine)),
        above id rows m small h' k,
      )
  | inr other ↦ rw other (above id rows m small (rw other at h) k)
]

no_rows_of :
    (id : String) (rows : List EventRow)
    → All (λ r. ¬ (r.aggregate_id ≡ id)) rows
    → rows_of id rows ≡ []
unfolding filtered
no_rows_of id [] h = refl
no_rows_of id (r ∷ rows) (now, h) = elim (Bool-cases (r.aggregate_id == id)) [
  | inl mine ↦ absurd (now ((eq_iff r.aggregate_id id).0 mine))
  | inr other ↦ rw (other, no_rows_of id rows h)
]

IsMaxSequence-IsNext :
    (id : String) (t : Tables) (m : Int64)
    → IsNumbered id t.events
    → IsMaxSequence id t m
    → IsNext id t.events (add m 1)
IsMaxSequence-IsNext id t m h (largest, inr (zero, no_rows)) = (
  omega (arith, zero),
  above id t.events m (omega (arith, zero)) h largest,
  inr (no_rows_of id t.events no_rows, omega (arith, zero)),
)
IsMaxSequence-IsNext id t m h (largest, inl (r, there, mine, same)) =
    let kept : Memᴰ r (rows_of id t.events) =
      (Memᴰ-filtered _ r t.events).1 (there, (eq_iff r.aggregate_id id).1 mine) in
    let small : r.sequence < 2 ^ 63 - 1 = All-Memᴰ _ kept h in
    (
      omega (arith, small, same),
      above id t.events m (omega (arith, small, same)) h largest,
      inl (r, kept, omega (arith, small, same)),
    )

module _ {d : Domain} (db : Database d) (tables : db.World → Tables) where
  -- What `NextSequence` promises: the next number, or that the query failed.
  abbrev pub IsPromised : db.World → String → Result Int64 → Type 0
  IsPromised w id (ok n) = IsNext id (tables w).events n
  IsPromised w id (err x) = (y : Error) × ((db.select_max_sequence w id).1 ≡ err y)

module _ {d : Domain} {db : Database d} {tables : db.World → Tables}
    (laws : DatabaseLaws db tables) where
  open db use {World, select_max_sequence}

  -- If the sequences of the aggregate's events are not negative and below 2 ^ 63 - 1, the number
  -- that `NextSequence` returns does not overflow, is larger than each of them, and is one more than
  -- one of them, or 1 if there are none; it returns an error only if the query failed. The tables stay as they are.
  pub next_sequence-IsNext :
      (w : World) (id : String)
      → IsNumbered id (tables w).events
      → IsPromised db tables w id (next_sequence db w id).1
        × (tables (next_sequence db w id).0 ≡ tables w)
  unfolding next_sequence
  next_sequence-IsNext w id h = elim (Result-cases (select_max_sequence w id).1) [
    | inl (m, came) ↦ rw came (
      IsMaxSequence-IsNext id (tables w) m h (laws.select_max_sequence-answer w id m came),
      laws.select_max_sequence-tables w id,
    )
    | inr (x, failed) ↦ rw failed ((x, failed), laws.select_max_sequence-tables w id)
  ]
