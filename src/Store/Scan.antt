-- ===== src/Store/Scan.antt =====
-- What `scanEvents` makes of the rows of a query (store.go).
use kite_mcp_eventsourcing.Prelude.{
  ◌≡◌, ◌↔◌, refl, subst, inl, inr, Option, none, some, List, [], ◌∷◌, arith,
}
use kite_mcp_eventsourcing.Result.{
  Error, Result, ok, err, on_error, Result-cases, ok-injective, err-ne-ok,
}
use kite_mcp_eventsourcing.Domain.{Domain}
use kite_mcp_eventsourcing.Stored.{StoredEvent}
use kite_mcp_eventsourcing.Database.{EventRow, Rows, Database}
use kite_mcp_eventsourcing.Database.Laws.{scanned_rows, complete}
use kite_mcp_eventsourcing.Store.{from_row, scan_rows, scan_events}

module _ {d : Domain} (db : Database d) where
  open db use {parse_time, format_time, text_of_bytes, bytes_of_text}

  -- Each row read as an event, in order.
  abbrev pub Reads : List EventRow → List (StoredEvent d) → Type 0
  Reads [] [] = Unit
  Reads (r ∷ rs) (e ∷ es) = (from_row db r ≡ ok e) × Reads rs es
  Reads _ _ = ⊥

  scan_rows-Reads :
      (scanned : List (Result EventRow)) (ending : Option Error) (es : List (StoredEvent d))
      → scan_rows db scanned ending ≡ ok es
      → (answer : List EventRow) × (ending ≡ none)
        × (scanned_rows scanned ≡ some answer)
        × Reads answer es
  unfolding scan_rows on_error
  scan_rows-Reads [] none es h = ([], refl, refl, subst (Reads []) (ok-injective h) tt)
  scan_rows-Reads [] (some x) es h = absurd (err-ne-ok h)
  scan_rows-Reads (err x ∷ rest) ending es h = absurd (err-ne-ok h)
  scan_rows-Reads (ok r ∷ rest) ending es h = elim (Result-cases (from_row db r)) [
    | inr (x, bad) ↦ absurd (err-ne-ok (rw bad at h))
    | inl (e, read) ↦ elim (Result-cases (scan_rows db rest ending)) [
      | inr (x, bad) ↦ absurd (err-ne-ok (rw (read, bad) at h))
      | inl (es', good) ↦
          let (answer, ended, same, reads) = scan_rows-Reads rest ending es' good in
          (
            r ∷ answer,
            ended,
            rw same,
            subst (Reads (r ∷ answer)) (ok-injective (rw (read, good) at h)) (read, reads),
          )
    ]
  ]

  Reads-scan_rows :
      (scanned : List (Result EventRow)) (answer : List EventRow) (es : List (StoredEvent d))
      → scanned_rows scanned ≡ some answer
      → Reads answer es
      → scan_rows db scanned none ≡ ok es
  unfolding scan_rows on_error
  Reads-scan_rows [] [] [] h reads = refl
  Reads-scan_rows [] [] (e ∷ es) h reads = elim reads [ ]
  Reads-scan_rows [] (r ∷ answer) es h reads = ground arith
  Reads-scan_rows (err x ∷ rest) answer es h reads = ground arith
  Reads-scan_rows (ok r ∷ rest) [] es h reads = ground arith
  Reads-scan_rows (ok r ∷ rest) (a ∷ answer) [] h reads = elim reads [ ]
  Reads-scan_rows (ok r ∷ rest) (a ∷ answer) (e ∷ es) h (read, reads) =
      let same : (r ≡ a) × (scanned_rows rest ≡ some answer) = ground arith in
      let got = Reads-scan_rows rest answer es same.1 reads in rw (same.0, read, got)

  pub complete-some :
      (rows : Rows) (answer : List EventRow)
      → complete rows ≡ some answer
      → (rows.ending ≡ none) × (scanned_rows rows.scanned ≡ some answer)
  complete-some rows answer h = ground arith

  -- `scanEvents` succeeds exactly if every row came and can be read, and then gives the events of
  -- the rows in their order.
  pub scan_events-Reads :
      (rows : Rows) (es : List (StoredEvent d))
      → (scan_events db rows ≡ ok es)
        ↔ ((answer : List EventRow) × (complete rows ≡ some answer) × Reads answer es)
  unfolding scan_events
  scan_events-Reads rows es = (
    λ h.
        let (answer, ended, came, reads) = scan_rows-Reads rows.scanned rows.ending es h in
        (answer, rw (ended, came), reads),
    λ (answer, came, reads).
        let (ended, all) = complete-some rows answer came in
        rw ended (Reads-scan_rows rows.scanned answer es all reads),
  )
