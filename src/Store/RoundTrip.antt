-- ===== src/Store/RoundTrip.antt =====
-- Appending, and then loading (store.go).
use mathlib.Core.List.Permᴰ
use kite_mcp_eventsourcing.Prelude.{
  String, Bool, true, ◌≡◌, ◌⊎◌, refl, sym, ap, subst, ◌∙◌, inl, inr, Bool-cases, none, some, List,
  [], ◌∷◌, ◌++◌, map, map-All, All, Permᴰ, arith, ◌==◌, eq_refl,
}
use kite_mcp_eventsourcing.Prelude.Word.{signed_ltb}
use kite_mcp_eventsourcing.Collections.{filtered, Permᴰ-mem}
use kite_mcp_eventsourcing.Collections.Ascending.{Ascends, Ascends-Permᴰ, Ascends-unique}
use kite_mcp_eventsourcing.Result.{ok, err-ne-ok, Result-cases}
use kite_mcp_eventsourcing.Domain.{Domain}
use kite_mcp_eventsourcing.Stored.{StoredEvent}
use kite_mcp_eventsourcing.Database.{EventRow, Rows, Database}
use kite_mcp_eventsourcing.Database.Laws.{Tables, complete, DatabaseLaws}
use kite_mcp_eventsourcing.Store.{to_row, from_row, append, load_events}
use kite_mcp_eventsourcing.Store.Append.{Written, append-Written}
use kite_mcp_eventsourcing.Store.Scan.{Reads, scan_events-Reads}

filtered-append :
    (keeps : EventRow → Bool) (xs ys : List EventRow)
    → filtered keeps (xs ++ ys) ≡ filtered keeps xs ++ filtered keeps ys
unfolding filtered
filtered-append keeps [] ys = refl
filtered-append keeps (x ∷ xs) ys = elim (Bool-cases (keeps x)) [
  | inl h ↦ rw (h, filtered-append keeps xs ys)
  | inr h ↦ rw (h, filtered-append keeps xs ys)
]

map-same :
    {A B : Type 0} (f : A → B) (front xs ys : List A)
    → map f xs ≡ map f ys
    → map f (front ++ xs) ≡ map f (front ++ ys)
map-same f [] xs ys h = h
map-same f (a ∷ front) xs ys h = ap (λ rest. f a ∷ rest) (map-same f front xs ys h)

abbrev earlier : EventRow → EventRow → Bool
earlier r s = signed_ltb r.sequence s.sequence

Ascends-map :
    (rows : List EventRow) → Ascends signed_ltb (map (λ r. r.sequence) rows) → Ascends earlier rows
Ascends-map [] h = tt
Ascends-map (r ∷ rows) (now, h) =
    (map-All _ (λ (s : EventRow). s.sequence) rows now, Ascends-map rows h)

module _ {d : Domain} where
  -- The same event with an id, which is its own if it has one.
  abbrev pub IsSaved : StoredEvent d → StoredEvent d → Type 0
  IsSaved e saved = (id : String) × (saved ≡ record e { id = id }) × ((id ≡ e.id) ⊎ (e.id ≡ ""))

  abbrev pub AllSaved : List (StoredEvent d) → List (StoredEvent d) → Type 0
  AllSaved [] [] = Unit
  AllSaved (e ∷ es) (saved ∷ rest) = IsSaved e saved × AllSaved es rest
  AllSaved _ _ = ⊥

  AllSaved-sequence :
      (es saved : List (StoredEvent d))
      → AllSaved es saved
      → map (λ e. e.sequence) saved ≡ map (λ e. e.sequence) es
  AllSaved-sequence [] [] h = refl
  AllSaved-sequence [] (f ∷ saved) h = elim h [ ]
  AllSaved-sequence (e ∷ es) [] h = elim h [ ]
  AllSaved-sequence (e ∷ es) (f ∷ saved) ((id, is, _), h) = rw (is, AllSaved-sequence es saved h)

module _ {d : Domain} (db : Database d) where
  open db use {parse_time, format_time, text_of_bytes, bytes_of_text}

  -- The texts of the event's time and payload can be read back.
  abbrev pub IsPlain : StoredEvent d → Type 0
  IsPlain e =
      (parse_time (format_time e.occurred_at) ≡ ok e.occurred_at)
      × (bytes_of_text (text_of_bytes e.payload) ≡ e.payload)

  from_row-to_row : (e : StoredEvent d) → IsPlain e → from_row db (to_row db e) ≡ ok e
  from_row-to_row e (time, bytes) = rw (time, bytes)

  Written-Reads :
      (rows : List EventRow) (es : List (StoredEvent d))
      → Written db rows es none
      → All IsPlain es
      → (saved : List (StoredEvent d)) × Reads db rows saved × AllSaved es saved
  Written-Reads [] [] h s = ([], tt, tt)
  Written-Reads [] (e ∷ es) h s = elim h [ ]
  Written-Reads (r ∷ rows) [] h s = elim h [ ]
  Written-Reads (r ∷ rows) (e ∷ es) ((id, is, _, kept), h) (now, s) =
      let (saved, reads, all) = Written-Reads rows es h s in
      let e' = record e { id = id } in
      (e' ∷ saved, (rw is (from_row-to_row e' now), reads), ((id, refl, kept), all))

  Written-aggregate :
      (id : String) (rows : List EventRow) (es : List (StoredEvent d))
      → Written db rows es none
      → All (λ e. e.aggregate_id ≡ id) es
      → filtered (λ r. r.aggregate_id == id) rows ≡ rows
  unfolding filtered
  Written-aggregate id [] [] h s = refl
  Written-aggregate id [] (e ∷ es) h s = elim h [ ]
  Written-aggregate id (r ∷ rows) [] h s = elim h [ ]
  Written-aggregate id (r ∷ rows) (e ∷ es) ((i, is, _, _), h) (now, s) =
      let same : (r.aggregate_id == id) ≡ true = rw is (rw now (eq_refl id)) in
      rw (same, Written-aggregate id rows es h s)

  Reads-append :
      (rows more : List EventRow) (es fs : List (StoredEvent d))
      → Reads db rows es
      → Reads db more fs
      → Reads db (rows ++ more) (es ++ fs)
  Reads-append [] more [] fs h k = k
  Reads-append [] more (e ∷ es) fs h k = elim h [ ]
  Reads-append (r ∷ rows) more [] fs h k = elim h [ ]
  Reads-append (r ∷ rows) more (e ∷ es) fs (now, h) k = (now, Reads-append rows more es fs h k)

  Reads-sequence :
      (rows : List EventRow) (es : List (StoredEvent d))
      → Reads db rows es
      → map (λ r. r.sequence) rows ≡ map (λ e. e.sequence) es
  Reads-sequence [] [] h = refl
  Reads-sequence [] (e ∷ es) h = elim h [ ]
  Reads-sequence (r ∷ rows) [] h = elim h [ ]
  Reads-sequence (r ∷ rows) (e ∷ es) (now, h) =
      let same : r.sequence ≡ e.sequence = ground arith in rw (same, Reads-sequence rows es h)

module _ {d : Domain} {db : Database d} {tables : db.World → Tables}
    (laws : DatabaseLaws db tables) where
  open db use {World, select_by_aggregate}

  load_events-Reads :
      (w : World) (id : String) (es : List (StoredEvent d))
      → (load_events db w id).1 ≡ ok es
      → (rows : Rows) × (answer : List EventRow) × ((select_by_aggregate w id).1 ≡ ok rows)
        × (complete rows ≡ some answer)
        × Reads db answer es
  unfolding load_events
  load_events-Reads w id es h = elim (Result-cases (select_by_aggregate w id).1) [
    | inr (x, failed) ↦ absurd (err-ne-ok (rw failed at h))
    | inl (rows, came) ↦
        let (answer, complete, reads) = (scan_events-Reads db rows es).0 (rw came at h) in
        (rows, answer, came, complete, reads)
  ]

  abbrev of_aggregate : String → EventRow → Bool
  of_aggregate id r = r.aggregate_id == id

  -- If the events of an aggregate load, and `Append` then returns no error for more events of it,
  -- whose times and payloads read back and whose sequences go on ascending, then a later query
  -- whose rows come completely makes `LoadEvents` return the old events and after them the new
  -- ones in their order, unchanged but for the id that one without an id was given.
  pub append-load_events :
      (w : World) (id : String) (old es : List (StoredEvent d)) (rows' : Rows)
      (answer' : List EventRow)
      → (load_events db w id).1 ≡ ok old
      → (append db w es).1 ≡ none
      → All (λ e. e.aggregate_id ≡ id) es
      → All (IsPlain db) es
      → Ascends signed_ltb (map (λ e. e.sequence) (old ++ es))
      → (select_by_aggregate (append db w es).0 id).1 ≡ ok rows'
      → complete rows' ≡ some answer'
      → (saved : List (StoredEvent d)) × AllSaved es saved
        × ((load_events db (append db w es).0 id).1 ≡ ok (old ++ saved))
  unfolding load_events
  append-load_events w id old es rows' answer' loaded done mine storable order came' complete' =
      let w' = (append db w es).0 in
      let (rows, answer, came, complete, reads) = load_events-Reads w id old loaded in
      let (perm, sorted) = (laws.select_by_aggregate-answers w id).1 rows answer came complete in
      let (perm', sorted') =
        (laws.select_by_aggregate-answers w' id).1 rows' answer' came' complete' in
      let (new, after, _, written') = append-Written laws w es in
      let written : Written db new es none = subst (Written db new es) done written' in
      let (saved, reads', all_saved) = Written-Reads db new es written storable in
      let both = Reads-append db answer new old saved reads reads' in
      let numbers : map (λ r. r.sequence) (answer ++ new) ≡ map (λ e. e.sequence) (old ++ es) =
        Reads-sequence db (answer ++ new) (old ++ saved) both
        ∙ map-same (λ (e : StoredEvent d). e.sequence) old saved es
            (AllSaved-sequence es saved all_saved) in
      let all_new = Written-aggregate db id new es written mine in
      let table : filtered (of_aggregate id) (tables w').events
          ≡ filtered (of_aggregate id) (tables w).events ++ new =
        ap (filtered (of_aggregate id)) after
        ∙ filtered-append (of_aggregate id) (tables w).events new
        ∙ ap (λ z. filtered (of_aggregate id) (tables w).events ++ z) all_new in
      let rearranged : Permᴰ answer' (answer ++ new) =
        Permᴰ.trans (subst (Permᴰ answer') table perm')
          (Permᴰ.symm (Permᴰ.append_right new perm)) in
      let ascends : Ascends earlier (answer ++ new) =
        Ascends-map (answer ++ new) (subst (Ascends signed_ltb) (sym numbers) order) in
      let same : answer' ≡ answer ++ new =
        Ascends-unique earlier (λ r s h. ground (arith, h)) answer' (answer ++ new)
          (Ascends-Permᴰ earlier answer' (answer ++ new) rearranged sorted' ascends) ascends
          (λ z. Permᴰ-mem rearranged) (λ z. Permᴰ-mem (Permᴰ.symm rearranged)) in
      (
        saved,
        all_saved,
        rw came' (
            (scan_events-Reads db rows' (old ++ saved)).1
              (answer', complete', subst (λ a. Reads db a (old ++ saved)) (sym same) both)),
      )
