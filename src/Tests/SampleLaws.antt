-- ===== src/Tests/SampleLaws.antt =====
-- The laws of the sample database.
use kite_mcp_eventsourcing.Prelude.{
  ℕ, zero, suc, ◌≢◌, String, Bool, false, not, ◌≡◌, refl, sym, ap, subst, ◌∙◌, inl, inr, Option,
  none, some, List, [], ◌∷◌, map, All, Memᴰ, Bool-cases, ◌==◌, eq_iff, if◌then◌else◌, arith,
}
use mathlib.Core.Option.{some-injective}
use kite_mcp_eventsourcing.Prelude.Word.{Int64, signed_ltb}
use kite_mcp_eventsourcing.Result.{message, Result, ok, ok-injective}
use kite_mcp_eventsourcing.Collections.{filtered, IsWeakOrder}
use kite_mcp_eventsourcing.Database.{EventRow, Rows}
use kite_mcp_eventsourcing.Database.Laws.{
  Tables, clashes, is_staged, complete, scanned_rows, Selects, SelectsPending, IsMaxSequence,
  Answers, DatabaseLaws, TextLaws,
}
use kite_mcp_eventsourcing.Outbox.Progress.{IsResponsive}
use kite_mcp_eventsourcing.Tests.SampleCollections.{
  sample_collections, sample_collection_laws, sample_before_order,
}
use kite_mcp_eventsourcing.Tests.SampleDatabase.{
  Disk, tables_of, rank, all_rows, by_sequence, by_time, by_insertion, of_aggregate, is_later,
  is_theirs, select, pending, larger, last_row, number_of, sample_db, id_text, text_of, tokens_of,
  time_text, time_of,
}

scanned-map : (rows : List EventRow) → scanned_rows (map ok rows) ≡ some rows
scanned-map [] = refl
scanned-map (r ∷ rows) = rw (scanned-map rows)

complete-all_rows : (rows : List EventRow) → complete (all_rows rows) ≡ some rows
complete-all_rows rows = scanned-map rows

sample-Answers :
    (P : Tables → List EventRow → Type 0) (w : Disk) (found : List EventRow)
    → P (tables_of w) found
    → Answers sample_db tables_of P (tables_of w) (w, ok (all_rows found))
sample-Answers P w found h =
    (refl, λ rows answer e c. subst (P (tables_of w)) (same rows answer e c) h)
  where
    same :
        (rows : Rows) (answer : List EventRow)
        → Result.ok (all_rows found) ≡ ok rows
        → complete rows ≡ some answer
        → found ≡ answer
    same rows answer e c =
        some-injective found answer
          (sym (complete-all_rows found) ∙ ap complete (ok-injective e) ∙ c)

sequence_order : IsWeakOrder by_sequence
sequence_order = record {
  asymmetric = λ x y h. ground (arith, h);
  negatively_transitive = λ x y z h k. ground (arith, h, k);
}

time_order : IsWeakOrder by_time
time_order = record {
  asymmetric = λ x y h. sample_before_order.asymmetric (rank x.occurred_at) (rank y.occurred_at) h;
  negatively_transitive = λ x y z h k.
      sample_before_order.negatively_transitive (rank x.occurred_at) (rank y.occurred_at)
        (rank z.occurred_at) h k;
}

insertion_order : IsWeakOrder by_insertion
insertion_order = record {
  asymmetric = λ x y h. sample_before_order.asymmetric (rank x.inserted_at) (rank y.inserted_at) h;
  negatively_transitive = λ x y z h k.
      sample_before_order.negatively_transitive (rank x.inserted_at) (rank y.inserted_at)
        (rank z.inserted_at) h k;
}

select-Selects :
    (test : EventRow → Bool) (before : EventRow → EventRow → Bool) (w : Disk)
    → IsWeakOrder before
    → Selects test before (tables_of w) (select test before w)
select-Selects test before w order = (
  sample_collection_laws.sort_slice-Permᴰ before _,
  sample_collection_laws.sort_slice-IsSorted before _ order,
)

selected :
    (test : EventRow → Bool) (before : EventRow → EventRow → Bool) (w : Disk)
    → IsWeakOrder before
    → Answers sample_db tables_of
        (Selects test before)
        (tables_of w)
        (w, ok (all_rows (select test before w)))
selected test before w order =
    sample-Answers (Selects test before) w (select test before w)
      (select-Selects test before w order)

pending-SelectsPending : (w : Disk) → SelectsPending sample_db.text_before (tables_of w) (pending w)
pending-SelectsPending w = (
  sample_collections.sort_slice by_insertion (filtered (λ r. not r.processed) w.outbox),
  sample_collection_laws.sort_slice-Permᴰ by_insertion _,
  sample_collection_laws.sort_slice-IsSorted by_insertion _ insertion_order,
  refl,
)

abbrev IsLast : String → List EventRow → Option EventRow → Type 0
IsLast id rows none = All (λ r. ¬ (r.aggregate_id ≡ id)) rows
IsLast id rows (some s) =
    Memᴰ s rows
    × (s.aggregate_id ≡ id)
    × All (λ r. r.aggregate_id ≡ id → signed_ltb s.sequence r.sequence ≡ false) rows

All-not_larger :
    (id : String) (r s : EventRow) (rows : List EventRow)
    → signed_ltb r.sequence s.sequence ≡ false
    → All (λ t. t.aggregate_id ≡ id → signed_ltb s.sequence t.sequence ≡ false) rows
    → All (λ t. t.aggregate_id ≡ id → signed_ltb r.sequence t.sequence ≡ false) rows
All-not_larger id r s [] le h = tt
All-not_larger id r s (t ∷ rows) le (now, h) = (
  λ mine. sequence_order.negatively_transitive t s r (now mine) le,
  All-not_larger id r s rows le h,
)

All-vacuous :
    (id : String) (n : Int64) (rows : List EventRow)
    → All (λ t. ¬ (t.aggregate_id ≡ id)) rows
    → All (λ t. t.aggregate_id ≡ id → signed_ltb n t.sequence ≡ false) rows
All-vacuous id n [] h = tt
All-vacuous id n (t ∷ rows) (now, h) = (λ mine. absurd (now mine), All-vacuous id n rows h)

not_larger_self : (n : Int64) → signed_ltb n n ≡ false
not_larger_self n = ground arith

IsLast-step :
    (id : String) (r : EventRow) (rows : List EventRow) (o : Option EventRow)
    → IsLast id rows o
    → IsLast id (r ∷ rows) (if r.aggregate_id == id then some (larger r o) else o)
IsLast-step id r rows none h = elim (Bool-cases (r.aggregate_id == id)) [
  | inl mine ↦ rw mine (
    Memᴰ.head refl,
    (eq_iff r.aggregate_id id).0 mine,
    ((λ _. not_larger_self r.sequence), All-vacuous id r.sequence rows h),
  )
  | inr other ↦ rw other ((λ same. ground (arith, same, eq_iff r.aggregate_id id)), h)
]
IsLast-step id r rows (some s) (there, mine', h) = elim (Bool-cases (r.aggregate_id == id)) [
  | inr other ↦
      rw other
        (Memᴰ.tail there, mine', ((λ same. ground (arith, same, eq_iff r.aggregate_id id)), h))
  | inl mine ↦ elim (Bool-cases (signed_ltb r.sequence s.sequence)) [
    | inl lt ↦
        let is : larger r (some s) ≡ s = rw lt in
        rw mine (
          subst (λ u. IsLast id (r ∷ rows) (some u)) (sym is)
            (Memᴰ.tail there, mine', ((λ _. sequence_order.asymmetric r s lt), h)))
    | inr ge ↦
        let is : larger r (some s) ≡ r = rw ge in
        rw mine (
          subst (λ u. IsLast id (r ∷ rows) (some u)) (sym is)
            (
              Memᴰ.head refl,
              (eq_iff r.aggregate_id id).0 mine,
              ((λ _. not_larger_self r.sequence), All-not_larger id r s rows ge h),
            ))
  ]
]

last_row-IsLast : (id : String) (rows : List EventRow) → IsLast id rows (last_row id rows)
last_row-IsLast id [] = tt
last_row-IsLast id (r ∷ rows) = IsLast-step id r rows (last_row id rows) (last_row-IsLast id rows)

last_row-IsMaxSequence :
    (id : String) (w : Disk) (o : Option EventRow)
    → IsLast id w.events o
    → IsMaxSequence id (tables_of w) (number_of o)
last_row-IsMaxSequence id w none h = (All-vacuous id 0 w.events h, inr (refl, h))
last_row-IsMaxSequence id w (some s) (there, mine, h) = (h, inl (s, there, mine, refl))

id_text-ne : (n : ℕ) → id_text n ≢ ""
id_text-ne zero e = ground (arith, (eq_iff (id_text 0) "").1 e)
id_text-ne (suc zero) e = ground (arith, (eq_iff (id_text 1) "").1 e)
id_text-ne (suc (suc n)) e = ground (arith, (eq_iff (id_text 2) "").1 e)

time_text-time_of : (t t' : ℕ) → time_of (time_text t) ≡ ok t' → time_text t' ≡ time_text t
time_text-time_of zero t' h = ap time_text (sym (ok-injective h))
time_text-time_of (suc zero) t' h = ap time_text (sym (ok-injective h))
time_text-time_of (suc (suc zero)) t' h = ap time_text (sym (ok-injective h))
time_text-time_of (suc (suc (suc zero))) t' h = ap time_text (sym (ok-injective h))
time_text-time_of (suc (suc (suc (suc t)))) t' h = ap time_text (sym (ok-injective h))

text_of-tokens_of : (s : String) → text_of (tokens_of s) ≡ s
text_of-tokens_of s = elim (Bool-cases (s == "")) [
  | inl h ↦ rw h (sym ((eq_iff s "").0 h))
  | inr named ↦ elim (Bool-cases (s == "{}")) [
    | inl h ↦ rw (named, h) (sym ((eq_iff s "{}").0 h))
    | inr other ↦ elim (Bool-cases (s == "{placed}")) [
      | inl h ↦ rw (named, other, h) (sym ((eq_iff s "{placed}").0 h))
      | inr third ↦ rw (named, other, third, named)
    ]
  ]
]

pub sample_texts : TextLaws sample_db
sample_texts = record {
  text_of_bytes-bytes_of_text = text_of-tokens_of;
  format_time-parse_time = time_text-time_of;
}

pub sample_db_laws : DatabaseLaws sample_db tables_of
sample_db_laws = record {
  exec_ddl-tables = λ w s. refl;
  insert_event-tables = λ w r. elim (Bool-cases (clashes w.events r)) [
    | inl there ↦ rw there (inr ((message "UNIQUE constraint failed", refl), refl))
    | inr fresh ↦ rw fresh (inl (refl, (refl, refl)))
  ];
  insert_outbox-tables = λ w r at. elim (Bool-cases (is_staged w.outbox r.id)) [
    | inl there ↦ rw there (inr ((message "UNIQUE constraint failed", refl), refl))
    | inr fresh ↦ rw fresh (inl (refl, (refl, refl)))
  ];
  mark_processed-tables = λ w id. inl (refl, refl);
  select_by_aggregate-answers = λ w id. selected (of_aggregate id) by_sequence w sequence_order;
  select_since-answers = λ w at. selected (is_later at) by_time w time_order;
  select_by_email_hash-answers = λ w hash at. selected (is_theirs hash at) by_time w time_order;
  select_pending-answers =
      λ w. sample-Answers (SelectsPending sample_db.text_before) w _ (pending-SelectsPending w);
  select_max_sequence-tables = λ w id. refl;
  select_max_sequence-answer = λ w id n h.
      subst (IsMaxSequence id (tables_of w)) (ok-injective h)
        (last_row-IsMaxSequence id w (last_row id w.events) (last_row-IsLast id w.events));
  new_uuid-tables = λ w. refl;
  now-tables = λ w. refl;
  ctx_err-tables = λ w. refl;
  new_uuid-ne = λ w. id_text-ne w.ids;
}

pub sample_responds : IsResponsive sample_db
sample_responds = record {
  ctx_err-none = λ w. refl;
  mark_processed-none = λ w id. refl;
  select_pending-complete =
      λ w. (all_rows (pending w), pending w, refl, complete-all_rows (pending w));
}
