-- ===== src/Outbox/Waiting.antt =====
-- How many rows of the outbox wait to be drained, and what marking them makes of the number.
use kite_mcp_eventsourcing.Prelude.{
  ℕ, suc, String, Bool, true, false, not, ◌&&◌, ◌||◌, ◌≡◌, ◌≢◌, refl, sym, ap, ◌∙◌, inl, inr, List,
  [], ◌∷◌, map, take, length, zero, All, All-take, eq_refl, Bool-cases, ◌==◌, eq_iff, arith, Permᴰ,
}
use mathlib.Core.List.Permᴰ
use kite_mcp_eventsourcing.Collections.{filtered, All-Permᴰ}
use kite_mcp_eventsourcing.Database.{OutboxRow}
use kite_mcp_eventsourcing.Database.Laws.{is_staged, mark}
use kite_mcp_eventsourcing.Database.Keys.{IsStagedOnce, is_staged-ne}

abbrev pub is_waiting : OutboxRow → Bool
is_waiting r = not r.processed

abbrev pub waiting : List OutboxRow → ℕ
waiting rows = length (filtered is_waiting rows)

-- A row with this id waits.
pub awaits : List OutboxRow → String → Bool
awaits [] id = false
awaits (r ∷ rows) id = ((r.event.id == id) && is_waiting r) || awaits rows id

pub awaits-mark :
    (rows : List OutboxRow) (marked id : String)
    → marked ≢ id
    → awaits (map (mark marked) rows) id ≡ awaits rows id
unfolding awaits
awaits-mark [] marked id h = refl
awaits-mark (r ∷ rows) marked id h =
    ground (arith, awaits-mark rows marked id h, eq_iff r.event.id id, eq_iff r.event.id marked)

waiting-mark_absent :
    (rows : List OutboxRow) (id : String)
    → is_staged rows id ≡ false
    → waiting (map (mark id) rows) ≡ waiting rows
unfolding filtered is_staged
waiting-mark_absent [] id h = refl
waiting-mark_absent (r ∷ rows) id h = ground (arith, waiting-mark_absent rows id)

awaits-is_staged :
    (rows : List OutboxRow) (id : String) → awaits rows id ≡ true → is_staged rows id ≡ true
unfolding awaits is_staged
awaits-is_staged [] id h = h
awaits-is_staged (r ∷ rows) id h = ground (arith, awaits-is_staged rows id)

-- Marking a row that waits leaves one less.
pub waiting-mark :
    (rows : List OutboxRow) (id : String)
    → IsStagedOnce rows
    → awaits rows id ≡ true
    → suc (waiting (map (mark id) rows)) ≡ waiting rows
unfolding filtered awaits
waiting-mark [] id once h = ground arith
waiting-mark (r ∷ rows) id (fresh, once) h = elim (Bool-cases (r.event.id == id)) [
  | inl e ↦
      let absent : is_staged rows id ≡ false =
        ap (is_staged rows) (sym ((eq_iff r.event.id id).0 e)) ∙ fresh in
      ground (arith, waiting-mark_absent rows id absent, awaits-is_staged rows id, absent)
  | inr e ↦ ground (arith, waiting-mark rows id once)
]

-- The rows that a query for the waiting ones gives are apart and wait.
abbrev pub IsBatch : List OutboxRow → List OutboxRow → Type 0
IsBatch rows batch = IsStagedOnce batch × All (λ r. awaits rows r.event.id ≡ true) batch

is_staged-Permᴰ :
    {xs ys : List OutboxRow} (id : String) → Permᴰ xs ys → is_staged xs id ≡ is_staged ys id
unfolding is_staged
is_staged-Permᴰ id Permᴰ.nil = refl
is_staged-Permᴰ id (Permᴰ.cons p q) =
    rw (ap (λ (r : OutboxRow). r.event.id == id) p, is_staged-Permᴰ id q)
is_staged-Permᴰ id (Permᴰ.swap p q) =
    ground (
      arith,
      ap (λ (r : OutboxRow). r.event.id == id) p,
      ap (λ (r : OutboxRow). r.event.id == id) q,
    )
is_staged-Permᴰ id (Permᴰ.trans p q) = is_staged-Permᴰ id p ∙ is_staged-Permᴰ id q

pub IsStagedOnce-Permᴰ : {xs ys : List OutboxRow} → Permᴰ xs ys → IsStagedOnce xs → IsStagedOnce ys
unfolding is_staged
IsStagedOnce-Permᴰ Permᴰ.nil h = h
IsStagedOnce-Permᴰ (Permᴰ.cons {a} {b} {l₁ = xs} {l₂ = ys} p q) (fresh, h) = (
  ap (is_staged ys) (sym (ap (λ (r : OutboxRow). r.event.id) p))
      ∙ sym (is_staged-Permᴰ a.event.id q)
      ∙ fresh,
  IsStagedOnce-Permᴰ q h,
)
IsStagedOnce-Permᴰ (Permᴰ.swap {a} {b} {a'} {b'} p q) (fresh, (fresh', h)) =
    let same : a.event.id ≡ b'.event.id = ap (λ (r : OutboxRow). r.event.id) p in
    let same' : b.event.id ≡ a'.event.id = ap (λ (r : OutboxRow). r.event.id) q in
    ground (
      arith,
      same,
      same',
      fresh,
      fresh',
      eq_iff a.event.id b.event.id,
      eq_iff b.event.id a.event.id,
      h,
    )
IsStagedOnce-Permᴰ (Permᴰ.trans p q) h = IsStagedOnce-Permᴰ q (IsStagedOnce-Permᴰ p h)

is_staged-filtered :
    (keeps : OutboxRow → Bool) (rows : List OutboxRow) (id : String)
    → is_staged rows id ≡ false
    → is_staged (filtered keeps rows) id ≡ false
unfolding filtered is_staged
is_staged-filtered keeps [] id h = h
is_staged-filtered keeps (r ∷ rows) id h = ground (arith, is_staged-filtered keeps rows id)

IsStagedOnce-filtered :
    (keeps : OutboxRow → Bool) (rows : List OutboxRow)
    → IsStagedOnce rows
    → IsStagedOnce (filtered keeps rows)
unfolding filtered
IsStagedOnce-filtered keeps [] h = h
IsStagedOnce-filtered keeps (r ∷ rows) (fresh, h) = elim (Bool-cases (keeps r)) [
  | inl e ↦
      rw e (is_staged-filtered keeps rows r.event.id fresh, IsStagedOnce-filtered keeps rows h)
  | inr e ↦ rw e (IsStagedOnce-filtered keeps rows h)
]

is_staged-take :
    (n : ℕ) (rows : List OutboxRow) (id : String)
    → is_staged rows id ≡ false
    → is_staged (take n rows) id ≡ false
unfolding is_staged
is_staged-take zero rows id h = refl
is_staged-take (suc n) [] id h = h
is_staged-take (suc n) (r ∷ rows) id h = ground (arith, is_staged-take n rows id)

IsStagedOnce-take : (n : ℕ) (rows : List OutboxRow) → IsStagedOnce rows → IsStagedOnce (take n rows)
IsStagedOnce-take zero rows h = tt
IsStagedOnce-take (suc n) [] h = h
IsStagedOnce-take (suc n) (r ∷ rows) (fresh, h) =
    (is_staged-take n rows r.event.id fresh, IsStagedOnce-take n rows h)

awaits-head :
    (r : OutboxRow) (rows : List OutboxRow)
    → is_waiting r ≡ true
    → awaits (r ∷ rows) r.event.id ≡ true
unfolding awaits
awaits-head r rows h = ground (arith, eq_refl r.event.id, h)

awaits-tail :
    (r : OutboxRow) (rows : List OutboxRow) (id : String)
    → awaits rows id ≡ true
    → awaits (r ∷ rows) id ≡ true
unfolding awaits
awaits-tail r rows id h = ground (arith, h)

All-awaits-tail :
    (r : OutboxRow) (rows batch : List OutboxRow)
    → All (λ s. awaits rows s.event.id ≡ true) batch
    → All (λ s. awaits (r ∷ rows) s.event.id ≡ true) batch
All-awaits-tail r rows [] h = tt
All-awaits-tail r rows (s ∷ batch) (now, h) =
    (awaits-tail r rows s.event.id now, All-awaits-tail r rows batch h)

awaits-filtered :
    (rows : List OutboxRow) → All (λ r. awaits rows r.event.id ≡ true) (filtered is_waiting rows)
unfolding filtered
awaits-filtered [] = tt
awaits-filtered (r ∷ rows) =
    let later = All-awaits-tail r rows (filtered is_waiting rows) (awaits-filtered rows) in
    elim (Bool-cases (is_waiting r)) [
      | inl h ↦ rw h (awaits-head r rows h, later)
      | inr h ↦ rw h later
    ]

pub IsBatch-pending :
    (n : ℕ) (rows all : List OutboxRow)
    → IsStagedOnce rows
    → Permᴰ all (filtered is_waiting rows)
    → IsBatch rows (take n all)
IsBatch-pending n rows all once perm = (
  IsStagedOnce-take n all
      (IsStagedOnce-Permᴰ (Permᴰ.symm perm) (IsStagedOnce-filtered is_waiting rows once)),
  All-take _ n all (All-Permᴰ _ (Permᴰ.symm perm) (awaits-filtered rows)),
)

pub IsBatch-mark :
    (rows batch : List OutboxRow) (r : OutboxRow)
    → IsBatch rows (r ∷ batch)
    → IsBatch (map (mark r.event.id) rows) batch
IsBatch-mark rows batch r ((fresh, once), (_, waits)) =
    (once, kept batch (is_staged-ne batch r.event.id fresh) waits)
  where
    kept :
        (batch : List OutboxRow)
        → All (λ s. s.event.id ≢ r.event.id) batch
        → All (λ s. awaits rows s.event.id ≡ true) batch
        → All (λ s. awaits (map (mark r.event.id) rows) s.event.id ≡ true) batch
    kept [] apart h = tt
    kept (s ∷ batch) (ne, apart) (now, h) =
        (awaits-mark rows r.event.id s.event.id (λ e. ne (sym e)) ∙ now, kept batch apart h)
