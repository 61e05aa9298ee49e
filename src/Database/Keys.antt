-- ===== src/Database/Keys.antt =====
-- Facts on the key of the outbox.
use kite_mcp_eventsourcing.Prelude.{
  String, false, ◌||◌, ◌≡◌, ◌≢◌, refl, List, [], ◌∷◌, ◌++◌, map, All, arith, eq_iff,
}
use kite_mcp_eventsourcing.Database.{OutboxRow}
use kite_mcp_eventsourcing.Database.Laws.{is_staged, mark}

-- No two rows of the outbox have the same id.
abbrev pub IsStagedOnce : List OutboxRow → Type 0
IsStagedOnce [] = Unit
IsStagedOnce (r ∷ rows) = (is_staged rows r.event.id ≡ false) × IsStagedOnce rows

pub is_staged-ne :
    (rows : List OutboxRow) (id : String)
    → is_staged rows id ≡ false
    → All (λ r. r.event.id ≢ id) rows
unfolding is_staged
is_staged-ne [] id h = tt
is_staged-ne (r ∷ rows) id h =
    (ground (arith, eq_iff r.event.id id), is_staged-ne rows id (ground arith))

pub is_staged-mark :
    (marked : String) (rows : List OutboxRow) (id : String)
    → is_staged (map (mark marked) rows) id ≡ is_staged rows id
unfolding is_staged
is_staged-mark marked [] id = refl
is_staged-mark marked (r ∷ rows) id = rw (is_staged-mark marked rows id)

pub is_staged-append :
    (rows more : List OutboxRow) (id : String)
    → is_staged (rows ++ more) id ≡ (is_staged rows id || is_staged more id)
unfolding is_staged
is_staged-append [] more id = refl
is_staged-append (r ∷ rows) more id = ground (arith, is_staged-append rows more id)

pub IsStagedOnce-mark :
    (id : String) (rows : List OutboxRow) → IsStagedOnce rows → IsStagedOnce (map (mark id) rows)
IsStagedOnce-mark id [] h = tt
IsStagedOnce-mark id (r ∷ rows) (once, h) =
    (rw (is_staged-mark id rows r.event.id) once, IsStagedOnce-mark id rows h)

pub IsStagedOnce-append :
    (rows : List OutboxRow) (r : OutboxRow)
    → is_staged rows r.event.id ≡ false
    → IsStagedOnce rows
    → IsStagedOnce (rows ++ r ∷ [])
unfolding is_staged
IsStagedOnce-append [] r fresh h = (refl, tt)
IsStagedOnce-append (s ∷ rows) r fresh (once, h) = (
  rw (is_staged-append rows (r ∷ []) s.event.id, once)
      (ground (arith, eq_iff s.event.id r.event.id, eq_iff r.event.id s.event.id)),
  IsStagedOnce-append rows r (ground arith) h,
)
