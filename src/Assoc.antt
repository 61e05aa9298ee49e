-- ===== src/Assoc.antt =====
-- Go's `map[string]V` as an association list; the program never deletes a key.
use kite_mcp_eventsourcing.Prelude.{
  String, suc, true, false, ◌≡◌, refl, ◌==◌, eq_iff, Option, none, some, List, [], ◌∷◌, map, length,
  All, arith, if◌then◌else◌,
}

module _ {ℓ} {V : Type ℓ} where
  unfoldable pub lookup : String → List (String × V) → Option V
  lookup k [] = none
  lookup k ((j, v) ∷ m) = if j == k then some v else lookup k m

  unfoldable pub insert : String → V → List (String × V) → List (String × V)
  insert k v [] = (k, v) ∷ []
  insert k v ((j, w) ∷ m) = if j == k then (k, v) ∷ m else (j, w) ∷ insert k v m

  abbrev pub values : List (String × V) → List V
  values = map (λ e. e.1)

  -- What is filed under `key` is found under it, and every other name finds what it found.
  pub lookup-insert :
      (key name : String) (new : V) (m : List (String × V))
      → lookup name (insert key new m) ≡ (if key == name then some new else lookup name m)
  unfolding lookup insert
  lookup-insert key name new [] = refl
  lookup-insert key name new ((old_key, old) ∷ rest) = ground (
    arith,
    lookup-insert key name new rest,
    eq_iff old_key name,
    eq_iff old_key key,
    eq_iff key name,
  )

  -- A new key makes the map one longer, an old one keeps its length.
  pub length-insert :
      (k : String) (v : V) (m : List (String × V))
      → length (insert k v m) ≡ elim (lookup k m) [ none ↦ suc (length m) | some w ↦ length m ]
  unfolding lookup insert
  length-insert k v [] = refl
  length-insert k v ((i, w) ∷ m) = ground (arith, length-insert k v m)

  -- What holds of each entry, and of the new one, holds of each entry afterwards.
  pub All-insert {κ} :
      (P : String × V → Type κ) (k : String) (v : V) (m : List (String × V))
      → P (k, v)
      → All P m
      → All P (insert k v m)
  unfolding insert
  All-insert P k v [] new old = (new, tt)
  All-insert P k v ((j, w) ∷ m) new old =
      elim (j == k) as (λ b. All P (if b then (k, v) ∷ m else (j, w) ∷ insert k v m)) [
        | true ↦ (new, old.1)
        | false ↦ (old.0, All-insert P k v m new old.1)
      ]
