-- ===== src/Tests/SampleCollections.antt =====
-- A concrete range and sort for the instances of the theorems: the values in their order, and an
-- insertion sort.
use mathlib.Core.List.Permᴰ
use kite_mcp_eventsourcing.Prelude.{
  Bool, true, false, ◌≡◌, refl, List, [], ◌∷◌, All, Permᴰ, if◌then◌else◌, Bool-cases, inl, inr,
  arith,
}
use kite_mcp_eventsourcing.Assoc.{values}
use kite_mcp_eventsourcing.Collections.{Collections, CollectionLaws, IsWeakOrder, IsSorted}
use kite_mcp_eventsourcing.Tests.{sample}

module _ {A : Type 0} (less : A → A → Bool) where
  put : A → List A → List A
  put x [] = x ∷ []
  put x (y ∷ ys) = if less y x then y ∷ put x ys else x ∷ y ∷ ys

  sorted : List A → List A
  sorted [] = []
  sorted (x ∷ xs) = put x (sorted xs)

  put-Permᴰ : (x : A) (ys : List A) → Permᴰ (put x ys) (x ∷ ys)
  unfolding put
  put-Permᴰ x [] = Permᴰ.refl _
  put-Permᴰ x (y ∷ ys) =
      elim (less y x) as (λ b. Permᴰ (if b then y ∷ put x ys else x ∷ y ∷ ys) (x ∷ y ∷ ys)) [
        | true ↦ Permᴰ.trans (Permᴰ.cons refl (put-Permᴰ x ys)) (Permᴰ.swap refl refl)
        | false ↦ Permᴰ.refl _
      ]

  sorted-Permᴰ : (xs : List A) → Permᴰ (sorted xs) xs
  unfolding sorted
  sorted-Permᴰ [] = Permᴰ.nil
  sorted-Permᴰ (x ∷ xs) = Permᴰ.trans (put-Permᴰ x (sorted xs)) (Permᴰ.cons refl (sorted-Permᴰ xs))

  All-put : (P : A → Type 0) (x : A) (ys : List A) → P x → All P ys → All P (put x ys)
  unfolding put
  All-put P x [] px h = (px, tt)
  All-put P x (y ∷ ys) px h =
      elim (less y x) as (λ b. All P (if b then y ∷ put x ys else x ∷ y ∷ ys)) [
        | true ↦ (h.0, All-put P x ys px h.1)
        | false ↦ (px, h)
      ]

  module _ (w : IsWeakOrder less) where
    All-less :
        (x y : A) (ys : List A)
        → less y x ≡ false
        → All (λ z. less z y ≡ false) ys
        → All (λ z. less z x ≡ false) ys
    All-less x y [] h all = tt
    All-less x y (z ∷ ys) h all = (w.negatively_transitive x y z h all.0, All-less x y ys h all.1)

    put-IsSorted : (x : A) (ys : List A) → IsSorted less ys → IsSorted less (put x ys)
    unfolding put
    put-IsSorted x [] h = (tt, tt)
    put-IsSorted x (y ∷ ys) h = elim (Bool-cases (less y x)) [
      | inl lt ↦
          rw lt
            (All-put (λ z. less z y ≡ false) x ys (w.asymmetric y x lt) h.0, put-IsSorted x ys h.1)
      | inr ge ↦ rw ge ((ge, All-less x y ys ge h.0), h)
    ]

    sorted-IsSorted : (xs : List A) → IsSorted less (sorted xs)
    unfolding sorted
    sorted-IsSorted [] = tt
    sorted-IsSorted (x ∷ xs) = put-IsSorted x (sorted xs) (sorted-IsSorted xs)

unfoldable pub sample_collections : Collections
unfolding sorted put
sample_collections = record { range = values; sort_slice = sorted }

pub sample_collection_laws : CollectionLaws sample_collections
unfolding sample_collections sorted put
sample_collection_laws = record {
  range-values = λ m. Permᴰ.refl _;
  sort_slice-Permᴰ = sorted-Permᴰ;
  sort_slice-IsSorted = λ less xs w. sorted-IsSorted less w xs;
}

pub sample_before_order : IsWeakOrder sample.before
sample_before_order = record {
  asymmetric = λ x y h. ground arith;
  negatively_transitive = λ x y z h k. ground arith;
}
