-- ===== src/Collections.antt =====
-- What projection.go takes of Go's collections: the order in which `range` visits a map, and
-- `sort.Slice`. They are parameters with the laws that their documentation states.
pub mod Ascending
use kite_mcp_eventsourcing.Prelude.{
  String, Bool, true, false, ◌≡◌, refl, suc, length, ◌∙◌, subst, List, [], ◌∷◌, All, Memᴰ, Permᴰ,
  Bool-cases, inl, inr, ap, ◌↔◌, if◌then◌else◌, arith,
}
use kite_mcp_eventsourcing.Assoc.{values}

-- `less` compares as a strict weak order does.
pub record IsWeakOrder {A : Type 0} (less : A → A → Bool) : Type 0 where
  pub asymmetric : (x y : A) → less x y ≡ true → less y x ≡ false
  pub negatively_transitive : (x y z : A) → less y x ≡ false → less z y ≡ false → less z x ≡ false

-- No element is less than one before it.
abbrev pub IsSorted : {A : Type 0} → (A → A → Bool) → List A → Type 0
IsSorted less [] = Unit
IsSorted less (x ∷ xs) = All (λ y. less y x ≡ false) xs × IsSorted less xs

pub record Collections : Type 1 where
  -- the values of a map, in the order of one `range` over it
  pub range : {A : Type 0} → List (String × A) → List A
  -- `sort.Slice(xs, func(i, j int) bool { return less(xs[i], xs[j]) })`
  pub sort_slice : {A : Type 0} → (A → A → Bool) → List A → List A

module _ (c : Collections) where
  open c use {range, sort_slice}

  -- Each entry is visited once, in any order; a sort keeps the elements and, for a weak order,
  -- leaves them sorted.
  pub record CollectionLaws : Type 1 where
    pub range-values : {A : Type 0} (m : List (String × A)) → Permᴰ (range m) (values m)
    pub sort_slice-Permᴰ :
        {A : Type 0} (less : A → A → Bool) (xs : List A) → Permᴰ (sort_slice less xs) xs
    pub sort_slice-IsSorted :
        {A : Type 0} (less : A → A → Bool) (xs : List A)
        → IsWeakOrder less
        → IsSorted less (sort_slice less xs)

-- the loop `for _, x := range xs { if keeps(x) { out = append(out, x) } }`
unfoldable pub filtered : {A : Type 0} → (A → Bool) → List A → List A
filtered keeps [] = []
filtered keeps (x ∷ xs) = if keeps x then x ∷ filtered keeps xs else filtered keeps xs

pub Permᴰ-mem : {A : Type 0} {a : A} {xs ys : List A} → Permᴰ xs ys → Memᴰ a xs → Memᴰ a ys
Permᴰ-mem Permᴰ.nil m = m
Permᴰ-mem (Permᴰ.cons p h) (Memᴰ.head e) = Memᴰ.head (e ∙ p)
Permᴰ-mem (Permᴰ.cons p h) (Memᴰ.tail m) = Memᴰ.tail (Permᴰ-mem h m)
Permᴰ-mem (Permᴰ.swap p q) (Memᴰ.head e) = Memᴰ.tail (Memᴰ.head (e ∙ p))
Permᴰ-mem (Permᴰ.swap p q) (Memᴰ.tail (Memᴰ.head e)) = Memᴰ.head (e ∙ q)
Permᴰ-mem (Permᴰ.swap p q) (Memᴰ.tail (Memᴰ.tail m)) = Memᴰ.tail (Memᴰ.tail m)
Permᴰ-mem (Permᴰ.trans h k) m = Permᴰ-mem k (Permᴰ-mem h m)

pub Memᴰ-filtered :
    {A : Type 0} (keeps : A → Bool) (a : A) (xs : List A)
    → Memᴰ a (filtered keeps xs) ↔ (Memᴰ a xs × (keeps a ≡ true))
unfolding filtered
Memᴰ-filtered keeps a [] = (λ m. elim m [ ], λ (m, k). elim m [ ])
Memᴰ-filtered keeps a (x ∷ xs) = elim (Bool-cases (keeps x)) [
  | inl h ↦ rw h (
    λ m. elim m [
      | Memᴰ.head e ↦ (Memᴰ.head e, ap keeps e ∙ h)
      | Memᴰ.tail m' ↦ (let (t, k) = (Memᴰ-filtered keeps a xs).0 m' in (Memᴰ.tail t, k))
    ],
    λ (m, k). elim m [
      | Memᴰ.head e ↦ Memᴰ.head e
      | Memᴰ.tail m' ↦ Memᴰ.tail ((Memᴰ-filtered keeps a xs).1 (m', k))
    ],
  )
  | inr h ↦ rw h (
    λ m. (let (t, k) = (Memᴰ-filtered keeps a xs).0 m in (Memᴰ.tail t, k)),
    λ (m, k). elim m [
      | Memᴰ.head e ↦ ground (arith, ap keeps e)
      | Memᴰ.tail m' ↦ (Memᴰ-filtered keeps a xs).1 (m', k)
    ],
  )
]

pub All-filtered :
    {A : Type 0} (P : A → Type 0) (keeps : A → Bool) (xs : List A)
    → All P xs
    → All P (filtered keeps xs)
unfolding filtered
All-filtered P keeps [] h = tt
All-filtered P keeps (x ∷ xs) (now, later) = elim (Bool-cases (keeps x)) [
  | inl h ↦ rw h (now, All-filtered P keeps xs later)
  | inr h ↦ rw h (All-filtered P keeps xs later)
]

pub All-Permᴰ : {A : Type 0} (P : A → Type 0) {xs ys : List A} → Permᴰ xs ys → All P xs → All P ys
All-Permᴰ P Permᴰ.nil h = h
All-Permᴰ P (Permᴰ.cons p q) (now, later) = (subst P p now, All-Permᴰ P q later)
All-Permᴰ P (Permᴰ.swap p q) (one, (two, later)) = (subst P q two, (subst P p one, later))
All-Permᴰ P (Permᴰ.trans p q) h = All-Permᴰ P q (All-Permᴰ P p h)

pub length-Permᴰ : {A : Type 0} {xs ys : List A} → Permᴰ xs ys → length xs ≡ length ys
length-Permᴰ Permᴰ.nil = refl
length-Permᴰ (Permᴰ.cons p q) = ap suc (length-Permᴰ q)
length-Permᴰ (Permᴰ.swap p q) = refl
length-Permᴰ (Permᴰ.trans p q) = length-Permᴰ p ∙ length-Permᴰ q
