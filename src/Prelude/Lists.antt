-- ===== src/Prelude/Lists.antt =====
-- Lists measured by native numbers, and predicates over the elements of a list.
use Prim.Native.Nat.{ℕ, zero, suc, ◌+◌, ◌-◌}
use mathlib.Core.Path.{◌≡◌, refl, sym, ap, ◌∙◌, subst}
use mathlib.Core.List.{List, [], ◌∷◌, ◌++◌, map, foldl, Memᴰ}
use native.Mathlib.Omega.{arith}

module _ {ℓ} {A : Type ℓ} where
  abbrev pub length : List A → ℕ
  length [] = 0
  length (x ∷ xs) = suc (length xs)

  pub length-append : (xs ys : List A) → length (xs ++ ys) ≡ length xs + length ys
  length-append [] ys = omega arith
  length-append (x ∷ xs) ys = omega (arith, length-append xs ys)

abbrev pub All {ℓ κ} : {A : Type ℓ} → (A → Type κ) → List A → Type κ
All P [] = Unit
All P (x ∷ xs) = P x × All P xs

pub All-append {ℓ κ} :
    {A : Type ℓ} (Q : A → Type κ) (front back : List A)
    → All Q front
    → All Q back
    → All Q (front ++ back)
All-append Q [] back _ later = later
All-append Q (a ∷ front) back (now, soon) later = (now, All-append Q front back soon later)

pub All-map {ℓ κ ι} :
    {A : Type ℓ} {B : Type κ} (P : B → Type ι) (f : A → B) (xs : List A)
    → All (λ x. P (f x)) xs
    → All P (map f xs)
All-map P f [] h = tt
All-map P f (x ∷ xs) h = (h.0, All-map P f xs h.1)

pub map-All {ℓ κ ι} :
    {A : Type ℓ} {B : Type κ} (P : B → Type ι) (f : A → B) (xs : List A)
    → All P (map f xs)
    → All (λ x. P (f x)) xs
map-All P f [] h = tt
map-All P f (x ∷ xs) h = (h.0, map-All P f xs h.1)

-- What the elements imply one by one.
pub All-mp {ℓ κ ι} :
    {A : Type ℓ} (P : A → Type κ) (Q : A → Type ι) (xs : List A)
    → All P xs
    → All (λ x. P x → Q x) xs
    → All Q xs
All-mp P Q [] hp hq = tt
All-mp P Q (x ∷ xs) hp hq = (hq.0 hp.0, All-mp P Q xs hp.1 hq.1)

pub length-map {ℓ κ} :
    {A : Type ℓ} {B : Type κ} (f : A → B) (xs : List A) → length (map f xs) ≡ length xs
length-map f [] = refl
length-map f (x ∷ xs) = ap suc (length-map f xs)

pub foldl-ext {ℓ κ} :
    {A : Type ℓ} {B : Type κ} (f g : B → A → B)
    → ((b : B) (a : A) → f b a ≡ g b a)
    → (b : B) (xs : List A) → foldl f b xs ≡ foldl g b xs
foldl-ext f g same b [] = refl
foldl-ext f g same b (x ∷ xs) = foldl-ext f g same (f b x) xs ∙ ap (λ c. foldl g c xs) (same b x)

abbrev pub take {ℓ} : {A : Type ℓ} → ℕ → List A → List A
take zero xs = []
take (suc n) [] = []
take (suc n) (x ∷ xs) = x ∷ take n xs

pub All-take {ℓ κ} :
    {A : Type ℓ} (P : A → Type κ) (n : ℕ) (xs : List A) → All P xs → All P (take n xs)
All-take P zero xs h = tt
All-take P (suc n) [] h = tt
All-take P (suc n) (x ∷ xs) (now, later) = (now, All-take P n xs later)

pub All-Memᴰ {ℓ κ} :
    {A : Type ℓ} (P : A → Type κ) {a : A} {xs : List A} → Memᴰ a xs → All P xs → P a
All-Memᴰ P (Memᴰ.head e) (now, later) = subst P (sym e) now
All-Memᴰ P (Memᴰ.tail m) (now, later) = All-Memᴰ P m later

pub length-take {ℓ} :
    {A : Type ℓ} (n : ℕ) (xs : List A) → length (take n xs) + (length xs - n) ≡ length xs
length-take zero xs = omega arith
length-take (suc n) [] = omega arith
length-take (suc n) (x ∷ xs) = omega (arith, length-take n xs)

pub Memᴰ-append {ℓ} : {A : Type ℓ} {a : A} (xs ys : List A) → Memᴰ a xs → Memᴰ a (xs ++ ys)
Memᴰ-append [] ys m = elim m [ ]
Memᴰ-append (x ∷ xs) ys (Memᴰ.head e) = Memᴰ.head e
Memᴰ-append (x ∷ xs) ys (Memᴰ.tail m) = Memᴰ.tail (Memᴰ-append xs ys m)

pub Memᴰ-added {ℓ} : {A : Type ℓ} (a : A) (xs : List A) → Memᴰ a (xs ++ a ∷ [])
Memᴰ-added a [] = Memᴰ.head refl
Memᴰ-added a (x ∷ xs) = Memᴰ.tail (Memᴰ-added a xs)
