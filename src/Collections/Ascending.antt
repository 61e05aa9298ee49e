-- ===== src/Collections/Ascending.antt =====
-- Lists that ascend strictly are fixed by their elements.
use mathlib.Core.List.Permᴰ
use kite_mcp_eventsourcing.Prelude.{
  Bool, true, false, ◌≡◌, refl, sym, ap, ◌∙◌, subst, ◌⊎◌, inl, List, [], ◌∷◌, All, All-Memᴰ, Memᴰ,
  Permᴰ, arith,
}
use kite_mcp_eventsourcing.Collections.{IsSorted, All-Permᴰ}

module _ {A : Type 0} (less : A → A → Bool) where
  -- Each element is less than all after it.
  abbrev pub Ascends : List A → Type 0
  Ascends [] = Unit
  Ascends (x ∷ xs) = All (λ y. less x y ≡ true) xs × Ascends xs

  abbrev IsApart : A → A → Type 0
  IsApart x y = (less x y ≡ true) ⊎ (less y x ≡ true)

  abbrev AllApart : List A → Type 0
  AllApart [] = Unit
  AllApart (x ∷ xs) = All (IsApart x) xs × AllApart xs

  IsApart-sym : (x y : A) → IsApart x y → IsApart y x
  IsApart-sym x y h = ground (arith, h)

  All-IsApart : (x : A) (xs : List A) → All (λ y. less x y ≡ true) xs → All (IsApart x) xs
  All-IsApart x [] h = tt
  All-IsApart x (y ∷ xs) (now, later) = (inl now, All-IsApart x xs later)

  Ascends-AllApart : (xs : List A) → Ascends xs → AllApart xs
  Ascends-AllApart [] h = tt
  Ascends-AllApart (x ∷ xs) (now, later) = (All-IsApart x xs now, Ascends-AllApart xs later)

  AllApart-Permᴰ : {xs ys : List A} → Permᴰ xs ys → AllApart xs → AllApart ys
  AllApart-Permᴰ Permᴰ.nil h = h
  AllApart-Permᴰ (Permᴰ.cons {b = b} {l₁ = xs} {l₂ = ys} p q) (now, later) =
      (subst (λ c. All (IsApart c) ys) p (All-Permᴰ _ q now), AllApart-Permᴰ q later)
  AllApart-Permᴰ (Permᴰ.swap {a} {b} {a'} {b'} {l} p q) ((first, now), (now', later)) = (
    (
      subst (λ c. IsApart c b') q (subst (IsApart b) p (IsApart-sym a b first)),
      subst (λ c. All (IsApart c) l) q now',
    ),
    (subst (λ c. All (IsApart c) l) p now, later),
  )
  AllApart-Permᴰ (Permᴰ.trans p q) h = AllApart-Permᴰ q (AllApart-Permᴰ p h)

  below :
      (x : A) (xs : List A)
      → All (λ y. less y x ≡ false) xs
      → All (IsApart x) xs
      → All (λ y. less x y ≡ true) xs
  below x [] h apart = tt
  below x (y ∷ xs) (now, h) (one, apart) = (ground (arith, one), below x xs h apart)

  sorted-Ascends : (xs : List A) → IsSorted less xs → AllApart xs → Ascends xs
  sorted-Ascends [] h apart = tt
  sorted-Ascends (x ∷ xs) (now, h) (one, apart) = (below x xs now one, sorted-Ascends xs h apart)

  -- A sorted arrangement of elements that are all apart ascends.
  pub Ascends-Permᴰ : (xs ys : List A) → Permᴰ xs ys → IsSorted less xs → Ascends ys → Ascends xs
  Ascends-Permᴰ xs ys perm sorted h =
      sorted-Ascends xs sorted (AllApart-Permᴰ (Permᴰ.symm perm) (Ascends-AllApart ys h))

  module _ (asymmetric : (x y : A) → less x y ≡ true → less y x ≡ false) where
    first_unique :
        (x y : A) (xs ys : List A)
        → Ascends (x ∷ xs)
        → Ascends (y ∷ ys)
        → Memᴰ x (y ∷ ys)
        → Memᴰ y (x ∷ xs)
        → x ≡ y
    first_unique x y xs ys hx hy (Memᴰ.head e) my = e
    first_unique x y xs ys hx hy (Memᴰ.tail mx) (Memᴰ.head e) = sym e
    first_unique x y xs ys (hx, _) (hy, _) (Memᴰ.tail mx) (Memᴰ.tail my) = absurd (
        ground (
          arith,
          All-Memᴰ (λ z. less x z ≡ true) my hx,
          All-Memᴰ (λ z. less y z ≡ true) mx hy,
          asymmetric x y,
        ))

    later : (x z : A) (xs : List A) → less x z ≡ true → Memᴰ z (x ∷ xs) → Memᴰ z xs
    later x z xs h (Memᴰ.head e) =
        absurd (ground (arith, asymmetric x z h, h, ap (less x) e, ap (λ y. less y x) e))
    later x z xs h (Memᴰ.tail m) = m

    pub Ascends-unique :
        (xs ys : List A)
        → Ascends xs
        → Ascends ys
        → ((z : A) → Memᴰ z xs → Memᴰ z ys)
        → ((z : A) → Memᴰ z ys → Memᴰ z xs)
        → xs ≡ ys
    Ascends-unique [] [] hx hy there back = refl
    Ascends-unique [] (y ∷ ys) hx hy there back = elim (back y (Memᴰ.head refl)) [ ]
    Ascends-unique (x ∷ xs) [] hx hy there back = elim (there x (Memᴰ.head refl)) [ ]
    Ascends-unique (x ∷ xs) (y ∷ ys) hx hy there back =
        let same =
          first_unique x y xs ys hx hy (there x (Memᴰ.head refl)) (back y (Memᴰ.head refl)) in
        let tails =
          Ascends-unique xs ys hx.1 hy.1
            (λ z m.
              later y z ys
                (subst (λ c. less c z ≡ true) same (All-Memᴰ (λ z. less x z ≡ true) m hx.0))
                (there z (Memᴰ.tail m)))
            (λ z m.
              later x z xs
                (subst (λ c. less c z ≡ true) (sym same) (All-Memᴰ (λ z. less y z ≡ true) m hy.0))
                (back z (Memᴰ.tail m))) in
        ap (λ zs. x ∷ zs) tails ∙ ap (λ c. c ∷ ys) same
