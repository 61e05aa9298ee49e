-- ===== src/Projector/Filed.antt =====
-- Every aggregate of the projector stands under its own id, and only once (projection.go).
use kite_mcp_eventsourcing.Prelude.{
  String, ◌≡◌, refl, ap, ◌∙◌, ◌==◌, eq_iff, Option, none, some, List, [], ◌∷◌, Memᴰ, foldl, arith,
  Bool-cases, Option-cases, inl, inr,
}
use kite_mcp_eventsourcing.Domain.{Domain}
use kite_mcp_eventsourcing.Event.{Event}
use kite_mcp_eventsourcing.Assoc.{lookup, insert, values, lookup-insert}
use kite_mcp_eventsourcing.Projector.{file_under}

module _ {A : Type 0} (id_of : A → String) where
  -- each value has its key as id, and no key comes twice
  abbrev pub IsFiled : List (String × A) → Type 0
  IsFiled [] = Unit
  IsFiled ((k, a) ∷ m) = (id_of a ≡ k) × (lookup k m ≡ none) × IsFiled m

  IsFiled-insert :
      (k : String) (a : A) (m : List (String × A))
      → id_of a ≡ k
      → IsFiled m
      → IsFiled (insert k a m)
  unfolding insert lookup
  IsFiled-insert k a [] named filed = (named, refl, tt)
  IsFiled-insert k a ((j, b) ∷ m) named (same, fresh, filed) = elim (Bool-cases (j == k)) [
    | inl h ↦ rw h (named, ground (arith, eq_iff j k), filed)
    | inr h ↦
        rw h (
          same,
          lookup-insert k j a m ∙ ground (arith, eq_iff k j),
          IsFiled-insert k a m named filed,
        )
  ]

  pub lookup-id :
      (k : String) (a : A) (m : List (String × A)) → IsFiled m → lookup k m ≡ some a → id_of a ≡ k
  unfolding lookup
  lookup-id k a [] filed h = ground arith
  lookup-id k a ((j, b) ∷ m) (same, fresh, filed) h =
      ground (arith, eq_iff j k, lookup-id k a m filed)

  pub lookup-mem :
      (k : String) (a : A) (m : List (String × A)) → lookup k m ≡ some a → Memᴰ a (values m)
  unfolding lookup
  lookup-mem k a [] h = ground arith
  lookup-mem k a ((j, b) ∷ m) h = elim (Bool-cases (j == k)) [
    | inl e ↦ Memᴰ.head ground arith
    | inr e ↦ Memᴰ.tail (lookup-mem k a m (rw e at h))
  ]

  pub mem-lookup :
      (a : A) (m : List (String × A)) → IsFiled m → Memᴰ a (values m) → lookup (id_of a) m ≡ some a
  unfolding lookup
  mem-lookup a [] filed h = elim h [ ]
  mem-lookup a ((j, b) ∷ m) (same, fresh, filed) (Memᴰ.head e) =
      ground (arith, eq_iff j (id_of a), ap id_of e)
  mem-lookup a ((j, b) ∷ m) (same, fresh, filed) (Memᴰ.tail h) =
      ground (arith, eq_iff j (id_of a), mem-lookup a m filed h)

module _ {d : Domain} {A : Type 0} (id_of : A → String) (fresh : String → A)
    (fresh_id : (id : String) → id_of (fresh id) ≡ id) (apply : A → Event d → A)
    (apply_id : (a : A) (e : Event d) → id_of (apply a e) ≡ id_of a) where
  IsFiled-file_under :
      (key : Option String) (e : Event d) (m : List (String × A))
      → IsFiled id_of m
      → IsFiled id_of (file_under fresh apply key e m)
  unfolding file_under
  IsFiled-file_under none e m filed = filed
  IsFiled-file_under (some k) e m filed = elim (Bool-cases (k == "")) [
    | inl blank ↦ rw blank filed
    | inr filled ↦ rw filled (elim (Option-cases (lookup k m)) [
      | inl none_yet ↦ rw none_yet (IsFiled-insert id_of k _ m (apply_id _ e ∙ fresh_id k) filed)
      | inr (agg, found) ↦
          rw found (
            IsFiled-insert id_of k _ m (apply_id agg e ∙ lookup-id id_of k agg m filed found) filed)
    ])
  ]

  pub IsFiled-foldl :
      (key : Event d → Option String) (es : List (Event d)) (m : List (String × A))
      → IsFiled id_of m
      → IsFiled id_of (foldl (λ m e. file_under fresh apply (key e) e m) m es)
  IsFiled-foldl key [] m filed = filed
  IsFiled-foldl key (e ∷ es) m filed = IsFiled-foldl key es _ (IsFiled-file_under (key e) e m filed)
