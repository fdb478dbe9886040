-- ===== src/Prelude/Sort.antt =====
-- `ORDER BY` as a stable insertion sort. A database leaves open the order of rows that compare
-- equal; the sort keeps the order of the table.
use mathlib.Core.Path.{◌≡◌, refl, ap, sym, ◌∙◌}
use mathlib.Core.Logic.{inl, inr}
use mathlib.Core.Bool.{Bool, true, false}
use mathlib.Core.List.Permᴰ
use mathlib.Core.List.{List, [], ◌∷◌, Permᴰ}
use gridix_infra.Prelude.Tests.{if◌then◌else◌, Bool-cases}
use gridix_infra.Prelude.Lists.{All, filter, All-sublist}

module _ {A : Type 0} (before : A → A → Bool) where
  abbrev pub insert_by : A → List A → List A
  insert_by x [] = x ∷ []
  insert_by x (y ∷ ys) = let rest = insert_by x ys in if before x y then x ∷ y ∷ ys else y ∷ rest

  abbrev pub sort_by : List A → List A
  sort_by [] = []
  sort_by (x ∷ xs) = insert_by x (sort_by xs)

  -- Every element comes before the later ones.
  abbrev pub Sorted : List A → Type 0
  Sorted [] = Unit
  Sorted (x ∷ xs) = All (λ y. before x y ≡ true) xs × Sorted xs

  All-insert_by : (P : A → Type 0) (x : A) (xs : List A) → P x → All P xs → All P (insert_by x xs)
  All-insert_by P x [] h hs = (h, tt)
  All-insert_by P x (y ∷ ys) h (k, hs) = elim (Bool-cases (before x y)) [
    | inl e ↦ rw e (h, (k, hs))
    | inr e ↦ rw e (k, All-insert_by P x ys h hs)
  ]

  pub All-sort_by : (P : A → Type 0) (xs : List A) → All P xs → All P (sort_by xs)
  All-sort_by P [] hs = tt
  All-sort_by P (x ∷ xs) (h, hs) = All-insert_by P x (sort_by xs) h (All-sort_by P xs hs)

  insert_by-Perm : (x : A) (xs : List A) → Permᴰ (insert_by x xs) (x ∷ xs)
  insert_by-Perm x [] = Permᴰ.refl _
  insert_by-Perm x (y ∷ ys) = elim (Bool-cases (before x y)) [
    | inl e ↦ rw e (Permᴰ.refl _)
    | inr e ↦ rw e (Permᴰ.trans (Permᴰ.cons refl (insert_by-Perm x ys)) (Permᴰ.swap refl refl))
  ]

  pub sort_by-Perm : (xs : List A) → Permᴰ (sort_by xs) xs
  sort_by-Perm [] = Permᴰ.nil
  sort_by-Perm (x ∷ xs) =
      Permᴰ.trans (insert_by-Perm x (sort_by xs)) (Permᴰ.cons refl (sort_by-Perm xs))

  module _ (total : (x y : A) → before x y ≡ false → before y x ≡ true)
      (steps : (x y z : A) → before x y ≡ true → before y z ≡ true → before x z ≡ true) where
    All-steps :
        (x y : A) (ys : List A)
        → before x y ≡ true
        → All (λ z. before y z ≡ true) ys
        → All (λ z. before x z ≡ true) ys
    All-steps x y [] e hs = tt
    All-steps x y (z ∷ zs) e (h, hs) = (steps x y z e h, All-steps x y zs e hs)

    insert_by-Sorted : (x : A) (xs : List A) → Sorted xs → Sorted (insert_by x xs)
    insert_by-Sorted x [] hs = (tt, tt)
    insert_by-Sorted x (y ∷ ys) (h, hs) = elim (Bool-cases (before x y)) [
      | inl e ↦ rw e ((e, All-steps x y ys e h), (h, hs))
      | inr e ↦
          rw e
            (All-insert_by (λ z. before y z ≡ true) x ys (total x y e) h, insert_by-Sorted x ys hs)
    ]

    pub sort_by-Sorted : (xs : List A) → Sorted (sort_by xs)
    sort_by-Sorted [] = tt
    sort_by-Sorted (x ∷ xs) = insert_by-Sorted x (sort_by xs) (sort_by-Sorted xs)

  pub filter-Sorted : (p : A → Bool) (xs : List A) → Sorted xs → Sorted (filter p xs)
  filter-Sorted p [] hs = tt
  filter-Sorted p (x ∷ xs) (h, hs) = elim (Bool-cases (p x)) [
    | inl e ↦ rw e (All-sublist (λ y. before x y ≡ true) p xs h, filter-Sorted p xs hs)
    | inr e ↦ rw e (filter-Sorted p xs hs)
  ]

pub filter-Perm :
    {A : Type 0} (p : A → Bool) {xs ys : List A} → Permᴰ xs ys → Permᴰ (filter p xs) (filter p ys)
filter-Perm p Permᴰ.nil = Permᴰ.nil
filter-Perm p (Permᴰ.cons {a} {b} e d) =
    let same : p a ≡ p b = ap p e in
    elim (Bool-cases (p a)) [
      | inl h ↦ let k : p b ≡ true = sym same ∙ h in rw (h, k) (Permᴰ.cons e (filter-Perm p d))
      | inr h ↦ let k : p b ≡ false = sym same ∙ h in rw (h, k) (filter-Perm p d)
    ]
filter-Perm p (Permᴰ.swap {a} {b} {a'} {b'} e f) =
    let same : p a ≡ p b' = ap p e in
    let other : p b ≡ p a' = ap p f in
    elim (Bool-cases (p a)) [
      | inl h ↦
          let h' : p b' ≡ true = sym same ∙ h in
          elim (Bool-cases (p b)) [
            | inl k ↦ let k' : p a' ≡ true = sym other ∙ k in rw (h, k, h', k') (Permᴰ.swap e f)
            | inr k ↦
                let k' : p a' ≡ false = sym other ∙ k in
                rw (h, k, h', k') (Permᴰ.cons e (Permᴰ.refl _))
          ]
      | inr h ↦
          let h' : p b' ≡ false = sym same ∙ h in
          elim (Bool-cases (p b)) [
            | inl k ↦
                let k' : p a' ≡ true = sym other ∙ k in
                rw (h, k, h', k') (Permᴰ.cons f (Permᴰ.refl _))
            | inr k ↦ let k' : p a' ≡ false = sym other ∙ k in rw (h, k, h', k') (Permᴰ.refl _)
          ]
    ]
filter-Perm p (Permᴰ.trans d e) = Permᴰ.trans (filter-Perm p d) (filter-Perm p e)
