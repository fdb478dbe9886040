-- ===== src/Prelude/Dict.antt =====
-- Python's dictionaries and tables with a key, as association lists.
use Prim.Native.Nat.{ℕ}
use Prim.Native.String.{String}
use mathlib.Core.Path.{◌≡◌, refl, sym, ◌∙◌, ap}
use mathlib.Core.Logic.{inl, inr}
use mathlib.Core.Bool.{Bool, true, false, ◌&&◌}
use mathlib.Core.Option.{Option, none, some}
use mathlib.Core.List.{List, [], ◌∷◌}
use native.Mathlib.Omega.{arith}
use gridix_infra.Prelude.Tests.{if◌then◌else◌, ◌==◌, ==→eq, ==_refl, Bool-cases}
use gridix_infra.Prelude.Strings.{str_eq, eq_iff}

-- Decidable equality of the keys.
pub record Eq {ℓ} (K : Type ℓ) : Type ℓ where
  pub same : K → K → Bool
  pub same_sound : (a b : K) → same a b ≡ true → a ≡ b
  pub same_refl : (a : K) → same a a ≡ true

instance abbrev pub nat_eq : Eq ℕ
nat_eq = record { same = ◌==◌; same_sound = ==→eq; same_refl = ==_refl }

instance abbrev pub string_eq : Eq String
string_eq = record {
  same = str_eq;
  same_sound = λ a b. (eq_iff a b).0;
  same_refl = λ a. (eq_iff a a).1 refl;
}

pub pair_sound :
    {A B : Type 0} ⦃e : Eq A⦄ ⦃f : Eq B⦄ (a b : A) (c d : B)
    → (e.same a b && f.same c d) ≡ true
    → ◌≡◌ {A = A × B} (a, c) (b, d)
pair_sound ⦃e⦄ ⦃f⦄ a b c d h =
    let p : a ≡ b = e.same_sound a b (ground arith) in
    let q : c ≡ d = f.same_sound c d (ground arith) in λ i. (p i, q i)

pub pair_refl :
    {A B : Type 0} ⦃e : Eq A⦄ ⦃f : Eq B⦄ (a : A) (c : B) → (e.same a a && f.same c c) ≡ true
pair_refl ⦃e⦄ ⦃f⦄ a c = rw (e.same_refl a, f.same_refl c) refl

abbrev pub pair_eq : {A B : Type 0} → Eq A → Eq B → Eq (A × B)
pair_eq e f = record {
  same = λ a b. e.same a.0 b.0 && f.same a.1 b.1;
  same_sound = λ a b h. pair_sound ⦃e = e⦄ ⦃f = f⦄ a.0 b.0 a.1 b.1 h;
  same_refl = λ a. pair_refl ⦃e = e⦄ ⦃f = f⦄ a.0 a.1;
}

-- A key that equals one and not the other tells them apart.
other :
    {K : Type 0} ⦃e : Eq K⦄ (x j k : K)
    → e.same x k ≡ true
    → e.same x j ≡ false
    → e.same j k ≡ false
other ⦃e⦄ x j k t h = elim (Bool-cases (e.same j k)) [
  | inl u ↦
      let path : x ≡ j = e.same_sound x k t ∙ sym (e.same_sound j k u) in
      let equal : e.same x j ≡ true = ap (λ y. e.same y j) path ∙ e.same_refl j in
      absurd (ground (arith, h, equal))
  | inr u ↦ u
]

module _ {K V : Type 0} ⦃e : Eq K⦄ where
  abbrev pub get : K → List (K × V) → Option V
  get k [] = none
  get k ((x, v) ∷ d) = let rest = get k d in if e.same x k then some v else rest

  -- `d[k] = v`
  abbrev pub put : K → V → List (K × V) → List (K × V)
  put k v [] = (k, v) ∷ []
  put k v ((x, w) ∷ d) = let rest = put k v d in if e.same x k then (x, v) ∷ d else (x, w) ∷ rest

  -- `del d[k]` for the keys that do not pass the test.
  abbrev pub keep : (K → Bool) → List (K × V) → List (K × V)
  keep p [] = []
  keep p ((x, v) ∷ d) = let rest = keep p d in if p x then (x, v) ∷ rest else rest

  pub get-put :
      (j k : K) (v : V) (d : List (K × V))
      → get k (put j v d) ≡ (if e.same j k then some v else get k d)
  get-put j k v [] = refl
  get-put j k v ((x, w) ∷ d) = elim (Bool-cases (e.same x j)) [
    | inl h ↦
        let one : e.same x k ≡ e.same j k = ap (λ y. e.same y k) (e.same_sound x j h) in
        elim (Bool-cases (e.same j k)) [
          | inl t ↦ let u = one ∙ t in rw (h, t, u) refl
          | inr t ↦ let u = one ∙ t in rw (h, t, u) refl
        ]
    | inr h ↦ elim (Bool-cases (e.same x k)) [
      | inl t ↦ let u = other x j k t h in rw (h, t, u) refl
      | inr t ↦ rw (h, t) (get-put j k v d)
    ]
  ]

  pub get-keep : (p : K → Bool) (k : K) (d : List (K × V)) → p k ≡ true → get k (keep p d) ≡ get k d
  get-keep p k [] h = refl
  get-keep p k ((x, v) ∷ d) h = elim (Bool-cases (p x)) [
    | inl t ↦ rw t (ap (λ rest. if e.same x k then some v else rest) (get-keep p k d h))
    | inr t ↦ elim (Bool-cases (e.same x k)) [
      | inl u ↦
          let path : p x ≡ p k = ap p (e.same_sound x k u) in absurd (ground (arith, h, t, path))
      | inr u ↦ rw (t, u) (get-keep p k d h)
    ]
  ]
