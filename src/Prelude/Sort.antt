-- ===== src/Prelude/Sort.antt =====
-- `sort_by` of the standard library, as the stable insertion sort; what it promises is proved.
use mathlib.Core.Path.{◌≡◌, refl}
use mathlib.Core.Logic.{inl, inr}
use mathlib.Core.Bool.{Bool, true, false}
use mathlib.Core.List.{List, [], ◌∷◌, Perm}
use mathlib.Core.List.Perm
use Prim.Native.Nat.{ℕ, suc}
use Prim.Native.String.{String, compare}
use Prim.Native.String.compare
use text.Mathlib.Text.{is_le}
use native.Mathlib.Omega.{arith}
use faultforge.Prelude.Tests.{if◌then◌else◌, Bool-cases}

module _ {ℓ} {A : Type ℓ} (le : A → A → Bool) where
  unfoldable pub insert_by : A → List A → List A
  insert_by x [] = x ∷ []
  insert_by x (y ∷ ys) = let rest = insert_by x ys in if le x y then x ∷ y ∷ ys else y ∷ rest

  unfoldable pub sort_by : List A → List A
  sort_by [] = []
  sort_by (x ∷ xs) = insert_by x (sort_by xs)

  -- Each entry is no greater than the next.
  abbrev pub IsOrdered : List A → Type 0
  IsOrdered [] = Unit
  IsOrdered (x ∷ []) = Unit
  IsOrdered (x ∷ y ∷ ys) = (le x y ≡ true) × IsOrdered (y ∷ ys)

  perm-insert_by : (x : A) (xs : List A) → Perm (insert_by x xs) (x ∷ xs)
  unfolding insert_by
  perm-insert_by x [] = Perm.rfl
  perm-insert_by x (y ∷ ys) = elim (Bool-cases (le x y)) [
    | inl e ↦ rw (e, insert_by) Perm.rfl
    | inr e ↦ rw (e, insert_by) (Perm.trans (Perm.cons y (perm-insert_by x ys)) (Perm.swap x y ys))
  ]

  pub perm-sort_by : (xs : List A) → Perm (sort_by xs) xs
  unfolding sort_by
  perm-sort_by [] = Perm.rfl
  perm-sort_by (x ∷ xs) = Perm.trans (perm-insert_by x (sort_by xs)) (Perm.cons x (perm-sort_by xs))

  module _ (total : (x y : A) → le x y ≡ false → le y x ≡ true) where
    IsOrdered-insert_by : (x : A) (xs : List A) → IsOrdered xs → IsOrdered (insert_by x xs)
    unfolding insert_by
    IsOrdered-insert_by x [] o = tt
    IsOrdered-insert_by x (y ∷ []) o = elim (Bool-cases (le x y)) [
      | inl e ↦ rw e (e, tt)
      | inr e ↦ rw e (total x y e, tt)
    ]
    IsOrdered-insert_by x (y ∷ z ∷ zs) o =
        let rest = IsOrdered-insert_by x (z ∷ zs) o.1 in
        elim (Bool-cases (le x y)) [
          | inl e ↦ rw e (e, o)
          | inr e ↦ elim (Bool-cases (le x z)) [
            | inl e' ↦ rw (e, e') (total x y e, (e', o.1))
            | inr e' ↦ rw (e, e') (o.0, rw e' at rest)
          ]
        ]

    pub IsOrdered-sort_by : (xs : List A) → IsOrdered (sort_by xs)
    unfolding sort_by
    IsOrdered-sort_by [] = tt
    IsOrdered-sort_by (x ∷ xs) = IsOrdered-insert_by x (sort_by xs) (IsOrdered-sort_by xs)

-- How many entries satisfy `p`; sorting does not change it.
abbrev pub count {ℓ} : {A : Type ℓ} → (A → Bool) → List A → ℕ
count p [] = 0
count p (x ∷ xs) = let rest = count p xs in if p x then suc rest else rest

module _ {ℓ} {A : Type ℓ} (le : A → A → Bool) (p : A → Bool) where
  count-insert_by : (x : A) (xs : List A) → count p (insert_by le x xs) ≡ count p (x ∷ xs)
  unfolding insert_by
  count-insert_by x [] = refl
  count-insert_by x (y ∷ ys) = ground (arith, count-insert_by x ys)

  pub count-sort_by : (xs : List A) → count p (sort_by le xs) ≡ count p xs
  unfolding sort_by
  count-sort_by [] = refl
  count-sort_by (x ∷ xs) = ground (arith, count-insert_by x (sort_by le xs), count-sort_by xs)

-- `Ord` of `String` compares code points.
abbrev pub text_le : String → String → Bool
text_le s t = is_le (compare s t)

pub text_le_total : (s t : String) → text_le s t ≡ false → text_le t s ≡ true
text_le_total String.[] String.[] h = refl
text_le_total String.[] (String.◌∷◌ d t) h = absurd (ground (arith, compare.nil-cons d t))
text_le_total (String.◌∷◌ c s) String.[] h = rw compare.nil-cons refl
text_le_total (String.◌∷◌ c s) (String.◌∷◌ d t) h =
    let h' = rw compare.cons-cons at h in rw compare.cons-cons (ground (arith, text_le_total s t))
