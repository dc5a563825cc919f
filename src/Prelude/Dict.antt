-- ===== src/Prelude/Dict.antt =====
-- A map with text keys as an association list with one entry for each key. Rust's `HashMap` leaves
-- its order open: what the theorems say of every list, they say of every order.
use Prim.Native.String.{String}
use text.Mathlib.Text.{◌==◌}
use text.Mathlib.TextEquality.{eq_iff}
use mathlib.Core.Path.{◌≡◌, refl}
use mathlib.Core.Option.{Option, none, some}
use mathlib.Core.List.{List, [], ◌∷◌}
use native.Mathlib.Omega.{arith}
use mathlib.Core.Logic.{inl, inr}
use faultforge.Prelude.Tests.{if◌then◌else◌, Bool-cases}
use faultforge.Prelude.Lists.{All}

module _ {ℓ} {V : Type ℓ} where
  unfoldable pub get : String → List (String × V) → Option V
  get k [] = none
  get k ((j, v) ∷ m) = if j == k then some v else get k m

  -- `HashMap::insert`
  unfoldable pub insert : String → V → List (String × V) → List (String × V)
  insert k v [] = (k, v) ∷ []
  insert k v ((j, w) ∷ m) = if j == k then (k, v) ∷ m else (j, w) ∷ insert k v m

  -- `HashMap::remove`
  unfoldable pub remove : String → List (String × V) → List (String × V)
  remove k [] = []
  remove k ((j, w) ∷ m) = if j == k then remove k m else (j, w) ∷ remove k m

  pub get-insert :
      (k j : String) (v : V) (m : List (String × V))
      → get j (insert k v m) ≡ (if k == j then some v else get j m)
  unfolding get insert
  get-insert k j v [] = refl
  get-insert k j v ((i, w) ∷ m) =
      ground (arith, eq_iff k j, eq_iff i k, eq_iff i j, get-insert k j v m)

  pub get-remove :
      (k j : String) (m : List (String × V))
      → get j (remove k m) ≡ (if k == j then none else get j m)
  unfolding get remove
  get-remove k j [] = ground arith
  get-remove k j ((i, w) ∷ m) = ground (arith, eq_iff k j, eq_iff i k, eq_iff i j, get-remove k j m)

  -- What holds of every value, and of a new one, holds of every value after it is inserted.
  pub All-insert {κ} :
      (P : V → Type κ) (k : String) (v : V) (m : List (String × V))
      → P v
      → All (λ p. P p.1) m
      → All (λ p. P p.1) (insert k v m)
  unfolding insert
  All-insert P k v [] h all = (h, tt)
  All-insert P k v ((j, w) ∷ m) h all = elim (Bool-cases (j == k)) [
    | inl e ↦ rw e (h, all.1)
    | inr e ↦ rw e (all.0, All-insert P k v m h all.1)
  ]

  -- It holds of the value that a key has.
  pub All-get {κ} :
      (P : V → Type κ) (k : String) (v : V) (m : List (String × V))
      → All (λ p. P p.1) m
      → get k m ≡ some v
      → P v
  unfolding get
  All-get P k v [] all h = cc
  All-get P k v ((j, w) ∷ m) all h = elim (Bool-cases (j == k)) [
    | inl e ↦ let found : some w ≡ some v = rw e at h in let same : w ≡ v = cc in rw same at all.0
    | inr e ↦ All-get P k v m all.1 (rw e at h)
  ]
