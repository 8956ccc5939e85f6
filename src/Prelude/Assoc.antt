-- ===== src/Prelude/Assoc.antt =====
-- Go's `map[string]V` as an association list: lookup, store and delete, with their laws.
use Prim.Native.String.{String}
use mathlib.Core.Path.{◌≡◌}
use mathlib.Core.Logic.{◌≢◌, inl, inr}
use mathlib.Core.Option.{Option, none, some}
use mathlib.Core.List.{List, [], ◌∷◌}
use native.Mathlib.Omega.{arith}
use text.Mathlib.Text.{◌==◌ as str_eq}
use text.Mathlib.TextEquality.{eq_iff as str_eq_iff}
use iicpc_sh.Prelude.Tests.{if◌then◌else◌, Bool-cases}

module _ {ℓ} {V : Type ℓ} where
  unfoldable pub lookup : String → List (String × V) → Option V
  lookup k [] = none
  lookup k ((j, v) ∷ m) = if str_eq j k then some v else lookup k m

  unfoldable pub delete : String → List (String × V) → List (String × V)
  delete k [] = []
  delete k ((j, v) ∷ m) = let rest = delete k m in if str_eq j k then rest else (j, v) ∷ rest

  unfoldable pub insert : String → V → List (String × V) → List (String × V)
  unfolding delete
  insert k v m = (k, v) ∷ delete k m

  pub lookup-delete :
      (k j : String) (m : List (String × V))
      → lookup j (delete k m) ≡ (if str_eq k j then none else lookup j m)
  unfolding lookup delete
  lookup-delete k j [] = ground arith
  lookup-delete k j ((i, w) ∷ m) =
      ground (arith, str_eq_iff k j, str_eq_iff i k, str_eq_iff i j, lookup-delete k j m)

  pub lookup-insert :
      (k j : String) (v : V) (m : List (String × V))
      → lookup j (insert k v m) ≡ (if str_eq k j then some v else lookup j m)
  unfolding lookup insert
  lookup-insert k j v m = ground (arith, lookup-delete k j m)

  -- What is left on the map was on it, under another key.
  pub lookup-delete-some :
      (k j : String) (m : List (String × V)) {v : V}
      → lookup j (delete k m) ≡ some v
      → (k ≢ j) × (lookup j m ≡ some v)
  lookup-delete-some k j m h = ground (arith, lookup-delete k j m, str_eq_iff k j)

  -- Each key stands once on the map.
  unfoldable pub IsMap : List (String × V) → Type ℓ
  IsMap [] = Unit {ℓ}
  IsMap ((k, v) ∷ m) = (lookup k m ≡ none) × IsMap m

  pub delete-IsMap : (k : String) (m : List (String × V)) → IsMap m → IsMap (delete k m)
  unfolding delete IsMap
  delete-IsMap k [] h = h
  delete-IsMap k ((j, v) ∷ m) (new, h) = elim (Bool-cases (str_eq j k)) [
    | inl e ↦ rw e (delete-IsMap k m h)
    | inr e ↦ rw e (ground (arith, lookup-delete k j m), delete-IsMap k m h)
  ]

  pub insert-IsMap : (k : String) (v : V) (m : List (String × V)) → IsMap m → IsMap (insert k v m)
  unfolding insert IsMap
  insert-IsMap k v m h = (ground (arith, lookup-delete k k m, str_eq_iff k k), delete-IsMap k m h)
