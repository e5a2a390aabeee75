-- ===== src/Base/Dicts.antt =====
-- Python's dicts with text keys, as lists in insertion order, and their laws.
use Prim.Native.String.{String}
use mathlib.Core.Path.{◌≡◌, refl}
use mathlib.Core.Bool.{Bool, true, ◌&&◌}
use mathlib.Core.List.{List, [], ◌∷◌}
use mathlib.Core.Option.{Option, none, some}
use mathlib.Core.Logic.{inl, inr}
use native.Mathlib.Omega.{arith}
use asgard_hl_basisstrategy.Base.Tests.{
  is_some, Option-cases, str_eq, str-eq_iff, if◌then◌else◌, not,
}
use asgard_hl_basisstrategy.Base.Lists.{filter}

module _ {ℓ} {V : Type ℓ} where
  unfoldable pub lookup : String → List (String × V) → Option V
  lookup k [] = none
  lookup k ((j, v) ∷ d) = if str_eq j k then some v else lookup k d

  unfoldable pub insert : String → V → List (String × V) → List (String × V)
  insert k v [] = (k, v) ∷ []
  insert k v ((j, w) ∷ d) = if str_eq j k then (j, v) ∷ d else (j, w) ∷ insert k v d

  -- `del d[k]`
  abbrev pub remove : String → List (String × V) → List (String × V)
  remove k d = filter (λ e. not (str_eq e.0 k)) d

module _ {ℓ} {V : Type ℓ} where
  pub lookup-insert :
      (k j : String) (v : V) (d : List (String × V))
      → lookup j (insert k v d) ≡ (if str_eq k j then some v else lookup j d)
  unfolding lookup insert
  lookup-insert k j v [] = refl
  lookup-insert k j v ((i, w) ∷ d) =
      ground (arith, str-eq_iff k j, str-eq_iff i k, str-eq_iff i j, lookup-insert k j v d)

  pub lookup-insert_self :
      (k : String) (v : V) (d : List (String × V)) → lookup k (insert k v d) ≡ some v
  lookup-insert_self k v d = ground (arith, lookup-insert k k v d, str-eq_iff k k)

  pub lookup-remove :
      (k j : String) (d : List (String × V))
      → lookup j (remove k d) ≡ (if str_eq k j then none else lookup j d)
  unfolding lookup
  lookup-remove k j [] = ground arith
  lookup-remove k j ((i, v) ∷ d) =
      ground (arith, lookup-remove k j d, str-eq_iff i k, str-eq_iff i j, str-eq_iff k j)

  -- SQL's `UPDATE ... WHERE key = ?`, with a primary key: a missing row stays missing.
  unfoldable pub update_row : String → (V → V) → List (String × V) → List (String × V)
  unfolding insert lookup
  update_row k f d = elim (lookup k d) [ none ↦ d | some v ↦ insert k (f v) d ]

  pub lookup-update_row :
      (k j : String) (f : V → V) (d : List (String × V))
      → lookup j (update_row k f d) ≡ (
          if str_eq k j
          then elim (lookup k d) [ none ↦ none | some v ↦ some (f v) ]
          else lookup j d)
  unfolding update_row
  lookup-update_row k j f d = elim (Option-cases (lookup k d)) [
    | inl e ↦ rw (e, update_row) (ground (arith, e, str-eq_iff k j))
    | inr (v, e) ↦ rw (e, update_row) (lookup-insert k j (f v) d)
  ]

module _ {ℓ} {V : Type ℓ} where
  -- No key stands twice, as in a table with a primary key.
  abbrev pub distinct : List (String × V) → Bool
  distinct [] = true
  distinct ((k, v) ∷ d) = not (is_some (lookup k d)) && distinct d

  pub lookup-filter :
      (k : String) (p : V → Bool) (d : List (String × V))
      → distinct d ≡ true
      → lookup k (filter (λ e. p e.1) d)
        ≡ elim (lookup k d) [ none ↦ none | some v ↦ if p v then some v else none ]
  unfolding lookup
  lookup-filter k p [] h = refl
  lookup-filter k p ((j, v) ∷ d) h =
      ground (arith, lookup-filter k p d, lookup-filter j p d, str-eq_iff j k)

  pub distinct-filter :
      (p : V → Bool) (d : List (String × V))
      → distinct d ≡ true
      → distinct (filter (λ e. p e.1) d) ≡ true
  distinct-filter p [] h = refl
  distinct-filter p ((k, v) ∷ d) h = ground (arith, distinct-filter p d, lookup-filter k p d)

  pub distinct-insert :
      (k : String) (v : V) (d : List (String × V))
      → distinct d ≡ true
      → distinct (insert k v d) ≡ true
  unfolding insert lookup
  distinct-insert k v [] h = refl
  distinct-insert k v ((j, w) ∷ d) h =
      ground (arith, distinct-insert k v d, lookup-insert k j v d, str-eq_iff j k, str-eq_iff k j)

  pub distinct-update_row :
      (k : String) (f : V → V) (d : List (String × V))
      → distinct d ≡ true
      → distinct (update_row k f d) ≡ true
  unfolding update_row
  distinct-update_row k f d h = elim (Option-cases (lookup k d)) [
    | inl missing ↦ rw (missing, update_row) h
    | inr (v, found) ↦ rw (found, update_row) (distinct-insert k (f v) d h)
  ]
