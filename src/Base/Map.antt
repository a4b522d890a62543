-- ===== src/Base/Map.antt =====
-- A `HashMap<String, V>` as an association list: no key twice, in no particular order.
use Prim.Native.Nat.{◌+◌, ◌≤◌}
use mathlib.Core.Path.{◌≡◌, refl}
use mathlib.Core.Option
use mathlib.Core.Option.{Option, none, some}
use mathlib.Core.List.{List, [], ◌∷◌}
use native.Mathlib.Omega.{arith}
use mathlib.Core.Logic.{inl, inr}
use herdr_a2a.Base.Tests.{if◌then◌else◌, Bool-cases}
use herdr_a2a.Base.Lists.{length}
use herdr_a2a.Base.Strings.{Text, text_eq, text_eq_iff, text_eq_refl}

abbrev pub Map {ℓ} : Type ℓ → Type ℓ
Map V = List (Text × V)

module _ {ℓ} {V : Type ℓ} where
  -- `map.get(k).cloned()`
  unfoldable pub get : Map V → Text → Option V
  get [] k = none
  get ((j, v) ∷ m) k = if text_eq j k then some v else get m k

  unfoldable pub remove : Map V → Text → Map V
  remove [] k = []
  remove ((j, v) ∷ m) k = if text_eq j k then remove m k else (j, v) ∷ remove m k

  unfoldable pub insert : Map V → Text → V → Map V
  insert m k v = (k, v) ∷ remove m k

  -- `if let Some(v) = map.get_mut(k) { *v = f(v) }`
  unfoldable pub alter : Map V → Text → (V → V) → Map V
  alter [] k f = []
  alter ((j, v) ∷ m) k f = if text_eq j k then (j, f v) ∷ alter m k f else (j, v) ∷ alter m k f

  -- `for v in map.values_mut() { *v = f(v) }`
  unfoldable pub map_values : (V → V) → Map V → Map V
  map_values f [] = []
  map_values f ((j, v) ∷ m) = (j, f v) ∷ map_values f m

  pub get-remove :
      (m : Map V) (k j : Text) → get (remove m k) j ≡ (if text_eq k j then none else get m j)
  unfolding get remove
  get-remove [] k j = ground arith
  get-remove ((i, v) ∷ m) k j =
      ground (arith, text_eq_iff i k, text_eq_iff i j, text_eq_iff k j, get-remove m k j)

  pub get-insert :
      (m : Map V) (k j : Text) (v : V)
      → get (insert m k v) j ≡ (if text_eq k j then some v else get m j)
  unfolding get insert
  get-insert m k j v = ground (arith, get-remove m k j)

  pub get-insert_self : (m : Map V) (k : Text) (v : V) → get (insert m k v) k ≡ some v
  get-insert_self m k v = rw (get-insert m k k v, text_eq_refl k)

  pub get-alter :
      (m : Map V) (k j : Text) (f : V → V)
      → get (alter m k f) j ≡ (if text_eq k j then Option.map f (get m j) else get m j)
  unfolding get alter
  get-alter [] k j f = ground arith
  get-alter ((i, v) ∷ m) k j f =
      ground (arith, text_eq_iff i k, text_eq_iff i j, text_eq_iff k j, get-alter m k j f)

  pub get-map_values :
      (f : V → V) (m : Map V) (j : Text) → get (map_values f m) j ≡ Option.map f (get m j)
  unfolding get map_values
  get-map_values f [] j = refl
  get-map_values f ((i, v) ∷ m) j = ground (arith, get-map_values f m j)

  pub length-remove-le : (m : Map V) (k : Text) → length (remove m k) ≤ length m
  unfolding remove
  length-remove-le [] k = omega arith
  length-remove-le ((j, v) ∷ m) k = ground (arith, length-remove-le m k)

  pub length-insert-le : (m : Map V) (k : Text) (v : V) → length (insert m k v) ≤ length m + 1
  unfolding insert
  length-insert-le m k v = omega (arith, length-remove-le m k)

  pub length-alter : (m : Map V) (k : Text) (f : V → V) → length (alter m k f) ≡ length m
  unfolding alter
  length-alter [] k f = refl
  length-alter ((j, v) ∷ m) k f = ground (arith, length-alter m k f)

  pub length-remove_known :
      (m : Map V) (k : Text) {u : V} → get m k ≡ some u → length (remove m k) + 1 ≤ length m
  unfolding get remove
  length-remove_known [] k e = absurd (ground arith)
  length-remove_known ((j, v) ∷ m) k {u} e =
      ground (arith, length-remove_known m k {u = u}, length-remove-le m k)

  pub length-insert_known :
      (m : Map V) (k : Text) (v : V) {u : V} → get m k ≡ some u → length (insert m k v) ≤ length m
  unfolding insert
  length-insert_known m k v e = omega (arith, length-remove_known m k e)

  pub length-map_values : (f : V → V) (m : Map V) → length (map_values f m) ≡ length m
  unfolding map_values
  length-map_values f [] = refl
  length-map_values f ((j, v) ∷ m) = omega (arith, length-map_values f m)

  -- no key twice
  unfoldable pub Distinct : Map V → Type ℓ
  Distinct [] = Unit
  Distinct ((j, v) ∷ m) = (get m j ≡ none) × Distinct m

  pub get-remove_absent : (m : Map V) (k j : Text) → get m j ≡ none → get (remove m k) j ≡ none
  get-remove_absent m k j h = ground (arith, get-remove m k j)

  pub get-remove_self : (m : Map V) (k : Text) → get (remove m k) k ≡ none
  get-remove_self m k = rw (get-remove m k k, text_eq_refl k) refl

  pub remove-Distinct : (m : Map V) (k : Text) → Distinct m → Distinct (remove m k)
  unfolding Distinct remove
  remove-Distinct [] k d = tt
  remove-Distinct ((j, v) ∷ m) k (fresh, d) = elim (Bool-cases (text_eq j k)) [
    | inl h ↦ rw h (remove-Distinct m k d)
    | inr h ↦ rw h (get-remove_absent m k j fresh, remove-Distinct m k d)
  ]

  pub insert-Distinct : (m : Map V) (k : Text) (v : V) → Distinct m → Distinct (insert m k v)
  unfolding Distinct insert
  insert-Distinct m k v d = (get-remove_self m k, remove-Distinct m k d)

  pub get-cons_kept :
      (m : Map V) (k j : Text) (w : V) {v : V}
      → get m k ≡ none
      → get m j ≡ some v
      → get ((k, w) ∷ m) j ≡ some v
  unfolding get
  get-cons_kept m k j w {v} h g = elim (Bool-cases (text_eq k j)) [
    | inl e ↦ let same = (text_eq_iff k j).0 e in cc
    | inr e ↦ rw e g
  ]
