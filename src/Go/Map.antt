-- ===== src/Go/Map.antt =====
-- A Go map with keys that are numbers, as the list of its entries. The order of the list is the order
-- in which `range` meets the entries.
pub mod Laws
pub mod Order
use comments_service.Prelude.{
  ℕ, Option, none, some, List, [], ◌∷◌, ◌==◌, if◌then◌else◌, Bool, true, false, ◌||◌,
}

abbrev pub Map {ℓ} : Type ℓ → Type ℓ
Map V = List (ℕ × V)

module _ {ℓ} {V : Type ℓ} where
  -- v, ok := m[k]
  unfoldable pub get : Map V → ℕ → Option V
  get [] k = none
  get ((j, v) ∷ m) k = if j == k then some v else get m k

  -- m[k] = v
  unfoldable pub put : Map V → ℕ → V → Map V
  put [] k v = (k, v) ∷ []
  put ((j, w) ∷ m) k v = if j == k then (k, v) ∷ m else (j, w) ∷ put m k v

  -- delete(m, k)
  unfoldable pub delete : Map V → ℕ → Map V
  delete [] k = []
  delete ((j, w) ∷ m) k = if j == k then m else (j, w) ∷ delete m k

  -- The values, as `range` meets them.
  unfoldable pub values : Map V → List V
  values [] = []
  values ((j, v) ∷ m) = v ∷ values m

-- A map of the same keys: for k, v := range m { result[k] = f(v) }
unfoldable pub map_values {ℓ κ} : {V : Type ℓ} {W : Type κ} → (V → W) → Map V → Map W
map_values f [] = []
map_values f ((j, v) ∷ m) = (j, f v) ∷ map_values f m

-- A value that is some other one where the key is missing: Go's zero value.
abbrev pub or_zero {ℓ} : {V : Type ℓ} → V → Option V → V
or_zero zero_value none = zero_value
or_zero zero_value (some v) = v

-- The list has the element.
unfoldable pub contains : List ℕ → ℕ → Bool
contains [] k = false
contains (j ∷ ks) k = (j == k) || contains ks k
