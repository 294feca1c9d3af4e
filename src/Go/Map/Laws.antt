-- ===== src/Go/Map/Laws.antt =====
-- The laws of maps. A map that is made by `put` and `delete` from the empty one has distinct keys.
use mathlib.Core.Option
use comments_service.Prelude.{
  ℕ, suc, ◌≡◌, refl, none, some, [], ◌∷◌, ◌==◌, if◌then◌else◌, arith, length,
}
use comments_service.Go.Map.{Map, get, put, delete, map_values}

-- Every entry meets `P`.
abbrev pub Entries {ℓ κ} : {V : Type ℓ} → (ℕ → V → Type κ) → Map V → Type κ
Entries P [] = Unit
Entries P ((j, v) ∷ m) = P j v × Entries P m

-- No key stands twice.
abbrev pub IsDistinct {ℓ} : {V : Type ℓ} → Map V → Type ℓ
IsDistinct [] = Unit
IsDistinct ((j, v) ∷ m) = (get m j ≡ none) × IsDistinct m

module _ {ℓ} {V : Type ℓ} where
  pub get-put :
      (m : Map V) (k j : ℕ) (v : V) → get (put m k v) j ≡ (if k == j then some v else get m j)
  unfolding get put
  get-put [] k j v = refl
  get-put ((i, w) ∷ m) k j v = ground (arith, get-put m k j v)

  pub get-delete :
      (m : Map V) (k j : ℕ) → IsDistinct m → get (delete m k) j ≡ (if k == j then none else get m j)
  unfolding get delete
  get-delete [] k j d = ground arith
  get-delete ((i, w) ∷ m) k j d = ground (arith, get-delete m k j d.1)

  pub put-IsDistinct : (m : Map V) (k : ℕ) (v : V) → IsDistinct m → IsDistinct (put m k v)
  unfolding get put
  put-IsDistinct [] k v d = (refl, tt)
  put-IsDistinct ((i, w) ∷ m) k v d = ground (arith, put-IsDistinct m k v d.1, get-put m k i v)

  pub delete-IsDistinct : (m : Map V) (k : ℕ) → IsDistinct m → IsDistinct (delete m k)
  unfolding get delete
  delete-IsDistinct [] k d = tt
  delete-IsDistinct ((i, w) ∷ m) k d =
      ground (arith, delete-IsDistinct m k d.1, get-delete m k i d.1)

  pub put-Entries {κ} :
      (P : ℕ → V → Type κ) (m : Map V) (k : ℕ) (v : V) → P k v → Entries P m → Entries P (put m k v)
  unfolding put
  put-Entries P [] k v h e = (h, tt)
  put-Entries P ((i, w) ∷ m) k v h e = ground (arith, put-Entries P m k v h e.1)

  pub get-Entries {κ} :
      (P : ℕ → V → Type κ) (m : Map V) (k : ℕ) (v : V) → Entries P m → get m k ≡ some v → P k v
  unfolding get
  get-Entries P [] k v e h = ground arith
  get-Entries P ((i, w) ∷ m) k v e h = ground (arith, get-Entries P m k v e.1)

  -- A `put` at a new key adds an entry, one at an old key replaces one.
  pub length-put :
      (m : Map V) (k : ℕ) (v : V)
      → length (put m k v) ≡ elim (get m k) [ none ↦ suc (length m) | some w ↦ length m ]
  unfolding get put
  length-put [] k v = refl
  length-put ((i, w) ∷ m) k v = ground (arith, length-put m k v)

module _ {ℓ κ} {V : Type ℓ} {W : Type κ} where
  pub get-map_values :
      (f : V → W) (m : Map V) (k : ℕ) → get (map_values f m) k ≡ Option.map f (get m k)
  unfolding get map_values
  get-map_values f [] k = refl
  get-map_values f ((i, w) ∷ m) k = ground (arith, get-map_values f m k)
