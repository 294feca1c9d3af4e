-- ===== src/Go/Sort.antt =====
-- sort.Slice. It promises a permutation that is ordered by `less`, and is modelled by insertion sort;
-- for the orders of this program the ordered permutation is unique (Go/Sort/Unique.antt), so that any
-- other algorithm gives the same list.
pub mod Ordered
pub mod Unique
use comments_service.Prelude.{Bool, List, [], ◌∷◌, if◌then◌else◌}

module _ {ℓ} {A : Type ℓ} (less : A → A → Bool) where
  unfoldable pub insert : A → List A → List A
  insert x [] = x ∷ []
  insert x (y ∷ ys) = if less x y then x ∷ y ∷ ys else y ∷ insert x ys

  unfoldable pub sort_slice : List A → List A
  unfolding insert
  sort_slice [] = []
  sort_slice (x ∷ xs) = insert x (sort_slice xs)
