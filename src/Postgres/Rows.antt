-- ===== src/Postgres/Rows.antt =====
-- The rows of an answer, seen as domain objects: a function of rows goes through sorting, filtering and
-- cutting.
use mathlib.Core.Logic.Or
use mathlib.Core.List.{
  Mem, not-mem-nil, mem-cons, mem-cons_self, mem-cons_of_mem, Pairwise, Pairwise-cons,
}
use mathlib.Core.List.Perm
use comments_service.Prelude.{
  ℕ, zero, suc, ◌≡◌, refl, ap, ◌∙◌, Bool, List, [], ◌∷◌, ◌++◌, map, filter, length, take, All,
  Bool-cases, inl, inr,
}
use comments_service.Go.Map.Order.{filter-perm}
use comments_service.Go.Sort.{insert, sort_slice}
use comments_service.Go.Sort.Ordered.{StrictOrder, sort_slice-perm}
use comments_service.Go.Sort.Unique.{Apart, sort_slice-strict, eq_of_perm_strict}

module _ {A B : Type 0} (f : A → B) where
  pub map-take : (n : ℕ) (xs : List A) → map f (take n xs) ≡ take n (map f xs)
  map-take zero xs = refl
  map-take (suc n) [] = refl
  map-take (suc n) (x ∷ xs) = ap (◌∷◌ (f x)) (map-take n xs)

  pub map-append : (xs ys : List A) → map f (xs ++ ys) ≡ map f xs ++ map f ys
  map-append [] ys = refl
  map-append (x ∷ xs) ys = ap (◌∷◌ (f x)) (map-append xs ys)

  pub All-of_map : (P : B → Type 0) (xs : List A) → All (λ x. P (f x)) xs → All P (map f xs)
  All-of_map P [] h = tt
  All-of_map P (x ∷ xs) h = (h.0, All-of_map P xs h.1)

  mem-of_map : (xs : List A) (b : A) → Mem b xs → Mem (f b) (map f xs)
  mem-of_map [] b m = absurd (not-mem-nil m)
  mem-of_map (x ∷ xs) b m =
      let is_prop : IsProp (Mem (f b) (map f (x ∷ xs))) = hlevel in
      Or.elim is_prop (mem-cons.0 m) (λ same. rw same mem-cons_self)
        (λ k. mem-cons_of_mem (f x) (mem-of_map xs b k))

  pub Pairwise-of_map :
      (R : B → B → Type 0) (xs : List A)
      → Pairwise R (map f xs)
      → Pairwise (λ x y. R (f x) (f y)) xs
  Pairwise-of_map R [] h = Pairwise.nil
  Pairwise-of_map R (x ∷ xs) h =
      let (head, tail) = Pairwise-cons.0 h in
      Pairwise.cons (λ b m. head (f b) (mem-of_map xs b m)) (Pairwise-of_map R xs tail)

  pub length-map : (xs : List A) → length (map f xs) ≡ length xs
  length-map [] = refl
  length-map (x ∷ xs) = ap suc (length-map xs)

  pub map-filter :
      (p : A → Bool) (q : B → Bool) (xs : List A)
      → All (λ x. q (f x) ≡ p x) xs
      → map f (filter p xs) ≡ filter q (map f xs)
  map-filter p q [] h = refl
  map-filter p q (x ∷ xs) h = elim (Bool-cases (p x)) [
    | inl e ↦ rw (h.0, e) (ap (◌∷◌ (f x)) (map-filter p q xs h.1))
    | inr e ↦ rw (h.0, e) (map-filter p q xs h.1)
  ]

  module _ (less : A → A → Bool) (below : B → B → Bool)
      (same : (x y : A) → below (f x) (f y) ≡ less x y) where
    map-insert : (x : A) (xs : List A) → map f (insert less x xs) ≡ insert below (f x) (map f xs)
    unfolding insert
    map-insert x [] = refl
    map-insert x (y ∷ ys) = elim (Bool-cases (less x y)) [
      | inl e ↦ rw (same x y, e) refl
      | inr e ↦ rw (same x y, e) (ap (◌∷◌ (f y)) (map-insert x ys))
    ]

    pub map-sort_slice : (xs : List A) → map f (sort_slice less xs) ≡ sort_slice below (map f xs)
    unfolding sort_slice
    map-sort_slice [] = refl
    map-sort_slice (x ∷ xs) =
        map-insert x (sort_slice less xs) ∙ ap (insert below (f x)) (map-sort_slice xs)

pub map-map :
    {A B C : Type 0} (f : A → B) (g : B → C) (xs : List A)
    → map g (map f xs) ≡ map (λ x. g (f x)) xs
map-map f g [] = refl
map-map f g (x ∷ xs) = ap (◌∷◌ (g (f x))) (map-map f g xs)

module _ {A : Type 0} (P : A → Type 0) where
  pub All-of_total : ((x : A) → P x) → (xs : List A) → All P xs
  All-of_total h [] = tt
  All-of_total h (x ∷ xs) = (h x, All-of_total h xs)

  pub All-take : (n : ℕ) (xs : List A) → All P xs → All P (take n xs)
  All-take zero xs h = tt
  All-take (suc n) [] h = tt
  All-take (suc n) (x ∷ xs) h = (h.0, All-take n xs h.1)

  module _ (less : A → A → Bool) where
    All-insert : (x : A) (xs : List A) → P x → All P xs → All P (insert less x xs)
    unfolding insert
    All-insert x [] p h = (p, tt)
    All-insert x (y ∷ ys) p h = elim (Bool-cases (less x y)) [
      | inl e ↦ rw e (p, h)
      | inr e ↦ rw e (h.0, All-insert x ys p h.1)
    ]

    pub All-sort_slice : (xs : List A) → All P xs → All P (sort_slice less xs)
    unfolding sort_slice
    All-sort_slice [] h = tt
    All-sort_slice (x ∷ xs) h = All-insert x (sort_slice less xs) h.0 (All-sort_slice xs h.1)

module _ {A : Type 0} where
  mem-of_filter : (p : A → Bool) (xs : List A) (b : A) → Mem b (filter p xs) → Mem b xs
  mem-of_filter p [] b m = m
  mem-of_filter p (x ∷ xs) b m = elim (Bool-cases (p x)) [
    | inr e ↦ mem-cons_of_mem x (mem-of_filter p xs b (rw e at m))
    | inl e ↦
        let is_prop : IsProp (Mem b (x ∷ xs)) = hlevel in
        Or.elim is_prop (mem-cons.0 (rw e at m)) (λ same. rw same mem-cons_self)
          (λ k. mem-cons_of_mem x (mem-of_filter p xs b k))
  ]

  pub filter-Pairwise :
      (R : A → A → Type 0) (p : A → Bool) (xs : List A) → Pairwise R xs → Pairwise R (filter p xs)
  filter-Pairwise R p [] h = Pairwise.nil
  filter-Pairwise R p (x ∷ xs) h =
      let (head, tail) = Pairwise-cons.0 h in
      elim (Bool-cases (p x)) [
        | inl e ↦
            rw e
              (Pairwise.cons (λ b m. head b (mem-of_filter p xs b m)) (filter-Pairwise R p xs tail))
        | inr e ↦ rw e (filter-Pairwise R p xs tail)
      ]

  -- Filtering before or after sorting is the same, where the order tells the items apart.
  pub filter-sort_slice :
      {less : A → A → Bool} (o : StrictOrder less) (A_set : IsSet A) (p : A → Bool) (xs : List A)
      → Pairwise (Apart less) xs
      → filter p (sort_slice less xs) ≡ sort_slice less (filter p xs)
  filter-sort_slice {less} o A_set p xs apart =
      eq_of_perm_strict o A_set _ _
        (filter-Pairwise _ p (sort_slice less xs) (sort_slice-strict o xs apart))
        (sort_slice-strict o (filter p xs) (filter-Pairwise _ p xs apart))
        (Perm.trans (filter-perm p (sort_slice-perm less xs))
          (Perm.symm (sort_slice-perm less (filter p xs))))
