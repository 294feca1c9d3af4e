-- ===== src/Postgres/Ranking.antt =====
-- Rows that are ranked within their key and cut by rank are, key by key, the first rows of that key.
use mathlib.Core.List.{Pairwise}
use mathlib.Core.List.Pairwise
use comments_service.Prelude.{
  ℕ, zero, suc, ◌≡◌, refl, sym, ap, ◌∙◌, Bool, true, false, ◌&&◌, List, [], ◌∷◌, ◌==◌, ==_iff,
  ==_refl, ltb, leb, filter, filter-filter, filter_congr, filter_none, length, take, All, All-map,
  All-filter, All-filter-true, arith, if◌then◌else◌, Bool-cases, inl, inr,
}
use comments_service.Go.Sort.{insert, sort_slice}
use comments_service.Go.Sort.Ordered.{StrictOrder, irrefl}
use comments_service.Go.Sort.Unique.{Apart, IsStrict, IsStrict-of_Pairwise, sort_slice-strict}
use comments_service.Postgres.Rows.{
  All-of_total, All-sort_slice, filter-Pairwise, filter-sort_slice,
}

-- Tests that agree on the elements of a list select the same of them.
pub filter_agrees :
    {A : Type 0} (p q : A → Bool) (xs : List A)
    → All (λ x. p x ≡ q x) xs
    → filter p xs ≡ filter q xs
filter_agrees p q [] h = refl
filter_agrees p q (x ∷ xs) h = ground (arith, filter_agrees p q xs h.1)

-- Orders that agree on what meets `P` sort it alike.
module _ {A : Type 0} (P : A → Type 0) (less below : A → A → Bool)
    (agrees : (x y : A) → P x → P y → less x y ≡ below x y) where
  insert_agrees : (x : A) (xs : List A) → P x → All P xs → insert less x xs ≡ insert below x xs
  unfolding insert
  insert_agrees x [] p h = refl
  insert_agrees x (y ∷ ys) p h = rw (agrees x y p h.0, insert_agrees x ys p h.1) refl

  pub sort_slice_agrees : (xs : List A) → All P xs → sort_slice less xs ≡ sort_slice below xs
  unfolding sort_slice
  sort_slice_agrees [] h = refl
  sort_slice_agrees (x ∷ xs) h =
      insert_agrees x _ h.0 (All-sort_slice P less xs h.1)
      ∙ ap (insert below x) (sort_slice_agrees xs h.1)

-- A list is counted the same in any order.
module _ {A : Type 0} (less : A → A → Bool) (p : A → Bool) where
  count-insert :
      (x : A) (xs : List A) → length (filter p (insert less x xs)) ≡ length (filter p (x ∷ xs))
  unfolding insert
  count-insert x [] = refl
  count-insert x (y ∷ ys) = elim (Bool-cases (less x y)) [
    | inl e ↦ rw e refl
    | inr e ↦ rw e (ground (arith, count-insert x ys))
  ]

  count-sort_slice : (xs : List A) → length (filter p (sort_slice less xs)) ≡ length (filter p xs)
  unfolding sort_slice
  count-sort_slice [] = refl
  count-sort_slice (x ∷ xs) =
      count-insert x (sort_slice less xs) ∙ ground (arith, count-sort_slice xs)

and_comm : (a b : Bool) → (a && b) ≡ (b && a)
and_comm a b = ground arith

leb-suc : (a b : ℕ) → leb (suc a) (suc b) ≡ leb a b
leb-suc a b = ground arith

leb-zero : (a : ℕ) → leb (suc a) 0 ≡ false
leb-zero a = ground arith

leb-suc_one : (n : ℕ) → leb 1 (suc n) ≡ true
leb-suc_one n = ground arith

module _ {A : Type 0} {less : A → A → Bool} (o : StrictOrder less) where
  -- The place of an element in the list, counted by what goes before it.
  abbrev place : List A → A → ℕ
  place xs x = suc (length (filter (λ a. less a x) xs))

  take_by_place :
      (n : ℕ) (xs : List A) → IsStrict less xs → filter (λ x. leb (place xs x) n) xs ≡ take n xs
  take_by_place zero xs s = filter_none _ xs (All-of_total _ (λ x. leb-zero _) xs)
  take_by_place (suc n) [] s = refl
  take_by_place (suc n) (x ∷ xs) s =
      let before_x : filter (λ a. less a x) xs ≡ [] =
        filter_none (λ a. less a x) xs (All-map _ _ xs (λ y h. o.asymm x y h) s.0) in
      let behind_x : All (λ y. leb (place (x ∷ xs) y) (suc n) ≡ leb (place xs y) n) xs =
        All-map _ _ xs (λ y h. rw h (leb-suc _ n)) s.0 in
      rw (irrefl o x, before_x, leb-suc_one n)
        (ap (◌∷◌ x) (filter_agrees _ _ xs behind_x ∙ take_by_place n xs s.1))

  -- The rows of one key, ranked among themselves and cut by rank.
  pub take_by_rank :
      (A_set : IsSet A) (n : ℕ) (xs : List A)
      → Pairwise (Apart less) xs
      → sort_slice less (filter (λ x. leb (place xs x) n) xs) ≡ take n (sort_slice less xs)
  take_by_rank A_set n xs apart =
      let sorted = sort_slice less xs in
      sym (filter-sort_slice o A_set (λ x. leb (place xs x) n) xs apart)
      ∙ filter_congr _ (λ x. leb (place sorted x) n) sorted
          (λ x. ap (λ k. leb (suc k) n) (sym (count-sort_slice less (λ a. less a x) xs)))
      ∙ take_by_place n sorted (IsStrict-of_Pairwise less (sort_slice-strict o xs apart))

-- Ranks within a key, in an order that goes by the key first.
module _ {A : Type 0} (A_set : IsSet A) (key : A → ℕ) {less : A → A → Bool}
    (o : StrictOrder less) where
  abbrev by : A → A → Bool
  by a b = if key a == key b then less a b else ltb (key a) (key b)

  by-StrictOrder : StrictOrder by
  by-StrictOrder = record {
    asymm = λ a b h. ground (arith, o.asymm a b);
    trans = λ a b c h k. ground (arith, o.trans a b c);
  }

  by-Apart : (a b : A) → Apart less a b → Apart by a b
  by-Apart a b h p q = elim (Bool-cases (key a == key b)) [
    | inl e ↦ let back : (key b == key a) ≡ true = ground arith in h (rw e at p) (rw back at q)
    | inr e ↦ absurd (ground arith)
  ]

  abbrev rank : List A → A → ℕ
  rank xs x = suc (length (filter (λ a. (key a == key x) && less a x) xs))

  pub ranked_key :
      (n k : ℕ) (xs : List A)
      → Pairwise (Apart less) xs
      → filter (λ x. key x == k) (sort_slice by (filter (λ x. leb (rank xs x) n) xs))
        ≡ take n (sort_slice less (filter (λ x. key x == k) xs))
  ranked_key n k xs apart =
      let low = λ (x : A). leb (rank xs x) n in
      let of_k = λ (x : A). key x == k in
      let own = filter of_k xs in
      let swapped : filter of_k (filter low xs) ≡ filter low own =
        filter-filter of_k low xs
        ∙ filter_congr _ _ xs (λ x. and_comm (low x) (of_k x))
        ∙ sym (filter-filter low of_k xs) in
      let ranks : All (λ x. low x ≡ leb (suc (length (filter (λ a. less a x) own))) n) own =
        All-map _ _ own
          (λ x h.
            let k_is : key x ≡ k = (==_iff (key x) k).0 h in
            ap (λ l. leb (suc (length l)) n)
              (filter_congr _ _ xs (λ a. ap (λ j. (key a == j) && less a x) k_is)
                ∙ sym (filter-filter (λ a. less a x) of_k xs)))
          (All-filter-true of_k xs) in
      filter-sort_slice by-StrictOrder A_set of_k (filter low xs)
        (filter-Pairwise _ low xs (Pairwise.imp by-Apart apart))
      ∙ ap (sort_slice by) (swapped ∙ filter_agrees _ _ own ranks)
      ∙ sort_slice_agrees (λ x. of_k x ≡ true) by less
          (λ x y p q. rw ((==_iff (key x) k).0 p, (==_iff (key y) k).0 q, ==_refl k) refl) _
          (All-filter _ _ own (All-filter-true of_k xs))
      ∙ take_by_rank o A_set n own (filter-Pairwise _ of_k xs apart)
