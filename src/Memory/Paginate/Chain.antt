-- ===== src/Memory/Paginate/Chain.antt =====
-- Pages follow one another: the cursor of an item is a place in the order, and what is behind it is
-- what the next page starts from.
use comments_service.Prelude.{
  ◌≡◌, ◌∙◌, refl, sym, ap, Bool, true, ◌&&◌, Option, none, some, List, [], ◌∷◌, ◌++◌, arith, filter,
  filter-filter, filter_congr, filter-All, All-append, All-filter, All-filter-true, Bool-cases, inl,
  inr,
}
use comments_service.Go.Text.{Text}
use comments_service.Go.Text.Order.{text_ltb_trans}
use comments_service.Go.Time.{Time}
use comments_service.Go.Sort.{sort_slice}
use comments_service.Go.Sort.Ordered.{StrictOrder, irrefl}
use comments_service.Go.Sort.Unique.{IsStrict}
use comments_service.Domain.Pagination.{Cursor, new_cursor}
use comments_service.Memory.Paginate.{goes_first, matches}
use comments_service.Memory.Paginate.Spec.{behind}
use comments_service.Memory.Paginate.Order.{
  HasDistinctIds, goes_first-StrictOrder, matches-new_cursor, sort_slice-IsStrict,
}

module _ {ℓ} {A : Type ℓ} {less : A → A → Bool} (o : StrictOrder less) where
  filter-IsStrict : (p : A → Bool) (xs : List A) → IsStrict less xs → IsStrict less (filter p xs)
  filter-IsStrict p [] s = tt
  filter-IsStrict p (x ∷ xs) s = elim (Bool-cases (p x)) [
    | inl h ↦ rw h (All-filter (λ y. less x y ≡ true) p xs s.0, filter-IsStrict p xs s.1)
    | inr h ↦ rw h (filter-IsStrict p xs s.1)
  ]

  -- Of a strictly ascending list, what goes behind an element is what stands behind it.
  filter-less :
      (l : List A) (x : A) (r : List A)
      → IsStrict less (l ++ x ∷ r)
      → filter (less x) (l ++ x ∷ r) ≡ r
  filter-less [] x r s = rw (irrefl o x) (filter-All (less x) r s.0)
  filter-less (y ∷ l) x r s =
      let first = (All-append (λ z. less y z ≡ true) l (x ∷ r) s.0).1.0 in
      rw (o.asymm y x first) (filter-less l x r s.1)

module _ {A : Type 0} (created_at : A → Time) (id_of : A → Text) where
  -- What goes behind an item that is behind the cursor is behind the cursor too.
  matches_trans :
      (cursor : Option Cursor) (x z : A)
      → matches created_at id_of cursor x ≡ true
      → goes_first created_at id_of x z ≡ true
      → matches created_at id_of cursor z ≡ true
  unfolding matches goes_first
  matches_trans none x z h k = refl
  matches_trans (some c) x z h k = ground (arith, text_ltb_trans (id_of z) (id_of x) c.id)

  narrowed :
      (cursor : Option Cursor) (x z : A)
      → matches created_at id_of cursor x ≡ true
      → goes_first created_at id_of x z
        ≡ (matches created_at id_of cursor z && goes_first created_at id_of x z)
  narrowed cursor x z h = elim (Bool-cases (goes_first created_at id_of x z)) [
    | inl k ↦ rw (k, matches_trans cursor x z h k)
    | inr k ↦ ground arith
  ]

  -- If an item stands in what is behind a cursor, what follows it there is what is behind its own
  -- cursor.
  pub behind-new_cursor :
      (cursor : Option Cursor) (xs l : List A) (x : A) (r : List A)
      → HasDistinctIds created_at id_of xs
      → behind created_at id_of cursor xs ≡ l ++ x ∷ r
      → behind created_at id_of (some (new_cursor (created_at x) (id_of x))) xs ≡ r
  unfolding behind
  behind-new_cursor cursor xs l x r d e =
      let less = goes_first created_at id_of in
      let sorted = sort_slice less xs in
      let o = goes_first-StrictOrder created_at id_of in
      let strict =
        filter-IsStrict o (matches created_at id_of cursor) sorted
          (sort_slice-IsStrict created_at id_of xs d) in
      let passed = All-filter-true (matches created_at id_of cursor) sorted in
      let hit =
        (All-append (λ z. matches created_at id_of cursor z ≡ true) l (x ∷ r)
          (rw e at passed)).1.0 in
      filter_congr _ (less x) sorted (matches-new_cursor created_at id_of x)
      ∙ filter_congr (less x) _ sorted (λ z. narrowed cursor x z hit)
      ∙ sym (filter-filter (less x) (matches created_at id_of cursor) sorted)
      ∙ ap (filter (less x)) e
      ∙ filter-less o l x r (rw e at strict)
