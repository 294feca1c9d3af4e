-- ===== src/Memory/Paginate/Walk.antt =====
-- A client that asks for page after page, each from the cursor of the last item that it has got.
use mathlib.Core.List.{Perm}
use comments_service.Prelude.{
  ℕ, zero, suc, ◌<◌, ◌≡◌, ◌∙◌, refl, sym, ap, Bool, true, false, Option, none, some, List, [], ◌∷◌,
  ◌++◌, arith, ltb, ltb→lt, length, take, drop, take-append-drop, length-drop, take_all,
  append_assoc, if◌then◌else◌, append-nil, Bool-cases, inl, inr, All, filter-All,
}
use comments_service.Go.Text.{Text}
use comments_service.Go.Time.{Time}
use comments_service.Go.Sort.{sort_slice}
use comments_service.Go.Sort.Ordered.{length-sort_slice, sort_slice-perm}
use comments_service.Go.Sort.Unique.{IsStrict}
use comments_service.Domain.Errors.{Result, ok, err}
use comments_service.Domain.Pagination.{Cursor, PageInput, Page, new_cursor}
use comments_service.Memory.Paginate.{paginate, goes_first, matches}
use comments_service.Memory.Paginate.Spec.{IsSmall, behind, paginate_lem}
use comments_service.Memory.Paginate.Order.{HasDistinctIds, sort_slice-IsStrict}
use comments_service.Memory.Paginate.Chain.{behind-new_cursor}

abbrev pub page_of_size : ℕ → Option Cursor → PageInput
page_of_size n cursor = record { first = n; after = cursor }

-- The page of an answer; an empty one stands for an error.
abbrev pub page_or_empty : {A : Type 0} → Result (Page A) → Page A
page_or_empty (ok page) = page
page_or_empty (err e) = record { items = []; has_next_page = false }

-- Its first `suc n` items, of more than `n`, have a last one.
last_split :
    {A : Type 0} (n : ℕ) (m : List A)
    → n < length m
    → (l : List A) × (x : A) × (take (suc n) m ≡ l ++ x ∷ [])
last_split n [] h = absurd (omega arith)
last_split zero (x ∷ m) h = ([], x, refl)
last_split (suc n) (y ∷ m) h =
    let (l, x, e) = last_split n m (omega arith) in (y ∷ l, x, ap (◌∷◌ y) e)

All-of_All : {A : Type 0} (xs : List A) → All (λ (x : A). ◌≡◌ {A = Bool} true true) xs
All-of_All [] = tt
All-of_All (x ∷ xs) = (refl, All-of_All xs)

module _ {A : Type 0} (created_at : A → Time) (id_of : A → Text) where
  -- The cursor of the last item.
  unfoldable pub end_cursor : List A → Option Cursor
  end_cursor [] = none
  end_cursor (x ∷ []) = some (new_cursor (created_at x) (id_of x))
  end_cursor (x ∷ y ∷ r) = end_cursor (y ∷ r)

  -- All the items of the pages of size `n`, from a cursor on, for at most `fuel` requests.
  unfoldable pub follow : (PageInput → Page A) → ℕ → ℕ → Option Cursor → List A
  follow request zero n cursor = []
  follow request (suc fuel) n cursor =
      let page = request (page_of_size n cursor) in
      let rest = follow request fuel n (end_cursor page.items) in
      page.items ++ (if page.has_next_page then rest else [])

  behind-none :
      (xs : List A) → behind created_at id_of none xs ≡ sort_slice (goes_first created_at id_of) xs
  unfolding behind matches
  behind-none xs = filter-All _ _ (All-of_All (sort_slice (goes_first created_at id_of) xs))

  end_cursor-last :
      (l : List A) (x : A) → end_cursor (l ++ x ∷ []) ≡ some (new_cursor (created_at x) (id_of x))
  unfolding end_cursor
  end_cursor-last [] x = refl
  end_cursor-last (y ∷ []) x = refl
  end_cursor-last (y ∷ z ∷ l) x = end_cursor-last (z ∷ l) x

  -- The cursor at the end of a page that is not the last stands before what the page left out.
  behind-end_cursor :
      (n : ℕ) (cursor : Option Cursor) (xs : List A)
      → HasDistinctIds created_at id_of xs
      → suc n < length (behind created_at id_of cursor xs)
      → behind created_at id_of (end_cursor (take (suc n) (behind created_at id_of cursor xs))) xs
        ≡ drop (suc n) (behind created_at id_of cursor xs)
  behind-end_cursor n cursor xs d h =
      let m = behind created_at id_of cursor xs in
      let (l, x, e) = last_split n m (omega arith) in
      let parts : m ≡ l ++ x ∷ drop (suc n) m =
        sym (take-append-drop (suc n) m)
        ∙ ap (λ t. t ++ drop (suc n) m) e
        ∙ append_assoc l (x ∷ []) (drop (suc n) m) in
      rw (e, end_cursor-last l x)
        (behind-new_cursor created_at id_of cursor xs l x (drop (suc n) m) d parts)

  -- Following the cursors gives every item behind the first cursor, each once, in page order, if the
  -- fuel is more than their number.
  pub follow_lem :
      (fuel n : ℕ) (cursor : Option Cursor) (xs : List A)
      → HasDistinctIds created_at id_of xs
      → IsSmall (page_of_size (suc n) cursor)
      → length (behind created_at id_of cursor xs) < fuel
      → follow (paginate created_at id_of xs) fuel (suc n) cursor
        ≡ behind created_at id_of cursor xs
  unfolding follow
  follow_lem zero n cursor xs d small enough = absurd (omega arith)
  follow_lem (suc fuel) n cursor xs d small enough =
      let m = behind created_at id_of cursor xs in
      rw (follow, paginate_lem created_at id_of xs (page_of_size (suc n) cursor) small)
        elim (Bool-cases (ltb (suc n) (length m))) [
          | inr all ↦ rw all (append-nil _ ∙ take_all (suc n) m (ground arith))
          | inl more ↦
              let left = behind-end_cursor n cursor xs d (ltb→lt (suc n) (length m) more) in
              rw more (
                ap (λ r. take (suc n) m ++ r)
                  (follow_lem fuel n _ xs d small (
                      rw left
                        (omega (arith, length-drop (suc n) m, ltb→lt (suc n) (length m) more)))
                    ∙ left)
                ∙ take-append-drop (suc n) m)
        ]

  -- From the first page on, following the cursors gives every item once, in page order.
  pub follow_all :
      (fuel n : ℕ) (xs : List A)
      → HasDistinctIds created_at id_of xs
      → IsSmall (page_of_size (suc n) none)
      → length xs < fuel
      → follow (paginate created_at id_of xs) fuel (suc n) none
        ≡ sort_slice (goes_first created_at id_of) xs
  follow_all fuel n xs d small enough =
      let all : behind created_at id_of none xs ≡ sort_slice (goes_first created_at id_of) xs =
        behind-none xs in
      follow_lem fuel n none xs d small
        (rw all (omega (arith, length-sort_slice (goes_first created_at id_of) xs)))
      ∙ all

  -- So what is visited is in strict page order, and is a permutation of the items.
  pub follow_covers :
      (fuel n : ℕ) (xs : List A)
      → HasDistinctIds created_at id_of xs
      → IsSmall (page_of_size (suc n) none)
      → length xs < fuel
      → IsStrict
          (goes_first created_at id_of)
          (follow (paginate created_at id_of xs) fuel (suc n) none)
        × Perm (follow (paginate created_at id_of xs) fuel (suc n) none) xs
  follow_covers fuel n xs d small enough =
      rw (follow_all fuel n xs d small enough) (
        sort_slice-IsStrict created_at id_of xs d,
        sort_slice-perm (goes_first created_at id_of) xs,
      )
