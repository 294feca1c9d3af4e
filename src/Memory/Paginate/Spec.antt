-- ===== src/Memory/Paginate/Spec.antt =====
-- The page loop computes the first items behind the cursor, and says whether there are more.
use comments_service.Prelude.{
  ℕ, zero, suc, ◌==◌, sym, ◌+◌, ◌^◌, ◌<◌, ◌≡◌, true, false, Option, List, [], ◌∷◌, ◌++◌, arith, ltb,
  length, length-append, take, length-take, filter, if◌then◌else◌, append_assoc, ◌∙◌, append-nil,
  Bool-cases, inl, inr, take_all, take-take-suc,
}
use comments_service.Go.Text.{Text}
use comments_service.Go.Time.{Time}
use comments_service.Go.Sort.{sort_slice}
use comments_service.Domain.Pagination.{Cursor, PageInput, limit_plus_one}
use comments_service.Memory.Paginate.{goes_first, matches, collect, cut, paginate}

-- First + 1 fits a signed int of 64 bits.
abbrev pub IsSmall : PageInput → Type 0
IsSmall page = page.first + 1 < 2 ^ 63

pub limit_plus_one-small : (page : PageInput) → IsSmall page → limit_plus_one page ≡ suc page.first
unfolding limit_plus_one
limit_plus_one-small page small = omega arith

module _ {A : Type 0} (created_at : A → Time) (id_of : A → Text) where
  -- The items behind the cursor, in page order.
  unfoldable pub behind : Option Cursor → List A → List A
  behind cursor xs =
      filter (matches created_at id_of cursor) (sort_slice (goes_first created_at id_of) xs)

  -- The item `x` is taken: either the loop ends, or it goes on with the rest.
  collect_hit :
      (limit : ℕ) (cursor : Option Cursor) (items : List A) (x : A) (xs : List A) (room : ℕ)
      → limit ≡ length items + suc room
      → ((r : ℕ)
          → limit ≡ length (items ++ x ∷ []) + suc r
          → collect created_at id_of limit cursor (items ++ x ∷ []) xs
            ≡ (items ++ x ∷ []) ++ take (suc r) (filter (matches created_at id_of cursor) xs))
      → (if length (items ++ x ∷ []) == limit
          then items ++ x ∷ []
          else collect created_at id_of limit cursor (items ++ x ∷ []) xs)
        ≡ items ++ x ∷ take room (filter (matches created_at id_of cursor) xs)
  collect_hit limit cursor items x xs zero h rest =
      let stop : (length (items ++ x ∷ []) == limit) ≡ true =
        ground (arith, length-append items (x ∷ [])) in
      rw stop
  collect_hit limit cursor items x xs (suc room) h rest =
      let go_on : (length (items ++ x ∷ []) == limit) ≡ false =
        ground (arith, length-append items (x ∷ [])) in
      rw go_on
        (rest room (omega (arith, length-append items (x ∷ []))) ∙ append_assoc items (x ∷ []) _)

  collect_lem :
      (limit : ℕ) (cursor : Option Cursor) (items xs : List A) (room : ℕ)
      → limit ≡ length items + suc room
      → collect created_at id_of limit cursor items xs
        ≡ items ++ take (suc room) (filter (matches created_at id_of cursor) xs)
  unfolding collect
  collect_lem limit cursor items [] room h = sym (append-nil items)
  collect_lem limit cursor items (x ∷ xs) room h =
      elim (Bool-cases (matches created_at id_of cursor x)) [
        | inr miss ↦ rw miss (collect_lem limit cursor items xs room h)
        | inl hit ↦ rw hit (
            collect_hit limit cursor items x xs room h
              (collect_lem limit cursor (items ++ x ∷ []) xs))
      ]

pub cut_lem :
    {A : Type 0} (page : PageInput) (xs : List A)
    → cut page (take (suc page.first) xs)
      ≡ record { items = take page.first xs; has_next_page = ltb page.first (length xs) }
unfolding cut
cut_lem page xs = elim (Bool-cases (ltb page.first (length xs))) [
  | inl more ↦ ground (arith, length-take (suc page.first) xs, take-take-suc page.first xs)
  | inr all ↦ ground (arith, take_all (suc page.first) xs, take_all page.first xs)
]

module _ {A : Type 0} (created_at : A → Time) (id_of : A → Text) where
  -- The page is the first items behind the cursor, in page order, and `has_next_page` holds exactly
  -- when there are more than those.
  pub paginate_lem :
      (xs : List A) (page : PageInput)
      → IsSmall page
      → paginate created_at id_of xs page ≡ record {
        items = take page.first (behind created_at id_of page.after xs);
        has_next_page = ltb page.first (length (behind created_at id_of page.after xs));
      }
  unfolding paginate behind
  paginate_lem xs page small =
      let limit : limit_plus_one page ≡ suc page.first = limit_plus_one-small page small in
      rw
        (
          limit,
          collect_lem created_at id_of (suc page.first) page.after []
              (sort_slice (goes_first created_at id_of) xs) page.first (omega arith),
        )
        (cut_lem page (behind created_at id_of page.after xs))
