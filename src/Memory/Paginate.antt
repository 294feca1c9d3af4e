-- ===== src/Memory/Paginate.antt =====
-- The sort and the page loop that internal/adapters/storage/memory writes twice with the same text, for
-- posts (post_repository.go) and for comments (comment_repository.go): newest first, ties by the text
-- of the identifier.
pub mod Spec
pub mod Order
pub mod Chain
pub mod Walk
use comments_service.Prelude.{
  ℕ, Bool, not, Option, List, [], ◌∷◌, ◌++◌, ◌==◌, ltb, length, take, if◌then◌else◌,
}
use comments_service.Go.Text.{Text, text_ltb}
use comments_service.Go.Time.{Time, equal, after}
use comments_service.Go.Sort.{sort_slice}
use comments_service.Domain.Pagination.{
  Cursor, PageInput, limit_plus_one, cursor_matches_after, Page, new_cursor,
}

-- What is done with the items that the loop leaves.
unfoldable pub cut : {A : Type 0} → PageInput → List A → Page A
cut page items =
    let has_next_page = ltb page.first (length items) in
    record {
      items = if has_next_page then take page.first items else items;
      has_next_page = has_next_page;
    }

module _ {A : Type 0} (created_at : A → Time) (id_of : A → Text) where
  -- The function that sort.Slice is given.
  unfoldable pub goes_first : A → A → Bool
  unfolding equal after
  goes_first a b =
      if equal (created_at a) (created_at b)
      then text_ltb (id_of b) (id_of a)
      else after (created_at a) (created_at b)

  abbrev pub sort_items : List A → List A
  sort_items xs = sort_slice goes_first xs

  -- The item stands behind the cursor of the request.
  unfoldable pub matches : Option Cursor → A → Bool
  unfolding cursor_matches_after
  matches cursor x = cursor_matches_after (created_at x) (id_of x) cursor

  -- The loop over the sorted slice, which ends when `items` has `limit` elements.
  unfoldable pub collect : ℕ → Option Cursor → List A → List A → List A
  unfolding matches
  collect limit cursor items [] = items
  collect limit cursor items (x ∷ xs) =
      let skipped = collect limit cursor items xs in
      let more = items ++ x ∷ [] in
      let continued = collect limit cursor more xs in
      if not (matches cursor x) then skipped else if length more == limit then more else continued

  unfoldable pub paginate : List A → PageInput → Page A
  unfolding goes_first collect cut limit_plus_one
  paginate xs page = cut page (collect (limit_plus_one page) page.after [] (sort_items xs))
