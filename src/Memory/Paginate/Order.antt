-- ===== src/Memory/Paginate/Order.antt =====
-- `goes_first` is a strict order that tells apart items of different identifiers.
use mathlib.Core.List.{Perm, Pairwise}
use mathlib.Core.List.Pairwise
use comments_service.Prelude.{◌≡◌, ◌≢◌, List, arith, some}
use comments_service.Go.Text.{Text}
use comments_service.Go.Text.Order.{text_ltb_asymm, text_ltb_trans, text_ltb_total}
use comments_service.Go.Time.{Time}
use comments_service.Go.Sort.{sort_slice}
use comments_service.Go.Sort.Ordered.{StrictOrder}
use comments_service.Go.Sort.Unique.{
  Apart, IsStrict, IsStrict-of_Pairwise, sort_slice-strict, sort_slice_of_perm,
}
use comments_service.Domain.Pagination.{new_cursor, PageInput}
use comments_service.Memory.Paginate.{goes_first, matches, paginate}

module _ {A : Type 0} (created_at : A → Time) (id_of : A → Text) where
  -- No identifier stands twice.
  abbrev pub HasDistinctIds : List A → Type 0
  HasDistinctIds xs = Pairwise (λ a b. id_of a ≢ id_of b) xs

  pub goes_first-StrictOrder : StrictOrder (goes_first created_at id_of)
  unfolding goes_first
  goes_first-StrictOrder = record {
    asymm = λ a b h. ground (arith, text_ltb_asymm (id_of b) (id_of a));
    trans = λ a b c h k. ground (arith, text_ltb_trans (id_of c) (id_of b) (id_of a));
  }

  pub goes_first-Apart : (a b : A) → id_of a ≢ id_of b → Apart (goes_first created_at id_of) a b
  unfolding goes_first
  goes_first-Apart a b different p q =
      different (ground (arith, text_ltb_total (id_of a) (id_of b)))

  -- The cursor of an item is met by exactly the items that go behind it.
  pub matches-new_cursor :
      (x z : A)
      → matches created_at id_of (some (new_cursor (created_at x) (id_of x))) z
        ≡ goes_first created_at id_of x z
  unfolding matches goes_first new_cursor
  matches-new_cursor x z = ground arith

  pub sort_slice-IsStrict :
      (xs : List A)
      → HasDistinctIds xs
      → IsStrict (goes_first created_at id_of) (sort_slice (goes_first created_at id_of) xs)
  sort_slice-IsStrict xs d =
      IsStrict-of_Pairwise _
        (sort_slice-strict goes_first-StrictOrder xs (Pairwise.imp goes_first-Apart d))

  -- The page does not depend on the order in which the map hands out its entries.
  pub paginate_of_perm :
      (A_set : IsSet A) (xs ys : List A) (page : PageInput)
      → HasDistinctIds xs
      → Perm xs ys
      → paginate created_at id_of xs page ≡ paginate created_at id_of ys page
  unfolding paginate
  paginate_of_perm A_set xs ys page d p =
      rw (sort_slice_of_perm goes_first-StrictOrder A_set xs ys (Pairwise.imp goes_first-Apart d) p)
