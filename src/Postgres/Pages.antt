-- ===== src/Postgres/Pages.antt =====
-- The page that a query with `limit $n` gives is the page that the memory adapter computes.
use mathlib.Core.List.Pairwise
use comments_service.Prelude.{
  ℕ, suc, ◌≡◌, refl, sym, ap, ◌∙◌, Bool, ◌&&◌, Option, List, [], ◌∷◌, map, filter, filter-filter,
  take, All, none, some, arith, ◌==◌, ==_iff, ◌++◌, Bool-cases, inl, inr,
}
use comments_service.Go.Text.{Text}
use comments_service.Go.Time.{Time}
use comments_service.Go.Map.{Map, get, put}
use comments_service.Go.Map.Laws.{IsDistinct, Entries}
use comments_service.Go.Sort.{sort_slice}
use comments_service.Domain.Errors.{Error, Result, ok, err}
use comments_service.Domain.Pagination.{Cursor, PageInput, limit_plus_one}
use comments_service.Memory.Paginate.{goes_first, matches, paginate, cut}
use comments_service.Memory.Paginate.Spec.{
  IsSmall, limit_plus_one-small, behind, cut_lem, paginate_lem,
}
use comments_service.Memory.Paginate.Order.{
  HasDistinctIds, goes_first-StrictOrder, goes_first-Apart,
}
use comments_service.Postgres.Posts.{first_page}
use comments_service.Postgres.Replies.{first_or}
use comments_service.Postgres.Rows.{map-take, map-filter, map-sort_slice, filter-sort_slice}

module _ {R A : Type 0} (f : R → A) (A_set : IsSet A) (created_at : A → Time) (id_of : A → Text)
    (newer : R → R → Bool)
    (newer_agrees : (a b : R) → goes_first created_at id_of (f a) (f b) ≡ newer a b) where
  -- The rows behind the cursor, newest first.
  pub sorted_rows :
      (cursor : Option Cursor) (q : A → Bool) (h : R → Bool) (rows : List R)
      → HasDistinctIds created_at id_of (filter q (map f rows))
      → All (λ row. (q (f row) && matches created_at id_of cursor (f row)) ≡ h row) rows
      → map f (sort_slice newer (filter h rows))
        ≡ behind created_at id_of cursor (filter q (map f rows))
  unfolding behind
  sorted_rows cursor q h rows d agrees =
      let less = goes_first created_at id_of in
      let m = matches created_at id_of cursor in
      map-sort_slice f newer less newer_agrees (filter h rows)
      ∙ ap (sort_slice less)
          (map-filter f h (λ a. q a && m a) rows agrees ∙ sym (filter-filter m q (map f rows)))
      ∙ sym (
          filter-sort_slice (goes_first-StrictOrder created_at id_of) A_set m
            (filter q (map f rows)) (Pairwise.imp (goes_first-Apart created_at id_of) d))

  pub first_page-paginate :
      (page : PageInput) (q : A → Bool) (h : R → Bool) (rows : List R)
      → IsSmall page
      → HasDistinctIds created_at id_of (filter q (map f rows))
      → All (λ row. (q (f row) && matches created_at id_of page.after (f row)) ≡ h row) rows
      → first_page page (map f (take (limit_plus_one page) (sort_slice newer (filter h rows))))
        ≡ paginate created_at id_of (filter q (map f rows)) page
  first_page-paginate page q h rows small d agrees =
      let wanted = behind created_at id_of page.after (filter q (map f rows)) in
      let same : first_page page (take (suc page.first) wanted)
          ≡ cut page (take (suc page.first) wanted) =
        unfold first_page cut in refl in
      rw
        (
          limit_plus_one-small page small,
          map-take f (suc page.first) (sort_slice newer (filter h rows)),
          sorted_rows page.after q h rows d agrees,
        )
        (same
          ∙ cut_lem page wanted
          ∙ sym (paginate_lem created_at id_of (filter q (map f rows)) page small))

-- Tables with other values under the same keys.
module _ {R V W : Type 0} (key : R → ℕ) (f : R → V) (g : R → W) where
  pub get-none :
      (rows : List R) (k : ℕ)
      → get (map (λ r. (key r, f r)) rows) k ≡ none
      → get (map (λ r. (key r, g r)) rows) k ≡ none
  unfolding get
  get-none [] k h = refl
  get-none (r ∷ rows) k h = ground (arith, get-none rows k)

  pub map-IsDistinct :
      (rows : List R)
      → IsDistinct (map (λ r. (key r, f r)) rows)
      → IsDistinct (map (λ r. (key r, g r)) rows)
  map-IsDistinct [] d = tt
  map-IsDistinct (r ∷ rows) d = (get-none rows (key r) d.0, map-IsDistinct rows d.1)

get_last : {V : Type 0} (m : Map V) (k : ℕ) (v : V) → get (m ++ (k, v) ∷ []) k ≡ none → ⊥
unfolding get
get_last [] k v h = ground arith
get_last ((j, w) ∷ m) k v h = ground (arith, get_last m k v)

-- If the keys are still distinct with an entry at the end, `put` adds that entry.
pub put_last :
    {V : Type 0} (m : Map V) (k : ℕ) (v : V)
    → IsDistinct (m ++ (k, v) ∷ [])
    → put m k v ≡ m ++ (k, v) ∷ []
unfolding put
put_last [] k v d = refl
put_last ((j, w) ∷ m) k v d = elim (Bool-cases (j == k)) [
  | inr e ↦ rw e (ap (◌∷◌ (j, w)) (put_last m k v d.1))
  | inl e ↦ absurd (get_last m k v (rw ((==_iff j k).0 e) at d.0))
]

-- The value under a key is that of the first row with the key.
pub get_first :
    {R V : Type 0} (key : R → ℕ) (f : R → V) (rows : List R) (k : ℕ) (e : Error)
    → ◌≡◌ {A = Result V}
        (elim (get (map (λ r. (key r, f r)) rows) k) [ none ↦ err e | some v ↦ ok v ])
        (first_or e f (filter (λ r. key r == k) rows))
unfolding get
get_first key f [] k e = refl
get_first key f (r ∷ rows) k e = ground (arith, get_first key f rows k e)

pub map-Entries :
    {R V : Type 0} (key : R → ℕ) (id_of : V → ℕ) (f : R → V) (rows : List R)
    → ((r : R) → id_of (f r) ≡ key r)
    → Entries (λ k v. id_of v ≡ k) (map (λ r. (key r, f r)) rows)
map-Entries key id_of f [] h = tt
map-Entries key id_of f (r ∷ rows) h = (h r, map-Entries key id_of f rows h)
