-- ===== src/Postgres/Counting.antt =====
-- A query with `group by` and count(*): the counts by key, in any order of the groups.
use mathlib.Core.Logic.{∥∥₁_elim}
use mathlib.Core.List.{Perm, Permᴰ}
use mathlib.Core.List.Perm
use comments_service.Prelude.{
  ℕ, zero, suc, ◌≡◌, refl, sym, ap, ◌∙◌, Option, none, some, List, [], ◌∷◌, ◌==◌, ==_iff, filter,
  length, arith, if◌then◌else◌, Bool-cases, inl, inr,
}
use comments_service.Go.Map.{Map, get, put}
use comments_service.Go.Map.Laws.{IsDistinct, get-put}
use comments_service.Domain.Ids.{Uuid}
use comments_service.Postgres.Sql.{CommentRow, Column, key_of, add_to_count, counted_by}
use comments_service.Postgres.Comments.{put_counts}

-- An entry, or what stands in its place.
abbrev pub or_else : Option ℕ → Option ℕ → Option ℕ
or_else none o = o
or_else (some n) o = some n

get-put_counts :
    (rows : Map ℕ) (m : Map ℕ) (k : ℕ)
    → IsDistinct rows
    → get (put_counts rows m) k ≡ or_else (get rows k) (get m k)
unfolding put_counts get
get-put_counts [] m k d = refl
get-put_counts ((id, n) ∷ rows) m k d =
    get-put_counts rows (put m id n) k d.1 ∙ elim (Bool-cases (id == k)) [
      | inr e ↦ rw (get-put m id k n, e) refl
      | inl e ↦
          let free : get rows k ≡ none = rw (← (==_iff id k).0 e) d.0 in
          rw (get-put m id k n, e, free) refl
    ]

same_entries :
    {l r : Map ℕ} → Permᴰ l r → IsDistinct l → IsDistinct r × ((k : ℕ) → get l k ≡ get r k)
unfolding get
same_entries Permᴰ.nil d = (tt, λ k. refl)
same_entries (Permᴰ.cons {a = a} e h) d =
    let (dr, same) = same_entries h d.1 in
    rw (← e) ((sym (same a.0) ∙ d.0, dr), λ k. rw (same k) refl)
same_entries (Permᴰ.swap {a = a} {b = b} {l = l} e h) d =
    rw (← e, ← h) ((ground arith, (ground arith, d.1.1)), λ k. ground arith)
same_entries (Permᴰ.trans h k) d =
    let (dm, same_m) = same_entries h d in
    let (dr, same_r) = same_entries k dm in (dr, λ j. same_m j ∙ same_r j)

get-add_to_count :
    (id : Uuid) (m : Map ℕ) (k : ℕ)
    → get (add_to_count id m) k
      ≡ (if id == k then some (elim (get m k) [ none ↦ 1 | some n ↦ suc n ]) else get m k)
unfolding get
get-add_to_count id [] k = refl
get-add_to_count id ((j, n) ∷ m) k = ground (arith, get-add_to_count id m k)

add_to_count-IsDistinct : (id : Uuid) (m : Map ℕ) → IsDistinct m → IsDistinct (add_to_count id m)
unfolding get
add_to_count-IsDistinct id [] d = (refl, tt)
add_to_count-IsDistinct id ((j, n) ∷ m) d =
    ground (arith, add_to_count-IsDistinct id m d.1, get-add_to_count id m j)

counted_by-IsDistinct :
    (column : Column) (rows : List CommentRow) → IsDistinct (counted_by column rows)
counted_by-IsDistinct column [] = tt
counted_by-IsDistinct column (row ∷ rows) =
    add_to_count-IsDistinct (key_of column row) _ (counted_by-IsDistinct column rows)

-- A count of zero is no group.
abbrev pub some_rows : ℕ → Option ℕ
some_rows zero = none
some_rows (suc n) = some (suc n)

one_more :
    (n : ℕ)
    → ◌≡◌ {A = Option ℕ} (some (elim (some_rows n) [ none ↦ 1 | some j ↦ suc j ])) (some (suc n))
one_more zero = refl
one_more (suc n) = refl

get-counted_by :
    (column : Column) (rows : List CommentRow) (k : ℕ)
    → get (counted_by column rows) k
      ≡ some_rows (length (filter (λ row. key_of column row == k) rows))
unfolding get
get-counted_by column [] k = refl
get-counted_by column (row ∷ rows) k =
    get-add_to_count (key_of column row) (counted_by column rows) k
    ∙ elim (Bool-cases (key_of column row == k)) [
      | inl e ↦ rw (e, get-counted_by column rows k) (one_more _)
      | inr e ↦ rw (e, get-counted_by column rows k) refl
    ]

-- Whatever order the groups come in, the loop leaves for each key the count of its rows, and what was
-- there before where it has none.
pub put_counts_lem :
    (column : Column) (rows : List CommentRow) (groups m : Map ℕ) (k : ℕ)
    → Perm groups (counted_by column rows)
    → get (put_counts groups m) k
      ≡ or_else (some_rows (length (filter (λ row. key_of column row == k) rows))) (get m k)
put_counts_lem column rows groups m k same =
    let is_prop : IsProp (
        get (put_counts groups m) k
        ≡ or_else (some_rows (length (filter (λ row. key_of column row == k) rows))) (get m k)) =
      hlevel in
    ∥∥₁_elim (Perm.symm same) is_prop (λ h.
      let (distinct, entries) = same_entries h (counted_by-IsDistinct column rows) in
      get-put_counts groups m k distinct
      ∙ ap (λ o. or_else o (get m k)) (sym (entries k) ∙ get-counted_by column rows k))
