-- ===== src/Postgres/Sql.antt =====
-- The tables of migrations/postgres/000001_init.up.sql and the statements that
-- internal/adapters/storage/postgres writes on them, as data, with the answer that SQL gives to a query.
use comments_service.Prelude.{
  ℕ, suc, Bool, true, false, ◌&&◌, ◌||◌, Option, none, some, List, [], ◌∷◌, ◌==◌, ltb, leb, map,
  length, take, filter, if◌then◌else◌,
}
use comments_service.Go.Text.{Text}
use comments_service.Go.Time.{Time, before, after, equal}
use comments_service.Go.Map.{contains}
use comments_service.Go.Sort.{sort_slice}
use comments_service.Domain.Ids.{Uuid, nil_uuid}

pub record PostRow : Type 0 where
  pub id : Uuid
  pub author_id : Uuid
  pub title : Text
  pub content : Text
  pub comments_enabled : Bool
  pub created_at : Time

pub record CommentRow : Type 0 where
  pub id : Uuid
  pub post_id : Uuid
  pub parent_id : Option Uuid
  pub author_id : Uuid
  pub body : Text
  pub created_at : Time

pub record Tables : Type 0 where
  pub posts : List PostRow
  pub comments : List CommentRow

-- The columns that the statements compare with `=`, group by and partition by.
pub data Column : Type 0 where
  post_id_column : Column
  parent_id_column : Column

-- The conditions of a `where` clause, which `and` joins: column = $1, column = any($1),
-- parent_id is null, and (created_at, id) < ($1, $2), whose second argument is text.
pub data Condition : Type 0 where
  equals : Column → Uuid → Condition
  equals_any : Column → List Uuid → Condition
  parent_is_null : Condition
  goes_behind : Time → Text → Condition

-- The queries, which have their rows newest first where they have many. A limit is that of `limit $n`
-- or, for the ranked ones, of `rn <= $n`.
pub data Query : Type 0 where
  post_by_id : Uuid → Query
  posts_page : List Condition → ℕ → Query
  count_posts : Query
  comment_by_id : Uuid → Query
  comments_page : List Condition → ℕ → Query
  ranked_comments : Column → List Condition → ℕ → Query
  count_comments : List Condition → Query
  count_by : Column → List Condition → Query

pub data Command : Type 0 where
  insert_post : PostRow → Command
  update_post : PostRow → Command
  insert_comment : CommentRow → Command

-- What a query selects.
abbrev pub RowOf : Query → Type 0
RowOf (post_by_id id) = PostRow
RowOf (posts_page conditions limit) = PostRow
RowOf count_posts = ℕ
RowOf (comment_by_id id) = CommentRow
RowOf (comments_page conditions limit) = CommentRow
RowOf (ranked_comments column conditions limit) = CommentRow × ℕ
RowOf (count_comments conditions) = ℕ
RowOf (count_by column conditions) = Uuid × ℕ

-- A null is `none`; `=` never holds of it.
abbrev pub cell : Column → CommentRow → Option Uuid
cell post_id_column row = some row.post_id
cell parent_id_column row = row.parent_id

abbrev pub is_cell : Option Uuid → Uuid → Bool
is_cell none id = false
is_cell (some u) id = u == id

abbrev pub is_cell_in : Option Uuid → List Uuid → Bool
is_cell_in none ids = false
is_cell_in (some u) ids = contains ids u

abbrev pub is_null : Option Uuid → Bool
is_null none = true
is_null (some u) = false

-- The key of a group or of a partition, whose rows are never null there.
abbrev pub key_of : Column → CommentRow → Uuid
key_of column row = elim (cell column row) [ none ↦ nil_uuid | some id ↦ id ]

-- created_at desc, id desc
abbrev pub newer : Time → Uuid → Time → Uuid → Bool
newer t u s v = if equal t s then ltb v u else after t s

abbrev pub newer_post : PostRow → PostRow → Bool
newer_post a b = newer a.created_at a.id b.created_at b.id

abbrev pub newer_comment : CommentRow → CommentRow → Bool
newer_comment a b = newer a.created_at a.id b.created_at b.id

-- key, created_at desc, id desc
abbrev pub by_key : Column → CommentRow → CommentRow → Bool
by_key column a b =
    if key_of column a == key_of column b
    then newer_comment a b
    else ltb (key_of column a) (key_of column b)

abbrev pub meets_all : {R : Type 0} → (R → Condition → Bool) → List Condition → R → Bool
meets_all meets [] row = true
meets_all meets (c ∷ cs) row = meets row c && meets_all meets cs row

-- row_number() over (partition by column order by created_at desc, id desc)
abbrev pub row_number : Column → List CommentRow → CommentRow → ℕ
row_number column rows row =
    suc (length (filter (λ a. (key_of column a == key_of column row) && newer_comment a row) rows))

abbrev pub ranked : Column → List CommentRow → ℕ → List CommentRow
ranked column rows limit =
    sort_slice (by_key column) (filter (λ row. leb (row_number column rows row) limit) rows)

-- group by column, the groups in the order of their first rows
abbrev pub add_to_count : Uuid → List (Uuid × ℕ) → List (Uuid × ℕ)
add_to_count id [] = (id, 1) ∷ []
add_to_count id ((j, n) ∷ counts) =
    if j == id then (j, suc n) ∷ counts else (j, n) ∷ add_to_count id counts

abbrev pub counted_by : Column → List CommentRow → List (Uuid × ℕ)
counted_by column [] = []
counted_by column (row ∷ rows) = add_to_count (key_of column row) (counted_by column rows)

-- `stored` is what a timestamptz keeps of a time, and `read_uuid` reads a text as a uuid.
module _ (stored : Time → Time) (read_uuid : Text → Option Uuid) where
  -- (created_at, id) < ($1, $2)
  abbrev pub is_behind : Time → Uuid → Time → Text → Bool
  is_behind created_at id t raw = elim (read_uuid raw) [
    | none ↦ false
    | some u ↦ before created_at (stored t) || equal created_at (stored t) && ltb id u
  ]

  -- A post has neither of the two columns.
  abbrev pub post_meets : PostRow → Condition → Bool
  post_meets row (goes_behind t raw) = is_behind row.created_at row.id t raw
  post_meets row _ = false

  abbrev pub comment_meets : CommentRow → Condition → Bool
  comment_meets row (equals column id) = is_cell (cell column row) id
  comment_meets row (equals_any column ids) = is_cell_in (cell column row) ids
  comment_meets row parent_is_null = is_null row.parent_id
  comment_meets row (goes_behind t raw) = is_behind row.created_at row.id t raw

  abbrev pub selected : List Condition → Tables → List CommentRow
  selected conditions tables = filter (meets_all comment_meets conditions) tables.comments

  -- The rows of the answer, in their order.
  unfoldable pub answer : (q : Query) → Tables → List (RowOf q)
  answer (post_by_id id) tables = filter (λ row. row.id == id) tables.posts
  answer (posts_page conditions limit) tables =
      take limit (sort_slice newer_post (filter (meets_all post_meets conditions) tables.posts))
  answer count_posts tables = length tables.posts ∷ []
  answer (comment_by_id id) tables = filter (λ row. row.id == id) tables.comments
  answer (comments_page conditions limit) tables =
      take limit (sort_slice newer_comment (selected conditions tables))
  answer (ranked_comments column conditions limit) tables =
      let rows = selected conditions tables in
      map (λ row. (row, row_number column rows row)) (ranked column rows limit)
  answer (count_comments conditions) tables = length (selected conditions tables) ∷ []
  answer (count_by column conditions) tables = counted_by column (selected conditions tables)
