-- ===== src/Graphql/Mappers/Edges.antt =====
-- What the connections that the mappers build hold, and that a client goes on from their endCursor.
use comments_service.Prelude.{
  ℕ, suc, ◌≡◌, refl, ◌∙◌, Option, none, some, List, [], ◌∷◌, ◌++◌, map, append_assoc, append-nil,
  arith, All, false, ◌≢◌,
}
use comments_service.Prelude.Int.{pos}
use comments_service.Go.Text.{Text}
use comments_service.Go.Time
use comments_service.Domain.Errors.{Result, ok, err, ◌>>=◌}
use comments_service.Domain.Pagination.{
  Cursor, CursorJson, Page, IsPortable, encode_cursor, new_cursor, new_page_input,
}
use comments_service.Domain.Pagination.RoundTrip.{new_page_input-encode_cursor}
use comments_service.Memory.Paginate.Walk.{page_of_size, end_cursor}
use comments_service.Graphql.Mappers.{Edge, Connection, edges_loop, new_connection}

pub bind-inv :
    {A B : Type 0} (r : Result A) (f : A → Result B) (b : B)
    → (r >>= f) ≡ ok b
    → (a : A) × (r ≡ ok a) × (f a ≡ ok b)
bind-inv (ok a) f b h = (a, refl, h)
bind-inv (err e) f b h = absurd (ground arith)

-- The last element, or else what there was.
abbrev pub last_or : {A : Type 0} → A → List A → A
last_or a [] = a
last_or a (x ∷ xs) = last_or x xs

module _ ⦃json : CursorJson⦄ {A M : Type 0} (cursor : A → Cursor) (model : A → M) where
  -- The edge of an item: its model, and its cursor as EncodeCursor writes it.
  pub record IsEdge (item : A) (edge : Edge M) : Type 0 where
    pub cursor_of : encode_cursor (cursor item) ≡ ok edge.cursor
    pub node_of : edge.node ≡ model item

  -- One edge for each item, in order.
  abbrev pub AreEdges : List A → List (Edge M) → Type 0
  AreEdges [] [] = Unit
  AreEdges (item ∷ items) (edge ∷ edges) = IsEdge item edge × AreEdges items edges
  AreEdges _ _ = ⊥

  -- The loop appends one edge for each item; the endCursor is the last one's cursor.
  edges_loop-inv :
      (items : List A) (edges : List (Edge M)) (end_cursor : Option Text) (edges' : List (Edge M))
      (end_cursor' : Option Text)
      → edges_loop cursor model edges end_cursor items ≡ ok (edges', end_cursor')
      → (more : List (Edge M)) × (edges' ≡ edges ++ more)
        × AreEdges items more
        × (end_cursor' ≡ last_or end_cursor (map (λ e. some e.cursor) more))
  unfolding edges_loop
  edges_loop-inv [] edges end_cursor edges' end_cursor' h =
      ([], ground (arith, append-nil edges), tt, ground arith)
  edges_loop-inv (item ∷ items) edges end_cursor edges' end_cursor' h =
      let (c, written, rest) = bind-inv (encode_cursor (cursor item)) _ _ h in
      let (more, whole, each, end) = edges_loop-inv items _ _ edges' end_cursor' rest in
      (
        record { cursor = c; node = model item } ∷ more,
        whole ∙ append_assoc edges _ more,
        (record { cursor_of = written; node_of = refl }, each),
        end,
      )

  -- What a connection of the page is.
  abbrev pub IsOf : Page A → Connection M → Type 0
  IsOf page connection =
      AreEdges page.items connection.edges
      × (connection.page_info.has_next_page ≡ page.has_next_page)
      × (connection.page_info.end_cursor ≡ last_or none (map (λ e. some e.cursor) connection.edges))

  assembled :
      (page : Page A) (edges more : List (Edge M)) (last_cursor : Option Text)
      (connection : Connection M)
      → edges ≡ more
      → AreEdges page.items more
      → last_cursor ≡ last_or none (map (λ e. some e.cursor) more)
      → ok (record {
        edges = edges;
        page_info = record { has_next_page = page.has_next_page; end_cursor = last_cursor };
      })
        ≡ ok connection
      → IsOf page connection
  assembled page edges more last_cursor connection whole each end made =
      let same : record {
        edges = edges;
        page_info = record { has_next_page = page.has_next_page; end_cursor = last_cursor };
      }
          ≡ connection =
        ground arith in
      rw (← same, whole) (each, refl, end)

  -- The connection has one edge for each item of the page, in order, and the last one's cursor as endCursor.
  pub new_connection-inv :
      (page : Page A) (connection : Connection M)
      → new_connection cursor model page ≡ ok connection
      → IsOf page connection
  unfolding new_connection
  new_connection-inv page connection h =
      let ((edges, end_cursor), run, built) =
        bind-inv (edges_loop cursor model [] none page.items) _ _ h in
      let (more, whole, each, end) = edges_loop-inv page.items [] none edges end_cursor run in
      assembled page edges more end_cursor connection whole each end built

  -- Items whose cursors survive the encoding.
  module _ (IsFine : A → Type 0) (created_at : A → Time.Time) (id_of : A → Text)
      (cursor_lem : (x : A) → cursor x ≡ new_cursor (created_at x) (id_of x))
      (portable : (x : A)
        → IsFine x
        → IsPortable (cursor x)
          × (Time.is_zero (cursor x).created_at ≡ false)
          × ((cursor x).id ≢ []))
      (first : ℕ) where
    pub continues :
        (items : List A) (edges : List (Edge M))
        → All IsFine items
        → AreEdges items edges
        → new_page_input (pos (suc first)) (last_or none (map (λ e. some e.cursor) edges))
          ≡ ok (page_of_size (suc first) (end_cursor created_at id_of items))
    unfolding new_page_input end_cursor
    continues [] [] fine each = ground arith
    continues [] (edge ∷ edges) fine each = absurd each
    continues (item ∷ items) [] fine each = absurd each
    continues (item ∷ []) (edge ∷ []) fine each =
        let (p, z, n) = portable item fine.0 in
        rw (← cursor_lem item)
          (new_page_input-encode_cursor first (cursor item) edge.cursor p z n each.0.cursor_of)
    continues (item ∷ []) (edge ∷ edge' ∷ edges) fine each = absurd each.1
    continues (item ∷ item' ∷ items) (edge ∷ []) fine each = absurd each.1
    continues (item ∷ item' ∷ items) (edge ∷ edge' ∷ edges) fine each =
        continues (item' ∷ items) (edge' ∷ edges) fine.1 each.1
