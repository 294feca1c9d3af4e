-- ===== src/Application/InMemory/Behaviour.antt =====
-- How the operations answer: who may switch comments, what a switched-off post answers, and what is
-- read back.
use comments_service.Prelude.{
  ℕ, ◌+◌, ◌≡◌, refl, ap, Bool, false, Bool-cases, inl, inr, Option, none, some, [], ◌∷◌, arith,
  ◌==◌, length, filter, if◌then◌else◌,
}
use comments_service.Go.Map.{Map, get, put, values}
use comments_service.Go.Map.Laws.{get-Entries}
use comments_service.Domain.Errors.{ok, err, map_ok}
use comments_service.Domain.Ids.{UuidText}
use comments_service.Domain.Post.{Post}
use comments_service.Domain.Comment.{Comment}
use comments_service.Go.Text.{ascii}
use comments_service.Memory.Store.{Store}
use comments_service.Memory.Posts
use comments_service.Memory.Comments
use comments_service.Memory.Comments.{
  is_top_level_of, is_reply_to, comments_by_predicate, filter_comments, count_top_level,
  count_replies,
}
use comments_service.Application.Tx.{within_tx}
use comments_service.Application.Services.{CommentAddedEvent}
use comments_service.Application.Posts.{SetCommentsEnabledInput, set_enabled}
use comments_service.Application.Comments.{
  CreateCommentInput, create_comment, get_comment, comments_disabled,
}
use comments_service.Application.InMemory.{World, posts_service, comments_service_of}
use comments_service.Application.InMemory.Outcome.{create_comment-Created, set_enabled-ok}
use comments_service.Application.InMemory.Threads.{stored}
use comments_service.Application.InMemory.Reach.{IsSound, next_id_free}

module _ {E : Type 0} ⦃uuid : UuidText⦄ (publish : Option (CommentAddedEvent → E → E)) where
  -- A post that is switched off takes no comment.
  pub create_comment-disabled :
      (input : CreateCommentInput) (w : World E) (p : Post)
      → get w.store.posts input.post_id ≡ some p
      → p.comments_enabled ≡ false
      → create_comment (comments_service_of publish) input w ≡ (err comments_disabled, w)
  unfolding create_comment within_tx Posts.get_by_id get ascii
  create_comment-disabled input w p found off = rw (found, off) refl

  -- In a sound world, once SetCommentsEnabled has switched a post off, CreateComment refuses every comment
  -- on it and changes nothing.
  pub create_comment_after_disabling :
      (off : SetCommentsEnabledInput) (w : World E) (p : Post) (w' : World E)
      → IsSound w
      → off.enabled ≡ false
      → set_enabled posts_service off w ≡ (ok p, w')
      → (input : CreateCommentInput) → input.post_id ≡ off.post_id
      → create_comment (comments_service_of publish) input w' ≡ (err comments_disabled, w')
  create_comment_after_disabling off w p w' sound disable h input same =
      let (old, found, _, change, written) = set_enabled-ok off w p w' h in
      let key : p.id ≡ off.post_id =
        rw change
          (get-Entries _ w.store.posts off.post_id old sound.threaded.keyed.posts_keyed found) in
      let there : get w'.store.posts input.post_id ≡ some p =
        rw (ap (λ (x : World E). x.store.posts) written, same, ← key)
          (stored w.store.posts p.id p) in
      create_comment-disabled input w' p there (rw change disable)

  -- The comment that CreateComment returns is what GetComment returns for its identifier next.
  pub get_comment-create_comment :
      (input : CreateCommentInput) (w : World E) (c : Comment) (w' : World E)
      → create_comment (comments_service_of publish) input w ≡ (ok c, w')
      → get_comment (comments_service_of publish) c.id w' ≡ (ok c, w')
  unfolding get_comment Comments.get_by_id
  get_comment-create_comment input w c w' h =
      let there : get w'.store.comments c.id ≡ some c =
        rw
          (ap (λ (x : World E). x.store.comments)
            (create_comment-Created publish input w c w' h).written)
          (stored w.store.comments c.id c) in
      rw (get_comment, Comments.get_by_id, there) refl

-- A value under a free key is one more value.
length-filter-put :
    {V : Type 0} (p : V → Bool) (m : Map V) (k : ℕ) (v : V)
    → get m k ≡ none
    → length (filter p (values (put m k v))) ≡ (if p v then 1 else 0) + length (filter p (values m))
unfolding get put values
length-filter-put p [] k v free = ground arith
length-filter-put p ((j, x) ∷ m) k v free = elim (Bool-cases (j == k)) [
  | inl same ↦ absurd (ground arith)
  | inr other ↦ elim (Bool-cases (p x)) [
    | inl e ↦ rw (other, e, length-filter-put p m k v (rw other at free)) (omega arith)
    | inr e ↦ rw (other, e) (length-filter-put p m k v (rw other at free))
  ]
]

-- What a new comment adds to the answer of a count that only looks at the comments.
count-put :
    (p : Comment → Bool) (s : Store) (c : Comment)
    → get s.comments c.id ≡ none
    → length (comments_by_predicate p (record s { comments = put s.comments c.id c }))
      ≡ (if p c then 1 else 0) + length (comments_by_predicate p s)
unfolding comments_by_predicate filter_comments
count-put p s c free = length-filter-put p s.comments c.id c free

module _ {E : Type 0} ⦃uuid : UuidText⦄ (publish : Option (CommentAddedEvent → E → E))
    (input : CreateCommentInput) (w : World E) (c : Comment) (w' : World E) where
  -- In a sound world, a comment that CreateComment returns adds one to what
  -- the repository counts of top-level comments of its post, if it has no parent, and one to what it
  -- counts of replies to its parent, if it has one; every other count stays as it was.
  pub counts-create_comment :
      IsSound w
      → create_comment (comments_service_of publish) input w ≡ (ok c, w')
      → (id : ℕ)
      → (count_top_level id w'.store
          ≡ map_ok (λ n. (if is_top_level_of id c then 1 else 0) + n) (count_top_level id w.store))
        × (count_replies id w'.store
            ≡ map_ok (λ n. (if is_reply_to id c then 1 else 0) + n) (count_replies id w.store))
  unfolding count_top_level count_replies
  counts-create_comment sound h id =
      let m = create_comment-Created publish input w c w' h in
      let drawn : c.id ≡ w.ids w.drawn = ap (λ (x : Comment). x.id) m.fields in
      let free = rw (← drawn) at (next_id_free w sound) in
      rw m.written (
        ap ok (count-put (is_top_level_of id) w.store c free),
        ap ok (count-put (is_reply_to id) w.store c free),
      )
