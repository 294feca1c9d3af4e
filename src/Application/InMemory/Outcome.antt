-- ===== src/Application/InMemory/Outcome.antt =====
-- What the writing operations of the services do to the world, on every branch.
use comments_service.Prelude.{
  ◌+◌, ◌≡◌, ap, sym, ◌∙◌, true, Option-cases, inl, inr, Option, none, some, arith,
}
use comments_service.Go.Map.{Map, get, put}
use comments_service.Go.Time.{utc}
use comments_service.Domain.Errors.{Error, ok, err}
use comments_service.Domain.Ids.{CommentId, UuidText}
use comments_service.Domain.Post.{Post, new_post, set_comments_enabled}
use comments_service.Domain.Comment.{Comment, new_comment}
use comments_service.Domain.Comment.Valid.{IsValid, new_comment-IsValid, new_comment-fields}
use comments_service.Memory.Posts
use comments_service.Memory.Comments
use comments_service.Application.Tx.{within_tx}
use comments_service.Application.Services.{CommentAddedEvent}
use comments_service.Application.Posts.{
  CreatePostInput, SetCommentsEnabledInput, create_post, set_enabled,
}
use comments_service.Application.Comments.{CreateCommentInput, create_comment, added_event}
use comments_service.Application.InMemory.{World, posts_service, comments_service_of}

abbrev pub announced : {E : Type 0} → Option (CommentAddedEvent → E → E) → Comment → E → E
announced none comment e = e
announced (some publish) comment e = publish (added_event comment) e

module _ {E : Type 0} ⦃uuid : UuidText⦄ (publish : Option (CommentAddedEvent → E → E))
    (input : CreateCommentInput) (w : World E) where
  -- CreateComment that returns an error has written nothing and announced nothing.
  pub create_comment-atomic :
      (e : Error) (w' : World E)
      → create_comment (comments_service_of publish) input w ≡ (err e, w')
      → (w'.store ≡ w.store) × (w'.events ≡ w.events)
  unfolding create_comment within_tx Posts.get_by_id Comments.get_by_id Comments.create
  create_comment-atomic e w' h = ground arith

module _ {E : Type 0} ⦃uuid : UuidText⦄ (publish : Option (CommentAddedEvent → E → E))
    (input : CreateCommentInput) (w : World E) (c : Comment) (w' : World E)
    (h : create_comment (comments_service_of publish) input w ≡ (ok c, w')) where
  -- The post was there, and open.
  open_post : (p : Post) × (get w.store.posts input.post_id ≡ some p) × (p.comments_enabled ≡ true)
  unfolding create_comment within_tx Posts.get_by_id
  open_post = elim (Option-cases (get w.store.posts input.post_id)) [
    | inl missing ↦ absurd (ground arith)
    | inr (p, found) ↦ (p, found, ground arith)
  ]

  made :
      new_comment
        (w.ids w.drawn)
        input.post_id
        input.parent_id
        input.author_id
        input.body
        (w.times w.ticks)
      ≡ ok c
  unfolding create_comment within_tx Posts.get_by_id Comments.get_by_id Comments.create
  made = ground arith

  written : w' ≡ record w {
    store = record w.store { comments = put w.store.comments c.id c };
    events = announced publish c w.events;
    drawn = w.drawn + 1;
    ticks = w.ticks + 1;
  }
  unfolding create_comment within_tx Posts.get_by_id Comments.get_by_id Comments.create
  written = ground arith

parent_ok :
    {E : Type 0} ⦃uuid : UuidText⦄ (publish : Option (CommentAddedEvent → E → E))
    (input : CreateCommentInput) (w : World E) (c : Comment) (w' : World E)
    → create_comment (comments_service_of publish) input w ≡ (ok c, w')
    → (id : CommentId) → input.parent_id ≡ some id
    → (p : Comment) × (get w.store.comments id ≡ some p) × (p.post_id ≡ input.post_id)
unfolding create_comment within_tx Posts.get_by_id Comments.get_by_id Comments.create
parent_ok publish input w c w' h id e = elim (Option-cases (get w.store.comments id)) [
  | inl missing ↦ absurd (ground arith)
  | inr (p, found) ↦ (p, found, ground arith)
]

-- The parent that a comment names, if it names one, is stored and stands under the same post.
abbrev pub ParentIn : Map Comment → Comment → Type 0
ParentIn comments c =
    (id : CommentId)
    → c.parent_id ≡ some id
    → (p : Comment) × (get comments id ≡ some p) × (p.post_id ≡ c.post_id)

-- What CreateComment has done when it returns `c`.
pub record Created {E : Type 0} (publish : Option (CommentAddedEvent → E → E))
    (input : CreateCommentInput) (w : World E) (c : Comment) (w' : World E) : Type 0 where
  pub written : w' ≡ record w {
    store = record w.store { comments = put w.store.comments c.id c };
    events = announced publish c w.events;
    drawn = w.drawn + 1;
    ticks = w.ticks + 1;
  }
  pub fields : c ≡ record {
    id = w.ids w.drawn;
    post_id = input.post_id;
    parent_id = input.parent_id;
    author_id = input.author_id;
    body = input.body;
    created_at = utc (w.times w.ticks);
  }
  pub valid : IsValid c
  pub open_post :
      (p : Post) × (get w.store.posts input.post_id ≡ some p) × (p.comments_enabled ≡ true)
  pub parent : ParentIn w.store.comments c

module _ {E : Type 0} ⦃uuid : UuidText⦄ (publish : Option (CommentAddedEvent → E → E))
    (input : CreateCommentInput) (w : World E) (c : Comment) (w' : World E)
    (h : create_comment (comments_service_of publish) input w ≡ (ok c, w')) where
  -- When CreateComment returns a comment, the post is stored and open, a parent that is named is stored
  -- under the same post, the comment is valid and has the input's fields, the drawn identifier and the
  -- drawn time, and exactly this comment has been stored, and announced if there is a publisher.
  pub create_comment-Created : Created publish input w c w'
  create_comment-Created =
      let new = made publish input w c w' h in
      let fields = new_comment-fields _ _ _ _ _ _ c new in
      record {
        written = written publish input w c w' h;
        fields = fields;
        valid = new_comment-IsValid _ _ _ _ _ _ c new;
        open_post = open_post publish input w c w' h;
        parent = λ id e.
            let named = ap (λ (x : Comment). x.parent_id) fields in
            let same_post = ap (λ (x : Comment). x.post_id) fields in
            let (p, found, same) = parent_ok publish input w c w' h id (sym named ∙ e) in
            (p, found, same ∙ sym same_post);
      }

module _ {E : Type 0} ⦃uuid : UuidText⦄ (input : SetCommentsEnabledInput) (w : World E) where
  -- SetCommentsEnabled that returns an error has changed nothing.
  pub set_enabled-atomic :
      (e : Error) (w' : World E) → set_enabled posts_service input w ≡ (err e, w') → w' ≡ w
  unfolding set_enabled within_tx set_comments_enabled Posts.get_by_id Posts.update
  set_enabled-atomic e w' h = ground arith

  -- When SetCommentsEnabled returns a post, the acting user is the author of the stored one, the result
  -- differs from it in `comments_enabled` alone, and exactly this result has been stored.
  pub set_enabled-ok :
      (p : Post) (w' : World E)
      → set_enabled posts_service input w ≡ (ok p, w')
      → (old : Post) × (get w.store.posts input.post_id ≡ some old)
        × (old.author_id ≡ input.actor_id)
        × (p ≡ record old { comments_enabled = input.enabled })
        × (w' ≡ record w { store = record w.store { posts = put w.store.posts p.id p } })
  unfolding set_enabled within_tx set_comments_enabled Posts.get_by_id Posts.update
  set_enabled-ok p w' h = elim (Option-cases (get w.store.posts input.post_id)) [
    | inl missing ↦ absurd (ground arith)
    | inr (old, found) ↦ (old, found, ground arith, ground arith, ground arith)
  ]

module _ {E : Type 0} ⦃uuid : UuidText⦄ (input : CreatePostInput) (w : World E) where
  -- CreatePost that returns an error has stored nothing and announced nothing.
  pub create_post-atomic :
      (e : Error) (w' : World E)
      → create_post posts_service input w ≡ (err e, w')
      → (w'.store ≡ w.store) × (w'.events ≡ w.events)
  unfolding create_post within_tx Posts.create
  create_post-atomic e w' h = ground arith

  -- When CreatePost returns a post, it is what NewPost makes of the input, the drawn identifier and the
  -- drawn time, and exactly this post has been stored.
  pub create_post-ok :
      (p : Post) (w' : World E)
      → create_post posts_service input w ≡ (ok p, w')
      → (new_post (w.ids w.drawn) input.author_id input.title input.content (w.times w.ticks)
          ≡ ok p)
        × (w' ≡ record w {
          store = record w.store { posts = put w.store.posts p.id p };
          drawn = w.drawn + 1;
          ticks = w.ticks + 1;
        })
  unfolding create_post within_tx Posts.create
  create_post-ok p w' h = (ground arith, ground arith)
