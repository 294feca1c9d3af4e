-- ===== src/Application/InMemory/Reach.antt =====
-- Any sequence of requests: the worlds that the writing operations lead to, and the invariant that
-- holds in all of them.
use comments_service.Prelude.{
  ℕ, ◌<◌, ◌≤◌, ◌≡◌, refl, Bool, ap, sym, ◌∙◌, Option-cases, inl, inr, Option, none, some, arith,
}
use comments_service.Go.Map.{get}
use comments_service.Domain.Errors.{Result, ok, err}
use comments_service.Domain.Ids.{Uuid, UuidText}
use comments_service.Domain.Post.{Post}
use comments_service.Domain.Post.Valid as ValidPost
use comments_service.Domain.Comment.{Comment}
use comments_service.Memory.Store.{Store, new_store}
use comments_service.Memory.Posts
use comments_service.Memory.Comments
use comments_service.Memory.WellFormed.{new_store-IsWellFormed}
use comments_service.Application.Tx.{within_tx}
use comments_service.Application.Services.{CommentAddedEvent}
use comments_service.Application.Posts.{
  CreatePostInput, SetCommentsEnabledInput, create_post, set_enabled,
}
use comments_service.Application.Comments.{CreateCommentInput, create_comment}
use comments_service.Application.InMemory.{World, posts_service, comments_service_of}
use comments_service.Application.InMemory.Outcome.{
  create_comment-Created, create_comment-atomic, create_post-atomic, create_post-ok,
  set_enabled-atomic, set_enabled-ok,
}
use comments_service.Application.InMemory.Threads.{
  IsThreaded, put_cases, put_post-IsThreaded, put_comment-IsThreaded,
}

-- The source of identifiers repeats none, as the random UUIDs of uuid.New do not.
abbrev pub RepeatsNone : (ℕ → Uuid) → Type 0
RepeatsNone ids = (i j : ℕ) → ids i ≡ ids j → i ≡ j

pub record IsSound {E : Type 0} (w : World E) : Type 0 where
  pub threaded : IsThreaded w.store
  pub repeats_none : RepeatsNone w.ids
  -- A stored comment has an identifier that has been drawn.
  pub drawn_ids :
      (k : ℕ) (c : Comment)
      → get w.store.comments k ≡ some c
      → (i : ℕ) × (i < w.drawn) × (k ≡ w.ids i)

module _ {E : Type 0} ⦃uuid : UuidText⦄ (publish : Option (CommentAddedEvent → E → E)) where
  -- One request that may write, whatever it answers.
  pub data Step (w w' : World E) : Type 0 where
    post_created :
        (input : CreatePostInput) (r : Result Post)
        → create_post posts_service input w ≡ (r, w')
        → Step w w'
    enabled_set :
        (input : SetCommentsEnabledInput) (r : Result Post)
        → set_enabled posts_service input w ≡ (r, w')
        → Step w w'
    comment_created :
        (input : CreateCommentInput) (r : Result Comment)
        → create_comment (comments_service_of publish) input w ≡ (r, w')
        → Step w w'

  pub data Reach (w : World E) : World E → Type 0 where
    here : Reach w w
    next : {u v : World E} → Reach w u → Step u v → Reach w v

  -- The sources of identifiers only go forward.
  create_comment_draws :
      (input : CreateCommentInput) (w : World E) (r : Result Comment) (w' : World E)
      → create_comment (comments_service_of publish) input w ≡ (r, w')
      → (w'.ids ≡ w.ids) × (w.drawn ≤ w'.drawn)
  unfolding create_comment within_tx Posts.get_by_id Comments.get_by_id Comments.create
  create_comment_draws input w r w' h = (ground arith, ground arith)

create_post_draws :
    {E : Type 0} ⦃uuid : UuidText⦄ (input : CreatePostInput) (w : World E) (r : Result Post)
    (w' : World E)
    → create_post posts_service input w ≡ (r, w')
    → (w'.ids ≡ w.ids) × (w.drawn ≤ w'.drawn) × (w'.store.comments ≡ w.store.comments)
unfolding create_post within_tx Posts.create
create_post_draws input w r w' h = (ground arith, ground arith, ground arith)

same_but_enabled :
    (old p : Post) (enabled : Bool)
    → p ≡ record old { comments_enabled = enabled }
    → ValidPost.IsValid old
    → ValidPost.IsValid p
same_but_enabled old p enabled e v = ground arith

module _ {E : Type 0} (w w' : World E) (sound : IsSound w) where
  -- An operation that leaves the comments alone.
  still-IsSound :
      IsThreaded w'.store
      → w'.store.comments ≡ w.store.comments
      → w'.ids ≡ w.ids
      → w.drawn ≤ w'.drawn
      → IsSound w'
  still-IsSound threaded same ids forward = record {
    threaded = threaded;
    repeats_none = rw ids sound.repeats_none;
    drawn_ids = λ k c found.
        let (i, below, e) = sound.drawn_ids k c (rw same at found) in (i, omega arith, rw ids e);
  }

-- The next identifier is free.
pub next_id_free :
    {E : Type 0} (w : World E) → IsSound w → get w.store.comments (w.ids w.drawn) ≡ none
next_id_free w sound = elim (Option-cases (get w.store.comments (w.ids w.drawn))) [
  | inl free ↦ free
  | inr (c, found) ↦
      let (i, below, e) = sound.drawn_ids _ c found in
      absurd (omega (arith, sound.repeats_none w.drawn i e))
]

module _ {E : Type 0} ⦃uuid : UuidText⦄ (publish : Option (CommentAddedEvent → E → E)) where
  create_post-IsSound :
      (input : CreatePostInput) (w : World E) (r : Result Post) (w' : World E)
      → create_post posts_service input w ≡ (r, w')
      → IsSound w
      → IsSound w'
  create_post-IsSound input w (err e) w' h sound =
      let (ids, forward, same) = create_post_draws input w (err e) w' h in
      let (store, _) = create_post-atomic input w e w' h in
      still-IsSound w w' sound (rw store sound.threaded) same ids forward
  create_post-IsSound input w (ok p) w' h sound =
      let (ids, forward, same) = create_post_draws input w (ok p) w' h in
      let (new, written) = create_post-ok input w p w' h in
      let valid = ValidPost.new_post-IsValid _ _ _ _ _ p new in
      still-IsSound w w' sound
        (rw (ap (λ (x : World E). x.store) written)
          (put_post-IsThreaded w.store p valid sound.threaded))
        same ids forward

  set_enabled-IsSound :
      (input : SetCommentsEnabledInput) (w : World E) (r : Result Post) (w' : World E)
      → set_enabled posts_service input w ≡ (r, w')
      → IsSound w
      → IsSound w'
  set_enabled-IsSound input w (err e) w' h sound = rw (set_enabled-atomic input w e w' h) sound
  set_enabled-IsSound input w (ok p) w' h sound =
      let (old, found, _, change, written) = set_enabled-ok input w p w' h in
      let valid =
        same_but_enabled old p input.enabled change (sound.threaded.posts_valid _ old found) in
      rw written (
        still-IsSound w _ sound (put_post-IsThreaded w.store p valid sound.threaded) refl refl
          (omega arith))

  create_comment-IsSound :
      (input : CreateCommentInput) (w : World E) (r : Result Comment) (w' : World E)
      → create_comment (comments_service_of publish) input w ≡ (r, w')
      → IsSound w
      → IsSound w'
  create_comment-IsSound input w (err e) w' h sound =
      let (ids, forward) = create_comment_draws publish input w (err e) w' h in
      let (store, _) = create_comment-atomic publish input w e w' h in
      still-IsSound w w' sound (rw store sound.threaded) (ap (λ (x : Store). x.comments) store) ids
        forward
  create_comment-IsSound input w (ok c) w' h sound =
      let m = create_comment-Created publish input w c w' h in
      let (p, found, _) = m.open_post in
      let drawn : c.id ≡ w.ids w.drawn = ap (λ (x : Comment). x.id) m.fields in
      let posted : c.post_id ≡ input.post_id = ap (λ (x : Comment). x.post_id) m.fields in
      let free = rw (← drawn) at (next_id_free w sound) in
      rw m.written (record {
        threaded =
            put_comment-IsThreaded w.store c p m.valid free (rw posted found) m.parent
              sound.threaded;
        repeats_none = sound.repeats_none;
        drawn_ids = λ k d there. elim (put_cases w.store.comments c.id c k d there) [
          | inl (same, _) ↦ (w.drawn, omega arith, sym same ∙ drawn)
          | inr old ↦ let (i, below, e) = sound.drawn_ids k d old in (i, omega arith, e)
        ];
      })

  pub Step-IsSound : {w w' : World E} → Step publish w w' → IsSound w → IsSound w'
  Step-IsSound (post_created input r h) sound = create_post-IsSound input _ r _ h sound
  Step-IsSound (enabled_set input r h) sound = set_enabled-IsSound input _ r _ h sound
  Step-IsSound (comment_created input r h) sound = create_comment-IsSound input _ r _ h sound

  -- From a sound world, any sequence of the writing requests, whatever they answer, leads to a sound
  -- world: identifiers are distinct and are those of the values, every post and comment is valid, every
  -- comment stands under a stored post, and the parents of a reply lead, under the same post, to a
  -- top-level comment. Soundness includes that the source of identifiers repeats none.
  pub Reach-IsSound : {w w' : World E} → Reach publish w w' → IsSound w → IsSound w'
  Reach-IsSound here sound = sound
  Reach-IsSound (next r st) sound = Step-IsSound st (Reach-IsSound r sound)

-- A service that has just started.
pub IsSound-start : {E : Type 0} (w : World E) → w.store ≡ new_store → RepeatsNone w.ids → IsSound w
unfolding get
IsSound-start w empty distinct = record {
  threaded = rw empty (record {
    keyed = new_store-IsWellFormed;
    posts_valid = λ k p found. absurd (ground arith);
    comments_valid = λ k c found. absurd (ground arith);
    posted = λ k c found. absurd (ground arith);
    rooted = λ k c found. absurd (ground arith);
  });
  repeats_none = distinct;
  drawn_ids = λ k c found. absurd (ground arith);
}
