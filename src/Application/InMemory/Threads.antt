-- ===== src/Application/InMemory/Threads.antt =====
-- The invariant of the stored data: threads of replies under posts, kept by every operation.
use comments_service.Prelude.{
  ℕ, ◌≡◌, ◌⊎◌, refl, Option-cases, inl, inr, none, some, arith, ◌==◌, Bool-cases,
}
use comments_service.Go.Map.{Map, get, put}
use comments_service.Go.Map.Laws.{get-put, put-IsDistinct, put-Entries}
use comments_service.Domain.Ids.{CommentId}
use comments_service.Domain.Post.{Post}
use comments_service.Domain.Post.Valid as ValidPost
use comments_service.Domain.Comment.{Comment}
use comments_service.Domain.Comment.Valid as ValidComment
use comments_service.Memory.Store.{Store}
use comments_service.Memory.WellFormed.{IsWellFormed}
use comments_service.Application.InMemory.Outcome.{ParentIn}

-- The comment is stored, and the parents from it on end in a top-level comment; all of them stand
-- under the one post.
pub data Rooted (comments : Map Comment) (post_id : ℕ) : CommentId → Type 0 where
  top :
      {k : CommentId} (c : Comment)
      → get comments k ≡ some c
      → c.post_id ≡ post_id
      → c.parent_id ≡ none
      → Rooted comments post_id k
  reply :
      {k : CommentId} (c : Comment) (parent : CommentId)
      → get comments k ≡ some c
      → c.post_id ≡ post_id
      → c.parent_id ≡ some parent
      → Rooted comments post_id parent
      → Rooted comments post_id k

pub record IsThreaded (s : Store) : Type 0 where
  pub keyed : IsWellFormed s
  pub posts_valid : (k : ℕ) (p : Post) → get s.posts k ≡ some p → ValidPost.IsValid p
  pub comments_valid : (k : ℕ) (c : Comment) → get s.comments k ≡ some c → ValidComment.IsValid c
  pub posted :
      (k : ℕ) (c : Comment)
      → get s.comments k ≡ some c
      → (p : Post) × (get s.posts c.post_id ≡ some p)
  pub rooted : (k : ℕ) (c : Comment) → get s.comments k ≡ some c → Rooted s.comments c.post_id k

-- What is stored stays, when something is put under a key that was free.
pub stays :
    {V : Type 0} (m : Map V) (n : ℕ) (new : V) (k : ℕ) (v : V)
    → get m n ≡ none
    → get m k ≡ some v
    → get (put m n new) k ≡ some v
stays m n new k v fresh found = ground (arith, get-put m n k new)

pub stored : {V : Type 0} (m : Map V) (n : ℕ) (new : V) → get (put m n new) n ≡ some new
stored m n new = ground (arith, get-put m n n new)

-- A new comment leaves the threads that are there.
put-Rooted :
    (comments : Map Comment) (post_id : ℕ) (n : CommentId) (new : Comment) (k : CommentId)
    → get comments n ≡ none
    → Rooted comments post_id k
    → Rooted (put comments n new) post_id k
put-Rooted comments post_id n new k fresh (top c found same end) =
    top c (stays comments n new k c fresh found) same end
put-Rooted comments post_id n new k fresh (reply c parent found same up r) =
    reply c parent (stays comments n new k c fresh found) same up
      (put-Rooted comments post_id n new parent fresh r)

-- What is stored after a `put` is what was put, or was stored before.
pub put_cases :
    {V : Type 0} (m : Map V) (n : ℕ) (new : V) (k : ℕ) (v : V)
    → get (put m n new) k ≡ some v
    → ((n ≡ k) × (v ≡ new)) ⊎ (get m k ≡ some v)
put_cases m n new k v found = elim (Bool-cases (n == k)) [
  | inl same ↦ inl (ground arith, ground (arith, get-put m n k new))
  | inr other ↦ inr (ground (arith, get-put m n k new))
]

has_post :
    {V : Type 0} (m : Map V) (n : ℕ) (new : V) (k : ℕ) (v : V)
    → get m k ≡ some v
    → (w : V) × (get (put m n new) k ≡ some w)
has_post m n new k v found = elim (Bool-cases (n == k)) [
  | inl same ↦ (new, ground (arith, get-put m n k new))
  | inr other ↦ (v, ground (arith, get-put m n k new))
]

-- The new comment is rooted, by its parent if it has one.
new_root :
    (s : Store) (c : Comment)
    → get s.comments c.id ≡ none
    → ParentIn s.comments c
    → ((k : ℕ) (d : Comment) → get s.comments k ≡ some d → Rooted s.comments d.post_id k)
    → Rooted (put s.comments c.id c) c.post_id c.id
new_root s c fresh parent rooted = elim (Option-cases c.parent_id) [
  | inl none_named ↦ top c (stored s.comments c.id c) refl none_named
  | inr (id, named) ↦
      let (q, found, same) = parent id named in
      reply c id (stored s.comments c.id c) refl named
        (put-Rooted s.comments c.post_id c.id c id fresh (rw same at (rooted id q found)))
]

-- A valid post may be put under its own identifier, new or old.
pub put_post-IsThreaded :
    (s : Store) (p : Post)
    → ValidPost.IsValid p
    → IsThreaded s
    → IsThreaded (record s { posts = put s.posts p.id p })
put_post-IsThreaded s p v t = record {
  keyed = record {
    posts_distinct = put-IsDistinct s.posts p.id p t.keyed.posts_distinct;
    posts_keyed = put-Entries _ s.posts p.id p refl t.keyed.posts_keyed;
    comments_distinct = t.keyed.comments_distinct;
    comments_keyed = t.keyed.comments_keyed;
  };
  posts_valid = λ k q found. elim (put_cases s.posts p.id p k q found) [
    | inl (_, e) ↦ rw e v
    | inr old ↦ t.posts_valid k q old
  ];
  comments_valid = t.comments_valid;
  posted =
      λ k c found. let (q, there) = t.posted k c found in has_post s.posts p.id p c.post_id q there;
  rooted = t.rooted;
}

-- So may a valid comment under a free identifier, whose post is stored, and whose parent, if it has
-- one, is stored under the same post.
pub put_comment-IsThreaded :
    (s : Store) (c : Comment) (p : Post)
    → ValidComment.IsValid c
    → get s.comments c.id ≡ none
    → get s.posts c.post_id ≡ some p
    → ParentIn s.comments c
    → IsThreaded s
    → IsThreaded (record s { comments = put s.comments c.id c })
put_comment-IsThreaded s c p v fresh post parent t = record {
  keyed = record {
    posts_distinct = t.keyed.posts_distinct;
    posts_keyed = t.keyed.posts_keyed;
    comments_distinct = put-IsDistinct s.comments c.id c t.keyed.comments_distinct;
    comments_keyed = put-Entries _ s.comments c.id c refl t.keyed.comments_keyed;
  };
  posts_valid = t.posts_valid;
  comments_valid = λ k d found. elim (put_cases s.comments c.id c k d found) [
    | inl (_, e) ↦ rw e v
    | inr old ↦ t.comments_valid k d old
  ];
  posted = λ k d found. elim (put_cases s.comments c.id c k d found) [
    | inl (_, e) ↦ rw e (p, post)
    | inr old ↦ t.posted k d old
  ];
  rooted = λ k d found. elim (put_cases s.comments c.id c k d found) [
    | inl (same, e) ↦ rw (e, ← same) (new_root s c fresh parent t.rooted)
    | inr old ↦ put-Rooted s.comments d.post_id c.id c k fresh (t.rooted k d old)
  ];
}
