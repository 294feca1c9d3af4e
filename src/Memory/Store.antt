-- ===== src/Memory/Store.antt =====
-- internal/adapters/storage/memory/store.go. The mutex makes each repository call one step; calls are
-- modelled as functions of the store.
use comments_service.Prelude.{[]}
use comments_service.Go.Map.{Map}
use comments_service.Domain.Post.{Post}
use comments_service.Domain.Comment.{Comment}

pub record Store : Type 0 where
  pub posts : Map Post
  pub comments : Map Comment

abbrev pub new_store : Store
new_store = record { posts = []; comments = [] }
