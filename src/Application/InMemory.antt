-- ===== src/Application/InMemory.antt =====
-- The services over the memory adapter, as internal/di/container.go wires them for the backend
-- "memory": the repositories and the TxManager of internal/adapters/storage/memory.
pub mod Outcome
pub mod Threads
pub mod Reach
pub mod Behaviour
use comments_service.Prelude.{ℕ, ◌+◌, Option, none, some}
use comments_service.Go.Time.{Time}
use comments_service.Domain.Errors.{Result, ok, err}
use comments_service.Domain.Ids.{Uuid, UuidText}
use comments_service.Memory.Store.{Store}
use comments_service.Memory.Posts
use comments_service.Memory.Comments
use comments_service.Application.Tx.{InTx, within_tx}
use comments_service.Application.Services.{
  TxManager, PostRepository, CommentRepository, CommentAddedEvent, CommentEventPublisher,
  PostsService, CommentsService,
}

-- The store, the state `E` of whatever takes the events, and what is left of the sources of
-- identifiers (uuid.New) and of times (time.Now), of which `drawn` and `ticks` have been used.
pub record World (E : Type 0) : Type 0 where
  pub store : Store
  pub events : E
  pub ids : ℕ → Uuid
  pub drawn : ℕ
  pub times : ℕ → Time
  pub ticks : ℕ

module _ {E : Type 0} where
  -- A method that only reads the store.
  abbrev reads : {A : Type 0} → (Store → Result A) → World E → Result A × World E
  reads f w = (f w.store, w)

  abbrev writes : {A : Type 0} → (Store → Result A × Store) → World E → Result A × World E
  writes f w = let (r, s) = f w.store in (r, record w { store = s })

  abbrev pub new_id : World E → Uuid × World E
  new_id w = (w.ids w.drawn, record w { drawn = w.drawn + 1 })

  abbrev pub now : World E → Time × World E
  now w = (w.times w.ticks, record w { ticks = w.ticks + 1 })

  abbrev pub memory_tx : TxManager (World E)
  memory_tx = record { within_tx = λ A fn w. within_tx fn w }

  abbrev pub publisher : (CommentAddedEvent → E → E) → CommentEventPublisher (World E)
  publisher publish = record {
    publish_comment_added = λ event w. record w { events = publish event w.events };
  }

module _ {E : Type 0} ⦃uuid : UuidText⦄ where
  abbrev pub memory_posts : PostRepository (World E)
  memory_posts = record {
    create = λ post. writes (Posts.create post);
    get_by_id = λ id. reads (Posts.get_by_id id);
    list = λ page. reads (Posts.list page);
    count = reads Posts.count;
    update = λ post. writes (Posts.update post);
  }

  abbrev pub memory_comments : CommentRepository (World E)
  memory_comments = record {
    create = λ comment. writes (Comments.create comment);
    get_by_id = λ id. reads (Comments.get_by_id id);
    list_top_level = λ id page. reads (Comments.list_top_level id page);
    list_replies = λ id page. reads (Comments.list_replies id page);
    count_top_level = λ id. reads (Comments.count_top_level id);
    count_replies = λ id. reads (Comments.count_replies id);
    batch_list_top_level = λ ids page. reads (Comments.batch_list_top_level ids page);
    batch_list_replies = λ ids page. reads (Comments.batch_list_replies ids page);
    batch_count_top_level = λ ids. reads (Comments.batch_count_top_level ids);
    batch_count_replies = λ ids. reads (Comments.batch_count_replies ids);
  }

  abbrev pub posts_service : PostsService (World E)
  posts_service = record {
    post_repo = memory_posts;
    tx_manager = memory_tx;
    new_id = new_id;
    now = now;
  }

  abbrev pub comments_service_of : Option (CommentAddedEvent → E → E) → CommentsService (World E)
  comments_service_of publish = record {
    post_repo = memory_posts;
    comment_repo = memory_comments;
    tx_manager = memory_tx;
    new_id = new_id;
    now = now;
    events = elim publish [ none ↦ none | some f ↦ some (publisher f) ];
  }
