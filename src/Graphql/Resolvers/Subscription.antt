-- ===== src/Graphql/Resolvers/Subscription.antt =====
-- internal/adapters/graphql/schema.resolvers.go: CommentAdded, the subscription to new comments. Its
-- goroutine is a function of what it meets in the two selects, one after the other.
use comments_service.Prelude.{◌≡◌, refl, ap, ◌∙◌, Bool, true, false, List, [], ◌∷◌, ◌++◌, map}
use comments_service.Domain.Errors.{Result, ok, err}
use comments_service.Domain.Comment.{Comment}
use comments_service.Application.Services.{CommentsService, CommentAddedEvent}
use comments_service.Application.Comments.{get_comment}
use comments_service.Graphql.Mappers.{CommentModel, new_comment_model}

-- What one round of the loop meets: the context has ended, the channel of events is closed, or there is an
-- event; then, if the comment is loaded, the client takes it, or the context ends first.
pub data Round : Type 0 where
  context_ended : Round
  events_closed : Round
  taken interrupted : CommentAddedEvent → Round

-- What has happened: the comments that were sent, and whether the goroutine has returned, which closes the
-- result and unsubscribes.
pub record Progress : Type 0 where
  pub sent : List CommentModel
  pub returned : Bool

abbrev pub stopped : Progress
stopped = record { sent = []; returned = true }

abbrev pub and_sent : CommentModel → Progress → Progress
and_sent comment p = record p { sent = comment ∷ p.sent }

module _ {W : Type 0} (s : CommentsService W) where
  -- The rest of a round in which a comment was loaded or not; a failed one is logged and passed over.
  abbrev pub on_taken : Result Comment → Progress → Progress
  on_taken (ok comment) later = and_sent (new_comment_model comment) later
  on_taken (err e) later = later

  abbrev pub on_interrupted : Result Comment → Progress → Progress
  on_interrupted (ok comment) later = stopped
  on_interrupted (err e) later = later

  -- The loop of the goroutine, as far as these rounds; the world changes only by the calls of GetComment.
  unfoldable pub comment_added_loop : List Round → W → Progress
  unfolding get_comment new_comment_model
  comment_added_loop [] w = record { sent = []; returned = false }
  comment_added_loop (context_ended ∷ rounds) w = stopped
  comment_added_loop (events_closed ∷ rounds) w = stopped
  comment_added_loop (taken event ∷ rounds) w =
      let (loaded, w') = get_comment s event.comment_id w in
      on_taken loaded (comment_added_loop rounds w')
  comment_added_loop (interrupted event ∷ rounds) w =
      let (loaded, w') = get_comment s event.comment_id w in
      on_interrupted loaded (comment_added_loop rounds w')

  -- CommentAdded, with the answer of Subscribe.
  unfoldable pub comment_added : Result (List Round) → W → Result Progress
  unfolding comment_added_loop
  comment_added (err e) w = err e
  comment_added (ok rounds) w = ok (comment_added_loop rounds w)

  -- The model of a comment that was loaded, in front of others.
  abbrev pub also : Result Comment → List CommentModel → List CommentModel
  also (ok comment) rest = new_comment_model comment ∷ rest
  also (err e) rest = rest

  on_taken-also :
      (loaded : Result Comment) (rest : List CommentModel)
      → on_taken loaded (record { sent = rest; returned = true })
        ≡ record { sent = also loaded rest; returned = true }
  on_taken-also (ok comment) rest = refl
  on_taken-also (err e) rest = refl

  -- The comments that these events load, in order; the others are passed over.
  abbrev pub loads : List CommentAddedEvent → W → List CommentModel
  loads [] w = []
  loads (event ∷ events) w =
      let (loaded, w') = get_comment s event.comment_id w in also loaded (loads events w')

  comment_added_loop-loads :
      (events : List CommentAddedEvent) (rounds : List Round) (w : W)
      → comment_added_loop (map taken events ++ events_closed ∷ rounds) w
        ≡ record { sent = loads events w; returned = true }
  unfolding comment_added_loop
  comment_added_loop-loads [] rounds w = refl
  comment_added_loop-loads (event ∷ events) rounds w =
      let (loaded, w') = get_comment s event.comment_id w in
      ap (on_taken loaded) (comment_added_loop-loads events rounds w')
      ∙ on_taken-also loaded (loads events w')

  -- A subscriber that takes every comment gets the model of each that can be loaded, in the order of the
  -- events, until the channel of events closes, and the goroutine returns then; what cannot be loaded does
  -- not end the subscription.
  pub comment_added-loads :
      (events : List CommentAddedEvent) (rounds : List Round) (w : W)
      → comment_added (ok (map taken events ++ events_closed ∷ rounds)) w
        ≡ ok (record { sent = loads events w; returned = true })
  unfolding comment_added comment_added_loop
  comment_added-loads events rounds w = ap ok (comment_added_loop-loads events rounds w)
