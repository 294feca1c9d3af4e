-- ===== src/Events.antt =====
-- internal/adapters/events/memory/bus.go. A subscriber is the address of its channel; the channels are
-- part of the state. A method that panics gives `none`.
pub mod Targets
pub mod Consistent
pub mod Removal
pub mod Delivery
pub mod Calls
pub mod Closing
use comments_service.Prelude.{
  ℕ, ◌+◌, ◌%◌, ◌^◌, Bool, true, false, Option, none, some, List, [], ◌∷◌, ◌==◌, length,
  if◌then◌else◌,
}
use comments_service.Prelude.Int.{ℤ, pos, leb_ℤ, to_nat}
use comments_service.Go.Text.{ascii}
use comments_service.Go.Map.{Map, get, put, delete, values, or_zero}
use comments_service.Go.Channel.{Channel, make, try_send, close_channel}
use comments_service.Domain.Errors.{Error, conflict, Result, ok, err}
use comments_service.Domain.Ids.{PostId}
use comments_service.Application.Services.{CommentAddedEvent}

abbrev pub Channels : Type 0
Channels = Map (Channel CommentAddedEvent)

-- `channels` are the channels that have been made, at the addresses below `made`.
pub record Bus : Type 0 where
  pub subscribers : Map (Map ℕ)
  pub next_id : ℕ
  pub buffer_size : ℕ
  pub closed : Bool
  pub channels : Channels
  pub made : ℕ

abbrev pub default_buffer_size : ℕ
default_buffer_size = 16

abbrev pub new_bus : ℤ → Bus
new_bus buffer_size = record {
  subscribers = [];
  next_id = 0;
  buffer_size = if leb_ℤ buffer_size (pos 0) then default_buffer_size else to_nat buffer_size;
  closed = false;
  channels = [];
  made = 0;
}

-- The first loop of PublishCommentAdded, which holds the lock.
unfoldable pub targets : Bus → PostId → List ℕ
targets b post_id = values (or_zero [] (get b.subscribers post_id))

-- One turn of the second loop, at a channel that is there or not.
abbrev pub send_to :
    CommentAddedEvent → Option (Channel CommentAddedEvent) → Option (Channel CommentAddedEvent)
send_to event none = none
send_to event (some ch) = try_send event ch

-- The second loop of PublishCommentAdded, which runs without the lock.
unfoldable pub deliver : List ℕ → CommentAddedEvent → Channels → Option Channels
deliver [] event channels = some channels
deliver (a ∷ addresses) event channels = elim (send_to event (get channels a)) [
  | none ↦ none
  | some ch ↦ deliver addresses event (put channels a ch)
]

-- PublishCommentAdded that no other method interrupts.
unfoldable pub publish_comment_added : CommentAddedEvent → Bus → Option Bus
publish_comment_added event b = elim (deliver (targets b event.post_id) event b.channels) [
  | none ↦ none
  | some channels ↦ some (record b { channels = channels })
]

-- What Subscribe returns; `done` says that the sync.Once of its unsubscribe has run.
pub record Subscription : Type 0 where
  pub post_id : PostId
  pub subscriber_id : ℕ
  pub channel : ℕ
  pub done : Bool

abbrev pub bus_closed : Error
bus_closed = conflict (ascii "event bus") (ascii "closed")

unfoldable pub subscribe : PostId → Bus → Result Subscription × Bus
subscribe post_id b =
    let id = (b.next_id + 1) % 2 ^ 64 in
    let subs = or_zero [] (get b.subscribers post_id) in
    if b.closed then (err bus_closed, b) else (
      ok (record { post_id = post_id; subscriber_id = id; channel = b.made; done = false }),
      record b {
        subscribers = put b.subscribers post_id (put subs id b.made);
        next_id = id;
        channels = put b.channels b.made (make b.buffer_size);
        made = b.made + 1;
      },
    )

-- close(subscriber.ch)
unfoldable pub close_at : ℕ → Channels → Option Channels
close_at a channels = elim (get channels a) [
  | none ↦ none
  | some ch ↦ elim (close_channel ch) [ none ↦ none | some shut ↦ some (put channels a shut) ]
]

-- The subscriber is deleted and its channel closed; a post without subscribers is deleted.
unfoldable pub drop_subscriber : PostId → ℕ → Map ℕ → ℕ → Bus → Option Bus
drop_subscriber post_id id subs a b =
    let left = delete subs id in
    elim (close_at a b.channels) [
      | none ↦ none
      | some channels ↦ some (record b {
        subscribers =
            if length left == 0
            then delete b.subscribers post_id
            else put b.subscribers post_id left;
        channels = channels;
      })
    ]

-- The function that `once` runs.
unfoldable pub remove : PostId → ℕ → Bus → Option Bus
remove post_id id b = elim (get b.subscribers post_id) [
  | none ↦ some b
  | some subs ↦ elim (get subs id) [ none ↦ some b | some a ↦ drop_subscriber post_id id subs a b ]
]

unfoldable pub unsubscribe : Subscription → Bus → Option (Subscription × Bus)
unsubscribe s b = if s.done then some (s, b) else elim (remove s.post_id s.subscriber_id b) [
  | none ↦ none
  | some left ↦ some (record s { done = true }, left)
]

-- The loops of Close, over what `range` meets. What the inner loop deletes from the map of a post does
-- not show, since that map is deleted from `subscribers` when the loop ends.
unfoldable pub close_subscribers : Map ℕ → Channels → Option Channels
close_subscribers [] channels = some channels
close_subscribers ((id, a) ∷ subs) channels = elim (close_at a channels) [
  | none ↦ none
  | some rest ↦ close_subscribers subs rest
]

unfoldable pub close_posts : Map (Map ℕ) → Bus → Option Bus
close_posts [] b = some b
close_posts ((post_id, subs) ∷ posts) b = elim (close_subscribers subs b.channels) [
  | none ↦ none
  | some channels ↦
      close_posts posts
        (record b { subscribers = delete b.subscribers post_id; channels = channels })
]

unfoldable pub close : Bus → Option Bus
close b = if b.closed then some b else elim (close_posts b.subscribers b) [
  | none ↦ none
  | some emptied ↦ some (record emptied { closed = true })
]
