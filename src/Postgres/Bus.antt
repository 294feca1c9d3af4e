-- ===== src/Postgres/Bus.antt =====
-- internal/adapters/events/postgres/bus.go. The subscribers and their channels are those of the memory
-- bus, whose Subscribe and loops of Close stand there with the same text; a panic is `none`. The log is left out.
pub mod Dispatch
pub mod Listening
pub mod Closing
use comments_service.Prelude.{
  ℕ, map, ◌<◌, ◌≡◌, Bool, true, false, not, ◌&&◌, Option, none, some, List, [], ◌∷◌, All,
  if◌then◌else◌,
}
use comments_service.Prelude.Int.{ℤ}
use comments_service.Go.Text.{Text, ascii}
use comments_service.Go.Map.{get, put}
use comments_service.Domain.Errors.{Error, operation, Result, ok, err, ◌>>=◌}
use comments_service.Domain.Ids.{
  PostId, UuidText, id_text, parse_post_id, parse_comment_id, parse_user_id,
}
use comments_service.Application.Services.{CommentAddedEvent}
use comments_service.Events
use comments_service.Events.{Bus, Subscription, new_bus, targets, send_to, remove, close_posts}
use comments_service.Postgres.Posts.{wrapped}

pub record Payload : Type 0 where
  pub event_type : Text
  pub post_id : Text
  pub comment_id : Text
  pub author_id : Text

abbrev pub IsAscii : Payload → Type 0
IsAscii p =
    All (λ b. b < 128) p.event_type
    × All (λ b. b < 128) p.post_id
    × All (λ b. b < 128) p.comment_id
    × All (λ b. b < 128) p.author_id

-- The package encoding/json at the type payload: Unmarshal reads back what Marshal writes of ASCII.
pub record PayloadJson : Type 0 where
  pub marshal : Payload → Result Text
  pub unmarshal : Text → Result Payload
  pub unmarshal-marshal :
      (p : Payload) (t : Text) → IsAscii p → marshal p ≡ ok t → unmarshal t ≡ ok p

-- What WaitForNotification returns: a notification's payload, an error of a context that is done, or
-- another error.
pub data Waited : Type 0 where
  notified : Text → Waited
  stopped : Waited
  failed : Error → Waited

-- New, with what pgx.Connect and the statement `listen` return, and whether the listener is closed again.
unfoldable pub new : Result (Unit {0}) → Result (Unit {0}) → ℤ → Result Bus × Bool
new (err e) listened buffer_size =
    (err (operation (ascii "connect postgres event listener") e), false)
new (ok connected) (err e) buffer_size =
    (err (operation (ascii "listen for postgres comment events") e), true)
new (ok connected) (ok listened) buffer_size = (ok (new_bus buffer_size), false)

unfoldable pub subscribe : PostId → Bus → Result Subscription × Bus
subscribe post_id b = Events.subscribe post_id b

-- The function that `once` runs in unsubscribe is `remove`.
unfoldable pub unsubscribe : Subscription → Bus → Option (Subscription × Bus)
unsubscribe s b = Events.unsubscribe s b

-- What other goroutines do on the bus while the listener runs: calls that take the lock.
pub data Other : Type 0 where
  subscribing : PostId → Other
  removing : PostId → ℕ → Other

unfoldable pub run_others : List Other → Bus → Option Bus
run_others [] b = some b
run_others (subscribing post_id ∷ others) b = run_others others (Events.subscribe post_id b).1
run_others (removing post_id id ∷ others) b = elim (remove post_id id b) [
  | none ↦ none
  | some left ↦ run_others others left
]

-- What is done before the next send, and before those that follow it.
abbrev pub first_others : List (List Other) → List Other
first_others [] = []
first_others (others ∷ during) = others

abbrev pub later_others : List (List Other) → List (List Other)
later_others [] = []
later_others (others ∷ during) = during

-- The loop of dispatch, without the lock: `during` is what others do before each send.
unfoldable pub send_all : List ℕ → CommentAddedEvent → List (List Other) → Bus → Option Bus
unfolding run_others
send_all [] event during b = some b
send_all (a ∷ addresses) event during b = elim (run_others (first_others during) b) [
  | none ↦ none
  | some met ↦ elim (send_to event (get met.channels a)) [
    | none ↦ none
    | some ch ↦
        send_all addresses event (later_others during)
          (record met { channels = put met.channels a ch })
  ]
]

-- The subscribers of the post are read under the lock, which is released before the sends.
unfoldable pub dispatch : CommentAddedEvent → List (List Other) → Bus → Option Bus
unfolding send_all
dispatch event during b = send_all (targets b event.post_id) event during b

-- One turn of the listener's loop: what others do while it waits, what the wait returns, and what others
-- do before each send of dispatch.
pub record Turn : Type 0 where
  pub meanwhile : List Other
  pub waited : Waited
  pub during : List (List Other)

-- A turn during which nobody else uses the bus.
abbrev pub quiet : Waited → Turn
quiet waited = record { meanwhile = []; waited = waited; during = [] }

-- The loops at the end of Close.
unfoldable pub close_subscribers : Bus → Option (Result (Unit {0}) × Bus)
close_subscribers b = elim (close_posts b.subscribers b) [
  | none ↦ none
  | some emptied ↦ some (ok tt, emptied)
]

-- The last part of Close, with what listener.Close returns.
unfoldable pub finish_close :
    (Error → Bool) → Result (Unit {0}) → Bus → Option (Result (Unit {0}) × Bus)
unfolding close_subscribers
finish_close is_canceled (ok done) b = close_subscribers b
finish_close is_canceled (err e) b =
    if is_canceled e
    then close_subscribers b
    else some (err (operation (ascii "close postgres event listener") e), b)

module _ ⦃uuid : UuidText⦄ where
  unfoldable pub payload_of : CommentAddedEvent → Payload
  payload_of event = record {
    event_type = ascii "comment_added";
    post_id = id_text event.post_id;
    comment_id = id_text event.comment_id;
    author_id = id_text event.author_id;
  }

  module _ ⦃json : PayloadJson⦄ where
    -- PublishCommentAdded, where `notify` is the statement `select pg_notify($1, $2)`.
    unfoldable pub publish :
        {W : Type 0} → (Text → Text → W → Result (Unit {0}) × W) → Text → CommentAddedEvent → W → W
    unfolding payload_of
    publish notify channel_name event w = elim (json.marshal (payload_of event)) [
      | err e ↦ w
      | ok body ↦ (notify channel_name body w).1
    ]

    unfoldable pub decode_payload : Text → Result CommentAddedEvent
    decode_payload raw =
        wrapped (ascii "decode postgres comment event payload") (json.unmarshal raw) >>= λ body.
        parse_post_id body.post_id >>= λ post_id. parse_comment_id body.comment_id >>= λ comment_id.
        parse_user_id body.author_id >>= λ author_id.
        ok (record { post_id = post_id; comment_id = comment_id; author_id = author_id })

    -- The loop, over its turns. The Boolean says that it has ended.
    unfoldable pub listen : List Turn → Bus → Option (Bus × Bool)
    unfolding dispatch run_others
    listen [] b = some (b, false)
    listen (turn ∷ turns) b = elim (run_others turn.meanwhile b) [
      | none ↦ none
      | some met ↦ elim turn.waited [
        | stopped ↦ some (met, true)
        | failed e ↦ listen turns met
        | notified raw ↦ elim (decode_payload raw) [
          | err e ↦ listen turns met
          | ok event ↦ elim (dispatch event turn.during met) [
            | none ↦ none
            | some left ↦ listen turns left
          ]
        ]
      ]
    ]

    -- Close, where the loop meets `waits` before it ends, and nobody else uses the bus meanwhile.
    unfoldable pub close :
        (Error → Bool) → List Waited → Result (Unit {0}) → Bus → Option (Result (Unit {0}) × Bus)
    unfolding listen finish_close
    close is_canceled waits closing b =
        if b.closed
        then some (ok tt, b)
        else elim (listen (map quiet waits) (record b { closed = true })) [
          | none ↦ none
          | some left ↦ finish_close is_canceled closing left.0
        ]
