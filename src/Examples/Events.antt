-- ===== src/Examples/Events.antt =====
-- The theorems of the memory bus on a bus with two subscribers of one post.
use comments_service.Prelude.{
  arith, ℕ, ◌+◌, ◌<◌, ◌^◌, ◌≡◌, refl, true, false, ◌&&◌, none, some, [], ◌∷◌, ◌==◌, if◌then◌else◌,
}
use comments_service.Prelude.Int.{pos}
use comments_service.Go.Map.{get, put, delete}
use comments_service.Go.Channel.{Channel, offered, close_channel}
use comments_service.Domain.Ids.{PostId}
use comments_service.Application.Services.{CommentAddedEvent}
use comments_service.Events.{
  close, Bus, new_bus, subscribe, targets, deliver, publish_comment_added, remove, drop_subscriber,
  close_at,
}
use comments_service.Events.Consistent.{
  IsConsistent, address, new_bus-IsConsistent, subscribe-IsConsistent,
}
use comments_service.Events.Removal.{remove-IsConsistent}
use comments_service.Events.Delivery.{publish-delivers, publish-interrupted}
use comments_service.Events.Closing.{close-closes}
use comments_service.Events.Calls.{
  publishing, subscribing, removing, run_calls, run_calls-IsConsistent,
}

abbrev pub event : CommentAddedEvent
event = record { post_id = 1; comment_id = 5; author_id = 7 }

run_calls-IsConsistent_example :
    (b' : Bus) × (run_calls
        (subscribing 1 ∷ publishing event ∷ removing 1 1 ∷ publishing event ∷ [])
        (new_bus (pos 2))
      ≡ some b')
    × IsConsistent b'
run_calls-IsConsistent_example =
    run_calls-IsConsistent (subscribing 1 ∷ publishing event ∷ removing 1 1 ∷ publishing event ∷ [])
      (new_bus (pos 2)) (omega arith) (new_bus-IsConsistent (pos 2))

abbrev pub one : Bus
one = (subscribe 1 (new_bus (pos 2))).1

-- The bus with two subscribers.
abbrev pub two : Bus
two = (subscribe 1 one).1

one_numbered : one.next_id + 1 < 2 ^ 64
unfolding subscribe
one_numbered = omega arith

pub two-IsConsistent : IsConsistent two
two-IsConsistent =
    subscribe-IsConsistent one 1 one_numbered
      (subscribe-IsConsistent (new_bus (pos 2)) 1 (omega arith) (new_bus-IsConsistent (pos 2)))

pub two_registered : address two 1 1 ≡ some 0
unfolding address get put subscribe
two_registered = refl

publish-delivers_example :
    (b' : Bus) × (publish_comment_added event two ≡ some b')
    × IsConsistent b'
    × ((p : PostId) (i a : ℕ) (ch : Channel CommentAddedEvent)
        → address two p i ≡ some a
        → get two.channels a ≡ some ch
        → get b'.channels a ≡ some (if p == 1 then offered event ch else ch))
publish-delivers_example = publish-delivers two event two-IsConsistent

remove-IsConsistent_example :
    (b' : Bus) × (remove 1 1 two ≡ some b')
    × IsConsistent b'
    × ((q : PostId) (j : ℕ)
        → address b' q j ≡ (if (1 == q) && (1 == j) then none else address two q j))
remove-IsConsistent_example = remove-IsConsistent two 1 1 0 two-IsConsistent two_registered

close-closes_example :
    (b' : Bus) × (close two ≡ some b')
    × (b'.closed ≡ true)
    × (close b' ≡ some b')
    × (b'.subscribers ≡ (if two.closed then two.subscribers else []))
close-closes_example = close-closes two two-IsConsistent

abbrev pub open_channel : Channel CommentAddedEvent
open_channel = record { buffer = []; capacity = 2; closed = false }

-- The second subscriber is left.
abbrev pub left : Bus
left = record {
  subscribers = (1, (2, 1) ∷ []) ∷ [];
  next_id = 2;
  buffer_size = 2;
  closed = false;
  channels = (0, record open_channel { closed = true }) ∷ (1, open_channel) ∷ [];
  made = 2;
}

pub first_leaves : remove 1 1 two ≡ some left
unfolding remove drop_subscriber close_at close_channel subscribe get put delete
first_leaves = refl

publish-interrupted_example : deliver (targets two 1) event left.channels ≡ none
publish-interrupted_example = publish-interrupted two left event 1 0 two_registered first_leaves
