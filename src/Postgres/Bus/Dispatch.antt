-- ===== src/Postgres/Bus/Dispatch.antt =====
-- dispatch of events/postgres/bus.go, alone and beside an unsubscription.
use comments_service.Prelude.{
  ℕ, ◌≡◌, refl, ◌∙◌, Option, none, some, List, [], ◌∷◌, ◌++◌, map, Option-cases, inl, inr, arith,
}
use comments_service.Go.Map.{get, put}
use comments_service.Application.Services.{CommentAddedEvent}
use comments_service.Events.{
  Bus, Channels, send_to, deliver, publish_comment_added, targets, remove,
}
use comments_service.Events.Consistent.{address}
use comments_service.Events.Delivery.{publish-interrupted}
use comments_service.Events.Calls.{Call, run_call, run_calls}
use comments_service.Events.Calls as Calls
use comments_service.Postgres.Bus.{Other, subscribing, removing, run_others, send_all, dispatch}

abbrev with_channels : Bus → Option Channels → Option Bus
with_channels b none = none
with_channels b (some channels) = some (record b { channels = channels })

-- Sends that nobody disturbs are those of the memory bus.
send_all-deliver :
    (addresses : List ℕ) (event : CommentAddedEvent) (b : Bus)
    → send_all addresses event [] b ≡ with_channels b (deliver addresses event b.channels)
unfolding send_all deliver run_others
send_all-deliver [] event b = refl
send_all-deliver (a ∷ addresses) event b = elim (Option-cases (send_to event (get b.channels a))) [
  | inl panics ↦ rw (send_all, deliver, panics) refl
  | inr (ch, sent) ↦
      rw (send_all, deliver, sent)
        (send_all-deliver addresses event (record b { channels = put b.channels a ch }))
]

pub dispatch-publish :
    (event : CommentAddedEvent) (b : Bus) → dispatch event [] b ≡ publish_comment_added event b
unfolding dispatch publish_comment_added
dispatch-publish event b =
    elim (Option-cases (deliver (targets b event.post_id) event b.channels)) [
      | inl panics ↦
          rw
            (
              dispatch,
              send_all-deliver (targets b event.post_id) event b,
              publish_comment_added,
              panics,
            )
            refl
      | inr (channels, sent) ↦
          rw
            (
              dispatch,
              send_all-deliver (targets b event.post_id) event b,
              publish_comment_added,
              sent,
            )
            refl
    ]

-- What others do, as calls of the bus.
abbrev pub call_of : Other → Call
call_of (subscribing post_id) = Calls.subscribing post_id
call_of (removing post_id id) = Calls.removing post_id id

pub run_others-run_calls :
    (others : List Other) (calls : List Call) (b : Bus)
    → run_calls (map call_of others ++ calls) b
      ≡ elim (run_others others b) [ none ↦ none | some met ↦ run_calls calls met ]
unfolding run_others run_calls run_call
run_others-run_calls [] calls b = refl
run_others-run_calls (subscribing post_id ∷ others) calls b = run_others-run_calls others calls _
run_others-run_calls (removing post_id id ∷ others) calls b =
    elim (Option-cases (remove post_id id b)) [
      | inl panics ↦ rw (run_calls, run_call, run_others, panics) refl
      | inr (left, run) ↦
          rw (run_calls, run_call, run_others, run) (run_others-run_calls others calls left)
    ]

removed_first :
    (addresses : List ℕ) (event : CommentAddedEvent) (others : List Other) (b b' : Bus)
    → run_others others b ≡ some b'
    → deliver addresses event b'.channels ≡ none
    → send_all addresses event (others ∷ []) b ≡ none
unfolding send_all deliver run_others
removed_first [] event others b b' run panics = absurd (ground arith)
removed_first (a ∷ addresses) event others b b' run panics =
    let same : send_all (a ∷ addresses) event (others ∷ []) b
        ≡ send_all (a ∷ addresses) event [] b' =
      rw (send_all, run, run_others) refl in
    same ∙ send_all-deliver (a ∷ addresses) event b' ∙ rw panics refl

-- If one of the subscribers of the post is unsubscribed after dispatch has released the lock and before
-- its first send, dispatch panics: it sends on a closed channel.
pub dispatch-interrupted :
    (b b' : Bus) (event : CommentAddedEvent) (id a : ℕ)
    → address b event.post_id id ≡ some a
    → remove event.post_id id b ≡ some b'
    → dispatch event ((removing event.post_id id ∷ []) ∷ []) b ≡ none
unfolding dispatch run_others
dispatch-interrupted b b' event id a there removed =
    removed_first (targets b event.post_id) event (removing event.post_id id ∷ []) b b'
      (rw (run_others, removed) refl) (publish-interrupted b b' event id a there removed)
