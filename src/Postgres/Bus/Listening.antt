-- ===== src/Postgres/Bus/Listening.antt =====
-- What is published arrives, and what else the listener meets does no harm.
use comments_service.Prelude.{
  ◌+◌, ◌^◌, ◌<◌, ◌≡◌, refl, ◌∙◌, Bool, false, Option, none, length, ◌++◌, Option-cases, inl, inr,
  some, List, [], ◌∷◌, map, All, arith,
}
use comments_service.Go.Text.{Text, ascii}
use comments_service.Domain.Errors.{Error, ok, err}
use comments_service.Domain.Ids.{
  UuidText, id_text, parse_post_id, parse_comment_id, parse_user_id, parse_uuid-id_text,
}
use comments_service.Application.Services.{CommentAddedEvent}
use comments_service.Events.{Bus, publish_comment_added}
use comments_service.Events.Consistent.{IsConsistent}
use comments_service.Events.Calls.{Call, publishing, run_call, run_calls, run_calls-IsConsistent}
use comments_service.Postgres.Bus.Dispatch.{dispatch-publish, call_of, run_others-run_calls}
use comments_service.Postgres.Bus.{
  IsAscii, PayloadJson, Other, Turn, notified, failed, run_others, payload_of, decode_payload,
  listen,
}

comment_added-All : All (λ b. b < 128) (ascii "comment_added")
unfolding ascii
comment_added-All = (
  omega arith,
  (
    omega arith,
    (
      omega arith,
      (
        omega arith,
        (
          omega arith,
          (
            omega arith,
            (
              omega arith,
              (
                omega arith,
                (omega arith, (omega arith, (omega arith, (omega arith, (omega arith, tt))))),
              ),
            ),
          ),
        ),
      ),
    ),
  ),
)

module _ ⦃uuid : UuidText⦄ where
  payload_of-IsAscii : (event : CommentAddedEvent) → IsAscii (payload_of event)
  unfolding payload_of id_text
  payload_of-IsAscii event = (
    comment_added-All,
    uuid.format_ascii event.post_id,
    uuid.format_ascii event.comment_id,
    uuid.format_ascii event.author_id,
  )

  module _ ⦃json : PayloadJson⦄ where
    -- An event is decoded from the payload that PublishCommentAdded sends for it.
    pub decode_payload-published :
        (event : CommentAddedEvent) (raw : Text)
        → json.marshal (payload_of event) ≡ ok raw
        → decode_payload raw ≡ ok event
    unfolding decode_payload payload_of parse_post_id parse_comment_id parse_user_id
    decode_payload-published event raw written =
        rw
          (
            json.unmarshal-marshal (payload_of event) raw (payload_of-IsAscii event) written,
            parse_uuid-id_text (ascii "postId") event.post_id,
            parse_uuid-id_text (ascii "commentId") event.comment_id,
            parse_uuid-id_text (ascii "authorId") event.author_id,
          )
          refl

    -- The calls that turns of the loop come to: what others do while it waits, and a publication for every
    -- payload that PublishCommentAdded sends, with nobody else on the bus during its sends. Between them
    -- there are waits that fail and payloads that do not decode.
    pub data Brings : List Turn → List Call → Type 0 where
      nothing : Brings [] []
      bringing :
          {turns : List Turn} {calls : List Call} (others : List Other) (event : CommentAddedEvent)
          (raw : Text)
          → json.marshal (payload_of event) ≡ ok raw
          → Brings turns calls
          → Brings
              (record { meanwhile = others; waited = notified raw; during = [] } ∷ turns)
              (map call_of others ++ (publishing event ∷ calls))
      failing :
          {turns : List Turn} {calls : List Call} (others : List Other) (e : Error)
          → Brings turns calls
          → Brings
              (record { meanwhile = others; waited = failed e; during = [] } ∷ turns)
              (map call_of others ++ calls)
      garbled :
          {turns : List Turn} {calls : List Call} (others : List Other) (raw : Text) (e : Error)
          → decode_payload raw ≡ err e
          → Brings turns calls
          → Brings
              (record { meanwhile = others; waited = notified raw; during = [] } ∷ turns)
              (map call_of others ++ calls)

    abbrev going_on : Option Bus → Option (Bus × Bool)
    going_on none = none
    going_on (some b) = some (b, false)

    listen-run_calls :
        (turns : List Turn) (calls : List Call) (b : Bus)
        → Brings turns calls
        → listen turns b ≡ going_on (run_calls calls b)
    unfolding listen run_calls run_call
    listen-run_calls _ _ b nothing = refl
    listen-run_calls _ _ b (bringing {turns} {calls} others event raw written later) =
        elim (Option-cases (run_others others b)) [
          | inl panics ↦
              rw (listen, run_others-run_calls others (publishing event ∷ calls) b, panics) refl
          | inr (met, run) ↦ elim (Option-cases (publish_comment_added event met)) [
            | inl panics ↦
                rw
                  (
                    listen,
                    run_others-run_calls others (publishing event ∷ calls) b,
                    run,
                    decode_payload-published event raw written,
                    dispatch-publish event met,
                    run_calls,
                    run_call,
                    panics,
                  )
                  refl
            | inr (left, sent) ↦
                rw
                  (
                    listen,
                    run_others-run_calls others (publishing event ∷ calls) b,
                    run,
                    decode_payload-published event raw written,
                    dispatch-publish event met,
                    run_calls,
                    run_call,
                    sent,
                  )
                  (listen-run_calls turns calls left later)
          ]
        ]
    listen-run_calls _ _ b (failing {turns} {calls} others e later) =
        elim (Option-cases (run_others others b)) [
          | inl panics ↦ rw (listen, run_others-run_calls others calls b, panics) refl
          | inr (met, run) ↦
              rw (listen, run_others-run_calls others calls b, run)
                (listen-run_calls turns calls met later)
        ]
    listen-run_calls _ _ b (garbled {turns} {calls} others raw e bad later) =
        elim (Option-cases (run_others others b)) [
          | inl panics ↦ rw (listen, run_others-run_calls others calls b, panics) refl
          | inr (met, run) ↦
              rw (listen, run_others-run_calls others calls b, run, bad)
                (listen-run_calls turns calls met later)
        ]

    -- On a consistent bus on which others subscribe and unsubscribe while the listener waits, but do nothing
    -- between the moment when dispatch has read the subscribers and the end of its sends, the loop goes on,
    -- does not panic and leaves a consistent bus, while the counter of subscribers does not reach 2^64: the
    -- bus that the memory bus is left as by those calls and by publishing the events that the notifications
    -- carry, in the same order. Waits that fail and payloads that do not decode change nothing.
    pub listen-publishes :
        (turns : List Turn) (calls : List Call) (b : Bus)
        → Brings turns calls
        → b.next_id + length calls < 2 ^ 64
        → IsConsistent b
        → (b' : Bus) × (listen turns b ≡ some (b', false))
          × IsConsistent b'
          × (run_calls calls b ≡ some b')
    listen-publishes turns calls b brings small c =
        let (b', run, still) = run_calls-IsConsistent calls b small c in
        (b', listen-run_calls turns calls b brings ∙ rw run refl, still, run)
