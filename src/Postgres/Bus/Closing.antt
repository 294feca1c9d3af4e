-- ===== src/Postgres/Bus/Closing.antt =====
-- What Close leaves, on every branch.
use comments_service.Prelude.{
  ℕ, ◌≡◌, refl, ◌∙◌, Bool, true, false, some, List, [], ◌∷◌, map, arith, inl, inr,
}
use comments_service.Go.Text.{ascii}
use comments_service.Domain.Errors.{Error, operation, Result, ok, err, Result-cases}
use comments_service.Domain.Ids.{PostId, UuidText}
use comments_service.Application.Services.{CommentAddedEvent}
use comments_service.Events
use comments_service.Events.{Bus, Subscription, bus_closed, close_posts, publish_comment_added}
use comments_service.Events.Consistent.{IsConsistent, IsOpen, address}
use comments_service.Events.Delivery.{publish-delivers}
use comments_service.Events.Closing.{close_posts_lem, with_posts}
use comments_service.Postgres.Bus.Dispatch.{dispatch-publish}
use comments_service.Postgres.Bus.{
  PayloadJson, Waited, notified, failed, stopped, quiet, run_others, decode_payload, listen,
  subscribe, close_subscribers, finish_close, close,
}

-- A publication changes channels only.
publish_keeps :
    (b b' : Bus) (event : CommentAddedEvent)
    → publish_comment_added event b ≡ some b'
    → (b'.subscribers ≡ b.subscribers) × (b'.closed ≡ b.closed)
unfolding publish_comment_added
publish_keeps b b' event h = ground arith

-- What the loop of the listener leaves.
abbrev Heard : Bus → Bus → Type 0
Heard b left = IsConsistent left × (left.subscribers ≡ b.subscribers) × (left.closed ≡ b.closed)

-- Closing the flag concerns nothing else.
flagged-IsConsistent : (b : Bus) → IsConsistent b → IsConsistent (record b { closed = true })
unfolding address
flagged-IsConsistent b c = record {
  posts_distinct = c.posts_distinct;
  distinct = c.distinct;
  opened = c.opened;
  apart = c.apart;
  below = c.below;
  numbered = c.numbered;
}

module _ ⦃uuid : UuidText⦄ ⦃json : PayloadJson⦄ where
  listen-Heard :
      (waits : List Waited) (b : Bus)
      → IsConsistent b
      → (left : Bus × Bool) × (listen (map quiet waits) b ≡ some left) × Heard b left.0
  unfolding listen run_others
  listen-Heard [] b c = ((b, false), refl, (c, refl, refl))
  listen-Heard (stopped ∷ waits) b c = ((b, true), refl, (c, refl, refl))
  listen-Heard (failed e ∷ waits) b c = listen-Heard waits b c
  listen-Heard (notified raw ∷ waits) b c = elim (Result-cases (decode_payload raw)) [
    | inr (e, bad) ↦
        let (left, heard, kept) = listen-Heard waits b c in (left, rw (listen, bad) heard, kept)
    | inl (event, good) ↦
        let (next, sent, c_next, each) = publish-delivers b event c in
        let (left, heard, (c_left, subscribers, closed)) = listen-Heard waits next c_next in
        let (subscribers_kept, closed_kept) = publish_keeps b next event sent in
        (
          left,
          rw (listen, good, dispatch-publish event b, sent) heard,
          (c_left, subscribers ∙ subscribers_kept, closed ∙ closed_kept),
        )
  ]

  module _ (is_canceled : Error → Bool) (waits : List Waited) (b : Bus) (c : IsConsistent b)
      (up : b.closed ≡ false) where
    -- Close of an open consistent bus whose listener can be closed and that nobody else uses meanwhile, whatever the listener's loop still
    -- meets, succeeds and does not panic, and leaves no subscriber; after it, Close succeeds and changes
    -- nothing, and Subscribe is refused.
    pub close-empties :
        (b' : Bus) × (close is_canceled waits (ok tt) b ≡ some (ok tt, b'))
        × (b'.closed ≡ true)
        × (b'.subscribers ≡ [])
        × (close is_canceled waits (ok tt) b' ≡ some (ok tt, b'))
        × ((p : PostId) → subscribe p b' ≡ (err bus_closed, b'))
    unfolding close finish_close close_subscribers subscribe Events.subscribe
    close-empties =
        let flagged = record b { closed = true } in
        let (left, heard, (c_left, subscribers, closed)) =
          listen-Heard waits flagged (flagged-IsConsistent b c) in
        let (after, run) = close_posts_lem left.0.subscribers left.0 left.0.channels c_left in
        (
          with_posts left.0 [] after,
          rw (close, up, heard, close_subscribers, run) refl,
          closed,
          refl,
          rw (close, closed) refl,
          λ p. rw (subscribe, closed) refl,
        )

    -- If the listener cannot be closed, for another error than that of a context that is cancelled, Close
    -- of an open consistent bus that nobody else uses meanwhile returns that error as an OperationError and leaves every subscriber with an
    -- open channel on a closed bus; after it, Close succeeds and changes nothing, whatever the listener says.
    pub close-failed :
        (e : Error)
        → is_canceled e ≡ false
        → (b' : Bus) × (close is_canceled waits (err e) b
            ≡ some (err (operation (ascii "close postgres event listener") e), b'))
          × (b'.closed ≡ true)
          × ((p : PostId) (i a : ℕ)
              → address b p i ≡ some a
              → (address b' p i ≡ some a) × IsOpen b'.channels a)
          × ((closing : Result (Unit {0})) → close is_canceled waits closing b' ≡ some (ok tt, b'))
    unfolding close finish_close address
    close-failed e other =
        let flagged = record b { closed = true } in
        let (left, heard, (c_left, subscribers, closed)) =
          listen-Heard waits flagged (flagged-IsConsistent b c) in
        let same : (p : PostId) (i a : ℕ) → address b p i ≡ some a → address left.0 p i ≡ some a =
          λ p i a h. rw subscribers h in
        (
          left.0,
          rw (close, up, heard, finish_close, other) refl,
          closed,
          λ p i a h. (same p i a h, c_left.opened p i a (same p i a h)),
          λ closing. rw (close, closed) refl,
        )
