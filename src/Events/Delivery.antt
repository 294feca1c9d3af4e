-- ===== src/Events/Delivery.antt =====
-- What a publication does to the channels, and when it panics.
use comments_service.Prelude.{
  ℕ, ◌≡◌, refl, sym, ◌∙◌, Bool, true, false, none, some, List, [], ◌∷◌, ◌==◌, ==_iff, ==_refl,
  if◌then◌else◌, arith, Bool-cases, Option-cases, inl, inr,
}
use comments_service.Go.Map.{get, put, values, contains, or_zero}
use comments_service.Go.Map.Laws.{get-put}
use comments_service.Go.Channel.{Channel, offered, try_send, close_channel}
use comments_service.Domain.Ids.{PostId}
use comments_service.Application.Services.{CommentAddedEvent}
use comments_service.Events.{
  Bus, Channels, targets, send_to, deliver, publish_comment_added, close_at, drop_subscriber,
  remove,
}
use comments_service.Events.Consistent.{IsOpen, IsConsistent, address}
use comments_service.Events.Targets.{IsUnique, contains-values, key_of_value, values-IsUnique}

some_inj : {A : Type 0} {x y : A} → some x ≡ some y → x ≡ y
some_inj h = ground arith

-- An open channel stays open when a value is offered to another or to itself.
offered-IsOpen :
    (event : CommentAddedEvent) (channels : Channels) (a : ℕ) (ch : Channel CommentAddedEvent)
    (j : ℕ)
    → ch.closed ≡ false
    → IsOpen channels j
    → IsOpen (put channels a (offered event ch)) j
unfolding offered
offered-IsOpen event channels a ch j o (other, found, p) = elim (Bool-cases (a == j)) [
  | inl same ↦
      (offered event ch, ground (arith, get-put channels a j (offered event ch)), ground arith)
  | inr apart ↦ (other, ground (arith, get-put channels a j (offered event ch)), p)
]

sends :
    (event : CommentAddedEvent) (ch : Channel CommentAddedEvent)
    → ch.closed ≡ false
    → try_send event ch ≡ some (offered event ch)
unfolding try_send
sends event ch o = rw o refl

-- Sending to open channels, none twice, offers the event to each and to no other.
deliver_lem :
    (addresses : List ℕ) (event : CommentAddedEvent) (channels : Channels)
    → IsUnique addresses
    → ((a : ℕ) → contains addresses a ≡ true → IsOpen channels a)
    → (after : Channels) × (deliver addresses event channels ≡ some after)
      × ((a : ℕ) (ch : Channel CommentAddedEvent)
          → get channels a ≡ some ch
          → get after a ≡ some (if contains addresses a then offered event ch else ch))
unfolding deliver contains
deliver_lem [] event channels u is_open = (channels, refl, λ a ch found. found)
deliver_lem (b ∷ rest) event channels u is_open =
    let (ch, found, o) = is_open b (rw (==_refl b) refl) in
    let still : (a : ℕ) → contains rest a ≡ true → IsOpen (put channels b (offered event ch)) a =
      λ a h. offered-IsOpen event channels b ch a o (is_open a (ground arith)) in
    let (after, e, each) = deliver_lem rest event (put channels b (offered event ch)) u.1 still in
    (
      after,
      rw (deliver, found, sends event ch o) e,
      λ a old there. elim (Bool-cases (b == a)) [
        | inl same ↦
            let eq : b ≡ a = (==_iff b a).0 same in
            let one : ch ≡ old = some_inj (sym found ∙ rw eq there) in
            let none_behind : contains rest a ≡ false = rw eq at u.0 in
            rw
              (
                same,
                each a (offered event ch) (rw (get-put channels b a (offered event ch), same) refl),
                none_behind,
                one,
              )
              refl
        | inr apart ↦
            rw (apart, each a old (rw (get-put channels b a (offered event ch), apart) there)) refl
      ],
    )

-- A closed channel among the addresses makes the send panic.
pub deliver-closed :
    (addresses : List ℕ) (event : CommentAddedEvent) (channels : Channels) (a : ℕ)
    (ch : Channel CommentAddedEvent)
    → contains addresses a ≡ true
    → get channels a ≡ some ch
    → ch.closed ≡ true
    → deliver addresses event channels ≡ none
unfolding deliver contains try_send
deliver-closed [] event channels a ch h found shut = absurd (ground arith)
deliver-closed (b ∷ rest) event channels a ch h found shut = elim (Bool-cases (b == a)) [
  | inl same ↦ ground arith
  | inr apart ↦ elim (Option-cases (send_to event (get channels b))) [
    | inl panics ↦ rw (deliver, panics) refl
    | inr (sent, e) ↦
        rw (deliver, e)
          (deliver-closed rest event (put channels b sent) a ch (rw apart at h)
            (rw (get-put channels b a sent, apart) found) shut)
  ]
]

-- Closing a channel leaves it closed.
close_at-closed :
    (channels after : Channels) (a : ℕ)
    → close_at a channels ≡ some after
    → (ch : Channel CommentAddedEvent) × (get after a ≡ some ch) × (ch.closed ≡ true)
unfolding close_at close_channel
close_at-closed channels after a h = elim (Option-cases (get channels a)) [
  | inl missing ↦ absurd (ground arith)
  | inr (ch, found) ↦ (
    record ch { closed = true },
    ground (arith, get-put channels a a (record ch { closed = true })),
    refl,
  )
]

-- The channels of the bus, after PublishCommentAdded.
published :
    (b : Bus) (event : CommentAddedEvent)
    → IsConsistent b
    → (after : Channels) × (deliver (targets b event.post_id) event b.channels ≡ some after)
      × ((a : ℕ) (ch : Channel CommentAddedEvent)
          → get b.channels a ≡ some ch
          → get after a
            ≡ some (if contains (targets b event.post_id) a then offered event ch else ch))
unfolding targets address
published b event c =
    let subs = or_zero [] (get b.subscribers event.post_id) in
    let d = c.distinct event.post_id in
    deliver_lem (values subs) event b.channels
      (values-IsUnique subs d (λ i j a e f. (c.apart event.post_id i event.post_id j a e f).1))
      (λ a there. let (i, e) = key_of_value subs a d there in c.opened event.post_id i a e)

-- An address is a target of the publication exactly when its post is the event's.
targeted :
    (b : Bus) (event : CommentAddedEvent) (p : PostId) (i a : ℕ)
    → IsConsistent b
    → address b p i ≡ some a
    → contains (targets b event.post_id) a ≡ (p == event.post_id)
unfolding targets address
targeted b event p i a c e = elim (Bool-cases (p == event.post_id)) [
  | inl same ↦
      rw
        (
          same,
          contains-values (or_zero [] (get b.subscribers event.post_id)) i a
              (rw ((==_iff p event.post_id).0 same) at e),
        )
        refl
  | inr other ↦
      elim (Bool-cases (contains (values (or_zero [] (get b.subscribers event.post_id))) a)) [
        | inr absent ↦ rw (other, absent) refl
        | inl there ↦
            let (j, f) =
              key_of_value (or_zero [] (get b.subscribers event.post_id)) a
                (c.distinct event.post_id) there in
            absurd (ground (arith, (c.apart p i event.post_id j a e f).0))
      ]
]

publish-published :
    (b : Bus) (event : CommentAddedEvent) (after : Channels)
    → deliver (targets b event.post_id) event b.channels ≡ some after
    → publish_comment_added event b ≡ some (record b { channels = after })
unfolding publish_comment_added
publish-published b event after e = rw (publish_comment_added, e) refl

still_open :
    (event : CommentAddedEvent) (ch : Channel CommentAddedEvent) (hit : Bool)
    → ch.closed ≡ false
    → (if hit then offered event ch else ch).closed ≡ false
unfolding offered
still_open event ch hit o = ground arith

-- On a consistent bus, PublishCommentAdded that no other method interrupts does not panic and leaves a
-- consistent bus; it offers the event to the channel of every subscriber of the post, and leaves the channels of all others alone.
pub publish-delivers :
    (b : Bus) (event : CommentAddedEvent)
    → IsConsistent b
    → (b' : Bus) × (publish_comment_added event b ≡ some b')
      × IsConsistent b'
      × ((p : PostId) (i a : ℕ) (ch : Channel CommentAddedEvent)
          → address b p i ≡ some a
          → get b.channels a ≡ some ch
          → get b'.channels a ≡ some (if p == event.post_id then offered event ch else ch))
unfolding address
publish-delivers b event c =
    let (after, e, each) = published b event c in
    let run : publish_comment_added event b ≡ some (record b { channels = after }) =
      publish-published b event after e in
    (
      record b { channels = after },
      run,
      record {
        posts_distinct = c.posts_distinct;
        distinct = c.distinct;
        opened = λ p i a h.
            let (ch, found, o) = c.opened p i a h in (_, each a ch found, still_open event ch _ o);
        apart = c.apart;
        below = c.below;
        numbered = c.numbered;
      },
      λ p i a ch registered found. rw (← targeted b event p i a c registered) (each a ch found),
    )

-- The channels that the removal of a subscriber leaves.
remove-channels :
    (b b' : Bus) (p : PostId) (i a : ℕ)
    → address b p i ≡ some a
    → remove p i b ≡ some b'
    → close_at a b.channels ≡ some b'.channels
unfolding address remove drop_subscriber get
remove-channels b b' p i a e h = elim (Option-cases (get b.subscribers p)) [
  | inl missing ↦ absurd (ground arith)
  | inr (subs, found) ↦ ground arith
]

-- If the unsubscription of one of its subscribers runs after PublishCommentAdded has read the subscribers
-- of the post and before it sends, the publication panics: it sends on a closed channel.
pub publish-interrupted :
    (b b' : Bus) (event : CommentAddedEvent) (id a : ℕ)
    → address b event.post_id id ≡ some a
    → remove event.post_id id b ≡ some b'
    → deliver (targets b event.post_id) event b'.channels ≡ none
unfolding targets address
publish-interrupted b b' event id a e h =
    let (ch, found, shut) =
      close_at-closed b.channels b'.channels a (remove-channels b b' event.post_id id a e h) in
    deliver-closed _ event b'.channels a ch
      (contains-values (or_zero [] (get b.subscribers event.post_id)) id a e) found shut
