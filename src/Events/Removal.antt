-- ===== src/Events/Removal.antt =====
-- What the unsubscription of a subscriber does to a consistent bus.
use comments_service.Prelude.{
  ℕ, ◌≡◌, refl, sym, ◌∙◌, true, false, ◌&&◌, none, some, [], ◌∷◌, ◌==◌, ==_iff, if◌then◌else◌,
  arith, length, Bool-cases, Option-cases, inl, inr,
}
use comments_service.Go.Map.{Map, get, put, delete, or_zero}
use comments_service.Go.Map.Laws.{
  IsDistinct, get-put, get-delete, put-IsDistinct, delete-IsDistinct,
}
use comments_service.Go.Channel.{Channel, close_channel}
use comments_service.Domain.Ids.{PostId}
use comments_service.Application.Services.{CommentAddedEvent}
use comments_service.Events.{Bus, Channels, close_at, drop_subscriber, remove}
use comments_service.Events.Consistent.{IsOpen, IsConsistent, address, subs_after_put}

abbrev subs_of : Bus → PostId → Map ℕ
subs_of b p = or_zero [] (get b.subscribers p)

-- The bus without the subscriber, with these channels.
abbrev dropped : Bus → PostId → ℕ → Channels → Bus
dropped b p i channels = record b {
  subscribers =
      if length (delete (subs_of b p) i) == 0
      then delete b.subscribers p
      else put b.subscribers p (delete (subs_of b p) i);
  channels = channels;
}

not_there :
    (b : Bus) (p : PostId) (i a : ℕ) → get b.subscribers p ≡ none → address b p i ≡ some a → ⊥
unfolding address get
not_there b p i a missing e = ground arith

-- The removal of a subscriber closes its channel, and does not panic.
remove-dropped :
    (b : Bus) (p : PostId) (i a : ℕ)
    → IsConsistent b
    → address b p i ≡ some a
    → (ch : Channel CommentAddedEvent) × (get b.channels a ≡ some ch)
      × (remove p i b ≡ some (dropped b p i (put b.channels a (record ch { closed = true }))))
unfolding address remove delete put drop_subscriber close_at close_channel
remove-dropped b p i a c e =
    let (ch, there, o) = c.opened p i a e in
    elim (Option-cases (get b.subscribers p)) [
      | inl missing ↦ absurd (not_there b p i a missing e)
      | inr (subs, found) ↦
          let registered : get subs i ≡ some a = rw found at e in
          (
            ch,
            there,
            rw (remove, found, registered, drop_subscriber, close_at, there, close_channel, o) refl,
          )
    ]

empty_length : (m : Map ℕ) (j : ℕ) → (length m == 0) ≡ true → get m j ≡ none
unfolding get
empty_length [] j h = refl
empty_length ((k, v) ∷ m) j h = absurd (ground arith)

-- What is seen after the removal.
address-dropped :
    (b : Bus) (p : PostId) (i : ℕ) (channels : Channels)
    → IsConsistent b
    → (q : PostId) (j : ℕ)
    → address (dropped b p i channels) q j ≡ (if (p == q) && (i == j) then none else address b q j)
unfolding address get
address-dropped b p i channels c q j =
    let left = delete (subs_of b p) i in
    let view = get-delete (subs_of b p) i j (c.distinct p) in
    elim (Bool-cases (length left == 0)) [
      | inl empty ↦ elim (Bool-cases (p == q)) [
        | inl same ↦
            let eq : p ≡ q = (==_iff p q).0 same in
            let gone : none ≡ (if i == j then none else get (subs_of b q) j) =
              rw (← eq) (sym (empty_length left j empty) ∙ view) in
            rw (empty, get-delete b.subscribers p q c.posts_distinct, same) gone
        | inr other ↦ rw (empty, get-delete b.subscribers p q c.posts_distinct, other) refl
      ]
      | inr more ↦ elim (Bool-cases (p == q)) [
        | inl same ↦
            let eq : p ≡ q = (==_iff p q).0 same in
            let gone : get left j ≡ (if i == j then none else get (subs_of b q) j) =
              rw (← eq) view in
            rw (more, get-put b.subscribers p q left, same) gone
        | inr other ↦ rw (more, get-put b.subscribers p q left, other) refl
      ]
    ]

-- What is still there was there before, and is not the removed one.
dropped_cases :
    (b : Bus) (p : PostId) (i : ℕ) (channels : Channels)
    → IsConsistent b
    → (q : PostId) (j a : ℕ) → address (dropped b p i channels) q j ≡ some a
    → (((p == q) && (i == j)) ≡ false) × (address b q j ≡ some a)
dropped_cases b p i channels c q j a h =
    let view = sym (address-dropped b p i channels c q j) ∙ h in
    elim (Bool-cases ((p == q) && (i == j))) [
      | inl hit ↦ absurd (ground (arith, view))
      | inr miss ↦ (miss, rw miss at view)
    ]

subs-dropped :
    (b : Bus) (p : PostId) (i : ℕ) (channels : Channels)
    → IsConsistent b
    → (q : PostId) → IsDistinct (subs_of (dropped b p i channels) q)
subs-dropped b p i channels c q =
    let left = delete (subs_of b p) i in
    elim (Bool-cases (length left == 0)) [
      | inl empty ↦ elim (Bool-cases (p == q)) [
        | inl same ↦ rw (empty, get-delete b.subscribers p q c.posts_distinct, same) tt
        | inr other ↦
            rw (empty, get-delete b.subscribers p q c.posts_distinct, other) (c.distinct q)
      ]
      | inr more ↦ rw more (
          subs_after_put b p left q (delete-IsDistinct (subs_of b p) i (c.distinct p))
            (c.distinct q))
    ]

posts-dropped :
    (b : Bus) (p : PostId) (i : ℕ) (channels : Channels)
    → IsConsistent b
    → IsDistinct (dropped b p i channels).subscribers
posts-dropped b p i channels c = elim (Bool-cases (length (delete (subs_of b p) i) == 0)) [
  | inl empty ↦ rw empty (delete-IsDistinct b.subscribers p c.posts_distinct)
  | inr more ↦ rw more (put-IsDistinct b.subscribers p _ c.posts_distinct)
]

other-IsOpen :
    (channels : Channels) (a j : ℕ) (ch : Channel CommentAddedEvent)
    → (a == j) ≡ false
    → IsOpen channels j
    → IsOpen (put channels a ch) j
other-IsOpen channels a j ch apart (old, found, o) =
    (old, rw (get-put channels a j ch, apart) found, o)

-- The unsubscription of a subscriber of a consistent bus does not panic, leaves a consistent bus, and
-- takes away this subscriber and no other.
pub remove-IsConsistent :
    (b : Bus) (p : PostId) (i a : ℕ)
    → IsConsistent b
    → address b p i ≡ some a
    → (b' : Bus) × (remove p i b ≡ some b')
      × IsConsistent b'
      × ((q : PostId) (j : ℕ)
          → address b' q j ≡ (if (p == q) && (i == j) then none else address b q j))
remove-IsConsistent b p i a c e =
    let (ch, there, run) = remove-dropped b p i a c e in
    let channels = put b.channels a (record ch { closed = true }) in
    (
      dropped b p i channels,
      run,
      record {
        posts_distinct = posts-dropped b p i channels c;
        distinct = subs-dropped b p i channels c;
        opened = λ q j x h.
            let (miss, old) = dropped_cases b p i channels c q j x h in
            elim (Bool-cases (a == x)) [
              | inr apart ↦ other-IsOpen b.channels a x _ apart (c.opened q j x old)
              | inl same ↦
                  let (pq, ij) = c.apart p i q j a e (rw ((==_iff a x).0 same) old) in
                  absurd (ground arith)
            ];
        apart = λ q j r k x h h2.
            c.apart q j r k x (dropped_cases b p i channels c q j x h).1
              (dropped_cases b p i channels c r k x h2).1;
        below = λ q j x h. c.below q j x (dropped_cases b p i channels c q j x h).1;
        numbered = λ q j x h. c.numbered q j x (dropped_cases b p i channels c q j x h).1;
      },
      address-dropped b p i channels c,
    )
