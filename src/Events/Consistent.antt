-- ===== src/Events/Consistent.antt =====
-- What holds of a bus between two calls of its methods.
use comments_service.Prelude.{
  ℕ, ◌+◌, ◌%◌, ◌<◌, ◌⊎◌, ◌≤◌, ◌^◌, ◌≡◌, refl, sym, ◌∙◌, true, false, Option, some, [], ◌==◌, ==_iff,
  ==_refl, if◌then◌else◌, arith, Bool-cases, inl, inr,
}
use comments_service.Prelude.Int.{ℤ}
use comments_service.Go.Map.{Map, get, put, or_zero}
use comments_service.Go.Map.Laws.{IsDistinct, get-put, put-IsDistinct}
use comments_service.Go.Channel.{Channel, make}
use comments_service.Domain.Errors.{err}
use comments_service.Domain.Ids.{PostId}
use comments_service.Application.Services.{CommentAddedEvent}
use comments_service.Events.{Bus, Channels, new_bus, subscribe, bus_closed}

-- A channel that is there and open.
abbrev pub IsOpen : Channels → ℕ → Type 0
IsOpen channels a =
    (ch : Channel CommentAddedEvent) × (get channels a ≡ some ch) × (ch.closed ≡ false)

-- The channel of a subscriber.
unfoldable pub address : Bus → PostId → ℕ → Option ℕ
address b post_id id = get (or_zero [] (get b.subscribers post_id)) id

pub record IsConsistent (b : Bus) : Type 0 where
  -- No post, and no subscriber of a post, stands twice.
  pub posts_distinct : IsDistinct b.subscribers
  pub distinct : (p : PostId) → IsDistinct (or_zero [] (get b.subscribers p))
  -- A subscriber's channel is open.
  pub opened : (p : PostId) (i a : ℕ) → address b p i ≡ some a → IsOpen b.channels a
  -- Two subscribers have two channels.
  pub apart :
      (p : PostId) (i : ℕ) (q : PostId) (j a : ℕ)
      → address b p i ≡ some a
      → address b q j ≡ some a
      → (p ≡ q) × (i ≡ j)
  -- Channels and subscribers have been numbered.
  pub below : (p : PostId) (i a : ℕ) → address b p i ≡ some a → a < b.made
  pub numbered : (p : PostId) (i a : ℕ) → address b p i ≡ some a → i ≤ b.next_id

pub new_bus-IsConsistent : (buffer_size : ℤ) → IsConsistent (new_bus buffer_size)
unfolding get address
new_bus-IsConsistent buffer_size = record {
  posts_distinct = tt;
  distinct = λ p. tt;
  opened = λ p i a h. absurd (ground arith);
  apart = λ p i q j a h k. absurd (ground arith);
  below = λ p i a h. absurd (ground arith);
  numbered = λ p i a h. absurd (ground arith);
}

-- What is seen after the subscribers of a post have been replaced.
pub address-put :
    (b : Bus) (p : PostId) (subs : Map ℕ) (q : PostId) (j : ℕ)
    → address (record b { subscribers = put b.subscribers p subs }) q j
      ≡ (if p == q then get subs j else address b q j)
unfolding address
address-put b p subs q j = elim (Bool-cases (p == q)) [
  | inl same ↦ rw (get-put b.subscribers p q subs, same) refl
  | inr other ↦ rw (get-put b.subscribers p q subs, other) refl
]

pub subs_after_put :
    (b : Bus) (p : PostId) (subs : Map ℕ) (q : PostId)
    → IsDistinct subs
    → IsDistinct (or_zero [] (get b.subscribers q))
    → IsDistinct (or_zero [] (get (put b.subscribers p subs) q))
subs_after_put b p subs q d e = elim (Bool-cases (p == q)) [
  | inl same ↦ rw (get-put b.subscribers p q subs, same) d
  | inr other ↦ rw (get-put b.subscribers p q subs, other) e
]

-- The bus that Subscribe leaves, when it is open and its counter does not wrap.
abbrev subscribed : Bus → PostId → Bus
subscribed b p = record b {
  subscribers = put b.subscribers p (put (or_zero [] (get b.subscribers p)) (b.next_id + 1) b.made);
  next_id = b.next_id + 1;
  channels = put b.channels b.made (make b.buffer_size);
  made = b.made + 1;
}

subscribe-subscribed :
    (b : Bus) (p : PostId)
    → b.closed ≡ false
    → b.next_id + 1 < 2 ^ 64
    → (subscribe p b).1 ≡ subscribed b p
unfolding subscribe
subscribe-subscribed b p up small =
    let id : (b.next_id + 1) % 2 ^ 64 ≡ b.next_id + 1 = omega arith in rw (subscribe, up, id) refl

-- A subscriber is the new one, or was there before.
subscribed_cases :
    (b : Bus) (p : PostId) (q : PostId) (j a : ℕ)
    → address (subscribed b p) q j ≡ some a
    → ((q ≡ p) × (j ≡ b.next_id + 1) × (a ≡ b.made)) ⊎ (address b q j ≡ some a)
unfolding address
subscribed_cases b p q j a h =
    let subs = or_zero [] (get b.subscribers p) in
    let view = address-put b p (put subs (b.next_id + 1) b.made) q j in
    let there : (if p == q then get (put subs (b.next_id + 1) b.made) j else address b q j)
        ≡ some a =
      sym view ∙ h in
    elim (Bool-cases (p == q)) [
      | inr other ↦ inr (rw other at there)
      | inl same ↦
          let eq : p ≡ q = (==_iff p q).0 same in
          let new : get (put subs (b.next_id + 1) b.made) j ≡ some a = rw same at there in
          elim (Bool-cases (b.next_id + 1 == j)) [
            | inl hit ↦
                inl (sym eq, ground arith, ground (arith, get-put subs (b.next_id + 1) j b.made))
            | inr miss ↦ inr (rw (← eq) (ground (arith, get-put subs (b.next_id + 1) j b.made)))
          ]
    ]

-- An open channel stays open when another is made at an address that is not its own.
made-IsOpen :
    (channels : Channels) (n a : ℕ) (ch : Channel CommentAddedEvent)
    → a < n
    → IsOpen channels a
    → IsOpen (put channels n ch) a
made-IsOpen channels n a ch small (old, found, o) =
    (old, ground (arith, get-put channels n a ch), o)

subscribed-IsConsistent : (b : Bus) (p : PostId) → IsConsistent b → IsConsistent (subscribed b p)
subscribed-IsConsistent b p c = record {
  posts_distinct = put-IsDistinct b.subscribers p _ c.posts_distinct;
  distinct = λ q.
      subs_after_put b p _ q
        (put-IsDistinct (or_zero [] (get b.subscribers p)) (b.next_id + 1) b.made (c.distinct p))
        (c.distinct q);
  opened = λ q j a h. elim (subscribed_cases b p q j a h) [
    | inl (_, _, fresh) ↦ rw fresh (
      make b.buffer_size,
      rw (get-put b.channels b.made b.made (make b.buffer_size), ==_refl b.made) refl,
      refl,
    )
    | inr old ↦ made-IsOpen b.channels b.made a _ (c.below q j a old) (c.opened q j a old)
  ];
  apart = λ q i r j a h k. elim (subscribed_cases b p q i a h) [
    | inl (q_new, i_new, a_new) ↦ elim (subscribed_cases b p r j a k) [
      | inl (r_new, j_new, _) ↦ (q_new ∙ sym r_new, i_new ∙ sym j_new)
      | inr old ↦ absurd (omega (arith, c.below r j a old))
    ]
    | inr old ↦ elim (subscribed_cases b p r j a k) [
      | inl (_, _, a_new) ↦ absurd (omega (arith, c.below q i a old))
      | inr older ↦ c.apart q i r j a old older
    ]
  ];
  below = λ q j a h. elim (subscribed_cases b p q j a h) [
    | inl (_, _, a_new) ↦ omega arith
    | inr old ↦ omega (arith, c.below q j a old)
  ];
  numbered = λ q j a h. elim (subscribed_cases b p q j a h) [
    | inl (_, j_new, _) ↦ omega arith
    | inr old ↦ omega (arith, c.numbered q j a old)
  ];
}

-- Subscribe on a closed bus is refused and changes nothing.
subscribe-closed : (b : Bus) (p : PostId) → b.closed ≡ true → subscribe p b ≡ (err bus_closed, b)
unfolding subscribe
subscribe-closed b p shut = ground arith

-- While the counter of subscribers does not wrap at 64 bits, Subscribe leaves a consistent bus
-- consistent, whether it is closed or not.
pub subscribe-IsConsistent :
    (b : Bus) (p : PostId)
    → b.next_id + 1 < 2 ^ 64
    → IsConsistent b
    → IsConsistent (subscribe p b).1
subscribe-IsConsistent b p small c = elim (Bool-cases b.closed) [
  | inl shut ↦ rw (subscribe-closed b p shut) c
  | inr up ↦ rw (subscribe-subscribed b p up small) (subscribed-IsConsistent b p c)
]
