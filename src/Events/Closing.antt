-- ===== src/Events/Closing.antt =====
-- What Close does to a consistent bus.
use comments_service.Prelude.{
  ℕ, ◌≡◌, ◌≢◌, refl, ◌∙◌, true, false, none, some, [], ◌∷◌, ◌==◌, ==_iff, ==_refl, if◌then◌else◌,
  arith, Bool-cases, inl, inr,
}
use comments_service.Go.Map.{Map, get, put, delete, values, contains, or_zero}
use comments_service.Go.Map.Laws.{IsDistinct, get-put}
use comments_service.Go.Channel.{close_channel}
use comments_service.Domain.Ids.{PostId}
use comments_service.Events.{Bus, Channels, close_at, close_subscribers, close_posts, close}
use comments_service.Events.Targets.{IsUnique, key_of_value, values-IsUnique}
use comments_service.Events.Consistent.{IsOpen, IsConsistent, address}

-- Closing open channels, none twice, succeeds and leaves every other channel as it is.
close_subscribers_lem :
    (subs : Map ℕ) (channels : Channels)
    → IsUnique (values subs)
    → ((a : ℕ) → contains (values subs) a ≡ true → IsOpen channels a)
    → (after : Channels) × (close_subscribers subs channels ≡ some after)
      × ((a : ℕ) → contains (values subs) a ≡ false → get after a ≡ get channels a)
unfolding close_subscribers values contains close_at put close_channel
close_subscribers_lem [] channels u is_open = (channels, refl, λ a out. refl)
close_subscribers_lem ((id, b) ∷ subs) channels u is_open =
    let (ch, found, o) = is_open b (rw (==_refl b) refl) in
    let shut = put channels b (record ch { closed = true }) in
    let still : (a : ℕ) → contains (values subs) a ≡ true → IsOpen shut a = λ a h.
      elim (Bool-cases (b == a)) [
        | inl same ↦ absurd (ground (arith, u.0))
        | inr apart ↦
            let (old, there, p) = is_open a (rw apart h) in
            (old, rw (get-put channels b a (record ch { closed = true }), apart) there, p)
      ] in
    let (after, e, others) = close_subscribers_lem subs shut u.1 still in
    (
      after,
      rw (close_subscribers, close_at, found, close_channel, o) e,
      λ a out. elim (Bool-cases (b == a)) [
        | inl same ↦ absurd (ground arith)
        | inr apart ↦
            others a (rw apart at out)
            ∙ rw (get-put channels b a (record ch { closed = true }), apart) refl
      ],
    )

-- The bus with these posts and channels.
abbrev pub with_posts : Bus → Map (Map ℕ) → Channels → Bus
with_posts b posts channels = record b { subscribers = posts; channels = channels }

nothing :
    (posts : Map (Map ℕ)) (q : PostId) (j a : ℕ)
    → get posts q ≡ none
    → get (or_zero [] (get posts q)) j ≡ some a
    → ⊥
unfolding get
nothing posts q j a alone h = ground arith

-- A subscriber of a later post is one of another post.
later_address :
    (b : Bus) (p : PostId) (subs : Map ℕ) (posts : Map (Map ℕ)) (channels after : Channels)
    → get posts p ≡ none
    → (q : PostId) (j a : ℕ) → address (with_posts b posts after) q j ≡ some a
    → (p ≢ q) × (address (with_posts b ((p, subs) ∷ posts) channels) q j ≡ some a)
unfolding address get
later_address b p subs posts channels after alone q j a h = elim (Bool-cases (p == q)) [
  | inl same ↦ absurd (nothing posts q j a (rw ((==_iff p q).0 same) at alone) h)
  | inr apart ↦ (λ e. absurd (ground arith), rw apart h)
]

rest-IsDistinct :
    (b : Bus) (p : PostId) (subs : Map ℕ) (posts : Map (Map ℕ)) (channels : Channels)
    → get posts p ≡ none
    → (q : PostId) → IsDistinct (or_zero [] (get ((p, subs) ∷ posts) q))
    → IsDistinct (or_zero [] (get posts q))
unfolding get
rest-IsDistinct b p subs posts channels alone q d = elim (Bool-cases (p == q)) [
  | inl same ↦ rw (rw ((==_iff p q).0 same) at alone) tt
  | inr apart ↦ rw apart at d
]

first_address :
    (b : Bus) (p : PostId) (subs : Map ℕ) (posts : Map (Map ℕ)) (channels : Channels) (i : ℕ)
    → address (with_posts b ((p, subs) ∷ posts) channels) p i ≡ get subs i
unfolding address get
first_address b p subs posts channels i = rw (==_refl p) refl

first-IsDistinct :
    (p : PostId) (subs : Map ℕ) (posts : Map (Map ℕ))
    → IsDistinct (or_zero [] (get ((p, subs) ∷ posts) p))
    → IsDistinct subs
unfolding get
first-IsDistinct p subs posts d = rw (==_refl p) at d

-- The channel of a subscriber of another post is not among those of the first.
outside :
    (b : Bus) (p : PostId) (subs : Map ℕ) (posts : Map (Map ℕ)) (channels : Channels)
    → IsConsistent (with_posts b ((p, subs) ∷ posts) channels)
    → (q : PostId) (j a : ℕ) → p ≢ q
    → address (with_posts b ((p, subs) ∷ posts) channels) q j ≡ some a
    → contains (values subs) a ≡ false
outside b p subs posts channels c q j a apart old = elim (Bool-cases (contains (values subs) a)) [
  | inr out ↦ out
  | inl there ↦
      let (i, e) = key_of_value subs a (first-IsDistinct p subs posts (c.distinct p)) there in
      absurd (apart (c.apart p i q j a (first_address b p subs posts channels i ∙ e) old).0)
]

-- The channels of the first post can be closed.
first_closed :
    (b : Bus) (p : PostId) (subs : Map ℕ) (posts : Map (Map ℕ)) (channels : Channels)
    → IsConsistent (with_posts b ((p, subs) ∷ posts) channels)
    → (after : Channels) × (close_subscribers subs channels ≡ some after)
      × ((a : ℕ) → contains (values subs) a ≡ false → get after a ≡ get channels a)
first_closed b p subs posts channels c =
    let d = first-IsDistinct p subs posts (c.distinct p) in
    let own = first_address b p subs posts channels in
    close_subscribers_lem subs channels
      (values-IsUnique subs d (λ i j a e f. (c.apart p i p j a (own i ∙ e) (own j ∙ f)).1))
      (λ a there. let (i, e) = key_of_value subs a d there in c.opened p i a (own i ∙ e))

close_open :
    (b : Bus) (after : Channels)
    → b.closed ≡ false
    → close_posts b.subscribers b ≡ some (with_posts b [] after)
    → close b ≡ some (record b { subscribers = []; channels = after; closed = true })
unfolding close
close_open b after up run = ground arith

-- When the channels of the first post have been closed, the rest is consistent.
rest-IsConsistent :
    (b : Bus) (p : PostId) (subs : Map ℕ) (posts : Map (Map ℕ)) (channels after : Channels)
    → IsConsistent (with_posts b ((p, subs) ∷ posts) channels)
    → ((a : ℕ) → contains (values subs) a ≡ false → get after a ≡ get channels a)
    → IsConsistent (with_posts b posts after)
rest-IsConsistent b p subs posts channels after c others =
    let alone : get posts p ≡ none = c.posts_distinct.0 in
    let before = later_address b p subs posts channels after alone in
    record {
      posts_distinct = c.posts_distinct.1;
      distinct = λ q. rest-IsDistinct b p subs posts channels alone q (c.distinct q);
      opened = λ q j a h.
          let (apart, old) = before q j a h in
          let (ch, found, o) = c.opened q j a old in
          (ch, others a (outside b p subs posts channels c q j a apart old) ∙ found, o);
      apart = λ q i r j a h k. c.apart q i r j a (before q i a h).1 (before r j a k).1;
      below = λ q j a h. c.below q j a (before q j a h).1;
      numbered = λ q j a h. c.numbered q j a (before q j a h).1;
    }

pub close_posts_lem :
    (posts : Map (Map ℕ)) (b : Bus) (channels : Channels)
    → IsConsistent (with_posts b posts channels)
    → (after : Channels) × (close_posts posts (with_posts b posts channels)
        ≡ some (with_posts b [] after))
unfolding close_posts delete
close_posts_lem [] b channels c = (channels, refl)
close_posts_lem ((p, subs) ∷ posts) b channels c =
    let (shut, run, others) = first_closed b p subs posts channels c in
    let (after, e) =
      close_posts_lem posts b shut (rest-IsConsistent b p subs posts channels shut c others) in
    (after, rw (close_posts, run, delete, ==_refl p) e)

-- Close of a consistent bus does not panic, even if it is called again, and leaves a closed bus; if the
-- bus was open, no subscriber is left.
pub close-closes :
    (b : Bus)
    → IsConsistent b
    → (b' : Bus) × (close b ≡ some b')
      × (b'.closed ≡ true)
      × (close b' ≡ some b')
      × (b'.subscribers ≡ (if b.closed then b.subscribers else []))
unfolding close
close-closes b c = elim (Bool-cases b.closed) [
  | inl shut ↦ (b, ground arith, shut, ground arith, ground arith)
  | inr up ↦
      let (after, run) = close_posts_lem b.subscribers b b.channels c in
      (
        record b { subscribers = []; channels = after; closed = true },
        close_open b after up run,
        refl,
        refl,
        ground arith,
      )
]
