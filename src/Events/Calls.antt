-- ===== src/Events/Calls.antt =====
-- Calls of the bus one after another, none of which interrupts another.
use comments_service.Prelude.{
  ℕ, ◌+◌, ◌<◌, ◌≤◌, ◌^◌, ◌≡◌, refl, Option, none, some, List, [], ◌∷◌, arith, length, Option-cases,
  inl, inr,
}
use comments_service.Domain.Ids.{PostId}
use comments_service.Application.Services.{CommentAddedEvent}
use comments_service.Events.{Bus, publish_comment_added, subscribe, remove, drop_subscriber}
use comments_service.Events.Consistent.{IsConsistent, address, subscribe-IsConsistent}
use comments_service.Events.Removal.{remove-IsConsistent}
use comments_service.Events.Delivery.{publish-delivers}

pub data Call : Type 0 where
  publishing : CommentAddedEvent → Call
  subscribing : PostId → Call
  -- The function that `once` runs for a subscriber of a post.
  removing : PostId → ℕ → Call

unfoldable pub run_call : Call → Bus → Option Bus
run_call (publishing event) b = publish_comment_added event b
run_call (subscribing post_id) b = some (subscribe post_id b).1
run_call (removing post_id id) b = remove post_id id b

unfoldable pub run_calls : List Call → Bus → Option Bus
run_calls [] b = some b
run_calls (call ∷ calls) b = elim (run_call call b) [
  | none ↦ none
  | some next ↦ run_calls calls next
]

-- A consistent bus without panic, on which at most one more subscriber has been numbered.
abbrev Goes : Call → Bus → Type 0
Goes call b =
    (b' : Bus) × (run_call call b ≡ some b') × IsConsistent b' × (b'.next_id ≤ b.next_id + 1)

subscribe_numbers :
    (b : Bus) (p : PostId) → b.next_id + 1 < 2 ^ 64 → (subscribe p b).1.next_id ≤ b.next_id + 1
unfolding subscribe
subscribe_numbers b p small = ground arith

remove-absent : (b : Bus) (p : PostId) (i : ℕ) → address b p i ≡ none → remove p i b ≡ some b
unfolding remove address
remove-absent b p i absent = ground arith

remove_numbers : (b b' : Bus) (p : PostId) (i : ℕ) → remove p i b ≡ some b' → b'.next_id ≡ b.next_id
unfolding remove drop_subscriber
remove_numbers b b' p i h = ground arith

publish_numbers :
    (b b' : Bus) (event : CommentAddedEvent)
    → publish_comment_added event b ≡ some b'
    → b'.next_id ≡ b.next_id
unfolding publish_comment_added
publish_numbers b b' event h = ground arith

goes : (call : Call) (b : Bus) → b.next_id + 1 < 2 ^ 64 → IsConsistent b → Goes call b
unfolding run_call
goes (publishing event) b small c =
    let (b', run, still, _) = publish-delivers b event c in
    (b', run, still, omega (arith, publish_numbers b b' event run))
goes (subscribing p) b small c =
    ((subscribe p b).1, refl, subscribe-IsConsistent b p small c, subscribe_numbers b p small)
goes (removing p i) b small c = elim (Option-cases (address b p i)) [
  | inl absent ↦ (b, remove-absent b p i absent, c, omega arith)
  | inr (a, there) ↦
      let (b', run, still, _) = remove-IsConsistent b p i a c there in
      (b', run, still, omega (arith, remove_numbers b b' p i run))
]

-- From a consistent bus, any sequence of publications, subscriptions and unsubscriptions, none of which
-- interrupts another, runs to its end without a panic and leaves a consistent bus, while the counter of
-- subscribers does not reach 2^64.
pub run_calls-IsConsistent :
    (calls : List Call) (b : Bus)
    → b.next_id + length calls < 2 ^ 64
    → IsConsistent b
    → (b' : Bus) × (run_calls calls b ≡ some b') × IsConsistent b'
unfolding run_calls
run_calls-IsConsistent [] b small c = (b, refl, c)
run_calls-IsConsistent (call ∷ calls) b small c =
    let (next, run, still, numbers) = goes call b (omega arith) c in
    let (b', rest, end) = run_calls-IsConsistent calls next (omega arith) still in
    (b', rw (run_calls, run) rest, end)
