-- ===== src/Examples/Bus.antt =====
-- The PostgreSQL bus with two subscribers of a post, over a codec of payloads that puts a byte that is
-- no ASCII between the fields.
use comments_service.Prelude.{
  ℕ, ◌+◌, ◌^◌, ◌<◌, ◌≡◌, refl, sym, ap, ◌∙◌, true, false, none, some, List, [], ◌∷◌, ◌++◌, ◌==◌,
  All, arith, if◌then◌else◌,
}
use comments_service.Go.Text.{Text, ascii}
use comments_service.Domain.Errors.{Error, foreign, operation, Result, ok, err}
use comments_service.Domain.Ids.{PostId}
use comments_service.Events.{Bus, subscribe}
use comments_service.Events.Consistent.{IsConsistent, IsOpen, address}
use comments_service.Events.Calls.{Call, publishing, run_calls}
use comments_service.Events.Calls as Calls
use comments_service.Postgres.Bus.{
  Payload, IsAscii, PayloadJson, Turn, quiet, subscribing, removing, dispatch, notified, failed,
  stopped, payload_of, listen, close,
}
use comments_service.Postgres.Bus.Dispatch.{dispatch-interrupted}
use comments_service.Postgres.Bus.Listening.{Brings, nothing, bringing, failing, listen-publishes}
use comments_service.Postgres.Bus.Closing.{close-failed}
use comments_service.Examples.Codec.{unary_uuid}
use comments_service.Examples.Events.{
  event, two, two-IsConsistent, two_registered, left, first_leaves,
}

abbrev first_field : Text → Text
first_field [] = []
first_field (b ∷ t) = let rest = first_field t in if b == 200 then [] else b ∷ rest

abbrev other_fields : Text → Text
other_fields [] = []
other_fields (b ∷ t) = let rest = other_fields t in if b == 200 then t else rest

abbrev pub joined : Payload → Text
joined p = p.event_type ++ (200 ∷ (p.post_id ++ (200 ∷ (p.comment_id ++ (200 ∷ p.author_id)))))

abbrev pub split_up : Text → Payload
split_up t = record {
  event_type = first_field t;
  post_id = first_field (other_fields t);
  comment_id = first_field (other_fields (other_fields t));
  author_id = other_fields (other_fields (other_fields t));
}

split_first :
    (s t : Text)
    → All (λ b. b < 128) s
    → (first_field (s ++ 200 ∷ t) ≡ s) × (other_fields (s ++ 200 ∷ t) ≡ t)
split_first [] t h = (refl, refl)
split_first (b ∷ s) t h =
    let other : (b == 200) ≡ false = ground arith in
    let (first, rest) = split_first s t h.1 in rw other (ap (◌∷◌ b) first, rest)

pub split_up-joined : (p : Payload) → IsAscii p → split_up (joined p) ≡ p
split_up-joined p h =
    let ids : Text = p.comment_id ++ (200 ∷ p.author_id) in
    let (e1, r1) = split_first p.event_type (p.post_id ++ (200 ∷ ids)) h.0 in
    let (e2, r2) = split_first p.post_id ids h.1 in
    let (e3, r3) = split_first p.comment_id p.author_id h.2 in
    let post = ap first_field r1 ∙ e2 in
    let comment = ap (λ t. first_field (other_fields t)) r1 ∙ ap first_field r2 ∙ e3 in
    let author = ap (λ t. other_fields (other_fields t)) r1 ∙ ap other_fields r2 ∙ r3 in
    λ i. record {
      event_type = e1 i;
      post_id = post i;
      comment_id = comment i;
      author_id = author i;
    }

pub ok_inj : {A : Type 0} {x y : A} → ok x ≡ ok y → x ≡ y
ok_inj h = ground arith

instance unfoldable pub joined_json : PayloadJson
joined_json = record {
  marshal = λ p. ok (joined p);
  unmarshal = λ t. ok (split_up t);
  unmarshal-marshal =
      λ p t h e. ap (λ q. ok q) (ap split_up (sym (ok_inj e)) ∙ split_up-joined p h);
}

-- A wait that fails, while another subscriber comes, and then the notification of an event.
abbrev turns : List Turn
turns =
    record {
      meanwhile = subscribing event.post_id ∷ [];
      waited = failed (foreign (ascii "connection reset"));
      during = [];
    }
    ∷ quiet (notified (joined (payload_of event)))
    ∷ []

abbrev calls : List Call
calls = Calls.subscribing event.post_id ∷ publishing event ∷ []

turns-Brings : Brings turns calls
unfolding joined_json
turns-Brings =
    failing (subscribing event.post_id ∷ []) _
      (bringing [] event (joined (payload_of event)) refl nothing)

few : two.next_id + 2 < 2 ^ 64
unfolding subscribe
few = omega arith

listen-publishes_example :
    (b' : Bus) × (listen turns two ≡ some (b', false))
    × IsConsistent b'
    × (run_calls calls two ≡ some b')
listen-publishes_example = listen-publishes turns calls two turns-Brings few two-IsConsistent

dispatch-interrupted_example : dispatch event ((removing 1 1 ∷ []) ∷ []) two ≡ none
dispatch-interrupted_example = dispatch-interrupted two left event 1 0 two_registered first_leaves

abbrev timeout : Error
timeout = foreign (ascii "timeout")

two_open : two.closed ≡ false
unfolding subscribe
two_open = refl

close-failed_example :
    (b' : Bus) × (close
        (λ e. false)
        (notified (joined (payload_of event)) ∷ stopped ∷ [])
        (err timeout)
        two
      ≡ some (err (operation (ascii "close postgres event listener") timeout), b'))
    × (b'.closed ≡ true)
    × ((p : PostId) (i a : ℕ)
        → address two p i ≡ some a
        → (address b' p i ≡ some a) × IsOpen b'.channels a)
    × ((closing : Result (Unit {0}))
        → close (λ e. false) (notified (joined (payload_of event)) ∷ stopped ∷ []) closing b'
          ≡ some (ok tt, b'))
close-failed_example =
    close-failed (λ e. false) (notified (joined (payload_of event)) ∷ stopped ∷ []) two
      two-IsConsistent two_open timeout refl
