-- ===== src/Graphql/Request.antt =====
-- internal/adapters/graphql/actor.go and request_state.go: what a request carries in its context.
use comments_service.Prelude.{ℕ, Bool, true, false, Option, none, some, [], if◌then◌else◌}
use comments_service.Go.Text.{Text, ascii, text_eq}
use comments_service.Go.Map.{Map, get, put}
use comments_service.Domain.Errors.{Error, validation, operation_alone, Result, ok, err}
use comments_service.Domain.Ids.{UserId, UuidText, nil_uuid}

abbrev pub actor_header : Text
actor_header = ascii "X-Actor-ID"

-- actorState; of the error only whether there is one is read.
pub record ActorState : Type 0 where
  pub actor : UserId
  pub failed : Bool
  pub set : Bool

-- The state of a header that is present.
abbrev pub parsed_state : Option UserId → ActorState
parsed_state none = record { actor = nil_uuid; failed = true; set = true }
parsed_state (some actor) = record { actor = actor; failed = false; set = true }

-- withActorHeader, as the value that it puts in the context, or none.
unfoldable pub with_actor_header : ⦃uuid : UuidText⦄ → Text → Option ActorState
with_actor_header ⦃uuid⦄ raw = if text_eq raw [] then none else some (parsed_state (uuid.parse raw))

abbrev pub header_required : Error
header_required = validation actor_header (ascii "header is required")

abbrev pub header_invalid : Error
header_invalid = validation actor_header (ascii "must be a valid UUID")

unfoldable pub actor_from_context : Option ActorState → Result UserId
actor_from_context none = err header_required
actor_from_context (some state) =
    if state.set
    then if state.failed then err header_invalid else ok state.actor
    else err header_required

-- countResolver, over a world `W`.
abbrev pub CountResolver : Type 0 → Type 0
CountResolver W = W → Result ℕ × W

-- requestState, without its loaders; a connection is known by its address.
pub record RequestState (W : Type 0) : Type 0 where
  pub post_connection_resolvers : Map (CountResolver W)
  pub comment_count_resolvers : Map (CountResolver W)

-- A request in progress: the world, and what its context holds.
pub record Request (W : Type 0) : Type 0 where
  pub world : W
  pub actor : Option ActorState
  pub state : Option (RequestState W)

abbrev pub state_missing : Error
state_missing = operation_alone (ascii "graphql request state is missing")

module _ {W : Type 0} where
  -- withRequestState, with what withActorHeader has put in the context.
  unfoldable pub with_request_state : W → Option ActorState → Request W
  with_request_state world actor = record {
    world = world;
    actor = actor;
    state = some (record { post_connection_resolvers = []; comment_count_resolvers = [] });
  }

  unfoldable pub request_state_from_context : Request W → Result (RequestState W)
  request_state_from_context r = elim r.state [ none ↦ err state_missing | some state ↦ ok state ]

  -- What registering leaves, once the state is read.
  unfoldable pub register_post_connection_resolver :
      ℕ → CountResolver W → Request W → Result (Unit {0}) × Request W
  unfolding request_state_from_context
  register_post_connection_resolver obj resolver r = elim (request_state_from_context r) [
    | err e ↦ (err e, r)
    | ok state ↦ (
      ok tt,
      record r {
        state = some (record state {
          post_connection_resolvers = put state.post_connection_resolvers obj resolver;
        });
      },
    )
  ]

  unfoldable pub register_comment_connection_resolver :
      ℕ → CountResolver W → Request W → Result (Unit {0}) × Request W
  unfolding request_state_from_context
  register_comment_connection_resolver obj resolver r = elim (request_state_from_context r) [
    | err e ↦ (err e, r)
    | ok state ↦ (
      ok tt,
      record r {
        state = some (record state {
          comment_count_resolvers = put state.comment_count_resolvers obj resolver;
        });
      },
    )
  ]

  -- The call of a resolver that was found or not.
  abbrev pub call_resolver : Text → Option (CountResolver W) → Request W → Result ℕ × Request W
  call_resolver missing none r = (err (operation_alone missing), r)
  call_resolver missing (some resolver) r =
      let (count, w) = resolver r.world in (count, record r { world = w })

  unfoldable pub resolve_post_connection_count : ℕ → Request W → Result ℕ × Request W
  unfolding request_state_from_context
  resolve_post_connection_count obj r = elim (request_state_from_context r) [
    | err e ↦ (err e, r)
    | ok state ↦
        call_resolver (ascii "post connection resolver is missing")
          (get state.post_connection_resolvers obj) r
  ]

  unfoldable pub resolve_comment_connection_count : ℕ → Request W → Result ℕ × Request W
  unfolding request_state_from_context
  resolve_comment_connection_count obj r = elim (request_state_from_context r) [
    | err e ↦ (err e, r)
    | ok state ↦
        call_resolver (ascii "comment connection resolver is missing")
          (get state.comment_count_resolvers obj) r
  ]
