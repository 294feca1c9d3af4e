-- ===== src/Go/Channel.antt =====
-- A Go channel with a buffer. An operation that panics gives `none`.
use comments_service.Prelude.{
  ℕ, Bool, true, false, Option, none, some, List, [], ◌∷◌, ◌++◌, ltb, length, if◌then◌else◌,
}

pub record Channel (A : Type 0) : Type 0 where
  pub buffer : List A
  pub capacity : ℕ
  pub closed : Bool

module _ {A : Type 0} where
  -- make(chan A, capacity)
  abbrev pub make : ℕ → Channel A
  make capacity = record { buffer = []; capacity = capacity; closed = false }

  -- The value is put behind the others, if there is room.
  unfoldable pub offered : A → Channel A → Channel A
  offered v ch =
      if ltb (length ch.buffer) ch.capacity then record ch { buffer = ch.buffer ++ v ∷ [] } else ch

  -- select { case ch <- v: default: }
  unfoldable pub try_send : A → Channel A → Option (Channel A)
  unfolding offered
  try_send v ch = if ch.closed then none else some (offered v ch)

  -- close(ch)
  unfoldable pub close_channel : Channel A → Option (Channel A)
  close_channel ch = if ch.closed then none else some (record ch { closed = true })
