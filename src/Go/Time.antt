-- ===== src/Go/Time.antt =====
-- time.Time: an instant and a location. The monotonic clock reading is not modelled.
use comments_service.Prelude.{ℕ, ◌*◌, ◌^◌, Bool, ◌==◌, ltb}

-- `instant` counts nanoseconds from the earliest instant that a time.Time holds, 2^63 seconds before
-- the zero time; `zone` stands for the location, 0 for UTC.
pub record Time : Type 0 where
  pub instant : ℕ
  pub zone : ℕ

-- January 1, year 1, 00:00:00 UTC. The numeral stays shut.
unfoldable pub zero_instant : ℕ
zero_instant = 2 ^ 63 * 1_000_000_000

-- t.IsZero()
unfoldable pub is_zero : Time → Bool
is_zero t = t.instant == zero_instant

-- t.UTC()
unfoldable pub utc : Time → Time
utc t = record t { zone = 0 }

-- t.Before(u)
unfoldable pub before : Time → Time → Bool
before t u = ltb t.instant u.instant

-- t.After(u)
unfoldable pub after : Time → Time → Bool
after t u = ltb u.instant t.instant

-- t.Equal(u)
unfoldable pub equal : Time → Time → Bool
equal t u = t.instant == u.instant
