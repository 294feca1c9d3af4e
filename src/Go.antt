-- ===== src/Go.antt =====
-- What the service uses of Go's language and standard library: strings as byte sequences, time.Time,
-- maps and sort.Slice.
pub mod Text
pub mod Time
pub mod Map
pub mod Sort
pub mod Channel
pub mod Base64
