-- ===== src/Examples/Codec.antt =====
-- Small codecs that have the properties which the model relies on.
use comments_service.Prelude.{
  ℕ, zero, suc, ◌+◌, ◌<◌, ◌≡◌, ◌≢◌, refl, ap, sym, Bool, true, ◌&&◌, Option, none, some, [], ◌∷◌,
  arith, All, ltb, ltb→lt, replicate, if◌then◌else◌, ◌==◌, length,
}
use comments_service.Go.Text.{Text, ascii}
use comments_service.Domain.Errors.{Result, ok, err, foreign}
use comments_service.Domain.Ids.{Uuid, UuidText}
use comments_service.Domain.Pagination.{Cursor, CursorJson}

-- An identifier is written as one letter more than its number.
abbrev pub letters : Uuid → Text
letters u = replicate {A = ℕ} (suc u) 97

abbrev count_letters : Text → Option Uuid
count_letters [] = none
count_letters (b ∷ t) = some (length t)

pub length-letters : (n : ℕ) → length {A = ℕ} (replicate n 97) ≡ n
length-letters zero = refl
length-letters (suc n) = ap suc (length-letters n)

pub replicate-IsAscii : (n : ℕ) → All (λ b. b < 128) (replicate n 97)
replicate-IsAscii zero = tt
replicate-IsAscii (suc n) = (omega arith, replicate-IsAscii n)

pub letters-ne-nil : (u : Uuid) → letters u ≢ []
letters-ne-nil u e = absurd (ground arith)

instance unfoldable pub unary_uuid : UuidText
unary_uuid = record {
  parse = count_letters;
  format = letters;
  parse-format = λ u. ap some (length-letters u);
  format_ascii = λ u. replicate-IsAscii (suc u);
  format-ne-nil = letters-ne-nil;
}

-- A cursor is written as as many ones as its instant says, a zero, and its id.
abbrev unary : ℕ → Text → Text
unary zero id = 0 ∷ id
unary (suc n) id = 1 ∷ unary n id

abbrev read_unary : ℕ → Text → Option Cursor
read_unary n [] = none
read_unary n (b ∷ t) =
    let rest = read_unary (suc n) t in
    if b == 0 then some (record { created_at = record { instant = n; zone = 0 }; id = t }) else rest

abbrev all_small : Text → Bool
all_small [] = true
all_small (b ∷ t) = ltb b 256 && all_small t

abbrev write_cursor : Cursor → Result Text
write_cursor c =
    if all_small c.id then ok (unary c.created_at.instant c.id) else err (foreign (ascii "id"))

all_small-IsBytes : (t : Text) → all_small t ≡ true → All (λ b. b < 256) t
all_small-IsBytes [] h = tt
all_small-IsBytes (b ∷ t) h = (ltb→lt b 256 (ground arith), all_small-IsBytes t (ground arith))

pub unary-IsBytes : (n : ℕ) (id : Text) → all_small id ≡ true → All (λ b. b < 256) (unary n id)
unary-IsBytes zero id h = (omega arith, all_small-IsBytes id h)
unary-IsBytes (suc n) id h = (omega arith, unary-IsBytes n id h)

pub unary-ne-nil : (n : ℕ) (id : Text) → unary n id ≢ []
unary-ne-nil zero id e = absurd (ground arith)
unary-ne-nil (suc n) id e = absurd (ground arith)

pub read_unary-unary :
    (k n m : ℕ) (id : Text)
    → n + k ≡ m
    → read_unary k (unary n id)
      ≡ some (record { created_at = record { instant = m; zone = 0 }; id = id })
read_unary-unary k zero m id e =
    let same : k ≡ m = omega arith in
    ap (λ i. some (record { created_at = record { instant = i; zone = 0 }; id = id })) same
read_unary-unary k (suc n) m id e = read_unary-unary (suc k) n m id (omega arith)

-- What was written was written by `unary`.
pub written :
    (c : Cursor) (t : Text)
    → write_cursor c ≡ ok t
    → (all_small c.id ≡ true) × (t ≡ unary c.created_at.instant c.id)
written c t h = (ground arith, ground arith)

instance unfoldable pub unary_json : CursorJson
unary_json = record {
  marshal = write_cursor;
  unmarshal = read_unary 0;
  marshal-IsBytes = λ c t h.
      let (small, e) = written c t h in rw e (unary-IsBytes c.created_at.instant c.id small);
  marshal-ne-nil =
      λ c t h. let (small, e) = written c t h in rw e (unary-ne-nil c.created_at.instant c.id);
  unmarshal-marshal = λ c t p h.
      let (small, e) = written c t h in
      rw (e, read_unary-unary 0 c.created_at.instant c.created_at.instant c.id (omega arith))
        (ap
          (λ z. some (record {
            created_at = record { instant = c.created_at.instant; zone = z };
            id = c.id;
          }))
          (sym p.0));
}
