-- ===== src/Postgres/Replies.antt =====
-- What the row loops of internal/adapters/storage/postgres make of a reply: the first error that it
-- reports, wrapped, and else all rows of the answer.
use comments_service.Prelude.{
  ℕ, ◌≡◌, refl, ap, ◌∙◌, Bool, false, Option, none, some, List, [], ◌∷◌, map, All, if◌then◌else◌,
}
use comments_service.Go.Text.{Text}
use comments_service.Domain.Errors.{Error, operation, Result, ok, err, ◌>>=◌, map_ok}
use comments_service.Postgres.Database.{Rows, Delivers, IsReply, IsFirst}
use comments_service.Postgres.Posts.{wrapped, scan_all, check_ended}

module _ {R : Type 0} (scanned iterated : Text) where
  -- The first error among the rows, or the one at their end.
  abbrev pub fault : List (Result R) → Option Error → Option Error
  fault [] none = none
  fault [] (some e) = some (operation iterated e)
  fault (err e ∷ rows) ended = some (operation scanned e)
  fault (ok r ∷ rows) ended = fault rows ended

  abbrev pub reply_fault : Text → Result (Rows R) → Option Error
  reply_fault queried (err e) = some (operation queried e)
  reply_fault queried (ok reply) = fault reply.rows reply.ended

-- The error of QueryRow and Scan, where no row at all is no error.
abbrev pub row_fault : {R : Type 0} → (Error → Bool) → Text → Result R → Option Error
row_fault is_no_rows scanned (ok r) = none
row_fault is_no_rows scanned (err e) = if is_no_rows e then none else some (operation scanned e)

-- The first row, or the error where there is none.
abbrev pub first_or : {R A : Type 0} → Error → (R → A) → List R → Result A
first_or e f [] = err e
first_or e f (row ∷ rows) = ok (f row)

-- The error of a statement whose every error counts.
abbrev pub statement_fault : {R : Type 0} → Text → Result R → Option Error
statement_fault op (ok r) = none
statement_fault op (err e) = some (operation op e)

-- What a command leaves: the second if it has not failed.
abbrev pub outcome {ℓ} : {R : Type 0} {A : Type ℓ} → Result R → A → A → A
outcome (err e) old new = old
outcome (ok r) old new = new

-- The error, if there is one, and else the result.
abbrev pub unless {ℓ} : {A : Type ℓ} → Option Error → Result A → Result A
unless none r = r
unless (some e) r = err e

pub unless_congr {ℓ} :
    {A : Type ℓ} (o : Option Error) {r s : Result A} → r ≡ s → unless o r ≡ unless o s
unless_congr o h = ap (unless o) h

pub map_ok-unless {ℓ κ} :
    {A : Type ℓ} {B : Type κ} (f : A → B) (o : Option Error) (r : Result A)
    → map_ok f (unless o r) ≡ unless o (map_ok f r)
map_ok-unless f none r = refl
map_ok-unless f (some e) r = refl

bind-map_ok :
    {A B C : Type 0} (h : A → B) (k : B → Result C) (r : Result A)
    → (map_ok h r >>= k) ≡ (r >>= λ a. k (h a))
bind-map_ok h k (ok a) = refl
bind-map_ok h k (err e) = refl

module _ {R A C : Type 0} (is_no_rows : Error → Bool) (scanned iterated : Text)
    (scan : Result R → Result A) (f : R → A)
    (scan_err : (e : Error) → is_no_rows e ≡ false → scan (err e) ≡ err (operation scanned e)) where
  scanned_rows :
      (g : List A → C) (replies : List (Result R)) (ended : Option Error) (rows : List R)
      → All (λ r. scan (ok r) ≡ ok (f r)) rows
      → Delivers is_no_rows replies ended rows
      → (scan_all scan replies >>= λ items. check_ended iterated ended >>= λ end. ok (g items))
        ≡ unless (fault scanned iterated replies ended) (ok (g (map f rows)))
  unfolding scan_all
  scanned_rows g [] none [] v h = refl
  scanned_rows g [] none (r ∷ rows) v h = absurd h
  scanned_rows g [] (some e) rows v h = refl
  scanned_rows g (err e ∷ replies) ended rows v h = rw (scan_err e h) refl
  scanned_rows g (ok r ∷ replies) ended [] v h = absurd h
  scanned_rows g (ok r ∷ replies) ended (a ∷ rows) v (same, h) =
      rw (same, v.0)
        (bind-map_ok (◌∷◌ (f a)) (λ items. check_ended iterated ended >>= λ end. ok (g items))
            (scan_all scan replies)
          ∙ scanned_rows (λ items. g (f a ∷ items)) replies ended rows v.1 h)

  pub replied :
      (queried : Text) (g : List A → C) (reply : Result (Rows R)) (rows : List R)
      → All (λ r. scan (ok r) ≡ ok (f r)) rows
      → IsReply is_no_rows reply rows
      → (wrapped queried reply >>= λ answer. scan_all scan answer.rows >>= λ items.
          check_ended iterated answer.ended >>= λ end. ok (g items))
        ≡ unless (reply_fault scanned iterated queried reply) (ok (g (map f rows)))
  replied queried g (err e) rows v h = refl
  replied queried g (ok reply) rows v h = scanned_rows g reply.rows reply.ended rows v h

-- The count, or the error of its statement.
pub counted :
    (is_no_rows : Error → Bool) (op : Text) (n : ℕ) (reply : Result ℕ)
    → IsFirst is_no_rows reply (n ∷ [])
    → wrapped op reply ≡ unless (statement_fault op reply) (ok n)
counted is_no_rows op n (ok m) h = ap ok h
counted is_no_rows op n (err e) h = refl
