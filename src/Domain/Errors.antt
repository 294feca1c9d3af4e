-- ===== src/Domain/Errors.antt =====
-- internal/domain/errors.go: the error types, and Go's pair of a value and an error as one result.
use comments_service.Prelude.{
  ◌≡◌, refl, ◌⊎◌, inl, inr, Bool, true, false, Option, none, some, [], ◌++◌, if◌then◌else◌,
}
use comments_service.Go.Text.{Text, ascii, text_eq}

-- A value of Go's `error` that the service meets. An OperationError whose Err is nil is
-- `operation_alone`; `missing_registry` is txctx's error, `foreign` any error of another package, by
-- its text.
pub data Error : Type 0 where
  validation : Text → Text → Error
  not_found : Text → Text → Error
  forbidden : Text → Text → Error
  conflict : Text → Text → Error
  operation : Text → Error → Error
  operation_alone : Text → Error
  missing_registry : Error
  foreign : Text → Error

-- field + ": " + message, or the message alone where the field is empty
abbrev labelled : Text → Text → Text
labelled label message = if text_eq label [] then message else label ++ ascii ": " ++ message

-- err.Error()
unfoldable pub error_text : Error → Text
error_text (validation field message) = labelled field message
error_text (not_found resource id) =
    if text_eq id [] then resource ++ ascii " not found" else resource ++ ascii " not found: " ++ id
error_text (forbidden action resource) = ascii "forbidden: " ++ action ++ ascii " on " ++ resource
error_text (conflict resource message) = labelled resource message
error_text (operation op cause) = op ++ ascii ": " ++ error_text cause
error_text (operation_alone op) = op
error_text missing_registry = ascii "after-commit registry is missing from context"
error_text (foreign message) = message

-- err.Code(), for the types that have it
unfoldable pub error_code : Error → Option Text
error_code (validation field message) = some (ascii "VALIDATION")
error_code (not_found resource id) = some (ascii "NOT_FOUND")
error_code (forbidden action resource) = some (ascii "FORBIDDEN")
error_code (conflict resource message) = some (ascii "CONFLICT")
error_code _ = none

-- err.Unwrap(); nil where the type has no such method
unfoldable pub unwrap : Error → Option Error
unwrap (operation op cause) = some cause
unwrap _ = none

pub data Result {ℓ} (A : Type ℓ) : Type ℓ where
  ok : A → Result A
  err : Error → Result A

infixl 5 ◌>>=◌
abbrev pub ◌>>=◌ {ℓ κ} : {A : Type ℓ} {B : Type κ} → Result A → (A → Result B) → Result B
ok a >>= f = f a
err e >>= f = err e

abbrev pub map_ok {ℓ κ} : {A : Type ℓ} {B : Type κ} → (A → B) → Result A → Result B
map_ok f (ok a) = ok (f a)
map_ok f (err e) = err e

-- if !test { return err }
abbrev pub require {ℓ} : {A : Type ℓ} → Bool → Error → Result A → Result A
require true e rest = rest
require false e rest = err e

pub Result-cases {ℓ} :
    {A : Type ℓ} (r : Result A) → ((a : A) × (r ≡ ok a)) ⊎ ((e : Error) × (r ≡ err e))
Result-cases (ok a) = inl (a, refl)
Result-cases (err e) = inr (e, refl)
