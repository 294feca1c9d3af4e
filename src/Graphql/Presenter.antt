-- ===== src/Graphql/Presenter.antt =====
-- internal/adapters/graphql/errors.go: the errors that a client sees.
use comments_service.Prelude.{Bool, true, false, Option, none, some, [], ◌∷◌, ◌++◌, if◌then◌else◌}
use comments_service.Go.Text.{Text, ascii, text_eq}
use comments_service.Domain.Errors.{
  Error, validation, not_found, forbidden, conflict, operation, error_text, error_code,
}

-- gqlerror.Error, with what the presenter reads and writes of it.
pub record Presented : Type 0 where
  pub message : Text
  pub code : Option Text
  pub field : Option Text

-- errors.AsType: the first error of a kind, from an error along what it unwraps to. A kind is a test on
-- one error.
abbrev pub is_validation : Error → Bool
is_validation (validation field message) = true
is_validation _ = false

abbrev pub is_not_found : Error → Bool
is_not_found (not_found resource id) = true
is_not_found _ = false

abbrev pub is_forbidden : Error → Bool
is_forbidden (forbidden action resource) = true
is_forbidden _ = false

abbrev pub is_conflict : Error → Bool
is_conflict (conflict resource message) = true
is_conflict _ = false

unfoldable pub as_type : (Error → Bool) → Error → Option Error
as_type kind (operation op cause) =
    let rest = as_type kind cause in
    if kind (operation op cause) then some (operation op cause) else rest
as_type kind e = if kind e then some e else none

-- What is shown of a domain error that AsType has found.
abbrev pub shown : Error → Presented
shown (validation field message) = record {
  message = message;
  code = error_code (validation field message);
  field = if text_eq field [] then none else some field;
}
shown e = record { message = error_text e; code = error_code e; field = none }

abbrev pub internal_error : Presented
internal_error = record {
  message = ascii "internal server error";
  code = some (ascii "INTERNAL");
  field = none;
}

-- newErrorPresenter. `presented` is the answer of gqlgen's DefaultErrorPresenter. A gqlerror.Error may wrap
-- an error and unwraps to it: `e` is the error without such wrappers, and `is_gqlerror` says whether AsType
-- finds one around it.
unfoldable pub present : Presented → (Error → Bool) → Error → Presented
unfolding as_type error_text error_code
present presented is_gqlerror e = elim presented.code [
  | some code ↦ presented
  | none ↦ elim (as_type is_validation e) [
    | some found ↦ shown found
    | none ↦ elim (as_type is_not_found e) [
      | some found ↦ shown found
      | none ↦ elim (as_type is_forbidden e) [
        | some found ↦ shown found
        | none ↦ elim (as_type is_conflict e) [
          | some found ↦ shown found
          | none ↦
              if is_gqlerror e
              then record presented { code = some (ascii "GRAPHQL_ERROR") }
              else internal_error
        ]
      ]
    ]
  ]
]

-- newRecoverFunc: the error for a panic.
abbrev pub recovered_error : Presented
recovered_error = internal_error

-- The error at the bottom of an OperationError.
abbrev pub root : Error → Error
root (operation op cause) = root cause
root e = e

-- What a client is to see of an error that wraps no other, written out. `gql` says whether it stands in a
-- gqlerror.Error, and `presented` is gqlgen's answer.
unfoldable pub client_view : Presented → Bool → Error → Presented
client_view presented gql (validation [] message) = record {
  message = message;
  code = some (ascii "VALIDATION");
  field = none;
}
client_view presented gql (validation (b ∷ field) message) = record {
  message = message;
  code = some (ascii "VALIDATION");
  field = some (b ∷ field);
}
client_view presented gql (not_found resource []) = record {
  message = resource ++ ascii " not found";
  code = some (ascii "NOT_FOUND");
  field = none;
}
client_view presented gql (not_found resource (b ∷ id)) = record {
  message = resource ++ ascii " not found: " ++ (b ∷ id);
  code = some (ascii "NOT_FOUND");
  field = none;
}
client_view presented gql (forbidden action resource) = record {
  message = ascii "forbidden: " ++ action ++ ascii " on " ++ resource;
  code = some (ascii "FORBIDDEN");
  field = none;
}
client_view presented gql (conflict [] message) = record {
  message = message;
  code = some (ascii "CONFLICT");
  field = none;
}
client_view presented gql (conflict (b ∷ resource) message) = record {
  message = (b ∷ resource) ++ ascii ": " ++ message;
  code = some (ascii "CONFLICT");
  field = none;
}
client_view presented true _ = record {
  message = presented.message;
  code = some (ascii "GRAPHQL_ERROR");
  field = presented.field;
}
client_view presented false _ = record {
  message = ascii "internal server error";
  code = some (ascii "INTERNAL");
  field = none;
}
