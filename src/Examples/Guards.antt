-- ===== src/Examples/Guards.antt =====
-- A document with a fragment that spreads itself, and what the guard answers about it.
use comments_service.Prelude.{
  ℕ, ◌≡◌, ◌≢◌, refl, true, false, ◌↔◌, Option, none, some, [], ◌∷◌, if◌then◌else◌, inl, inr, ◌⊎◌,
  ◌+◌, arith, Bool-cases,
}
use comments_service.Prelude.Int.{ℤ, pos, leb_ℤ}
use comments_service.Go.Text.{Text, ascii, text_eq}
use comments_service.Graphql.Guards.{
  int, FirstArgument, missing, evaluated, Selections, nil, cons, field, fragment_spread, seen,
  Fragments, accepted, rejected, out_of_fuel, Operation, guard, depth_limit_error,
  validate_field_first_argument,
}
use comments_service.Graphql.Guards.Fuel.{guard-ends}
use comments_service.Graphql.Guards.Depth.{Chain}
use comments_service.Graphql.Guards.First.{Asks}
use comments_service.Graphql.Guards.Accepted.{IsPermitted, guard_iff, guard_refused}

abbrev thread : Text
thread = ascii "Thread"

-- fragment Thread on Comment { replies(first: 10) { ...Thread } }
abbrev thread_body : Selections
thread_body = cons (field (evaluated (int (pos 10))) (cons (fragment_spread thread) nil)) nil

known :
    (t : Text) (body : Selections) (n : Text) (s : Selections)
    → (if text_eq t n then some body else none) ≡ some s
    → seen (t ∷ []) n ≡ true
unfolding seen
known t body n s h = elim (Bool-cases (text_eq t n)) [
  | inl same ↦ rw same refl
  | inr other ↦ absurd (ground arith)
]

abbrev cyclic : Fragments
cyclic = record {
  names = thread ∷ [];
  for_name = λ n. if text_eq thread n then some thread_body else none;
  for_name-known = known thread thread_body;
}

abbrev no_numbers : Text → Option ℤ
no_numbers s = none

-- query { comments { ...Thread } }
abbrev query : Operation
query = record {
  selections = cons (field missing (cons (fragment_spread thread) nil)) nil;
  fragments = cyclic;
}

shallow : guard no_numbers (pos 2) (pos 100) (some query) ≡ rejected depth_limit_error
unfolding guard seen text_eq ascii
shallow = refl

fits : guard no_numbers (pos 5) (pos 100) (some query) ≡ accepted
unfolding guard seen text_eq ascii validate_field_first_argument
fits = refl

guard-ends_example : guard no_numbers (pos 5) (pos 100) (some query) ≢ out_of_fuel
guard-ends_example = guard-ends no_numbers (pos 5) (pos 100) (some query)

guard_iff_example : (guard no_numbers (pos 5) (pos 100) (some query) ≡ accepted) ↔ (
    ((n : ℕ) → Chain cyclic [] query.selections n → leb_ℤ (pos (1 + n)) (pos 5) ≡ true)
    × ((a : FirstArgument)
        → Asks cyclic [] query.selections a
        → IsPermitted no_numbers (pos 100) a))
guard_iff_example = guard_iff no_numbers (pos 100) (pos 5) query refl refl

guard_refused_example :
    ((depth_limit_error ≡ depth_limit_error)
      × ((n : ℕ) × Chain cyclic [] query.selections n × (leb_ℤ (pos (1 + n)) (pos 2) ≡ false)))
    ⊎ (((n : ℕ) → Chain cyclic [] query.selections n → leb_ℤ (pos (1 + n)) (pos 2) ≡ true)
        × ((a : FirstArgument) × Asks cyclic [] query.selections a
            × (validate_field_first_argument no_numbers (pos 100) a ≡ rejected depth_limit_error)))
guard_refused_example =
    guard_refused no_numbers (pos 100) (pos 2) query refl refl depth_limit_error shallow
