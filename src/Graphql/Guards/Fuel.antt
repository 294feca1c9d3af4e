-- ===== src/Graphql/Guards/Fuel.antt =====
-- The guards end on every document, also on one whose fragments name each other in a circle: a fragment is
-- entered only under a name that is not visited yet, so one entry for each name is fuel enough.
use comments_service.Prelude.{
  ℕ, zero, suc, ◌+◌, ◌≤◌, ◌<◌, ◌≡◌, ◌≢◌, refl, true, false, not, Option, none, some, List, [], ◌∷◌,
  length, filter, length-filter-le, arith, Bool-cases, Option-cases, inl, inr,
}
use comments_service.Prelude.Int.{ℤ, pos, leb_ℤ}
use comments_service.Go.Text.{Text, text_eq}
use comments_service.Go.Text.Order.{text_eq→eq, text_eq_refl}
use comments_service.Graphql.Guards.{
  FirstArgument, Selection, field, inline_fragment, fragment_spread, Selections, nil, cons, seen,
  Fragments, DepthCall, deeper, raise, depth_loop, depth_step, selection_depth, Verdict, accepted,
  rejected, out_of_fuel, and_then, validate_field_first_argument, guard, Operation, depth_verdict,
  validate_depth_limit, validate_first_arguments, first_loop, first_step, first_arguments,
}

-- The names that are not visited yet.
unfoldable pub unvisited : List Text → List Text → ℕ
unvisited names visited = length (filter (λ n. not (seen visited n)) names)

-- Visiting more leaves no more.
unvisited-cons-le :
    (names visited : List Text) (name : Text)
    → unvisited names (name ∷ visited) ≤ unvisited names visited
unfolding unvisited seen
unvisited-cons-le [] visited name = omega arith
unvisited-cons-le (n ∷ names) visited name = ground (arith, unvisited-cons-le names visited name)

-- Visiting a name of the list leaves fewer.
pub unvisited-cons-lt :
    (names visited : List Text) (name : Text)
    → seen names name ≡ true
    → seen visited name ≡ false
    → unvisited names (name ∷ visited) < unvisited names visited
unfolding unvisited seen
unvisited-cons-lt [] visited name known new = absurd (ground arith)
unvisited-cons-lt (n ∷ names) visited name known new = elim (Bool-cases (text_eq n name)) [
  | inl same ↦
      rw (text_eq→eq n name same, text_eq_refl name, new)
        (omega (arith, unvisited-cons-le names visited name))
  | inr other ↦
      let rest = unvisited-cons-lt names visited name (rw other at known) new in
      ground (arith, rest)
]

module _ (fragments : Fragments) where
  -- Entering a fragment leaves fewer names unvisited.
  entered :
      (visited : List Text) (name : Text) (s : Selections) (k : ℕ)
      → seen visited name ≡ false
      → fragments.for_name name ≡ some s
      → unvisited fragments.names visited < suc k
      → unvisited fragments.names (name ∷ visited) < k
  entered visited name s k new found small = omega (
    arith,
    unvisited-cons-lt fragments.names visited name (fragments.for_name-known name s found) new,
  )

  raise-some : (m : ℕ) (r : Option ℕ) → (d : ℕ) × (r ≡ some d) → (d : ℕ) × (raise m r ≡ some d)
  raise-some m r (d, e) = (deeper m d, rw e refl)

  -- The loop ends where the calls for fragments end.
  module _ (enter : DepthCall) (k : ℕ)
      (ends : (depth : ℕ) (v : List Text) (s : Selections)
        → unvisited fragments.names v < k
        → (d : ℕ) × (enter depth v s ≡ some d)) where
    mutual
      unfolding depth_loop depth_step

      depth_loop-ends :
          (s : Selections) (depth : ℕ) (visited : List Text) (m : ℕ)
          → unvisited fragments.names visited < suc k
          → (d : ℕ) × (depth_loop fragments enter depth visited m s ≡ some d)
      depth_loop-ends nil depth visited m small = (m, refl)
      depth_loop-ends (cons x rest) depth visited m small =
          let (m', e) = depth_step-ends x depth visited m small in
          rw (depth_loop, e) (depth_loop-ends rest depth visited m' small)

      depth_step-ends :
          (x : Selection) (depth : ℕ) (visited : List Text) (m : ℕ)
          → unvisited fragments.names visited < suc k
          → (d : ℕ) × (depth_step fragments enter depth visited m x ≡ some d)
      depth_step-ends (field first nil) depth visited m small = (deeper m depth, refl)
      depth_step-ends (field first (cons x rest)) depth visited m small =
          raise-some m _ (depth_loop-ends (cons x rest) (depth + 1) visited (depth + 1) small)
      depth_step-ends (inline_fragment s) depth visited m small =
          raise-some m _ (depth_loop-ends s (depth + 1) visited (depth + 1) small)
      depth_step-ends (fragment_spread name) depth visited m small =
          elim (Bool-cases (seen visited name)) [
            | inl old ↦ rw (depth_step, old) (m, refl)
            | inr new ↦ elim (Option-cases (fragments.for_name name)) [
              | inl unknown ↦ rw (depth_step, new, unknown) (m, refl)
              | inr (s, found) ↦
                  rw (depth_step, new, found)
                    (raise-some m _ (
                      ends (depth + 1) (name ∷ visited) s
                        (entered visited name s k new found small)))
            ]
          ]

  pub selection_depth-ends :
      (fuel depth : ℕ) (visited : List Text) (s : Selections)
      → unvisited fragments.names visited < suc fuel
      → (d : ℕ) × (selection_depth fragments fuel depth visited s ≡ some d)
  unfolding selection_depth
  selection_depth-ends zero depth visited s small =
      depth_loop-ends (λ d v t. none) zero (λ d v t none_left. absurd (omega (arith, none_left))) s
        depth visited depth small
  selection_depth-ends (suc fuel) depth visited s small =
      depth_loop-ends (selection_depth fragments fuel) (suc fuel)
        (λ d v t fewer. selection_depth-ends fuel d v t fewer) s depth visited depth small

and_then-ends : (a b : Verdict) → a ≢ out_of_fuel → b ≢ out_of_fuel → and_then a b ≢ out_of_fuel
and_then-ends accepted b p q = q
and_then-ends (rejected e) b p q = p
and_then-ends out_of_fuel b p q = p

module _ (atoi : Text → Option ℤ) (fragments : Fragments) (max_page_size : ℤ) where
  field-ends :
      (first : FirstArgument) → validate_field_first_argument atoi max_page_size first ≢ out_of_fuel
  unfolding validate_field_first_argument
  field-ends first e = ground arith

  module _ (enter : List Text → Selections → Verdict) (k : ℕ)
      (ends : (v : List Text) (s : Selections)
        → unvisited fragments.names v < k
        → enter v s ≢ out_of_fuel) where
    mutual
      unfolding first_loop first_step

      first_loop-ends :
          (s : Selections) (visited : List Text)
          → unvisited fragments.names visited < suc k
          → first_loop atoi fragments max_page_size enter visited s ≢ out_of_fuel
      first_loop-ends nil visited small = λ e. cc
      first_loop-ends (cons x rest) visited small =
          and_then-ends _ _ (first_step-ends x visited small) (first_loop-ends rest visited small)

      first_step-ends :
          (x : Selection) (visited : List Text)
          → unvisited fragments.names visited < suc k
          → first_step atoi fragments max_page_size enter visited x ≢ out_of_fuel
      first_step-ends (field first s) visited small =
          and_then-ends _ _ (field-ends first) (first_loop-ends s visited small)
      first_step-ends (inline_fragment s) visited small = first_loop-ends s visited small
      first_step-ends (fragment_spread name) visited small = elim (Bool-cases (seen visited name)) [
        | inl old ↦ rw (first_step, old) (λ e. cc)
        | inr new ↦ elim (Option-cases (fragments.for_name name)) [
          | inl unknown ↦ rw (first_step, new, unknown) (λ e. cc)
          | inr (s, found) ↦
              rw (first_step, new, found)
                (ends (name ∷ visited) s (entered fragments visited name s k new found small))
        ]
      ]

  pub first_arguments-ends :
      (fuel : ℕ) (visited : List Text) (s : Selections)
      → unvisited fragments.names visited < suc fuel
      → first_arguments atoi fragments max_page_size fuel visited s ≢ out_of_fuel
  unfolding first_arguments
  first_arguments-ends zero visited s small =
      first_loop-ends (λ v t. out_of_fuel) zero (λ v t none_left. absurd (omega (arith, none_left)))
        s visited small
  first_arguments-ends (suc fuel) visited s small =
      first_loop-ends (first_arguments atoi fragments max_page_size fuel) (suc fuel)
        (λ v t fewer. first_arguments-ends fuel v t fewer) s visited small

-- Before anything is visited, there are as many names as the list has.
unvisited-nil : (names : List Text) → unvisited names [] ≤ length names
unfolding unvisited
unvisited-nil names = length-filter-le (λ n. not (seen [] n)) names

-- One entry for each name is fuel enough.
pub selection_depth-full :
    (fragments : Fragments) (s : Selections)
    → (d : ℕ) × (selection_depth fragments (length fragments.names) 1 [] s ≡ some d)
selection_depth-full fragments s =
    selection_depth-ends fragments (length fragments.names) 1 [] s
      (omega (arith, unvisited-nil fragments.names))

depth_verdict-ends :
    (max_depth : ℤ) (r : Option ℕ)
    → (d : ℕ) × (r ≡ some d)
    → depth_verdict max_depth r ≢ out_of_fuel
depth_verdict-ends max_depth r (d, e) over = ground arith

pub validate_depth_limit-ends :
    (fragments : Fragments) (s : Selections) (max_depth : ℤ)
    → validate_depth_limit fragments s max_depth ≢ out_of_fuel
unfolding validate_depth_limit
validate_depth_limit-ends fragments s max_depth = elim (Bool-cases (leb_ℤ max_depth (pos 0))) [
  | inl off ↦ rw (validate_depth_limit, off) (λ e. cc)
  | inr on ↦
      rw (validate_depth_limit, on)
        (depth_verdict-ends max_depth _ (selection_depth-full fragments s))
]

pub validate_first_arguments-ends :
    (atoi : Text → Option ℤ) (fragments : Fragments) (s : Selections) (max_page_size : ℤ)
    → validate_first_arguments atoi fragments s max_page_size ≢ out_of_fuel
unfolding validate_first_arguments
validate_first_arguments-ends atoi fragments s max_page_size =
    elim (Bool-cases (leb_ℤ max_page_size (pos 0))) [
      | inl off ↦ rw (validate_first_arguments, off) (λ e. cc)
      | inr on ↦
          rw (validate_first_arguments, on)
            (first_arguments-ends atoi fragments max_page_size (length fragments.names) [] s
              (omega (arith, unvisited-nil fragments.names)))
    ]

-- The guard ends on every operation, also on one whose fragments name each other in a circle.
pub guard-ends :
    (atoi : Text → Option ℤ) (max_depth max_page_size : ℤ) (op : Option Operation)
    → guard atoi max_depth max_page_size op ≢ out_of_fuel
unfolding guard
guard-ends atoi max_depth max_page_size none = λ e. cc
guard-ends atoi max_depth max_page_size (some op) =
    and_then-ends _ _ (validate_depth_limit-ends op.fragments op.selections max_depth)
      (validate_first_arguments-ends atoi op.fragments op.selections max_page_size)
