-- ===== src/Graphql/Guards/First.antt =====
-- What the check of the `first` arguments says of each argument of the query.
use comments_service.Prelude.{
  ℕ, zero, suc, ◌⊎◌, ◌≡◌, refl, sym, ◌∙◌, false, Option, some, List, ◌∷◌, arith, Bool-cases,
  Option-cases, inl, inr,
}
use comments_service.Prelude.Int.{ℤ}
use comments_service.Go.Text.{Text}
use comments_service.Graphql.Guards.{
  FirstArgument, GqlError, Selection, field, inline_fragment, fragment_spread, Selections, nil,
  cons, seen, Fragments, Verdict, accepted, rejected, out_of_fuel, and_then,
  validate_field_first_argument, first_loop, first_step, first_arguments,
}

module _ (fragments : Fragments) where
  -- A field of the selections, or of a fragment that they lead to, has this argument.
  pub data Asks : List Text → Selections → FirstArgument → Type 0 where
    here :
        {v : List Text} {s rest : Selections} (first : FirstArgument)
        → Asks v (cons (field first s) rest) first
    later :
        {v : List Text} {x : Selection} {s : Selections} {a : FirstArgument}
        → Asks v s a
        → Asks v (cons x s) a
    in_field :
        {v : List Text} {first : FirstArgument} {s rest : Selections} {a : FirstArgument}
        → Asks v s a
        → Asks v (cons (field first s) rest) a
    in_inline :
        {v : List Text} {s rest : Selections} {a : FirstArgument}
        → Asks v s a
        → Asks v (cons (inline_fragment s) rest) a
    in_spread :
        {v : List Text} {rest : Selections} {a : FirstArgument} (name : Text) (s : Selections)
        → seen v name ≡ false
        → fragments.for_name name ≡ some s
        → Asks (name ∷ v) s a
        → Asks v (cons (fragment_spread name) rest) a

pub and_then-accepted : (a b : Verdict) → and_then a b ≡ accepted → (a ≡ accepted) × (b ≡ accepted)
and_then-accepted accepted b h = (refl, h)
and_then-accepted (rejected e) b h = absurd (ground arith)
and_then-accepted out_of_fuel b h = absurd (ground arith)

and_then-rejected :
    (a b : Verdict) (e : GqlError) → and_then a b ≡ rejected e → (a ≡ rejected e) ⊎ (b ≡ rejected e)
and_then-rejected accepted b e h = inr h
and_then-rejected (rejected f) b e h = inl h
and_then-rejected out_of_fuel b e h = absurd (ground arith)

module _ (atoi : Text → Option ℤ) (fragments : Fragments) (max_page_size : ℤ) where
  abbrev fine : FirstArgument → Verdict
  fine a = validate_field_first_argument atoi max_page_size a

  abbrev enter_with : ℕ → List Text → Selections → Verdict
  enter_with zero = λ v t. out_of_fuel
  enter_with (suc fuel) = first_arguments atoi fragments max_page_size fuel

  first_arguments_lem :
      (fuel : ℕ) (v : List Text) (s : Selections)
      → first_arguments atoi fragments max_page_size fuel v s
        ≡ first_loop atoi fragments max_page_size (enter_with fuel) v s
  unfolding first_arguments
  first_arguments_lem zero v s = refl
  first_arguments_lem (suc fuel) v s = refl

  spread-accepts :
      (enter : List Text → Selections → Verdict) (v : List Text) (name : Text) (s rest : Selections)
      → seen v name ≡ false
      → fragments.for_name name ≡ some s
      → first_loop atoi fragments max_page_size enter v (cons (fragment_spread name) rest)
        ≡ accepted
      → enter (name ∷ v) s ≡ accepted
  unfolding first_loop first_step
  spread-accepts enter v name s rest new found h =
      let step : first_step atoi fragments max_page_size enter v (fragment_spread name) ≡ accepted =
        (and_then-accepted _ (first_loop atoi fragments max_page_size enter v rest) h).0 in
      rw (new, found) at step

  -- Where the loop accepts, each argument is accepted.
  loop-accepts :
      {v : List Text} {s : Selections} {a : FirstArgument} (asks : Asks fragments v s a) (fuel : ℕ)
      → first_loop atoi fragments max_page_size (enter_with fuel) v s ≡ accepted
      → fine a ≡ accepted
  unfolding first_loop first_step
  loop-accepts (here first) fuel h = (and_then-accepted _ _ (and_then-accepted _ _ h).0).0
  loop-accepts (later asks) fuel h = loop-accepts asks fuel (and_then-accepted _ _ h).1
  loop-accepts (in_field asks) fuel h =
      loop-accepts asks fuel (and_then-accepted _ _ (and_then-accepted _ _ h).0).1
  loop-accepts (in_inline asks) fuel h = loop-accepts asks fuel (and_then-accepted _ _ h).0
  loop-accepts {v} (in_spread {rest = rest} name s new found asks) zero h =
      let never : out_of_fuel ≡ accepted =
        spread-accepts (λ w t. out_of_fuel) v name s rest new found h in
      absurd (ground arith)
  loop-accepts {v} (in_spread {rest = rest} name s new found asks) (suc fuel) h =
      loop-accepts asks fuel (
        sym (first_arguments_lem fuel (name ∷ v) s)
        ∙ spread-accepts (first_arguments atoi fragments max_page_size fuel) v name s rest new found
            h)

  -- Where a check refuses, it refuses for an argument of the query.
  module _ (enter : List Text → Selections → Verdict)
      (right : (v : List Text) (s : Selections) (e : GqlError)
        → enter v s ≡ rejected e
        → (a : FirstArgument) × Asks fragments v s a × (fine a ≡ rejected e)) where
    mutual
      unfolding first_loop first_step

      loop-refuses :
          (s : Selections) (v : List Text) (e : GqlError)
          → first_loop atoi fragments max_page_size enter v s ≡ rejected e
          → (a : FirstArgument) × Asks fragments v s a × (fine a ≡ rejected e)
      loop-refuses nil v e h = absurd (ground arith)
      loop-refuses (cons x rest) v e h = elim (and_then-rejected _ _ e h) [
        | inl now ↦ step-refuses x rest v e now
        | inr then_after ↦
            let (a, asks, bad) = loop-refuses rest v e then_after in (a, later asks, bad)
      ]

      step-refuses :
          (x : Selection) (rest : Selections) (v : List Text) (e : GqlError)
          → first_step atoi fragments max_page_size enter v x ≡ rejected e
          → (a : FirstArgument) × Asks fragments v (cons x rest) a × (fine a ≡ rejected e)
      step-refuses (field first s) rest v e h = elim (and_then-rejected _ _ e h) [
        | inl now ↦ (first, here first, now)
        | inr then_after ↦
            let (a, asks, bad) = loop-refuses s v e then_after in (a, in_field asks, bad)
      ]
      step-refuses (inline_fragment s) rest v e h =
          let (a, asks, bad) = loop-refuses s v e h in (a, in_inline asks, bad)
      step-refuses (fragment_spread name) rest v e h = elim (Bool-cases (seen v name)) [
        | inl old ↦ absurd (ground arith)
        | inr new ↦ elim (Option-cases (fragments.for_name name)) [
          | inl unknown ↦ absurd (ground arith)
          | inr (s, found) ↦
              let inner : enter (name ∷ v) s ≡ rejected e = rw (new, found) at h in
              let (a, asks, bad) = right (name ∷ v) s e inner in
              (a, in_spread name s new found asks, bad)
        ]
      ]

  pub first_arguments-accepts :
      (fuel : ℕ) (v : List Text) (s : Selections) (a : FirstArgument)
      → first_arguments atoi fragments max_page_size fuel v s ≡ accepted
      → Asks fragments v s a
      → fine a ≡ accepted
  first_arguments-accepts fuel v s a h asks =
      loop-accepts asks fuel (sym (first_arguments_lem fuel v s) ∙ h)

  pub first_arguments-refuses :
      (fuel : ℕ) (v : List Text) (s : Selections) (e : GqlError)
      → first_arguments atoi fragments max_page_size fuel v s ≡ rejected e
      → (a : FirstArgument) × Asks fragments v s a × (fine a ≡ rejected e)
  unfolding first_arguments
  first_arguments-refuses zero v s e h =
      loop-refuses (λ w t. out_of_fuel) (λ w t f never. absurd (ground arith)) s v e h
  first_arguments-refuses (suc fuel) v s e h =
      loop-refuses (first_arguments atoi fragments max_page_size fuel)
        (first_arguments-refuses fuel) s v e h
