-- ===== src/Graphql/Guards/Accepted.antt =====
-- Which operations the guard lets through.
use comments_service.Prelude.{
  ℕ, zero, suc, ◌+◌, ◌≤◌, ◌≡◌, ◌↔◌, ◌⊎◌, refl, sym, ◌∙◌, true, false, Option, none, some, [], arith,
  Bool-cases, inl, inr,
}
use comments_service.Prelude.Int.{ℤ, pos, negsuc, leb_ℤ}
use comments_service.Go.Text.{Text}
use comments_service.Graphql.Guards.{
  GoValue, FirstArgument, missing, invalid, evaluated, GqlError, Selections, Fragments, Verdict,
  accepted, rejected, out_of_fuel, and_then, depth_verdict, depth_limit_error, validate_depth_limit,
  int_value, check_int, validate_field_first_argument, validate_first_arguments, Operation, guard,
}
use comments_service.Graphql.Guards.Fuel.{selection_depth-full, validate_first_arguments-ends}
use comments_service.Graphql.Guards.Depth.{Chain}
use comments_service.Graphql.Guards.Longest.{selection_depth-IsDepth}
use comments_service.Graphql.Guards.First.{
  Asks, and_then-accepted, first_arguments-accepts, first_arguments-refuses,
}

leb-le_trans : (a b : ℕ) (z : ℤ) → a ≤ b → leb_ℤ (pos b) z ≡ true → leb_ℤ (pos a) z ≡ true
leb-le_trans a b (pos n) h k = ground arith
leb-le_trans a b (negsuc n) h k = ground arith

verdict-accepted :
    (max_depth : ℤ) (r : Option ℕ)
    → depth_verdict max_depth r ≡ accepted
    → (d : ℕ) × (r ≡ some d) × (leb_ℤ (pos d) max_depth ≡ true)
verdict-accepted max_depth none h = absurd (ground arith)
verdict-accepted max_depth (some d) h = (d, refl, ground arith)

verdict-rejected :
    (max_depth : ℤ) (r : Option ℕ) (e : GqlError)
    → depth_verdict max_depth r ≡ rejected e
    → (d : ℕ) × (r ≡ some d) × (e ≡ depth_limit_error) × (leb_ℤ (pos d) max_depth ≡ false)
verdict-rejected max_depth none e h = absurd (ground arith)
verdict-rejected max_depth (some d) e h = elim (Bool-cases (leb_ℤ (pos d) max_depth)) [
  | inl small ↦ absurd (ground arith)
  | inr big ↦ (d, refl, ground arith, big)
]

and_then-refused :
    (a b : Verdict) (e : GqlError)
    → and_then a b ≡ rejected e
    → (a ≡ rejected e) ⊎ ((a ≡ accepted) × (b ≡ rejected e))
and_then-refused accepted b e h = inr (refl, h)
and_then-refused (rejected f) b e h = inl h
and_then-refused out_of_fuel b e h = absurd (ground arith)

module _ (fragments : Fragments) (s : Selections) (max_depth : ℤ)
    (on : leb_ℤ max_depth (pos 0) ≡ false) where
  accepted_chains :
      validate_depth_limit fragments s max_depth ≡ accepted
      → (n : ℕ) → Chain fragments [] s n
      → leb_ℤ (pos (1 + n)) max_depth ≡ true
  unfolding validate_depth_limit
  accepted_chains h n chain =
      let (d, run, small) = verdict-accepted max_depth _ (rw (validate_depth_limit, on) at h) in
      leb-le_trans (1 + n) d max_depth
        ((selection_depth-IsDepth fragments _ 1 [] s d run).above n chain) small

  chains_accepted :
      ((n : ℕ) → Chain fragments [] s n → leb_ℤ (pos (1 + n)) max_depth ≡ true)
      → validate_depth_limit fragments s max_depth ≡ accepted
  unfolding validate_depth_limit
  chains_accepted all =
      let (d, run) = selection_depth-full fragments s in
      let (n, chain, e) = (selection_depth-IsDepth fragments _ 1 [] s d run).reached in
      rw (validate_depth_limit, on, run, e, all n chain) refl

  refused_chain :
      (e : GqlError)
      → validate_depth_limit fragments s max_depth ≡ rejected e
      → (e ≡ depth_limit_error)
        × ((n : ℕ) × Chain fragments [] s n × (leb_ℤ (pos (1 + n)) max_depth ≡ false))
  unfolding validate_depth_limit
  refused_chain e h =
      let (d, run, same, big) =
        verdict-rejected max_depth _ e (rw (validate_depth_limit, on) at h) in
      let (n, chain, deep) = (selection_depth-IsDepth fragments _ 1 [] s d run).reached in
      (same, (n, chain, rw (sym deep) big))

-- The documents whose `first` arguments the limit allows: none given, or a number from 1 to the limit.
pub data IsPermitted (atoi : Text → Option ℤ) (max_page_size : ℤ) : FirstArgument → Type 0 where
  not_given : IsPermitted atoi max_page_size missing
  within :
      (v : GoValue) (n : ℕ)
      → int_value atoi v ≡ some (pos (suc n))
      → leb_ℤ (pos (suc n)) max_page_size ≡ true
      → IsPermitted atoi max_page_size (evaluated v)

module _ (atoi : Text → Option ℤ) (max_page_size : ℤ) where
  check-IsPermitted :
      (v : GoValue) (r : Option ℤ)
      → int_value atoi v ≡ r
      → check_int atoi max_page_size r ≡ accepted
      → IsPermitted atoi max_page_size (evaluated v)
  unfolding check_int
  check-IsPermitted v none e h = absurd (ground arith)
  check-IsPermitted v (some (pos zero)) e h = absurd (ground arith)
  check-IsPermitted v (some (negsuc n)) e h = absurd (ground arith)
  check-IsPermitted v (some (pos (suc n))) e h = within v n e (ground arith)

  fine-IsPermitted :
      (a : FirstArgument)
      → validate_field_first_argument atoi max_page_size a ≡ accepted
      → IsPermitted atoi max_page_size a
  unfolding validate_field_first_argument
  fine-IsPermitted missing h = not_given
  fine-IsPermitted invalid h = absurd (ground arith)
  fine-IsPermitted (evaluated v) h = check-IsPermitted v (int_value atoi v) refl h

  permitted_fine :
      {a : FirstArgument}
      → IsPermitted atoi max_page_size a
      → validate_field_first_argument atoi max_page_size a ≡ accepted
  unfolding validate_field_first_argument check_int
  permitted_fine not_given = refl
  permitted_fine (within v n e small) =
      let positive : leb_ℤ (pos (suc n)) (pos 0) ≡ false = ground arith in
      rw (e, positive, small) refl

  module _ (max_depth : ℤ) (op : Operation) (depth_on : leb_ℤ max_depth (pos 0) ≡ false)
      (pages_on : leb_ℤ max_page_size (pos 0) ≡ false) where
    abbrev depth_part : Verdict
    depth_part = validate_depth_limit op.fragments op.selections max_depth

    abbrev pages_part : Verdict
    pages_part = validate_first_arguments atoi op.fragments op.selections max_page_size

    pages-accepted :
        pages_part ≡ accepted
        → (a : FirstArgument) → Asks op.fragments [] op.selections a
        → IsPermitted atoi max_page_size a
    unfolding validate_first_arguments
    pages-accepted h a asks = fine-IsPermitted a (
        first_arguments-accepts atoi op.fragments max_page_size _ [] op.selections a
          (rw pages_on at h) asks)

    pages-refused :
        (e : GqlError)
        → pages_part ≡ rejected e
        → (a : FirstArgument) × Asks op.fragments [] op.selections a
          × (validate_field_first_argument atoi max_page_size a ≡ rejected e)
    unfolding validate_first_arguments
    pages-refused e h =
        first_arguments-refuses atoi op.fragments max_page_size _ [] op.selections e
          (rw pages_on at h)

    conjunction : guard atoi max_depth max_page_size (some op) ≡ and_then depth_part pages_part
    unfolding guard
    conjunction = refl

    permitted-accepted :
        ((a : FirstArgument)
          → Asks op.fragments [] op.selections a
          → IsPermitted atoi max_page_size a)
        → (r : Verdict) → pages_part ≡ r
        → pages_part ≡ accepted
    permitted-accepted all accepted h = h
    permitted-accepted all (rejected e) h =
        let (a, asks, bad) = pages-refused e h in
        let clash : accepted ≡ rejected e = sym (permitted_fine (all a asks)) ∙ bad in
        absurd (ground arith)
    permitted-accepted all out_of_fuel h =
        absurd (validate_first_arguments-ends atoi op.fragments op.selections max_page_size h)

    -- With both limits set, the guard lets an operation through exactly if every chain of nested
    -- selections, from the top of the operation and through the fragments that it spreads, is within the
    -- depth limit, and every `first` argument that such a chain reaches is absent or a number from 1 to the
    -- limit on pages. A fragment counts where it is spread within itself only once.
    pub guard_iff : (guard atoi max_depth max_page_size (some op) ≡ accepted) ↔ (
        ((n : ℕ) → Chain op.fragments [] op.selections n → leb_ℤ (pos (1 + n)) max_depth ≡ true)
        × ((a : FirstArgument)
            → Asks op.fragments [] op.selections a
            → IsPermitted atoi max_page_size a))
    guard_iff = (
      (λ h.
          let (deep, wide) = and_then-accepted depth_part pages_part (sym conjunction ∙ h) in
          (
            accepted_chains op.fragments op.selections max_depth depth_on deep,
            pages-accepted wide,
          )),
      (λ (chains, permitted).
          rw (conjunction, chains_accepted op.fragments op.selections max_depth depth_on chains)
            (permitted-accepted permitted pages_part refl)),
    )

    -- With both limits set, an operation that the guard answers with an error either has a chain of
    -- selections beyond the depth limit, and the error is the one of the depth limit, or is within that limit
    -- and has a `first` argument whose own check answers this error.
    pub guard_refused :
        (e : GqlError)
        → guard atoi max_depth max_page_size (some op) ≡ rejected e
        → ((e ≡ depth_limit_error)
            × ((n : ℕ) × Chain op.fragments [] op.selections n
                × (leb_ℤ (pos (1 + n)) max_depth ≡ false)))
          ⊎ (((n : ℕ)
                → Chain op.fragments [] op.selections n
                → leb_ℤ (pos (1 + n)) max_depth ≡ true)
              × ((a : FirstArgument) × Asks op.fragments [] op.selections a
                  × (validate_field_first_argument atoi max_page_size a ≡ rejected e)))
    guard_refused e h =
        let run : and_then depth_part pages_part ≡ rejected e = sym conjunction ∙ h in
        elim (and_then-refused depth_part pages_part e run) [
          | inl deep ↦ inl (refused_chain op.fragments op.selections max_depth depth_on e deep)
          | inr (fits, wide) ↦ inr (
            accepted_chains op.fragments op.selections max_depth depth_on fits,
            pages-refused e wide,
          )
        ]
