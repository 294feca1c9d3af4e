-- ===== src/Graphql/Guards/Longest.antt =====
-- What selectionDepth computes: the length of the longest chain of selections that stand in one another.
use comments_service.Prelude.{
  ℕ, zero, suc, ◌+◌, ◌≤◌, ◌⊎◌, ◌≡◌, sym, ◌∙◌, Option, none, some, List, ◌∷◌, ltb, arith, Bool-cases,
  Option-cases, inl, inr,
}
use comments_service.Go.Text.{Text}
use comments_service.Graphql.Guards.{
  Selection, field, inline_fragment, fragment_spread, Selections, nil, cons, seen, Fragments,
  DepthCall, raise, depth_loop, depth_step, selection_depth,
}
use comments_service.Graphql.Guards.Depth.{
  Chain, stop, later, in_field, in_inline, in_spread, loop-inv, loop-above, selection_depth_lem,
}

module _ (fragments : Fragments) where
  -- A chain that ends at this depth.
  abbrev pub At : List Text → Selections → ℕ → ℕ → Type 0
  At v s depth d = (n : ℕ) × Chain fragments v s n × (d ≡ depth + n)

  -- What is raised was there before, or is the new one.
  raise-cases : (m : ℕ) (r : Option ℕ) (m' : ℕ) → raise m r ≡ some m' → (m' ≡ m) ⊎ (r ≡ some m')
  raise-cases m none m' h = absurd (ground arith)
  raise-cases m (some c) m' h = elim (Bool-cases (ltb m c)) [
    | inl up ↦ inr (rw up at h)
    | inr down ↦ inl (ground arith)
  ]

  -- The chain in a selection set that starts where the selection stands, one longer.
  one_longer :
      {v w : List Text} {x : Selection} {s rest : Selections} (depth d : ℕ)
      → ((n : ℕ) → Chain fragments w s n → Chain fragments v (cons x rest) (suc n))
      → At w s (depth + 1) d
      → At v (cons x rest) depth d
  one_longer depth d grow (n, chain, e) = (suc n, grow n chain, omega arith)

  or_start :
      {w : List Text} {s : Selections} (depth d : ℕ) → (d ≡ depth) ⊎ At w s depth d → At w s depth d
  or_start depth d (inl e) = (zero, stop, omega arith)
  or_start depth d (inr a) = a

  module _ (enter : DepthCall)
      (right : (depth : ℕ) (v : List Text) (s : Selections) (d : ℕ)
        → enter depth v s ≡ some d
        → At v s depth d) where
    mutual
      unfolding depth_loop depth_step

      -- What the loop gives is what it had, or is reached by a chain.
      loop-reached :
          (s : Selections) (depth : ℕ) (v : List Text) (m d : ℕ)
          → depth_loop fragments enter depth v m s ≡ some d
          → (d ≡ m) ⊎ At v s depth d
      loop-reached nil depth v m d h = inl (ground arith)
      loop-reached (cons x rest) depth v m d h =
          let (m', e, f) = loop-inv fragments enter depth v m x rest d h in
          elim (loop-reached rest depth v m' d f) [
            | inr (n, chain, same) ↦ inr (n, later chain, same)
            | inl same ↦ elim (step-reached x rest depth v m m' e) [
              | inl before ↦ inl (same ∙ before)
              | inr (n, chain, at_depth) ↦ inr (n, chain, same ∙ at_depth)
            ]
          ]

      step-reached :
          (x : Selection) (rest : Selections) (depth : ℕ) (v : List Text) (m d : ℕ)
          → depth_step fragments enter depth v m x ≡ some d
          → (d ≡ m) ⊎ At v (cons x rest) depth d
      step-reached (field first nil) rest depth v m d h = elim (raise-cases m (some depth) d h) [
        | inl before ↦ inl before
        | inr up ↦ inr (zero, stop, ground arith)
      ]
      step-reached (field first (cons x s)) rest depth v m d h = elim (raise-cases m _ d h) [
        | inl before ↦ inl before
        | inr call ↦ inr (
            one_longer depth d (λ n c. in_field c)
              (or_start (depth + 1) d (loop-reached (cons x s) (depth + 1) v (depth + 1) d call)))
      ]
      step-reached (inline_fragment s) rest depth v m d h = elim (raise-cases m _ d h) [
        | inl before ↦ inl before
        | inr call ↦ inr (
            one_longer depth d (λ n c. in_inline c)
              (or_start (depth + 1) d (loop-reached s (depth + 1) v (depth + 1) d call)))
      ]
      step-reached (fragment_spread name) rest depth v m d h = elim (Bool-cases (seen v name)) [
        | inl old ↦ inl (ground arith)
        | inr new ↦ elim (Option-cases (fragments.for_name name)) [
          | inl unknown ↦ inl (ground arith)
          | inr (s, found) ↦
              let made : raise m (enter (depth + 1) (name ∷ v) s) ≡ some d = rw (new, found) at h in
              elim (raise-cases m _ d made) [
                | inl before ↦ inl before
                | inr call ↦ inr (
                    one_longer depth d (λ n c. in_spread name s new found c)
                      (right (depth + 1) (name ∷ v) s d call))
              ]
        ]
      ]

  depth-reached :
      (fuel depth : ℕ) (v : List Text) (s : Selections) (d : ℕ)
      → selection_depth fragments fuel depth v s ≡ some d
      → At v s depth d
  unfolding selection_depth
  depth-reached zero depth v s d h = or_start depth d (
      loop-reached (λ e w t. none) (λ e w t c none_left. absurd (ground arith)) s depth v depth d h)
  depth-reached (suc fuel) depth v s d h =
      or_start depth d
        (loop-reached (selection_depth fragments fuel) (depth-reached fuel) s depth v depth d h)

  -- What a call gives is where it starts, plus the length of the longest chain.
  pub record IsDepth (depth : ℕ) (v : List Text) (s : Selections) (d : ℕ) : Type 0 where
    pub above : (n : ℕ) → Chain fragments v s n → depth + n ≤ d
    pub reached : At v s depth d

  pub selection_depth-IsDepth :
      (fuel depth : ℕ) (v : List Text) (s : Selections) (d : ℕ)
      → selection_depth fragments fuel depth v s ≡ some d
      → IsDepth depth v s d
  selection_depth-IsDepth fuel depth v s d h = record {
    above = λ n chain.
        loop-above fragments chain fuel depth depth d
          (sym (selection_depth_lem fragments fuel depth v s) ∙ h) (omega arith);
    reached = depth-reached fuel depth v s d h;
  }
