-- ===== src/Graphql/Guards/Depth.antt =====
-- Chains of selections that stand in one another, and why selectionDepth is above the length of each.
use comments_service.Prelude.{
  ℕ, zero, suc, ◌+◌, ◌≤◌, ◌≡◌, refl, sym, ◌∙◌, false, Option, none, some, List, ◌∷◌, arith,
  Bool-cases, Option-cases, inl, inr,
}
use comments_service.Go.Text.{Text}
use comments_service.Graphql.Guards.{
  FirstArgument, Selection, field, inline_fragment, fragment_spread, Selections, nil, cons, seen,
  Fragments, DepthCall, deeper, raise, then_with, depth_loop, depth_step, selection_depth,
}

module _ (fragments : Fragments) where
  -- `n` selections that stand in one another: fields that have a selection set, inline fragments, and
  -- spreads of fragments that are defined and not in use already.
  pub data Chain : List Text → Selections → ℕ → Type 0 where
    stop : {v : List Text} {s : Selections} → Chain v s zero
    later :
        {v : List Text} {x : Selection} {s : Selections} {n : ℕ}
        → Chain v s n
        → Chain v (cons x s) n
    in_field :
        {v : List Text} {first : FirstArgument} {x : Selection} {s rest : Selections} {n : ℕ}
        → Chain v (cons x s) n
        → Chain v (cons (field first (cons x s)) rest) (suc n)
    in_inline :
        {v : List Text} {s rest : Selections} {n : ℕ}
        → Chain v s n
        → Chain v (cons (inline_fragment s) rest) (suc n)
    in_spread :
        {v : List Text} {rest : Selections} {n : ℕ} (name : Text) (s : Selections)
        → seen v name ≡ false
        → fragments.for_name name ≡ some s
        → Chain (name ∷ v) s n
        → Chain v (cons (fragment_spread name) rest) (suc n)

  pub raise-inv :
      (m : ℕ) (r : Option ℕ) (d : ℕ)
      → raise m r ≡ some d
      → (c : ℕ) × (r ≡ some c) × (d ≡ deeper m c)
  raise-inv m none d h = absurd (ground arith)
  raise-inv m (some c) d h = (c, refl, ground arith)

  then_with-inv :
      (r : Option ℕ) (f : ℕ → Option ℕ) (d : ℕ)
      → then_with r f ≡ some d
      → (m : ℕ) × (r ≡ some m) × (f m ≡ some d)
  then_with-inv none f d h = absurd (ground arith)
  then_with-inv (some m) f d h = (m, refl, h)

  -- The call for a fragment that selectionDepth makes with this fuel.
  abbrev pub enter_with : ℕ → DepthCall
  enter_with zero = λ d v t. none
  enter_with (suc fuel) = selection_depth fragments fuel

  pub selection_depth_lem :
      (fuel depth : ℕ) (v : List Text) (s : Selections)
      → selection_depth fragments fuel depth v s
        ≡ depth_loop fragments (enter_with fuel) depth v depth s
  unfolding selection_depth
  selection_depth_lem zero depth v s = refl
  selection_depth_lem (suc fuel) depth v s = refl

  -- The loop goes on from what the first selection gives.
  pub loop-inv :
      (enter : DepthCall) (depth : ℕ) (v : List Text) (m : ℕ) (x : Selection) (rest : Selections)
      (d : ℕ)
      → depth_loop fragments enter depth v m (cons x rest) ≡ some d
      → (m' : ℕ) × (depth_step fragments enter depth v m x ≡ some m')
        × (depth_loop fragments enter depth v m' rest ≡ some d)
  unfolding depth_loop
  loop-inv enter depth v m x rest d h = then_with-inv _ _ d h

  -- The greatest depth does not fall.
  step-grows :
      (enter : DepthCall) (depth : ℕ) (v : List Text) (m : ℕ) (x : Selection) (m' : ℕ)
      → depth_step fragments enter depth v m x ≡ some m'
      → m ≤ m'
  unfolding depth_step
  step-grows enter depth v m (field first nil) m' h = ground arith
  step-grows enter depth v m (field first (cons x s)) m' h =
      let (c, _, e) = raise-inv m _ m' h in ground arith
  step-grows enter depth v m (inline_fragment s) m' h =
      let (c, _, e) = raise-inv m _ m' h in ground arith
  step-grows enter depth v m (fragment_spread name) m' h = elim (Bool-cases (seen v name)) [
    | inl old ↦ ground arith
    | inr new ↦ elim (Option-cases (fragments.for_name name)) [
      | inl unknown ↦ ground arith
      | inr (s, found) ↦
          let call : raise m (enter (depth + 1) (name ∷ v) s) ≡ some m' = rw (new, found) at h in
          let (c, _, e) = raise-inv m _ m' call in ground arith
    ]
  ]

  loop-grows :
      (enter : DepthCall) (depth : ℕ) (v : List Text) (m : ℕ) (s : Selections) (d : ℕ)
      → depth_loop fragments enter depth v m s ≡ some d
      → m ≤ d
  unfolding depth_loop
  loop-grows enter depth v m nil d h = ground arith
  loop-grows enter depth v m (cons x rest) d h =
      let (m', e, f) = loop-inv enter depth v m x rest d h in
      omega (arith, step-grows enter depth v m x m' e, loop-grows enter depth v m' rest d f)

  -- What the first selection contributes, the loop gives at least.
  loop-ge :
      (enter : DepthCall) (depth : ℕ) (v : List Text) (m : ℕ) (x : Selection) (rest : Selections)
      (d c : ℕ)
      → depth_loop fragments enter depth v m (cons x rest) ≡ some d
      → depth_step fragments enter depth v m x ≡ some (deeper m c)
      → c ≤ d
  loop-ge enter depth v m x rest d c h step =
      let (m', e, f) = loop-inv enter depth v m x rest d h in
      let same : some m' ≡ some (deeper m c) = sym e ∙ step in
      ground (arith, loop-grows enter depth v m' rest d f)

  -- No chain goes deeper than what the loop gives.
  pub loop-above :
      {v : List Text} {s : Selections} {n : ℕ} (chain : Chain v s n) (fuel depth m d : ℕ)
      → depth_loop fragments (enter_with fuel) depth v m s ≡ some d
      → depth ≤ m
      → depth + n ≤ d
  unfolding depth_step
  loop-above {v} {s} stop fuel depth m d h low =
      omega (arith, loop-grows (enter_with fuel) depth v m s d h)
  loop-above {v} (later {x = x} {s = rest} chain) fuel depth m d h low =
      let (m', e, f) = loop-inv (enter_with fuel) depth v m x rest d h in
      loop-above chain fuel depth m' d f
        (omega (arith, step-grows (enter_with fuel) depth v m x m' e))
  loop-above {v} (in_field {first = first} {x = x} {s = s} {rest = rest} chain) fuel depth m d h
        low =
      let (m', e, f) = loop-inv (enter_with fuel) depth v m (field first (cons x s)) rest d h in
      let (c, call, up) = raise-inv m _ m' e in
      let inner = loop-above chain fuel (depth + 1) (depth + 1) c call (omega arith) in
      ground (arith, inner, loop-grows (enter_with fuel) depth v m' rest d f)
  loop-above {v} (in_inline {s = s} {rest = rest} chain) fuel depth m d h low =
      let (m', e, f) = loop-inv (enter_with fuel) depth v m (inline_fragment s) rest d h in
      let (c, call, up) = raise-inv m _ m' e in
      let inner = loop-above chain fuel (depth + 1) (depth + 1) c call (omega arith) in
      ground (arith, inner, loop-grows (enter_with fuel) depth v m' rest d f)
  loop-above {v} (in_spread {rest = rest} name s new found chain) zero depth m d h low =
      let (m', e, f) = loop-inv (enter_with zero) depth v m (fragment_spread name) rest d h in
      let made : raise m (enter_with zero (depth + 1) (name ∷ v) s) ≡ some m' =
        rw (new, found) at e in
      absurd (ground arith)
  loop-above {v} (in_spread {rest = rest} name s new found chain) (suc fuel) depth m d h low =
      let (m', e, f) = loop-inv (enter_with (suc fuel)) depth v m (fragment_spread name) rest d h in
      let made : raise m (selection_depth fragments fuel (depth + 1) (name ∷ v) s) ≡ some m' =
        rw (new, found) at e in
      let (c, call, up) = raise-inv m _ m' made in
      let loop = sym (selection_depth_lem fuel (depth + 1) (name ∷ v) s) ∙ call in
      let inner = loop-above chain fuel (depth + 1) (depth + 1) c loop (omega arith) in
      ground (arith, inner, loop-grows (enter_with (suc fuel)) depth v m' rest d f)
