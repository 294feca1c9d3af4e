-- ===== src/Graphql/Loaders/Groups.antt =====
-- The groups of the keys: each index stands in the group of its own key, and no index is left out.
use mathlib.Core.Logic.{∥∥₁_elim}
use mathlib.Core.List.{Perm, Permᴰ}
use comments_service.Prelude.{
  ℕ, suc, ◌+◌, ◌≤◌, ◌<◌, ◌⊎◌, ◌≡◌, refl, ap, ◌∙◌, Bool, true, false, ◌&&◌, ◌||◌, List, [], ◌∷◌,
  ◌++◌, ◌==◌, ==_refl, ==_iff, length, arith, Bool-cases, inl, inr,
}
use comments_service.Prelude.Int.{ℤ, pos, negsuc}
use comments_service.Go.Text.Order.{text_eq→eq, text_eq_refl}
use comments_service.Go.Map.{contains}
use comments_service.Graphql.Loaders.{
  CommentConnectionKey, CommentConnectionGroup, group_of, int_eq, group_eq, Grouped, append_index,
  group_from, group_comment_connection_keys, key_at,
}

int_eq→eq : (a b : ℤ) → int_eq a b ≡ true → a ≡ b
int_eq→eq (pos a) (pos b) h = ap pos ((==_iff a b).0 h)
int_eq→eq (pos a) (negsuc b) h = absurd (ground arith)
int_eq→eq (negsuc a) (pos b) h = absurd (ground arith)
int_eq→eq (negsuc a) (negsuc b) h = ap negsuc ((==_iff a b).0 h)

int_eq_refl : (a : ℤ) → int_eq a a ≡ true
int_eq_refl (pos a) = ==_refl a
int_eq_refl (negsuc a) = ==_refl a

pub and-true : (a b : Bool) → (a && b) ≡ true → (a ≡ true) × (b ≡ true)
and-true true b h = (refl, h)
and-true false b h = absurd (ground arith)

pub group_eq→eq : (g h : CommentConnectionGroup) → group_eq g h ≡ true → g ≡ h
unfolding group_eq
group_eq→eq g h same =
    let (scope, rest) = and-true _ _ same in
    let (first, after) = and-true _ _ rest in
    let s = text_eq→eq g.scope h.scope scope in
    let f = int_eq→eq g.first h.first first in
    let a = text_eq→eq g.after h.after after in
    λ i. record { scope = s i; first = f i; after = a i }

group_eq_refl : (g : CommentConnectionGroup) → group_eq g g ≡ true
unfolding group_eq
group_eq_refl g = rw (text_eq_refl g.scope, int_eq_refl g.first, text_eq_refl g.after) refl

abbrev pub all_indexes : Grouped → List ℕ
all_indexes [] = []
all_indexes ((g, indexes) ∷ grouped) = indexes ++ all_indexes grouped

contains-append :
    (xs ys : List ℕ) (i : ℕ) → contains (xs ++ ys) i ≡ (contains xs i || contains ys i)
unfolding contains
contains-append [] ys i = refl
contains-append (x ∷ xs) ys i = ground (arith, contains-append xs ys i)

module _ (keys : List CommentConnectionKey) where
  -- Each of the indexes has a key of this group.
  abbrev pub all_of_group : CommentConnectionGroup → List ℕ → Bool
  all_of_group g [] = true
  all_of_group g (index ∷ indexes) =
      group_eq (group_of (key_at keys index)) g && all_of_group g indexes

  abbrev pub proper : Grouped → Bool
  proper [] = true
  proper ((g, indexes) ∷ grouped) = all_of_group g indexes && proper grouped

  all_of_group-append :
      (g : CommentConnectionGroup) (xs : List ℕ) (index : ℕ)
      → all_of_group g (xs ++ index ∷ [])
        ≡ (all_of_group g xs && group_eq (group_of (key_at keys index)) g)
  all_of_group-append g [] index = ground arith
  all_of_group-append g (x ∷ xs) index = ground (arith, all_of_group-append g xs index)

  append_index-proper :
      (grouped : Grouped) (group : CommentConnectionGroup) (index : ℕ)
      → group_of (key_at keys index) ≡ group
      → proper (append_index grouped group index) ≡ proper grouped
  unfolding append_index
  append_index-proper [] group index e = rw (e, group_eq_refl group) refl
  append_index-proper ((g, indexes) ∷ grouped) group index e =
      elim (Bool-cases (group_eq g group)) [
        | inl same ↦
            let here : group_eq (group_of (key_at keys index)) g ≡ true =
              rw (e, group_eq→eq g group same) (group_eq_refl group) in
            rw same (ground (arith, all_of_group-append g indexes index))
        | inr other ↦ rw other (ground (arith, append_index-proper grouped group index e))
      ]

  append_index-contains :
      (grouped : Grouped) (group : CommentConnectionGroup) (index i : ℕ)
      → contains (all_indexes (append_index grouped group index)) i
        ≡ ((index == i) || contains (all_indexes grouped) i)
  unfolding append_index contains
  append_index-contains [] group index i = ground arith
  append_index-contains ((g, indexes) ∷ grouped) group index i =
      elim (Bool-cases (group_eq g group)) [
        | inl same ↦
            rw
              (
                same,
                contains-append (indexes ++ index ∷ []) (all_indexes grouped) i,
                contains-append indexes (index ∷ []) i,
                contains-append indexes (all_indexes grouped) i,
              )
              (ground arith)
        | inr other ↦
            rw
              (
                other,
                contains-append indexes (all_indexes (append_index grouped group index)) i,
                contains-append indexes (all_indexes grouped) i,
                append_index-contains grouped group index i,
              )
              (ground arith)
      ]

  group_from-proper :
      (rest : List CommentConnectionKey) (index : ℕ) (grouped : Grouped)
      → ((j : ℕ) → key_at keys (index + j) ≡ key_at rest j)
      → proper (group_from index rest grouped) ≡ proper grouped
  unfolding group_from key_at
  group_from-proper [] index grouped at = refl
  group_from-proper (key ∷ rest) index grouped at =
      group_from-proper rest (suc index) _ (λ j. ap (key_at keys) (omega arith) ∙ at (suc j))
      ∙ append_index-proper grouped (group_of key) index
          (ap (λ i. group_of (key_at keys i)) (omega arith) ∙ ap group_of (at 0))

  group_from-contains :
      (rest : List CommentConnectionKey) (index : ℕ) (grouped : Grouped) (i : ℕ)
      → (contains (all_indexes grouped) i ≡ true) ⊎ ((index ≤ i) × (i < index + length rest))
      → contains (all_indexes (group_from index rest grouped)) i ≡ true
  unfolding group_from
  group_from-contains [] index grouped i h = elim h [
    | inl known ↦ known
    | inr (from, to) ↦ absurd (omega (arith, from, to))
  ]
  group_from-contains (key ∷ rest) index grouped i h =
      group_from-contains rest (suc index) _ i
        (ground (arith, append_index-contains grouped (group_of key) index i, h))

  pub group_comment_connection_keys-proper : proper (group_comment_connection_keys keys) ≡ true
  unfolding group_comment_connection_keys
  group_comment_connection_keys-proper =
      group_from-proper keys 0 [] (λ j. ap (key_at keys) (omega arith))

  pub group_comment_connection_keys-contains :
      (i : ℕ)
      → i < length keys
      → contains (all_indexes (group_comment_connection_keys keys)) i ≡ true
  unfolding group_comment_connection_keys
  group_comment_connection_keys-contains i h =
      group_from-contains keys 0 [] i (inr (omega arith, omega (arith, h)))

  -- `range` may hand them out in any order.
  proper-permᴰ : {l r : Grouped} → Permᴰ l r → proper l ≡ proper r
  proper-permᴰ Permᴰ.nil = refl
  proper-permᴰ (Permᴰ.cons {a = a} e d) =
      rw (← e) (ap (λ b. all_of_group a.0 a.1 && b) (proper-permᴰ d))
  proper-permᴰ (Permᴰ.swap {a = a} {b = b} {l = l} e k) = rw (← e, ← k) (ground arith)
  proper-permᴰ (Permᴰ.trans d k) = proper-permᴰ d ∙ proper-permᴰ k

  pub proper-perm : {l r : Grouped} → Perm l r → proper l ≡ proper r
  proper-perm {l} {r} d =
      let is_prop : IsProp (proper l ≡ proper r) = hlevel in ∥∥₁_elim d is_prop proper-permᴰ

module _ (i : ℕ) where
  indexes-permᴰ :
      {l r : Grouped} → Permᴰ l r → contains (all_indexes l) i ≡ contains (all_indexes r) i
  indexes-permᴰ Permᴰ.nil = refl
  indexes-permᴰ (Permᴰ.cons {a = a} {l₁ = l} {l₂ = r} e d) =
      rw
        (
          ← e,
          contains-append a.1 (all_indexes l) i,
          contains-append a.1 (all_indexes r) i,
          indexes-permᴰ d,
        )
        refl
  indexes-permᴰ (Permᴰ.swap {a = a} {b = b} {l = l} e k) =
      rw
        (
          ← e,
          ← k,
          contains-append a.1 (b.1 ++ all_indexes l) i,
          contains-append b.1 (all_indexes l) i,
          contains-append b.1 (a.1 ++ all_indexes l) i,
          contains-append a.1 (all_indexes l) i,
        )
        (ground arith)
  indexes-permᴰ (Permᴰ.trans d k) = indexes-permᴰ d ∙ indexes-permᴰ k

  pub indexes-perm :
      {l r : Grouped} → Perm l r → contains (all_indexes l) i ≡ contains (all_indexes r) i
  indexes-perm {l} {r} d =
      let is_prop : IsProp (contains (all_indexes l) i ≡ contains (all_indexes r) i) = hlevel in
      ∥∥₁_elim d is_prop indexes-permᴰ
