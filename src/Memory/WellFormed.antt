-- ===== src/Memory/WellFormed.antt =====
-- What holds of a store that is only written through its repositories, and what the lists show then.
use mathlib.Core.HLevel.{¬_prop}
use mathlib.Core.Logic.Or
use mathlib.Core.List.{Mem, mem-cons, not-mem-nil, Pairwise}
use mathlib.Core.List.Pairwise
use comments_service.Prelude.{
  ℕ, ◌≡◌, ◌≢◌, sym, ◌∙◌, Bool, none, List, [], ◌∷◌, ◌==◌, arith, All, All-map, All-filter, filter,
  Bool-cases, inl, inr,
}
use comments_service.Go.Map.{Map, get, values}
use comments_service.Go.Map.Laws.{IsDistinct, Entries}
use comments_service.Domain.Ids.{UuidText, id_text, id_text-injective}
use comments_service.Domain.Comment.{Comment}
use comments_service.Memory.Store.{Store, new_store}
use comments_service.Memory.Paginate.Order.{HasDistinctIds}

-- Each map has distinct keys, and a value stands under its own identifier.
pub record IsWellFormed (s : Store) : Type 0 where
  pub posts_distinct : IsDistinct s.posts
  pub posts_keyed : Entries (λ k p. p.id ≡ k) s.posts
  pub comments_distinct : IsDistinct s.comments
  pub comments_keyed : Entries (λ k c. c.id ≡ k) s.comments

pub new_store-IsWellFormed : IsWellFormed new_store
new_store-IsWellFormed = record {
  posts_distinct = tt;
  posts_keyed = tt;
  comments_distinct = tt;
  comments_keyed = tt;
}

-- Pairwise statements by recursion, on the values of a map.
abbrev AllPairs {ℓ} : {A : Type ℓ} → (A → A → Type 0) → List A → Type 0
AllPairs R [] = Unit
AllPairs R (x ∷ xs) = All (R x) xs × AllPairs R xs

module _ {V : Type 0} (id_of : V → ℕ) where
  other_ids :
      (m : Map V) (k : ℕ)
      → get m k ≡ none
      → Entries (λ j v. id_of v ≡ j) m
      → All (λ v. id_of v ≢ k) (values m)
  unfolding get values
  other_ids [] k absent keyed = tt
  other_ids ((j, v) ∷ m) k absent keyed = elim (Bool-cases (j == k)) [
    | inl same ↦ absurd (ground arith)
    | inr other ↦ (λ e. absurd (ground arith), other_ids m k (rw other at absent) keyed.1)
  ]

  values-AllPairs :
      (m : Map V)
      → IsDistinct m
      → Entries (λ j v. id_of v ≡ j) m
      → AllPairs (λ a b. id_of a ≢ id_of b) (values m)
  unfolding values
  values-AllPairs [] d keyed = tt
  values-AllPairs ((j, v) ∷ m) d keyed = (
    All-map _ _ (values m) (λ w n e. n (sym e ∙ keyed.0)) (other_ids m j d.0 keyed.1),
    values-AllPairs m d.1 keyed.1,
  )

different :
    {A : Type 0} (f : A → ℕ) (a : A) (l : List A)
    → All (λ b. f a ≢ f b) l
    → (b : A) → Mem b l
    → f a ≢ f b
different f a [] h b m = absurd (not-mem-nil m)
different f a (x ∷ l) h b m =
    Or.elim ¬_prop (mem-cons.0 m) (λ e. rw e h.0) (λ k. different f a l h.1 b k)

Pairwise-of_AllPairs :
    {A : Type 0} (f : A → ℕ) (l : List A)
    → AllPairs (λ a b. f a ≢ f b) l
    → Pairwise (λ a b. f a ≢ f b) l
Pairwise-of_AllPairs f [] h = Pairwise.nil
Pairwise-of_AllPairs f (x ∷ l) h =
    Pairwise.cons (different f x l h.0) (Pairwise-of_AllPairs f l h.1)

filter-AllPairs :
    {A : Type 0} (R : A → A → Type 0) (p : A → Bool) (l : List A)
    → AllPairs R l
    → AllPairs R (filter p l)
filter-AllPairs R p [] h = tt
filter-AllPairs R p (x ∷ l) h = elim (Bool-cases (p x)) [
  | inl e ↦ rw e (All-filter (R x) p l h.0, filter-AllPairs R p l h.1)
  | inr e ↦ rw e (filter-AllPairs R p l h.1)
]

module _ ⦃uuid : UuidText⦄ where
  by_text : {A : Type 0} (f : A → ℕ) (a b : A) → f a ≢ f b → id_text (f a) ≢ id_text (f b)
  by_text f a b n e = n (id_text-injective (f a) (f b) e)

  -- The posts of a well-formed store have different identifiers, as texts too.
  pub posts-HasDistinctIds :
      (s : Store)
      → IsWellFormed s
      → HasDistinctIds (λ post. post.created_at) (λ post. id_text post.id) (values s.posts)
  posts-HasDistinctIds s w = Pairwise.imp (by_text (λ post. post.id)) (
      Pairwise-of_AllPairs (λ post. post.id) _
        (values-AllPairs (λ post. post.id) s.posts w.posts_distinct w.posts_keyed))

  -- So have any comments that are filtered from it.
  pub comments-HasDistinctIds :
      (p : Comment → Bool) (s : Store)
      → IsWellFormed s
      → HasDistinctIds (λ c. c.created_at) (λ c. id_text c.id) (filter p (values s.comments))
  comments-HasDistinctIds p s w = Pairwise.imp (by_text (λ c. c.id)) (
      Pairwise-of_AllPairs (λ c. c.id) _
        (filter-AllPairs _ p (values s.comments)
          (values-AllPairs (λ c. c.id) s.comments w.comments_distinct w.comments_keyed)))
