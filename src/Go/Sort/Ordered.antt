-- ===== src/Go/Sort/Ordered.antt =====
-- `sort_slice` returns an ordered permutation.
use mathlib.Core.Logic.Or
use mathlib.Core.List.{mem-cons, Perm, Pairwise, Pairwise-cons, Pairwise-singleton}
use mathlib.Core.List.Perm
use comments_service.Prelude.{
  ◌≡◌, refl, ap, ◌∙◌, suc, length, Bool, true, false, List, [], ◌∷◌, arith, Bool-cases, inl, inr,
}
use comments_service.Go.Sort.{insert, sort_slice}

pub Bool-eq-prop : (a b : Bool) → IsProp (a ≡ b)
Bool-eq-prop a b = (Bool-set) a b
  where
    Bool-set : IsSet Bool
    Bool-set = hlevel

-- What sort.Slice asks of its `less`.
pub record StrictOrder {ℓ} {A : Type ℓ} (less : A → A → Bool) : Type ℓ where
  pub asymm : (a b : A) → less a b ≡ true → less b a ≡ false
  pub trans : (a b c : A) → less a b ≡ true → less b c ≡ true → less a c ≡ true

-- No later element goes before an earlier one.
abbrev pub IsOrdered {ℓ} : {A : Type ℓ} → (A → A → Bool) → List A → Type ℓ
IsOrdered less l = Pairwise (λ a b. less b a ≡ false) l

module _ {ℓ} {A : Type ℓ} (less : A → A → Bool) where
  pub insert-perm : (x : A) (l : List A) → Perm (insert less x l) (x ∷ l)
  unfolding insert
  insert-perm x [] = Perm.rfl
  insert-perm x (y ∷ ys) = elim (Bool-cases (less x y)) [
    | inl p ↦ rw p Perm.rfl
    | inr p ↦ rw p (Perm.trans (Perm.cons y (insert-perm x ys)) (Perm.swap x y ys))
  ]

  -- Sorting loses and invents nothing.
  pub sort_slice-perm : (l : List A) → Perm (sort_slice less l) l
  unfolding sort_slice
  sort_slice-perm [] = Perm.rfl
  sort_slice-perm (x ∷ xs) =
      Perm.trans (insert-perm x (sort_slice less xs)) (Perm.cons x (sort_slice-perm xs))

  length-insert : (x : A) (l : List A) → length (insert less x l) ≡ suc (length l)
  unfolding insert
  length-insert x [] = refl
  length-insert x (y ∷ ys) = ground (arith, length-insert x ys)

  pub length-sort_slice : (l : List A) → length (sort_slice less l) ≡ length l
  unfolding sort_slice
  length-sort_slice [] = refl
  length-sort_slice (x ∷ xs) = length-insert x (sort_slice less xs) ∙ ap suc (length-sort_slice xs)

module _ {ℓ} {A : Type ℓ} {less : A → A → Bool} (o : StrictOrder less) where
  pub irrefl : (a : A) → less a a ≡ false
  irrefl a = elim (Bool-cases (less a a)) [ inl h ↦ o.asymm a a h | inr h ↦ h ]

  below_trans : (x y z : A) → less x y ≡ true → less z y ≡ false → less z x ≡ false
  below_trans x y z p q = elim (Bool-cases (less z x)) [
    | inl h ↦ cc (o.trans z x y h p)
    | inr h ↦ h
  ]

  insert-IsOrdered : (x : A) (l : List A) → IsOrdered less l → IsOrdered less (insert less x l)
  unfolding insert
  insert-IsOrdered x [] s = Pairwise-singleton _ x
  insert-IsOrdered x (y ∷ ys) s =
      let (head, tail) = Pairwise-cons.0 s in
      elim (Bool-cases (less x y)) [
        | inl p ↦ rw p (
            Pairwise.cons
              (λ z m.
                Or.elim (Bool-eq-prop _ _) (mem-cons.0 m) (λ e. rw e (o.asymm x y p))
                  (λ k. below_trans x y z p (head z k)))
              s)
        | inr p ↦ rw p (
            Pairwise.cons
              (λ z m.
                Or.elim (Bool-eq-prop _ _) (mem-cons.0 ((Perm.mem_iff (insert-perm less x ys)).0 m))
                  (λ e. rw e p) (λ k. head z k))
              (insert-IsOrdered x ys tail))
      ]

  -- The result is ordered.
  pub sort_slice-IsOrdered : (l : List A) → IsOrdered less (sort_slice less l)
  unfolding sort_slice
  sort_slice-IsOrdered [] = Pairwise.nil
  sort_slice-IsOrdered (x ∷ xs) = insert-IsOrdered x _ (sort_slice-IsOrdered xs)
