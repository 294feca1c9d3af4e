-- ===== src/Go/Sort/Unique.antt =====
-- Where `less` tells any two elements of a list apart, the list has only one ordered permutation, so
-- the order in which a map hands out its entries does not show in the sorted slice.
use mathlib.Core.Logic.Or
use mathlib.Core.List.{Mem, mem-cons, mem-cons_self, mem-cons_of_mem, Perm, Pairwise, Pairwise-cons}
use mathlib.Core.List.Perm
use mathlib.Core.List.Pairwise
use comments_service.Prelude.{◌≡◌, Bool, true, false, List, [], ◌∷◌, Bool-cases, inl, inr, sym, All}
use comments_service.Go.Sort.{sort_slice}
use comments_service.Go.Sort.Ordered.{StrictOrder, sort_slice-perm, sort_slice-IsOrdered}

-- `less` puts one of the two first.
abbrev pub Apart {ℓ} : {A : Type ℓ} → (A → A → Bool) → A → A → Type 0
Apart less a b = less a b ≡ false → less b a ≡ false → ⊥

-- The elements ascend strictly.
abbrev pub IsStrict {ℓ} : {A : Type ℓ} → (A → A → Bool) → List A → Type 0
IsStrict less [] = Unit
IsStrict less (x ∷ xs) = All (λ y. less x y ≡ true) xs × IsStrict less xs

pub All-of_mem {ℓ κ} :
    {A : Type ℓ} (P : A → Type κ) (l : List A) → ((a : A) → Mem a l → P a) → All P l
All-of_mem P [] h = tt
All-of_mem P (x ∷ xs) h = (h x mem-cons_self, All-of_mem P xs (λ a m. h a (mem-cons_of_mem _ m)))

module _ {ℓ} {A : Type ℓ} (less : A → A → Bool) where
  pub IsStrict-of_Pairwise : {l : List A} → Pairwise (λ a b. less a b ≡ true) l → IsStrict less l
  IsStrict-of_Pairwise Pairwise.nil = tt
  IsStrict-of_Pairwise (Pairwise.cons {a = x} {l = xs} h s) =
      (All-of_mem (λ y. less x y ≡ true) xs h, IsStrict-of_Pairwise s)

  Apart-prop : (a b : A) → IsProp (Apart less a b)
  Apart-prop a b = hlevel

  strict_of : (a b : A) → less b a ≡ false → Apart less a b → less a b ≡ true
  strict_of a b h apart = elim (Bool-cases (less a b)) [ inl p ↦ p | inr p ↦ absurd (apart p h) ]

module _ {ℓ} {A : Type ℓ} {less : A → A → Bool} (o : StrictOrder less) where
  -- A list whose elements are apart is sorted strictly.
  pub sort_slice-strict :
      (l : List A) → Pairwise (Apart less) l → Pairwise (λ a b. less a b ≡ true) (sort_slice less l)
  sort_slice-strict l apart = Pairwise.imp₂ (strict_of less) (sort_slice-IsOrdered o l) (
      Perm.pairwise (Apart-prop less) (λ a b h p q. h q p) (Perm.symm (sort_slice-perm less l))
        apart)

  pub eq_of_perm_strict :
      (A_set : IsSet A) (l r : List A)
      → Pairwise (λ a b. less a b ≡ true) l
      → Pairwise (λ a b. less a b ≡ true) r
      → Perm l r
      → l ≡ r
  eq_of_perm_strict A_set [] r sl sr p = Perm.nil-eq p
  eq_of_perm_strict A_set (a ∷ l) [] sl sr p = Perm.eq-nil p
  eq_of_perm_strict A_set (a ∷ l) (b ∷ r) sl sr p =
      let (below_l, tail_l) = Pairwise-cons.0 sl in
      let (below_r, tail_r) = Pairwise-cons.0 sr in
      let heads : a ≡ b =
        Or.elim (A_set a b) (mem-cons.0 ((Perm.mem_iff p).0 mem-cons_self)) (λ e. e)
          (λ a_in.
            Or.elim (A_set a b) (mem-cons.0 ((Perm.mem_iff p).1 mem-cons_self)) (λ e. sym e)
              (λ b_in. cc (o.asymm a b (below_l b b_in), below_r a a_in))) in
      let tails = Perm.cons_inv (Perm.trans p (Perm.cons' (sym heads) Perm.rfl)) in
      let rest = eq_of_perm_strict A_set l r tail_l tail_r tails in λ i. heads i ∷ rest i

  -- Permuted inputs are sorted to the same list.
  pub sort_slice_of_perm :
      (A_set : IsSet A) (l r : List A)
      → Pairwise (Apart less) l
      → Perm l r
      → sort_slice less l ≡ sort_slice less r
  sort_slice_of_perm A_set l r apart p =
      eq_of_perm_strict A_set _ _ (sort_slice-strict l apart)
        (sort_slice-strict r (Perm.pairwise (Apart-prop less) (λ a b h p q. h q p) p apart))
        (Perm.trans (sort_slice-perm less l) (Perm.trans p (Perm.symm (sort_slice-perm less r))))
