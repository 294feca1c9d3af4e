-- ===== src/Go/Map/Order.antt =====
-- Another order of a map's entries is another order of its values, and of what is filtered from them.
use mathlib.Core.Logic.{∥∥₁_elim}
use mathlib.Core.List.{Perm, Permᴰ, Perm-prop}
use mathlib.Core.List.Perm
use comments_service.Prelude.{Bool, List, filter, Bool-cases, inl, inr}
use comments_service.Go.Map.{Map, values}

module _ {ℓ} {A : Type ℓ} (p : A → Bool) where
  filter-permᴰ : {l r : List A} → Permᴰ l r → Perm (filter p l) (filter p r)
  filter-permᴰ Permᴰ.nil = Perm.rfl
  filter-permᴰ (Permᴰ.cons {a = a} e d) = rw (← e) (elim (Bool-cases (p a)) [
    | inl h ↦ rw h (Perm.cons a (filter-permᴰ d))
    | inr h ↦ rw h (filter-permᴰ d)
  ])
  filter-permᴰ (Permᴰ.swap {a = a} {b = b} {l = l} e k) =
      rw (← e, ← k)
        (elim (Bool-cases (p a)) [
          | inr h ↦ rw h Perm.rfl
          | inl h ↦ elim (Bool-cases (p b)) [
            | inr g ↦ rw (h, g) Perm.rfl
            | inl g ↦ rw (h, g) (Perm.swap b a (filter p l))
          ]
        ])
  filter-permᴰ (Permᴰ.trans d k) = Perm.trans (filter-permᴰ d) (filter-permᴰ k)

  pub filter-perm : {l r : List A} → Perm l r → Perm (filter p l) (filter p r)
  filter-perm {l} {r} d = ∥∥₁_elim d Perm-prop filter-permᴰ

module _ {ℓ} {V : Type ℓ} where
  values-permᴰ : {l r : Map V} → Permᴰ l r → Perm (values l) (values r)
  unfolding values
  values-permᴰ Permᴰ.nil = Perm.rfl
  values-permᴰ (Permᴰ.cons {a = a} e d) = rw (← e) (Perm.cons a.1 (values-permᴰ d))
  values-permᴰ (Permᴰ.swap {a = a} {b = b} {l = l} e k) =
      rw (← e, ← k) (Perm.swap b.1 a.1 (values l))
  values-permᴰ (Permᴰ.trans d k) = Perm.trans (values-permᴰ d) (values-permᴰ k)

  pub values-perm : {l r : Map V} → Perm l r → Perm (values l) (values r)
  values-perm {l} {r} d = ∥∥₁_elim d Perm-prop values-permᴰ
