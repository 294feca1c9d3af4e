-- ===== src/Events/Targets.antt =====
-- The addresses that one publication goes to.
use comments_service.Prelude.{
  ℕ, ◌≡◌, refl, true, false, some, List, [], ◌∷◌, ◌==◌, ==_refl, arith, Bool-cases, inl, inr,
}
use comments_service.Go.Map.{Map, get, values, contains}
use comments_service.Go.Map.Laws.{IsDistinct}

-- No address stands twice.
abbrev pub IsUnique : List ℕ → Type 0
IsUnique [] = Unit
IsUnique (a ∷ rest) = (contains rest a ≡ false) × IsUnique rest

-- A value of the map is among its values.
pub contains-values : (m : Map ℕ) (i a : ℕ) → get m i ≡ some a → contains (values m) a ≡ true
unfolding get values contains
contains-values [] i a h = absurd (ground arith)
contains-values ((j, b) ∷ m) i a h = ground (arith, contains-values m i a)

-- And the other way round, when no key stands twice.
pub key_of_value :
    (m : Map ℕ) (a : ℕ) → IsDistinct m → contains (values m) a ≡ true → (i : ℕ) × (get m i ≡ some a)
unfolding get values contains
key_of_value [] a d h = absurd (ground arith)
key_of_value ((j, b) ∷ m) a d h = elim (Bool-cases (b == a)) [
  | inl same ↦ (j, ground arith)
  | inr other ↦
      let (i, e) = key_of_value m a d.1 (rw other at h) in
      (
        i,
        elim (Bool-cases (j == i)) [
          | inl same ↦ absurd (ground (arith, d.0))
          | inr apart ↦ rw apart e
        ],
      )
]

-- What stands behind the first entry is still there with it.
later :
    (m : Map ℕ) (k b : ℕ)
    → IsDistinct ((k, b) ∷ m)
    → (i a : ℕ) → get m i ≡ some a
    → get ((k, b) ∷ m) i ≡ some a
unfolding get
later m k b d i a e = elim (Bool-cases (k == i)) [
  | inl same ↦ absurd (ground (arith, d.0))
  | inr apart ↦ rw apart e
]

-- When no two keys have the same value, no value stands twice.
pub values-IsUnique :
    (m : Map ℕ)
    → IsDistinct m
    → ((i j a : ℕ) → get m i ≡ some a → get m j ≡ some a → i ≡ j)
    → IsUnique (values m)
unfolding get values
values-IsUnique [] d inj = tt
values-IsUnique ((k, b) ∷ m) d inj = (
  elim (Bool-cases (contains (values m) b)) [
    | inr absent ↦ absent
    | inl there ↦
        let (i, e) = key_of_value m b d.1 there in
        let behind = later m k b d i b e in
        let same = inj k i b (rw (==_refl k) refl) behind in absurd (ground (arith, d.0))
  ],
  values-IsUnique m d.1 (λ i j a e f. inj i j a (later m k b d i a e) (later m k b d j a f)),
)
