-- ===== src/Graphql/Loaders/Fill.antt =====
-- The loops that fill in the results.
use comments_service.Prelude.{
  ℕ, zero, suc, ◌<◌, ◌≡◌, refl, ap, ◌∙◌, Bool, true, false, some, List, [], ◌∷◌, ◌++◌, map, ◌==◌,
  ==_refl, ==_iff, length, get_elem?, replicate, arith, All, All-map, Bool-cases, inl, inr,
  if◌then◌else◌,
}
use comments_service.Go.Map.{contains}
use comments_service.Domain.Errors.{Result}
use comments_service.Graphql.Loaders.{Results, CommentConnectionKey, key_at, set_at, fill}

module _ {ℓ} {A : Type ℓ} where
  length-set_at : (xs : List A) (j : ℕ) (a : A) → length (set_at xs j a) ≡ length xs
  unfolding set_at
  length-set_at [] j a = refl
  length-set_at (x ∷ xs) zero a = refl
  length-set_at (x ∷ xs) (suc j) a = ap suc (length-set_at xs j a)

  get_elem?-set_at :
      (xs : List A) (j i : ℕ) (a : A)
      → i < length xs
      → get_elem? (set_at xs j a) i ≡ (if j == i then some a else get_elem? xs i)
  unfolding set_at
  get_elem?-set_at [] j i a h = absurd (omega arith)
  get_elem?-set_at (x ∷ xs) zero zero a h = refl
  get_elem?-set_at (x ∷ xs) zero (suc i) a h = ground arith
  get_elem?-set_at (x ∷ xs) (suc j) zero a h = ground arith
  get_elem?-set_at (x ∷ xs) (suc j) (suc i) a h = ground (arith, get_elem?-set_at xs j i a)

pub length-replicate : {A : Type 0} (n : ℕ) (a : A) → length (replicate n a) ≡ n
length-replicate zero a = refl
length-replicate (suc n) a = ap suc (length-replicate n a)

either : {A : Type 0} (b : Bool) (a : A) → (if b then a else a) ≡ a
either true a = refl
either false a = refl

module _ {A : Type 0} where
  -- After the loop an entry is the value of its index, if the loop has the index.
  pub get_elem?-fill :
      (results : Results A) (indexes : List ℕ) (f : ℕ → Result A) (i : ℕ)
      → i < length results
      → get_elem? (fill results indexes f) i
        ≡ (if contains indexes i then some (some (f i)) else get_elem? results i)
  unfolding fill contains
  get_elem?-fill results [] f i h = refl
  get_elem?-fill results (j ∷ indexes) f i h =
      let after = set_at results j (some (f j)) in
      let rest = get_elem?-fill after indexes f i (rw (length-set_at results j (some (f j))) h) in
      let now = get_elem?-set_at results j i (some (f j)) h in
      elim (Bool-cases (j == i)) [
        | inl same ↦
            let e = (==_iff j i).0 same in
            rw (same, rest, now, ap f e) (rw same (either (contains indexes i) _))
        | inr other ↦ rw (other, rest, now) (rw other refl)
      ]

  pub length-fill :
      (results : Results A) (indexes : List ℕ) (f : ℕ → Result A)
      → length (fill results indexes f) ≡ length results
  unfolding fill
  length-fill results [] f = refl
  length-fill results (j ∷ indexes) f =
      length-fill (set_at results j (some (f j))) indexes f ∙ length-set_at results j (some (f j))

  pub fill-append :
      (results : Results A) (xs ys : List ℕ) (f : ℕ → Result A)
      → fill results (xs ++ ys) f ≡ fill (fill results xs f) ys f
  unfolding fill
  fill-append results [] ys f = refl
  fill-append results (x ∷ xs) ys f = fill-append (set_at results x (some (f x))) xs ys f

  pub fill_congr :
      (results : Results A) (indexes : List ℕ) (f g : ℕ → Result A)
      → All (λ i. f i ≡ g i) indexes
      → fill results indexes f ≡ fill results indexes g
  unfolding fill
  fill_congr results [] f g h = refl
  fill_congr results (j ∷ indexes) f g h =
      rw h.0 (fill_congr (set_at results j (some (g j))) indexes f g h.1)

-- A list has its own elements, and what they are mapped to.
pub contains-All : (xs : List ℕ) → All (λ x. contains xs x ≡ true) xs
unfolding contains
contains-All [] = tt
contains-All (x ∷ xs) =
    (rw (==_refl x) refl, All-map _ _ xs (λ y h. ground (arith, h)) (contains-All xs))

pub map-contains : (f : ℕ → ℕ) (xs : List ℕ) → All (λ x. contains (map f xs) (f x) ≡ true) xs
unfolding contains
map-contains f [] = tt
map-contains f (x ∷ xs) =
    (rw (==_refl (f x)) refl, All-map _ _ xs (λ y h. ground (arith, h)) (map-contains f xs))

-- Entries that are the keys' own values make up the list of these values.
pub entries-map :
    {A : Type 0} (results : List A) (keys : List CommentConnectionKey)
    (f : CommentConnectionKey → A)
    → length results ≡ length keys
    → ((i : ℕ) → i < length keys → get_elem? results i ≡ some (f (key_at keys i)))
    → results ≡ map f keys
unfolding key_at
entries-map [] [] f same each = refl
entries-map [] (key ∷ keys) f same each = absurd (omega (arith, same))
entries-map (r ∷ results) [] f same each = absurd (omega (arith, same))
entries-map (r ∷ results) (key ∷ keys) f same each =
    let first : some r ≡ some (f key) = each 0 (omega arith) in
    let rest =
      entries-map results keys f (omega (arith, same)) (λ i h. each (suc i) (omega (arith, h))) in
    rw (rest) (ap (λ x. x ∷ map f keys) (ground arith))
