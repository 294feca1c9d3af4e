-- ===== src/Memory/Groups.antt =====
-- The loops of the Batch methods of internal/adapters/storage/memory/comment_repository.go, over any
-- item with a key: `grouped[id] = nil` for each identifier, then each item is appended to its group, or
-- counted.
use comments_service.Prelude.{
  ℕ, ◌+◌, ◌≡◌, refl, Bool, true, false, Option, none, some, List, [], ◌∷◌, ◌++◌, ◌==◌, arith, All,
  filter, length, if◌then◌else◌, append_assoc, append-nil, ap, sym, ◌∙◌, Bool-cases, Option-cases,
  inl, inr, ==_iff, All-map, All-filter-true, filter-filter, filter_congr, ◌&&◌,
}
use comments_service.Go.Map.{Map, get, put, or_zero, contains}
use comments_service.Go.Map.Laws.{get-put}

-- for _, id := range ids { m[id] = v }
unfoldable pub assign_all {ℓ} : {V : Type ℓ} → V → List ℕ → Map V → Map V
assign_all v [] m = m
assign_all v (id ∷ ids) m = assign_all v ids (put m id v)

-- _, ok := m[k]
unfoldable pub has {ℓ} : {V : Type ℓ} → Map V → ℕ → Bool
has m k = elim (get m k) [ none ↦ false | some v ↦ true ]

unfoldable pub append_to_groups {ℓ} : {A : Type ℓ} → (A → ℕ) → List A → Map (List A) → Map (List A)
append_to_groups key [] m = m
append_to_groups key (x ∷ xs) m =
    append_to_groups key xs (put m (key x) (or_zero [] (get m (key x)) ++ x ∷ []))

unfoldable pub count_groups {ℓ} : {A : Type ℓ} → (A → ℕ) → List A → Map ℕ → Map ℕ
count_groups key [] m = m
count_groups key (x ∷ xs) m = count_groups key xs (put m (key x) (or_zero 0 (get m (key x)) + 1))

pub get-assign_all {ℓ} :
    {V : Type ℓ} (v : V) (ids : List ℕ) (m : Map V) (k : ℕ)
    → get (assign_all v ids m) k ≡ (if contains ids k then some v else get m k)
unfolding assign_all contains
get-assign_all v [] m k = refl
get-assign_all v (id ∷ ids) m k =
    ground (arith, get-assign_all v ids (put m id v) k, get-put m id k v)

abbrev pub more {ℓ} : {A : Type ℓ} → List A → Option (List A) → Option (List A)
more xs none = none
more xs (some group) = some (group ++ xs)

more_nil {ℓ} : {A : Type ℓ} (o : Option (List A)) → o ≡ more [] o
more_nil none = refl
more_nil (some group) = ap some (sym (append-nil group))

pub has-put {ℓ} :
    {V : Type ℓ} (m : Map V) (k : ℕ) (v : V) (j : ℕ) → has m j ≡ true → has (put m k v) j ≡ true
unfolding has
has-put m k v j h = ground (arith, get-put m k j v)

-- One round of the loop, seen from the group `k`.
group_step {ℓ} :
    {A : Type ℓ} (key : A → ℕ) (x : A) (later : List A) (m : Map (List A)) (k : ℕ)
    → has m (key x) ≡ true
    → more later (if key x == k then some (or_zero [] (get m (key x)) ++ x ∷ []) else get m k)
      ≡ more (if key x == k then x ∷ later else later) (get m k)
unfolding has
group_step key x later m k h = elim (Bool-cases (key x == k)) [
  | inr other ↦ rw other
  | inl same ↦
      rw (same, ← (==_iff (key x) k).0 same)
        (elim (Option-cases (get m (key x))) [
          | inl missing ↦ absurd (ground arith)
          | inr (group, e) ↦ rw e (ap some (append_assoc group (x ∷ []) later))
        ])
]

-- A group gets the items of its key, in their order, provided that every item has a group.
pub get-append_to_groups {ℓ} :
    {A : Type ℓ} (key : A → ℕ) (xs : List A) (m : Map (List A)) (k : ℕ)
    → All (λ x. has m (key x) ≡ true) xs
    → get (append_to_groups key xs m) k ≡ more (filter (λ x. key x == k) xs) (get m k)
unfolding append_to_groups
get-append_to_groups key [] m k h = more_nil (get m k)
get-append_to_groups key (x ∷ xs) m k h =
    let v = or_zero [] (get m (key x)) ++ x ∷ [] in
    let later = filter (λ y. key y == k) xs in
    let kept =
      All-map _ (λ y. has (put m (key x) v) (key y) ≡ true) xs (λ y. has-put m (key x) v (key y))
        h.1 in
    get-append_to_groups key xs (put m (key x) v) k kept
    ∙ ap (more later) (get-put m (key x) k v)
    ∙ group_step key x later m k h.0

abbrev pub raise : ℕ → Option ℕ → Option ℕ
raise n none = none
raise n (some c) = some (c + n)

raise_zero : (o : Option ℕ) → o ≡ raise 0 o
raise_zero none = refl
raise_zero (some c) = ground arith

count_step {ℓ} :
    {A : Type ℓ} (key : A → ℕ) (x : A) (later : List A) (m : Map ℕ) (k : ℕ)
    → has m (key x) ≡ true
    → raise (length later) (if key x == k then some (or_zero 0 (get m (key x)) + 1) else get m k)
      ≡ raise (length (if key x == k then x ∷ later else later)) (get m k)
unfolding has
count_step key x later m k h = elim (Bool-cases (key x == k)) [
  | inr other ↦ rw other
  | inl same ↦
      rw (same, ← (==_iff (key x) k).0 same)
        (elim (Option-cases (get m (key x))) [
          | inl missing ↦ absurd (ground arith)
          | inr (c, e) ↦ rw e (ground arith)
        ])
]

-- A counter counts the items of its key, provided that every item has a counter.
pub get-count_groups {ℓ} :
    {A : Type ℓ} (key : A → ℕ) (xs : List A) (m : Map ℕ) (k : ℕ)
    → All (λ x. has m (key x) ≡ true) xs
    → get (count_groups key xs m) k ≡ raise (length (filter (λ x. key x == k) xs)) (get m k)
unfolding count_groups
get-count_groups key [] m k h = raise_zero (get m k)
get-count_groups key (x ∷ xs) m k h =
    let v = or_zero 0 (get m (key x)) + 1 in
    let later = filter (λ y. key y == k) xs in
    let kept =
      All-map _ (λ y. has (put m (key x) v) (key y) ≡ true) xs (λ y. has-put m (key x) v (key y))
        h.1 in
    get-count_groups key xs (put m (key x) v) k kept
    ∙ ap (raise (length later)) (get-put m (key x) k v)
    ∙ count_step key x later m k h.0

pub has-assign_all {ℓ} :
    {V : Type ℓ} (v : V) (ids : List ℕ) (k : ℕ) → has (assign_all v ids []) k ≡ contains ids k
unfolding has get
has-assign_all v ids k = ground (arith, get-assign_all v ids [] k)

-- The loops over what passes `p`, where `p` lets through only items whose key is among `ids`, and
-- `q k` is `p` for the key `k` alone.
module _ {ℓ} {A : Type ℓ} (key : A → ℕ) (ids : List ℕ) (p : A → Bool) (q : ℕ → A → Bool)
    (covers : (x : A) → p x ≡ true → contains ids (key x) ≡ true)
    (agrees : (k : ℕ) (x : A) → contains ids k ≡ true → (p x && (key x == k)) ≡ q k x) where
  All-have {κ} :
      {V : Type κ} (v : V) (xs : List A)
      → All (λ x. has (assign_all v ids []) (key x) ≡ true) (filter p xs)
  All-have v xs =
      All-map (λ x. p x ≡ true) _ (filter p xs) (λ x h. has-assign_all v ids (key x) ∙ covers x h)
        (All-filter-true p xs)

  one_key :
      (xs : List A) (k : ℕ)
      → contains ids k ≡ true
      → filter (λ x. key x == k) (filter p xs) ≡ filter (q k) xs
  one_key xs k h = filter-filter _ p xs ∙ filter_congr _ (q k) xs (λ x. agrees k x h)

  pub groups_lem :
      (xs : List A) (k : ℕ)
      → get (append_to_groups key (filter p xs) (assign_all [] ids [])) k
        ≡ (if contains ids k then some (filter (q k) xs) else none)
  groups_lem xs k =
      get-append_to_groups key (filter p xs) (assign_all [] ids []) k (All-have [] xs)
      ∙ ap (more _) (get-assign_all [] ids [] k)
      ∙ elim (Bool-cases (contains ids k)) [
        | inl h ↦ rw h (ap some (one_key xs k h))
        | inr h ↦ rw h (unfold get in refl)
      ]

  pub counts_lem :
      (xs : List A) (k : ℕ)
      → get (count_groups key (filter p xs) (assign_all 0 ids [])) k
        ≡ (if contains ids k then some (length (filter (q k) xs)) else none)
  counts_lem xs k =
      get-count_groups key (filter p xs) (assign_all 0 ids []) k (All-have 0 xs)
      ∙ ap (raise _) (get-assign_all 0 ids [] k)
      ∙ elim (Bool-cases (contains ids k)) [
        | inl h ↦ rw (h, one_key xs k h) (ground arith)
        | inr h ↦ rw h (unfold get in refl)
      ]
