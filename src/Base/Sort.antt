-- ===== src/Base/Sort.antt =====
-- `list.sort(key=...)` for integer keys: stable, so any two such sorts return the same list.
use mathlib.Core.Bool.{true, false}
use mathlib.Core.Logic.{◌⊎◌, inl, inr}
use mathlib.Core.List.{List, [], ◌∷◌}
use native.Mathlib.Omega.{arith}
use huawei_solar_lib.Base.Int.{ℤ, leb_ℤ, ◌≤ℤ◌}
use huawei_solar_lib.Base.Tests.{if◌then◌else◌, Bool-cases}
use huawei_solar_lib.Base.Lists.{All, Any, AllPairs, All-map}

module _ {ℓ} {A : Type ℓ} (key : A → ℤ) where
  -- in front of the first element whose key is not smaller
  unfoldable pub insert : A → List A → List A
  insert x [] = x ∷ []
  insert x (y ∷ ys) = if leb_ℤ (key x) (key y) then x ∷ y ∷ ys else y ∷ insert x ys

  unfoldable pub sort_by : List A → List A
  unfolding insert
  sort_by [] = []
  sort_by (x ∷ xs) = insert x (sort_by xs)

  -- each key is at most the next
  abbrev pub IsSortedBy : List A → Type 0
  IsSortedBy xs = AllPairs (λ x y. key x ≤ℤ key y) xs

  All-insert {κ} : (P : A → Type κ) (x : A) (xs : List A) → P x → All P xs → All P (insert x xs)
  unfolding insert
  All-insert P x [] h hs = (h, tt)
  All-insert P x (y ∷ ys) h hs =
      elim (leb_ℤ (key x) (key y)) as (λ b. All P (if b then x ∷ y ∷ ys else y ∷ insert x ys)) [
        | true ↦ (h, hs)
        | false ↦ (hs.0, All-insert P x ys h hs.1)
      ]

  insert-All {κ} : (P : A → Type κ) (x : A) (xs : List A) → All P (insert x xs) → P x × All P xs
  unfolding insert
  insert-All P x [] = λ h. h
  insert-All P x (y ∷ ys) =
      elim (leb_ℤ (key x) (key y))
        as (λ b. All P (if b then x ∷ y ∷ ys else y ∷ insert x ys) → P x × (P y × All P ys)) [
          | true ↦ λ h. h
          | false ↦ λ h. let k = insert-All P x ys h.1 in (k.0, (h.0, k.1))
        ]

  -- Sorting keeps every property of all the elements, both ways.
  pub All-sort_by {κ} : (P : A → Type κ) (xs : List A) → All P xs → All P (sort_by xs)
  unfolding sort_by
  All-sort_by P [] h = h
  All-sort_by P (x ∷ xs) h = All-insert P x (sort_by xs) h.0 (All-sort_by P xs h.1)

  pub sort_by-All {κ} : (P : A → Type κ) (xs : List A) → All P (sort_by xs) → All P xs
  unfolding sort_by
  sort_by-All P [] h = h
  sort_by-All P (x ∷ xs) h = let k = insert-All P x (sort_by xs) h in (k.0, sort_by-All P xs k.1)

  insert-Any : (P : A → Type 0) (x : A) (xs : List A) → Any P (insert x xs) → P x ⊎ Any P xs
  unfolding insert
  insert-Any P x [] = λ h. h
  insert-Any P x (y ∷ ys) =
      elim (leb_ℤ (key x) (key y))
        as (λ b. Any P (if b then x ∷ y ∷ ys else y ∷ insert x ys) → P x ⊎ (P y ⊎ Any P ys)) [
          | true ↦ λ h. h
          | false ↦ elim [
            | inl h ↦ inr (inl h)
            | inr h ↦ elim (insert-Any P x ys h) [ inl k ↦ inl k | inr k ↦ inr (inr k) ]
          ]
        ]

  -- An element of the sorted list is an element of the list.
  pub sort_by-Any : (P : A → Type 0) (xs : List A) → Any P (sort_by xs) → Any P xs
  unfolding sort_by
  sort_by-Any P [] h = h
  sort_by-Any P (x ∷ xs) h = elim (insert-Any P x (sort_by xs) h) [
    | inl k ↦ inl k
    | inr k ↦ inr (sort_by-Any P xs k)
  ]

  insert-IsSortedBy : (x : A) (xs : List A) → IsSortedBy xs → IsSortedBy (insert x xs)
  unfolding insert
  insert-IsSortedBy x [] h = (tt, tt)
  insert-IsSortedBy x (y ∷ ys) h = elim (Bool-cases (leb_ℤ (key x) (key y))) [
    | inl e ↦
        let le : key x ≤ℤ key y = ground arith in
        rw e
          ((le, All-map (λ z. key y ≤ℤ key z) (λ z. key x ≤ℤ key z) (λ z k. omega arith) ys h.0), h)
    | inr e ↦
        let ge : key y ≤ℤ key x = ground arith in
        rw e (All-insert (λ z. key y ≤ℤ key z) x ys ge h.0, insert-IsSortedBy x ys h.1)
  ]

  pub sort_by-IsSortedBy : (xs : List A) → IsSortedBy (sort_by xs)
  unfolding sort_by
  sort_by-IsSortedBy [] = tt
  sort_by-IsSortedBy (x ∷ xs) = insert-IsSortedBy x (sort_by xs) (sort_by-IsSortedBy xs)

-- A symmetric relation between all pairs of elements does not depend on their order.
module _ {ℓ} {A : Type ℓ} (key : A → ℤ) (R : A → A → Type 0)
    (symmetric : (x y : A) → R x y → R y x) where
  AllPairs-insert :
      (x : A) (xs : List A) → All (R x) xs → AllPairs R xs → AllPairs R (insert key x xs)
  unfolding insert
  AllPairs-insert x [] h hs = (tt, tt)
  AllPairs-insert x (y ∷ ys) h hs =
      elim (leb_ℤ (key x) (key y))
        as (λ b. AllPairs R (if b then x ∷ y ∷ ys else y ∷ insert key x ys)) [
          | true ↦ (h, hs)
          | false ↦
              (All-insert key (R y) x ys (symmetric x y h.0) hs.0, AllPairs-insert x ys h.1 hs.1)
        ]

  insert-AllPairs :
      (x : A) (xs : List A) → AllPairs R (insert key x xs) → All (R x) xs × AllPairs R xs
  unfolding insert
  insert-AllPairs x [] = λ h. (tt, tt)
  insert-AllPairs x (y ∷ ys) =
      elim (leb_ℤ (key x) (key y))
        as (λ b.
          AllPairs R (if b then x ∷ y ∷ ys else y ∷ insert key x ys)
          → (R x y × All (R x) ys) × (All (R y) ys × AllPairs R ys)) [
            | true ↦ λ h. h
            | false ↦ λ h.
                let a = insert-All key (R y) x ys h.0 in
                let b = insert-AllPairs x ys h.1 in ((symmetric y x a.0, b.0), (a.1, b.1))
          ]

  pub AllPairs-sort_by : (xs : List A) → AllPairs R xs → AllPairs R (sort_by key xs)
  unfolding sort_by
  AllPairs-sort_by [] h = h
  AllPairs-sort_by (x ∷ xs) h =
      AllPairs-insert x (sort_by key xs) (All-sort_by key (R x) xs h.0) (AllPairs-sort_by xs h.1)

  pub sort_by-AllPairs : (xs : List A) → AllPairs R (sort_by key xs) → AllPairs R xs
  unfolding sort_by
  sort_by-AllPairs [] h = h
  sort_by-AllPairs (x ∷ xs) h =
      let k = insert-AllPairs x (sort_by key xs) h in
      (sort_by-All key (R x) xs k.0, sort_by-AllPairs xs k.1)
