-- ===== src/Base/Lists.antt =====
-- Lists measured by native numbers, under the library's names, and predicates by recursion.
use Prim.Native.Nat.{ℕ, zero, suc, ◌+◌, ◌-◌, ◌≤◌, min}
use mathlib.Core.Path.{◌≡◌, refl, ap}
use mathlib.Core.Bool.{Bool, true}
use mathlib.Core.Logic.{◌⊎◌, inl, inr}
use mathlib.Core.List.{List, [], ◌∷◌, ◌++◌, map}
use native.Mathlib.Omega.{arith}
use huawei_solar_lib.Base.Tests.{if◌then◌else◌, Bool-cases}

module _ {ℓ} {A : Type ℓ} where
  abbrev pub length : List A → ℕ
  length [] = 0
  length (x ∷ xs) = suc (length xs)

  -- `l[:n]`
  abbrev pub take : ℕ → List A → List A
  take zero xs = []
  take (suc n) [] = []
  take (suc n) (x ∷ xs) = x ∷ take n xs

  -- `l[n:]`
  abbrev pub drop : ℕ → List A → List A
  drop zero xs = xs
  drop (suc n) [] = []
  drop (suc n) (x ∷ xs) = drop n xs

  abbrev pub replicate : ℕ → A → List A
  replicate zero a = []
  replicate (suc n) a = a ∷ replicate n a

  abbrev pub filter_by : (A → Bool) → List A → List A
  filter_by p [] = []
  filter_by p (x ∷ xs) = let rest = filter_by p xs in if p x then x ∷ rest else rest

  -- every element has the property
  abbrev pub All {κ} : (A → Type κ) → List A → Type κ
  All P [] = Unit
  All P (x ∷ xs) = P x × All P xs

  -- some element has it
  abbrev pub Any : (A → Type 0) → List A → Type 0
  Any P [] = ⊥
  Any P (x ∷ xs) = P x ⊎ Any P xs

  -- the relation holds between each element and every later one
  abbrev pub AllPairs : (A → A → Type 0) → List A → Type 0
  AllPairs R [] = Unit
  AllPairs R (x ∷ xs) = All (R x) xs × AllPairs R xs

module _ {ℓ} {A : Type ℓ} where
  pub length-append : (xs ys : List A) → length (xs ++ ys) ≡ length xs + length ys
  length-append [] ys = omega arith
  length-append (x ∷ xs) ys = omega (arith, length-append xs ys)

  pub length-take : (n : ℕ) (xs : List A) → length (take n xs) ≡ min n (length xs)
  length-take zero xs = omega arith
  length-take (suc n) [] = omega arith
  length-take (suc n) (x ∷ xs) = omega (arith, length-take n xs)

  pub length-drop : (n : ℕ) (xs : List A) → length (drop n xs) ≡ length xs - n
  length-drop zero xs = omega arith
  length-drop (suc n) [] = omega arith
  length-drop (suc n) (x ∷ xs) = omega (arith, length-drop n xs)

  pub length-replicate : (n : ℕ) (a : A) → length (replicate n a) ≡ n
  length-replicate zero a = refl
  length-replicate (suc n) a = ap suc (length-replicate n a)

  pub take-append : (xs ys : List A) → take (length xs) (xs ++ ys) ≡ xs
  take-append [] ys = refl
  take-append (x ∷ xs) ys = ap (◌∷◌ x) (take-append xs ys)

  pub take_all : (n : ℕ) (xs : List A) → length xs ≤ n → take n xs ≡ xs
  take_all zero [] h = refl
  take_all zero (x ∷ xs) h = absurd (omega arith)
  take_all (suc n) [] h = refl
  take_all (suc n) (x ∷ xs) h = ap (◌∷◌ x) (take_all n xs (omega arith))

  pub drop-append : (xs ys : List A) → drop (length xs) (xs ++ ys) ≡ ys
  drop-append [] ys = refl
  drop-append (x ∷ xs) ys = drop-append xs ys

  pub take-drop : (n : ℕ) (xs : List A) → take n xs ++ drop n xs ≡ xs
  take-drop zero xs = refl
  take-drop (suc n) [] = refl
  take-drop (suc n) (x ∷ xs) = ap (◌∷◌ x) (take-drop n xs)

  pub drop-drop : (n m k : ℕ) (xs : List A) → n + m ≡ k → drop m (drop n xs) ≡ drop k xs
  drop-drop zero m k xs e = ap (λ i. drop i xs) (omega arith)
  drop-drop (suc n) zero zero [] e = refl
  drop-drop (suc n) zero (suc k) [] e = refl
  drop-drop (suc n) (suc m) zero [] e = refl
  drop-drop (suc n) (suc m) (suc k) [] e = refl
  drop-drop (suc n) m zero (x ∷ xs) e = absurd (omega arith)
  drop-drop (suc n) m (suc k) (x ∷ xs) e = drop-drop n m k xs (omega arith)

  pub All-append {κ} : (P : A → Type κ) (xs ys : List A) → All P xs → All P ys → All P (xs ++ ys)
  All-append P [] ys hx hy = hy
  All-append P (x ∷ xs) ys hx hy = (hx.0, All-append P xs ys hx.1 hy)

  pub All-map {κ μ} :
      (P : A → Type κ) (Q : A → Type μ)
      → ((x : A) → P x → Q x)
      → (xs : List A) → All P xs
      → All Q xs
  All-map P Q f [] h = tt
  All-map P Q f (x ∷ xs) h = (f x h.0, All-map P Q f xs h.1)

  pub All-both {κ μ} :
      (P : A → Type κ) (Q : A → Type μ) (xs : List A)
      → All P xs
      → All Q xs
      → All (λ x. P x × Q x) xs
  All-both P Q [] h k = tt
  All-both P Q (x ∷ xs) h k = ((h.0, k.0), All-both P Q xs h.1 k.1)

  pub All-Unit : (xs : List A) → All (λ _. Unit {0}) xs
  All-Unit [] = tt
  All-Unit (x ∷ xs) = (tt, All-Unit xs)

  pub Any-filter_by :
      (p : A → Bool) (P : A → Type 0) (xs : List A)
      → Any P (filter_by p xs)
      → Any (λ x. (p x ≡ true) × P x) xs
  Any-filter_by p P [] h = h
  Any-filter_by p P (x ∷ xs) h = elim (Bool-cases (p x)) [
    | inl e ↦ elim (rw e at h) [ inl k ↦ inl (e, k) | inr k ↦ inr (Any-filter_by p P xs k) ]
    | inr e ↦ inr (Any-filter_by p P xs (rw e at h))
  ]

  pub All-filter_by {κ} :
      (p : A → Bool) (P : A → Type κ) (xs : List A)
      → All (λ x. p x ≡ true → P x) xs
      → All P (filter_by p xs)
  All-filter_by p P [] h = tt
  All-filter_by p P (x ∷ xs) h = elim (Bool-cases (p x)) [
    | inl e ↦ rw e (h.0 e, All-filter_by p P xs h.1)
    | inr e ↦ rw e (All-filter_by p P xs h.1)
  ]

  pub filter_by-All {κ} :
      (p : A → Bool) (P : A → Type κ) (xs : List A)
      → All P (filter_by p xs)
      → All (λ x. p x ≡ true → P x) xs
  filter_by-All p P [] h = tt
  filter_by-All p P (x ∷ xs) h = elim (Bool-cases (p x)) [
    | inl e ↦ let k = rw e at h in (λ _. k.0, filter_by-All p P xs k.1)
    | inr e ↦ (λ e'. absurd (cc), filter_by-All p P xs (rw e at h))
  ]

  -- A relation between all pairs of the elements that pass a test.
  pub AllPairs-filter_by :
      (p : A → Bool) (R : A → A → Type 0) (xs : List A)
      → AllPairs (λ x y. p x ≡ true → p y ≡ true → R x y) xs
      → AllPairs R (filter_by p xs)
  AllPairs-filter_by p R [] h = tt
  AllPairs-filter_by p R (x ∷ xs) h = elim (Bool-cases (p x)) [
    | inl e ↦ rw e (
      All-filter_by p (R x) xs (
          All-map (λ y. p x ≡ true → p y ≡ true → R x y) (λ y. p y ≡ true → R x y) (λ y k. k e) xs
            h.0),
      AllPairs-filter_by p R xs h.1,
    )
    | inr e ↦ rw e (AllPairs-filter_by p R xs h.1)
  ]

  pub filter_by-AllPairs :
      (p : A → Bool) (R : A → A → Type 0) (xs : List A)
      → AllPairs R (filter_by p xs)
      → AllPairs (λ x y. p x ≡ true → p y ≡ true → R x y) xs
  filter_by-AllPairs p R [] h = tt
  filter_by-AllPairs p R (x ∷ xs) h = elim (Bool-cases (p x)) [
    | inl e ↦
        let k = rw e at h in
        (
          All-map (λ y. p y ≡ true → R x y) (λ y. p x ≡ true → p y ≡ true → R x y) (λ y k _. k) xs
              (filter_by-All p (R x) xs k.0),
          filter_by-AllPairs p R xs k.1,
        )
    | inr e ↦ (
      All-map (λ _. Unit {0}) (λ y. p x ≡ true → p y ≡ true → R x y) (λ y _ e'. absurd (cc)) xs
          (All-Unit xs),
      filter_by-AllPairs p R xs (rw e at h),
    )
  ]

  -- A test that every element passes keeps the list.
  pub filter_by-of_All :
      (p : A → Bool) (xs : List A) → All (λ x. p x ≡ true) xs → filter_by p xs ≡ xs
  filter_by-of_All p [] h = refl
  filter_by-of_All p (x ∷ xs) h = rw h.0 (ap (◌∷◌ x) (filter_by-of_All p xs h.1))

  pub length-filter_by : (p : A → Bool) (xs : List A) → length (filter_by p xs) ≤ length xs
  length-filter_by p [] = omega arith
  length-filter_by p (x ∷ xs) = ground (arith, length-filter_by p xs)

  pub map-id : (xs : List A) → map (λ x. x) xs ≡ xs
  map-id [] = refl
  map-id (x ∷ xs) = ap (◌∷◌ x) (map-id xs)

  pub take-add : (n m k : ℕ) (xs : List A) → n + m ≡ k → take n xs ++ take m (drop n xs) ≡ take k xs
  take-add zero m k xs e = ap (λ i. take i xs) (omega arith)
  take-add (suc n) zero zero [] e = refl
  take-add (suc n) zero (suc k) [] e = refl
  take-add (suc n) (suc m) zero [] e = refl
  take-add (suc n) (suc m) (suc k) [] e = refl
  take-add (suc n) m zero (x ∷ xs) e = absurd (omega arith)
  take-add (suc n) m (suc k) (x ∷ xs) e = ap (◌∷◌ x) (take-add n m k xs (omega arith))
