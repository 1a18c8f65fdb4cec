-- ===== src/Payload/Takes.antt =====
-- Readers that take a fixed number of bytes, whatever follows these.
use mathlib.Core.List.{append_assoc}
use huawei_solar_lib.Base.{
  ℕ, zero, suc, ◌+◌, ◌*◌, ◌≡◌, refl, sym, ap, ◌∙◌, List, [], ◌∷◌, ◌++◌, arith,
}
use huawei_solar_lib.Base.Lists.{length, take, drop, length-take, length-drop, take-drop}
use huawei_solar_lib.Exceptions.{Result, ok, err}
use huawei_solar_lib.Payload.{Bytes, Format, size, Payload, IsPayload}
use huawei_solar_lib.Payload.Emit.{Reader, ◌>>=◌, pure, lift, read, read_many}

-- a result, with the bytes that are left
abbrev pub leaving : {A : Type 0} → Result A → Bytes → Result (A × Bytes)
leaving (ok a) rest = ok (a, rest)
leaving (err e) rest = err e

-- Any n bytes by themselves determine what is returned or raised, and whatever follows them is left.
unfoldable pub Takes : {A : Type 0} → Reader A → ℕ → Type 0
Takes {A} r n =
    (own : Bytes)
    → length own ≡ n
    → (result : Result A) × ((rest : Bytes) → r (own ++ rest) ≡ leaving result rest)

empty_or : (own : Bytes) → length own ≡ 0 → own ≡ []
empty_or [] h = refl
empty_or (b ∷ bs) h = absurd (omega arith)

module _ {A : Type 0} where
  pub Takes-pure : (a : A) → Takes (pure a) 0
  unfolding Takes
  Takes-pure a own h = (ok a, λ rest. rw (empty_or own h) refl)

  pub Takes-lift : (r : Result A) → Takes (lift r) 0
  unfolding Takes
  Takes-lift (ok a) own h = (ok a, λ rest. rw (empty_or own h) refl)
  Takes-lift (err e) own h = (err e, λ rest. refl)

  pub Takes-count : (r : Reader A) (n m : ℕ) → n ≡ m → Takes r n → Takes r m
  unfolding Takes
  Takes-count r n m e h own long = h own (long ∙ sym e)

  -- What is read from a buffer that is long enough.
  pub Takes-long :
      (r : Reader A) (n : ℕ) (bs : Bytes)
      → Takes r n
      → (below : ℕ) → length bs ≡ n + below
      → (result : Result A) × (r bs ≡ leaving result (drop n bs))
  unfolding Takes
  Takes-long r n bs h below long =
      let (result, reads) = h (take n bs) (omega (arith, length-take n bs)) in
      (result, ap r (sym (take-drop n bs)) ∙ reads (drop n bs))

module _ {A B : Type 0} where
  behind :
      (r : Reader A) (k : A → Reader B) (m : ℕ) (first second : Bytes) (result : Result A)
      → ((rest : Bytes) → r (first ++ rest) ≡ leaving result rest)
      → length second ≡ m
      → ((a : A) → Takes (k a) m)
      → (whole : Result B) × ((rest : Bytes)
          → (r >>= k) (first ++ (second ++ rest)) ≡ leaving whole rest)
  unfolding Takes
  behind r k m first second (ok a) reads long next =
      let (whole, others) = next a second long in
      (whole, λ rest. rw (reads (second ++ rest)) (others rest))
  behind r k m first second (err e) reads long next =
      (err e, λ rest. rw (reads (second ++ rest)) refl)

  pub Takes-bind :
      (r : Reader A) (k : A → Reader B) (n m : ℕ)
      → Takes r n
      → ((a : A) → Takes (k a) m)
      → Takes (r >>= k) (n + m)
  unfolding Takes
  Takes-bind r k n m hr hk own long =
      let first = take n own in
      let second = drop n own in
      let (result, reads) = hr first (omega (arith, length-take n own)) in
      let (whole, all) =
        behind r k m first second result reads (omega (arith, length-drop n own)) hk in
      (
        whole,
        λ rest.
            ap (r >>= k)
              (ap (λ bs. bs ++ rest) (sym (take-drop n own)) ∙ append_assoc first second rest)
            ∙ all rest,
      )

pub Takes-read_many :
    {A : Type 0} (r : Reader A) (n : ℕ) → Takes r n → (k : ℕ) → Takes (read_many k r) (k * n)
unfolding read_many
Takes-read_many {A} r n h zero =
    Takes-count (pure []) 0 (0 * n) (omega arith) (Takes-pure {A = List A} [])
Takes-read_many r n h (suc k) = Takes-count _ (n + (k * n + 0)) (suc k * n) (grind arith) (
    Takes-bind r _ n (k * n + 0) h (λ a.
      Takes-bind (read_many k r) _ (k * n) 0 (Takes-read_many r n h k)
        (λ rest. Takes-pure (a ∷ rest))))

module _ (P : Payload) (laws : IsPayload P) where
  pub Takes-read : (f : Format) → Takes (read P f) (size f)
  unfolding Takes read huawei_solar_lib.Payload.Emit.or_struct_error
  Takes-read f own long =
      let (z, reads) = laws.decode_takes f own long in (ok z, λ rest. rw (reads rest) refl)
