-- ===== src/Bridge/Batches/Laws.antt =====
-- The batches that `batch_update` reads.
use huawei_solar_lib.Base.{
  ℕ, zero, suc, ◌+◌, ◌≤◌, ◌<◌, ◌≡◌, refl, sym, ap, ◌∙◌, true, false, inl, inr, List, [], ◌∷◌, ◌++◌,
  ◌⊎◌, arith, Bool-cases,
}
use huawei_solar_lib.Base.Lists.{length, All, length-append}
use huawei_solar_lib.Payload.Emit.{concat}
use huawei_solar_lib.Bridge.Batches.{Named, fits_batch, extend, batches}

extend-append :
    (first last : Named) (rest : List Named)
    → (extend first last rest).0 ++ (extend first last rest).1 ≡ rest
unfolding extend
extend-append first last [] = refl
extend-append first last (next ∷ rest) = elim (Bool-cases (fits_batch first last next)) [
  | inl e ↦ rw e (ap (◌∷◌ next) (extend-append first next rest))
  | inr e ↦ rw e refl
]

-- With at least as much fuel as registers, the batches one after another are the registers in their
-- order: each one is in exactly one batch.
pub concat-batches : (fuel : ℕ) (rs : List Named) → length rs ≤ fuel → concat (batches fuel rs) ≡ rs
unfolding batches
concat-batches zero [] h = refl
concat-batches zero (r ∷ rs) h = absurd (omega arith)
concat-batches (suc fuel) [] h = refl
concat-batches (suc fuel) (first ∷ rest) h =
    let whole = extend-append first first rest in
    let left : length (extend first first rest).1 ≤ fuel = omega (
      arith,
      length-append (extend first first rest).0 (extend first first rest).1,
      ap length whole,
    ) in
    rw (concat-batches fuel (extend first first rest).1 left) (ap (◌∷◌ first) whole)

-- Every register ends at most 64 behind the start of the first one, and starts less than 16 behind
-- the end of the one before it.
abbrev pub IsWithin : Named → Named → List Named → Type 0
IsWithin first last [] = Unit
IsWithin first last (next ∷ rest) =
    (next.register_end ≤ first.register_start + 64)
    × (next.register_start < last.register_end + 16)
    × IsWithin first next rest

abbrev pub IsBatch : List Named → Type 0
IsBatch [] = ⊥
IsBatch (first ∷ rest) = IsWithin first first rest

-- Neighbouring batches can not be joined: the first register of the second one is too far away.
abbrev pub final : Named → List Named → Named
final r [] = r
final r (q ∷ qs) = final q qs

abbrev pub IsSeparate : List Named → List (List Named) → Type 0
IsSeparate (first ∷ rest) ((next ∷ _) ∷ _) =
    (first.register_start + 64 < next.register_end)
    ⊎ ((final first rest).register_end + 16 ≤ next.register_start)
IsSeparate _ _ = Unit

abbrev pub AreSeparate : List (List Named) → Type 0
AreSeparate [] = Unit
AreSeparate (b ∷ bs) = IsSeparate b bs × AreSeparate bs

fits :
    (first last next : Named)
    → fits_batch first last next ≡ true
    → (next.register_end ≤ first.register_start + 64)
      × (next.register_start < last.register_end + 16)
unfolding fits_batch
fits first last next h = (ground arith, ground arith)

misses :
    (first last next : Named)
    → fits_batch first last next ≡ false
    → (first.register_start + 64 < next.register_end)
      ⊎ (last.register_end + 16 ≤ next.register_start)
unfolding fits_batch
misses first last next h = ground arith

extend-IsWithin :
    (first last : Named) (rest : List Named) → IsWithin first last (extend first last rest).0
unfolding extend
extend-IsWithin first last [] = tt
extend-IsWithin first last (next ∷ rest) = elim (Bool-cases (fits_batch first last next)) [
  | inl e ↦ rw e (let h = fits first last next e in (h.0, h.1, extend-IsWithin first next rest))
  | inr e ↦ rw e tt
]

head_inj : {x y : Named} {xs ys : List Named} → x ∷ xs ≡ y ∷ ys → x ≡ y
head_inj h = cc

extend-final :
    (first last : Named) (rest : List Named) (next : Named) (others : List Named)
    → (extend first last rest).1 ≡ next ∷ others
    → fits_batch first (final last (extend first last rest).0) next ≡ false
unfolding extend
extend-final first last [] next others h = absurd (cc h)
extend-final first last (q ∷ rest) next others h = elim (Bool-cases (fits_batch first last q)) [
  | inl e ↦
      let h' : (extend first q rest).1 ≡ next ∷ others = rw e at h in
      rw e (extend-final first q rest next others h')
  | inr e ↦
      let h' : q ∷ rest ≡ next ∷ others = rw e at h in
      let same : q ≡ next = head_inj h' in rw e (ap (fits_batch first last) (sym same) ∙ e)
]

separate :
    (fuel : ℕ) (first : Named) (taken left : List Named)
    → ((next : Named) (others : List Named)
        → left ≡ next ∷ others
        → fits_batch first (final first taken) next ≡ false)
    → IsSeparate (first ∷ taken) (batches fuel left)
unfolding batches
separate zero first taken left h = tt
separate (suc fuel) first taken [] h = tt
separate (suc fuel) first taken (next ∷ others) h =
    misses first (final first taken) next (h next others refl)

-- In each batch a register behind the first ends at most 64 behind the start of the first one, and
-- starts less than 16 behind the end of the one before it; the register that starts the next batch
-- does not.
pub batches-AreSeparate :
    (fuel : ℕ) (rs : List Named) → All IsBatch (batches fuel rs) × AreSeparate (batches fuel rs)
unfolding batches
batches-AreSeparate zero rs = (tt, tt)
batches-AreSeparate (suc fuel) [] = (tt, tt)
batches-AreSeparate (suc fuel) (first ∷ rest) =
    let (each, apart) = batches-AreSeparate fuel (extend first first rest).1 in
    (
      (extend-IsWithin first first rest, each),
      (
        separate fuel first (extend first first rest).0 (extend first first rest).1
            (extend-final first first rest),
        apart,
      ),
    )
