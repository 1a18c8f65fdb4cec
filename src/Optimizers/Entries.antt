-- ===== src/Optimizers/Entries.antt =====
-- The loops of src/huawei_solar/files.py over entries of one format: each is unpacked at an offset,
-- which then moves by the size of the format.
use huawei_solar_lib.Base.{
  ℕ, zero, suc, ◌+◌, ◌*◌, ◌≡◌, refl, sym, ap, ◌∙◌, List, [], ◌∷◌, ◌++◌, arith, inl, inr,
}
use huawei_solar_lib.Base.Lists.{length, drop, drop-drop}
use huawei_solar_lib.Exceptions.{Result, ok, ◌>>=◌, Result-cases}
use huawei_solar_lib.Payload.{Bytes}
use huawei_solar_lib.Struct.{Order, Code, Values, calcsize, unpack_from}
use huawei_solar_lib.Struct.Laws.{Holds, drop-Holds}
use mathlib.Core.List.{append_assoc}

abbrev pub traverse : {A B : Type 0} → (A → Result B) → List A → Result (List B)
traverse f [] = ok []
traverse f (x ∷ xs) = f x >>= λ y. traverse f xs >>= λ ys. ok (y ∷ ys)

module _ {A : Type 0} (o : Order) (cs : List Code) (convert : Values cs → Result A) where
  -- the entries, and the offset behind them
  unfoldable pub read_entries : ℕ → Bytes → ℕ → Result (List A × ℕ)
  unfolding unpack_from
  read_entries zero file_data offset = ok ([], offset)
  read_entries (suc n) file_data offset = unpack_from o cs file_data offset >>= λ v.
      convert v >>= λ a. read_entries n file_data (offset + calcsize cs) >>= λ r. ok (a ∷ r.0, r.1)

-- The bytes are those of the entries, one after another.
abbrev pub HoldsAll : (o : Order) (cs : List Code) → List (Values cs) → Bytes → Type 0
HoldsAll o cs [] bs = bs ≡ []
HoldsAll o cs (v ∷ vs) bs =
    (first : Bytes) × (rest : Bytes) × Holds o cs v first
    × (bs ≡ first ++ rest)
    × HoldsAll o cs vs rest

module _ (o : Order) (cs : List Code) (v : Values cs) (first : Bytes) (h : Holds o cs v first) where
  -- one unpacking at an offset, and what is left behind it
  pub unpack_at-Holds :
      (file_data rest : Bytes) (offset : ℕ)
      → drop offset file_data ≡ first ++ rest
      → (unpack_from o cs file_data offset ≡ ok v) × (drop (offset + calcsize cs) file_data ≡ rest)
  unfolding unpack_from
  unpack_at-Holds file_data rest offset e = (
    rw (e, h.1 rest),
    sym (drop-drop offset (calcsize cs) (offset + calcsize cs) file_data refl)
        ∙ ap (drop (calcsize cs)) e
        ∙ drop-Holds o cs v first h rest,
  )

module _ {A : Type 0} (o : Order) (cs : List Code) (convert : Values cs → Result A) where
  joined :
      (v : Values cs) (vs : List (Values cs)) (file_data : Bytes) (offset far : ℕ)
      → unpack_from o cs file_data offset ≡ ok v
      → read_entries o cs convert (length vs) file_data (offset + calcsize cs)
        ≡ (traverse convert vs >>= λ found. ok (found, far))
      → read_entries o cs convert (suc (length vs)) file_data offset
        ≡ (traverse convert (v ∷ vs) >>= λ found. ok (found, far))
  unfolding read_entries
  joined v vs file_data offset far unpacks reads = elim (Result-cases (convert v)) [
    | inr (e, failed) ↦ rw (unpacks, failed) refl
    | inl (a, converted) ↦ elim (Result-cases (traverse convert vs)) [
      | inr (e, failed) ↦ rw (unpacks, converted, reads, failed) refl
      | inl (others, all) ↦ rw (unpacks, converted, reads, all) refl
    ]
  ]

  -- Where the bytes at the offset are those of entries, the loop converts each of them.
  pub read_entries-HoldsAll :
      (vs : List (Values cs)) (file_data bs more : Bytes) (offset : ℕ)
      → HoldsAll o cs vs bs
      → drop offset file_data ≡ bs ++ more
      → (read_entries o cs convert (length vs) file_data offset
          ≡ (traverse convert vs >>= λ found. ok (found, offset + length vs * calcsize cs)))
        × (drop (offset + length vs * calcsize cs) file_data ≡ more)
  unfolding read_entries
  read_entries-HoldsAll [] file_data bs more offset h e =
      let same : offset ≡ offset + 0 * calcsize cs = omega arith in
      (
        ap (λ i. ok ([], i)) same,
        ap (λ i. drop i file_data) (sym same) ∙ e ∙ ap (λ xs. xs ++ more) h,
      )
  read_entries-HoldsAll (v ∷ vs) file_data bs more offset (first, rest, one, split, others) e =
      let (unpacks, behind) =
        unpack_at-Holds o cs v first one file_data (rest ++ more) offset
          (e ∙ ap (λ xs. xs ++ more) split ∙ append_assoc first rest more) in
      let (reads, left) =
        read_entries-HoldsAll vs file_data rest more (offset + calcsize cs) others behind in
      let far : offset + calcsize cs + length vs * calcsize cs
          ≡ offset + suc (length vs) * calcsize cs =
        grind arith in
      (
        joined v vs file_data offset (offset + suc (length vs) * calcsize cs) unpacks
            (reads ∙ ap (λ i. traverse convert vs >>= λ found. ok (found, i)) far),
        ap (λ i. drop i file_data) (sym far) ∙ left,
      )
