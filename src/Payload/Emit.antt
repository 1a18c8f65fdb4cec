-- ===== src/Payload/Emit.antt =====
-- Sequences of builder calls and of decoder calls, and when the second read what the first wrote.
use huawei_solar_lib.Base.{
  ℕ, ◌+◌, ◌≡◌, refl, sym, ◌∙◌, inl, inr, Option-cases, Bool, true, map, Option, none, some, List,
  [], ◌∷◌, ◌++◌, arith,
}
use huawei_solar_lib.Base.Int.{ℤ, pos}
use huawei_solar_lib.Base.Lists.{length, All, Any, replicate, length-append}
use huawei_solar_lib.Exceptions.{Error, Result, ok, err, struct_error, guard, >>=-eq-ok}
use huawei_solar_lib.Exceptions
use mathlib.Core.List.{append_assoc, append-nil}
use huawei_solar_lib.Payload.{Bytes, Format, uint8, uint16, size, InRange, Payload, IsPayload}

-- a method of the builder with its argument
abbrev pub Call : Type 0
Call = Format × ℤ

abbrev pub or_struct_error {ℓ} : {A : Type ℓ} → Option A → Result A
or_struct_error none = err struct_error
or_struct_error (some a) = ok a

abbrev pub total_size : List Call → ℕ
total_size [] = 0
total_size (c ∷ cs) = size c.0 + total_size cs

-- the groups one after another
abbrev pub concat : {A : Type 0} → List (List A) → List A
concat [] = []
concat (xs ∷ xss) = xs ++ concat xss

abbrev pub Fits : List Call → Type 0
Fits cs = All (λ (c : Call). InRange c.0 c.1) cs

-- A method of the decoder: the value that it returns and the bytes left, or an error.
abbrev pub Reader : Type 0 → Type 0
Reader A = Bytes → Result (A × Bytes)

infixl 5 ◌>>=◌
abbrev pub ◌>>=◌ : {A B : Type 0} → Reader A → (A → Reader B) → Reader B
◌>>=◌ m f bs = Exceptions.◌>>=◌ (m bs) (λ r. f r.0 r.1)

abbrev pub pure : {A : Type 0} → A → Reader A
pure a bs = ok (a, bs)

abbrev pub lift : {A : Type 0} → Result A → Reader A
lift r bs = Exceptions.◌>>=◌ r (λ a. ok (a, bs))

-- `[r() for _ in range(n)]`
unfoldable pub read_many : {A : Type 0} → ℕ → Reader A → Reader (List A)
read_many ℕ.zero r = pure []
read_many (ℕ.suc n) r = do a ← r; rest ← read_many n r; pure (a ∷ rest)

module _ (P : Payload) where
  -- the bytes of the calls in their order; the first that fails ends the sequence
  unfoldable pub emit_all : List Call → Result Bytes
  emit_all [] = ok []
  emit_all ((f, z) ∷ cs) =
      Exceptions.◌>>=◌ (or_struct_error (P.add f z))
        (λ bs. Exceptions.◌>>=◌ (emit_all cs) (λ rest. ok (bs ++ rest)))

  unfoldable pub read : Format → Reader ℤ
  read f bs = or_struct_error (P.decode f bs)

-- The bytes of the calls followed by others are read by `r` vs `a`, and the others are left.
abbrev pub Reads : {A : Type 0} → Payload → Reader A → List Call → A → Type 0
Reads P r cs a = (bs rest : Bytes) → emit_all P cs ≡ ok bs → r (bs ++ rest) ≡ ok (a, rest)

-- `r` reads each group of calls vs the value at its place.
abbrev pub ReadsEach : {A : Type 0} → Payload → Reader A → List (List Call) → List A → Type 0
ReadsEach P r [] [] = Unit
ReadsEach P r [] (a ∷ vs) = ⊥
ReadsEach P r (cs ∷ css) [] = ⊥
ReadsEach P r (cs ∷ css) (a ∷ vs) = Reads P r cs a × ReadsEach P r css vs

pub ReadsEach-append :
    {A : Type 0} (P : Payload) (r : Reader A) (css dss : List (List Call)) (vs bs : List A)
    → ReadsEach P r css vs
    → ReadsEach P r dss bs
    → ReadsEach P r (css ++ dss) (vs ++ bs)
ReadsEach-append P r [] dss [] bs h k = k
ReadsEach-append P r [] dss (a ∷ vs) bs h k = absurd h
ReadsEach-append P r (cs ∷ css) dss [] bs h k = absurd h
ReadsEach-append P r (cs ∷ css) dss (a ∷ vs) bs h k =
    (h.0, ReadsEach-append P r css dss vs bs h.1 k)

pub ReadsEach-map :
    {A B : Type 0} (P : Payload) (r : Reader B) (calls : A → List Call) (image : A → B)
    (Q : A → Type 0)
    → ((a : A) → Q a → Reads P r (calls a) (image a))
    → (vs : List A) → All Q vs
    → ReadsEach P r (map calls vs) (map image vs)
ReadsEach-map P r calls image Q each [] h = tt
ReadsEach-map P r calls image Q each (a ∷ vs) h =
    (each a h.0, ReadsEach-map P r calls image Q each vs h.1)

pub ReadsEach-replicate :
    {A : Type 0} (P : Payload) (r : Reader A) (cs : List Call) (a : A)
    → Reads P r cs a
    → (n : ℕ) → ReadsEach P r (replicate n cs) (replicate n a)
ReadsEach-replicate P r cs a h ℕ.zero = tt
ReadsEach-replicate P r cs a h (ℕ.suc n) = (h, ReadsEach-replicate P r cs a h n)

pub or_struct_error-eq-ok {ℓ} :
    {A : Type ℓ} (o : Option A) (a : A) → or_struct_error o ≡ ok a → o ≡ some a
or_struct_error-eq-ok none a h = cc
or_struct_error-eq-ok (some b) a h = cc

module _ (P : Payload) (laws : IsPayload P) where
  pub emit_all-Fits :
      (cs : List Call)
      → Fits cs
      → (bs : Bytes) × (emit_all P cs ≡ ok bs) × (length bs ≡ total_size cs)
  unfolding emit_all
  emit_all-Fits [] h = ([], refl, refl)
  emit_all-Fits ((f, z) ∷ cs) h =
      let (bs, e) = laws.add_fits f z h.0 in
      let (rest, e', l) = emit_all-Fits cs h.1 in
      (bs ++ rest, rw (e, e'), omega (arith, length-append bs rest, laws.add_size f z bs e))

  -- A call whose argument does not fit its format ends the sequence.
  pub emit_all-refuses :
      (cs : List Call) → Any (λ (c : Call). ¬ InRange c.0 c.1) cs → emit_all P cs ≡ err struct_error
  unfolding emit_all
  emit_all-refuses [] h = absurd h
  emit_all-refuses ((f, z) ∷ cs) (inl bad) = elim (Option-cases (P.add f z)) [
    | inl e ↦ rw e
    | inr found ↦ absurd (bad (laws.add_range f z found.0 found.1))
  ]
  emit_all-refuses ((f, z) ∷ cs) (inr h) = elim (Option-cases (P.add f z)) [
    | inl e ↦ rw e
    | inr found ↦ rw (found.1, emit_all-refuses cs h)
  ]

  pub length-emit_all :
      (cs : List Call) (bs : Bytes) → emit_all P cs ≡ ok bs → length bs ≡ total_size cs
  unfolding emit_all
  length-emit_all [] bs h = let e : bs ≡ [] = cc in rw e
  length-emit_all ((f, z) ∷ cs) bs h =
      let (b, e, h') = >>=-eq-ok (or_struct_error (P.add f z)) _ h in
      let (c, e', h'') = >>=-eq-ok (emit_all P cs) _ h' in
      let split : bs ≡ b ++ c = cc in
      rw split (
        omega (
          arith,
          length-append b c,
          laws.add_size f z b (or_struct_error-eq-ok (P.add f z) b e),
          length-emit_all cs c e',
        ))

  pub emit_all-append :
      (cs ds : List Call) (bs : Bytes)
      → emit_all P (cs ++ ds) ≡ ok bs
      → (b : Bytes) × (c : Bytes) × (emit_all P cs ≡ ok b) × (emit_all P ds ≡ ok c) × (bs ≡ b ++ c)
  unfolding emit_all
  emit_all-append [] ds bs h = ([], bs, refl, h, refl)
  emit_all-append ((f, z) ∷ cs) ds bs h =
      let (b, e, h') = >>=-eq-ok (or_struct_error (P.add f z)) _ h in
      let (tail, e', h'') = >>=-eq-ok (emit_all P (cs ++ ds)) _ h' in
      let (c, d, ec, ed, split) = emit_all-append cs ds tail e' in
      (b ++ c, d, rw (e, ec), ed, cc (h'', split, append_assoc b c d))

  pub Reads-pure : {A : Type 0} (a : A) → Reads P (pure a) [] a
  unfolding emit_all
  Reads-pure a bs rest h = cc h

  pub Reads-read : (f : Format) (z : ℤ) → Reads P (read P f) ((f, z) ∷ []) z
  unfolding emit_all read
  Reads-read f z bs rest h =
      let (b, e, h') = >>=-eq-ok (or_struct_error (P.add f z)) _ h in
      let e' : P.add f z ≡ some b = or_struct_error-eq-ok (P.add f z) b e in
      let same : bs ≡ b = cc (h', append-nil b) in rw (same, laws.decode_add f z b rest e')

  -- An integer that both formats of one size hold may be read in the other one.
  pub Reads-read_other :
      (f g : Format) (z : ℤ) → size f ≡ size g → InRange g z → Reads P (read P g) ((f, z) ∷ []) z
  unfolding emit_all
  Reads-read_other f g z same fits bs rest h =
      let (b, e, h') = >>=-eq-ok (or_struct_error (P.add f z)) _ h in
      let e' : P.add f z ≡ some b = or_struct_error-eq-ok (P.add f z) b e in
      Reads-read g z bs rest (rw (← laws.add_agree f g z same (laws.add_range f z b e') fits) h)

  pub Reads-bind :
      {A B : Type 0} (r : Reader A) (k : A → Reader B) (cs ds : List Call) (a : A) (b : B)
      → Reads P r cs a
      → Reads P (k a) ds b
      → Reads P (r >>= k) (cs ++ ds) b
  Reads-bind r k cs ds a b hr hk bs rest h =
      let (c, d, ec, ed, split) = emit_all-append cs ds bs h in
      rw (split, append_assoc c d rest, hr c (d ++ rest) ec, hk d rest ed)

  -- One read at the head of a `do` block.
  pub Reads-then :
      {B : Type 0} (f : Format) (z : ℤ) (k : ℤ → Reader B) (cs : List Call) (b : B)
      → Reads P (k z) cs b
      → Reads P (read P f >>= k) ((f, z) ∷ cs) b
  Reads-then f z k cs b h = Reads-bind (read P f) k ((f, z) ∷ []) cs z b (Reads-read f z) h

  pub Reads-then_other :
      {B : Type 0} (f g : Format) (z : ℤ) (k : ℤ → Reader B) (cs : List Call) (b : B)
      → size f ≡ size g
      → InRange g z
      → Reads P (k z) cs b
      → Reads P (read P g >>= k) ((f, z) ∷ cs) b
  Reads-then_other f g z k cs b same fits h =
      Reads-bind (read P g) k ((f, z) ∷ []) cs z b (Reads-read_other f g z same fits) h

  -- An assertion that holds reads nothing.
  pub Reads-guard :
      {B : Type 0} (b : Bool) (x : Error) (k : Unit {0} → Reader B) (cs : List Call) (a : B)
      → b ≡ true
      → Reads P (k tt) cs a
      → Reads P (lift (guard b x) >>= k) cs a
  Reads-guard b x k cs a e h bs rest w = rw e (h bs rest w)

  -- A conversion that succeeds reads nothing.
  pub Reads-lift :
      {A B : Type 0} (r : Result A) (k : A → Reader B) (cs : List Call) (a : A) (b : B)
      → r ≡ ok a
      → Reads P (k a) cs b
      → Reads P (lift r >>= k) cs b
  Reads-lift r k cs a b e h bs rest w = rw e (h bs rest w)

  -- Two zero bytes are one 16-bit zero.
  emit_two_zero_bytes :
      emit_all P ((uint16, pos 0) ∷ []) ≡ emit_all P ((uint8, pos 0) ∷ (uint8, pos 0) ∷ [])
  unfolding emit_all
  emit_two_zero_bytes = rw (laws.add_zero uint16, laws.add_zero uint8)

  -- A 16-bit zero is read as two zero bytes.
  pub Reads-two_bytes :
      {B : Type 0} (k : ℤ → Reader B) (b : B)
      → Reads P (read P uint8 >>= k) ((uint8, pos 0) ∷ (uint8, pos 0) ∷ []) b
      → Reads P (read P uint8 >>= k) ((uint16, pos 0) ∷ []) b
  Reads-two_bytes k b h bs rest e = h bs rest (sym emit_two_zero_bytes ∙ e)

  pub read_many-Reads :
      {A : Type 0} (r : Reader A) (css : List (List Call)) (vs : List A)
      → ReadsEach P r css vs
      → Reads P (read_many (length css) r) (concat css) vs
  unfolding read_many
  read_many-Reads r [] [] h = Reads-pure []
  read_many-Reads r [] (a ∷ vs) h = absurd h
  read_many-Reads r (cs ∷ css) [] h = absurd h
  read_many-Reads r (cs ∷ css) (a ∷ vs) h =
      Reads-bind r _ cs (concat css) a (a ∷ vs) h.0
        (λ bs rest e. rw (read_many-Reads r css vs h.1 bs rest e))
