-- ===== src/Payload/Slots.antt =====
-- Registers with a fixed number of slots: the calls of each element, then those of an empty slot for
-- each slot that is left (`for _ in range(len(data), SLOTS)`).
use mathlib.Core.List.{append_assoc}
use huawei_solar_lib.Base.{
  ℕ, zero, suc, ◌+◌, ◌-◌, ◌*◌, ◌≤◌, ◌≡◌, refl, sym, ap, inl, inr, ◌∙◌, List, [], ◌∷◌, ◌++◌, map,
  arith,
}
use huawei_solar_lib.Base.Lists.{
  length, take, replicate, All, Any, length-append, length-replicate, All-append,
}
use huawei_solar_lib.Exceptions.{ok}
use huawei_solar_lib.Payload.{InRange, Payload, IsPayload}
use huawei_solar_lib.Payload.Emit.{
  Call, Reader, ◌>>=◌, pure, read_many, Reads, ReadsEach-append, ReadsEach-map, ReadsEach-replicate,
  read_many-Reads, total_size, concat, Fits,
}

abbrev pub slots : {A : Type 0} → ℕ → (A → List Call) → List Call → List A → List (List Call)
slots n calls pad elements = map calls elements ++ replicate (n - length elements) pad

-- `periods[:number_of_periods]` behind reading all the slots
abbrev pub read_slots : {A : Type 0} → ℕ → ℕ → Reader A → Reader (List A)
read_slots n count r = do found ← read_many n r; pure (take count found)

pub length-map : {A B : Type 0} (f : A → B) (xs : List A) → length (map f xs) ≡ length xs
length-map f [] = refl
length-map f (x ∷ xs) = ap suc (length-map f xs)

pub length-slots :
    {A : Type 0} (n : ℕ) (calls : A → List Call) (pad : List Call) (xs : List A)
    → length xs ≤ n
    → length (slots n calls pad xs) ≡ n
length-slots n calls pad xs h = omega (
  arith,
  length-append (map calls xs) (replicate (n - length xs) pad),
  length-map calls xs,
  length-replicate (n - length xs) pad,
)

take_slots :
    {A B : Type 0} (image : A → B) (xs : List A) (ys : List B)
    → take (length xs) (map image xs ++ ys) ≡ map image xs
take_slots image [] ys = refl
take_slots image (x ∷ xs) ys = ap (◌∷◌ (image x)) (take_slots image xs ys)

pub slots-Reads :
    {A B : Type 0} (P : Payload) (laws : IsPayload P) (r : Reader B) (calls : A → List Call)
    (image : A → B) (pad : List Call) (empty : B) (Q : A → Type 0)
    → ((a : A) → Q a → Reads P r (calls a) (image a))
    → Reads P r pad empty
    → (n : ℕ) (xs : List A) → length xs ≤ n
    → All Q xs
    → Reads P (read_slots n (length xs) r) (concat (slots n calls pad xs)) (map image xs)
slots-Reads P laws r calls image pad empty Q each padded n xs fits h bs rest e =
    let all =
      read_many-Reads P laws r (slots n calls pad xs)
        (map image xs ++ replicate (n - length xs) empty)
        (ReadsEach-append P r (map calls xs) (replicate (n - length xs) pad) (map image xs)
          (replicate (n - length xs) empty) (ReadsEach-map P r calls image Q each xs h)
          (ReadsEach-replicate P r pad empty padded (n - length xs)))
        bs rest e in
    rw (rw (length-slots n calls pad xs fits) at all)
      (ap (λ ys. ok (ys, rest)) (take_slots image xs (replicate (n - length xs) empty)))

total_size-append : (cs ds : List Call) → total_size (cs ++ ds) ≡ total_size cs + total_size ds
total_size-append [] ds = omega arith
total_size-append (c ∷ cs) ds = omega (arith, total_size-append cs ds)

pub total_size-concat :
    (k : ℕ) (css : List (List Call))
    → All (λ (cs : List Call). total_size cs ≡ k) css
    → total_size (concat css) ≡ k * length css
total_size-concat k [] h = omega arith
total_size-concat k (cs ∷ css) h =
    grind (arith, total_size-append cs (concat css), total_size-concat k css h.1)

All-of_map :
    {A B : Type 0} (f : A → B) (P : B → Type 0)
    → ((a : A) → P (f a))
    → (xs : List A) → All P (map f xs)
All-of_map f P h [] = tt
All-of_map f P h (x ∷ xs) = (h x, All-of_map f P h xs)

pub All-replicate : {A : Type 0} (P : A → Type 0) (a : A) → P a → (n : ℕ) → All P (replicate n a)
All-replicate P a h zero = tt
All-replicate P a h (suc n) = (h, All-replicate P a h n)

pub total_size-slots :
    {A : Type 0} (n k : ℕ) (calls : A → List Call) (pad : List Call) (xs : List A)
    → ((a : A) → total_size (calls a) ≡ k)
    → total_size pad ≡ k
    → length xs ≤ n
    → total_size (concat (slots n calls pad xs)) ≡ k * n
total_size-slots n k calls pad xs each padded fits =
    total_size-concat k (slots n calls pad xs) (
      All-append (λ (cs : List Call). total_size cs ≡ k) (map calls xs)
        (replicate (n - length xs) pad)
        (All-of_map calls (λ (cs : List Call). total_size cs ≡ k) each xs)
        (All-replicate (λ (cs : List Call). total_size cs ≡ k) pad padded (n - length xs)))
    ∙ ap (λ m. k * m) (length-slots n calls pad xs fits)

Fits-concat : (css : List (List Call)) → All Fits css → Fits (concat css)
Fits-concat [] h = tt
Fits-concat (cs ∷ css) h =
    All-append (λ (c : Call). InRange c.0 c.1) cs (concat css) h.0 (Fits-concat css h.1)

Fits-map :
    {A : Type 0} (calls : A → List Call) (Q : A → Type 0)
    → ((a : A) → Q a → Fits (calls a))
    → (xs : List A) → All Q xs
    → All Fits (map calls xs)
Fits-map calls Q each [] h = tt
Fits-map calls Q each (x ∷ xs) h = (each x h.0, Fits-map calls Q each xs h.1)

pub Fits-slots :
    {A : Type 0} (n : ℕ) (calls : A → List Call) (pad : List Call) (Q : A → Type 0) (xs : List A)
    → ((a : A) → Q a → Fits (calls a))
    → Fits pad
    → All Q xs
    → Fits (concat (slots n calls pad xs))
Fits-slots n calls pad Q xs each padded h = Fits-concat (slots n calls pad xs) (
    All-append Fits (map calls xs) (replicate (n - length xs) pad) (Fits-map calls Q each xs h)
      (All-replicate Fits pad padded (n - length xs)))

Any-append_left : {A : Type 0} (P : A → Type 0) (xs ys : List A) → Any P xs → Any P (xs ++ ys)
Any-append_left P [] ys h = absurd h
Any-append_left P (x ∷ xs) ys (inl h) = inl h
Any-append_left P (x ∷ xs) ys (inr h) = inr (Any-append_left P xs ys h)

Any-append_right : {A : Type 0} (P : A → Type 0) (xs ys : List A) → Any P ys → Any P (xs ++ ys)
Any-append_right P [] ys h = h
Any-append_right P (x ∷ xs) ys h = inr (Any-append_right P xs ys h)

-- Some call of an element's is a call of the slots.
pub Any-slots :
    {A : Type 0} (n : ℕ) (calls : A → List Call) (pad : List Call) (P : Call → Type 0) (xs : List A)
    (Q : A → Type 0)
    → ((a : A) → Q a → Any P (calls a))
    → Any Q xs
    → Any P (concat (slots n calls pad xs))
Any-slots {A} n calls pad P xs Q each h = go (replicate (n - length xs) pad) xs h
  where
    go : (pads : List (List Call)) (ys : List A) → Any Q ys → Any P (concat (map calls ys ++ pads))
    go pads [] k = absurd k
    go pads (y ∷ ys) (inl k) = Any-append_left P (calls y) _ (each y k)
    go pads (y ∷ ys) (inr k) = Any-append_right P (calls y) _ (go pads ys k)

pub concat-append :
    {A : Type 0} (xss yss : List (List A)) → concat (xss ++ yss) ≡ concat xss ++ concat yss
concat-append [] yss = refl
concat-append (xs ∷ xss) yss =
    ap (λ zs. xs ++ zs) (concat-append xss yss) ∙ sym (append_assoc xs (concat xss) (concat yss))
