-- ===== src/Client/Write/Laws.antt =====
-- When a register is written.
use Prim.Native.String.{String}
use huawei_solar_lib.Base.{
  some_inj, ℕ, suc, ◌*◌, ◌≤◌, ◌≡◌, ◌≢◌, refl, sym, ap, ◌∙◌, Bool, true, false, ◌&&◌, Option, none,
  some, List, [], ◌∷◌, ◌==◌, arith, inl, inr, ◌⊎◌, ==_iff,
}
use huawei_solar_lib.Base.Floats.{Floats}
use huawei_solar_lib.Base.Lists.{length}
use huawei_solar_lib.Exceptions.{ok_inj, ok, guard, >>=-eq-ok, write_exception, read_exception}
use huawei_solar_lib.Payload.{Payload, IsPayload, Bytes}
use huawei_solar_lib.Registers.Definition.{Register, luna2000_registers, definition, writeable}
use huawei_solar_lib.Registers.Codec.{Content, encode_register}
use huawei_solar_lib.Registers.Codec.Sizes.{
  encoded_length, length-encode_register, length-encode_kind, guard-ok,
}
use huawei_solar_lib.Registers.Table.{find, registers}
use huawei_solar_lib.Client.Read.{ModbusExceptions}
use huawei_solar_lib.Client.Retry.{OnException, IsOnException, on_exception-eq-ok}
use huawei_solar_lib.Client.Write
use huawei_solar_lib.Client.Write.{
  WriteReply, not_connected, exception_response, wrote_single, wrote_multiple, connection_lost,
  timed_out, confirm, write_registers, retried_on_set, named, words, set, max_set_tries,
}

-- The response repeats the address, with the one value or the number of the values.
abbrev pub Confirms : ℕ → List ℕ → WriteReply → Type 0
Confirms register values reply =
    ((value : ℕ) × (values ≡ value ∷ []) × (reply ≡ wrote_single register value))
    ⊎ ((length values ≢ 1) × (reply ≡ wrote_multiple register (length values)))

and-true : (a b : Bool) → (a && b) ≡ true → (a ≡ true) × (b ≡ true)
and-true true b h = (refl, h)
and-true false b h = absurd (cc)

write_registers-eq-true :
    (codes : ModbusExceptions) (register : ℕ) (values : List ℕ) (reply : WriteReply)
    → write_registers codes register values reply ≡ ok true
    → Confirms register values reply
unfolding write_registers confirm
write_registers-eq-true codes register values not_connected h = absurd (cc h)
write_registers-eq-true codes register values (exception_response code) h = ground arith
write_registers-eq-true codes register values connection_lost h = absurd (cc h)
write_registers-eq-true codes register values timed_out h = absurd (cc h)
write_registers-eq-true codes register values (Write.raised e) h = absurd (cc h)
write_registers-eq-true codes register (value ∷ []) (wrote_single address written) h =
    let both = and-true (address == register) (written == value) (ok_inj h) in
    inl (value, refl, cc ((==_iff address register).0 both.0, (==_iff written value).0 both.1))
write_registers-eq-true codes register [] (wrote_single address written) h = absurd (cc h)
write_registers-eq-true codes register (a ∷ b ∷ vs) (wrote_single address written) h = absurd (cc h)
write_registers-eq-true codes register (value ∷ []) (wrote_multiple address count) h = absurd (cc h)
write_registers-eq-true codes register [] (wrote_multiple address count) h =
    let both = and-true (address == register) (count == 0) (ok_inj h) in
    inr (omega arith, cc ((==_iff address register).0 both.0, (==_iff count 0).0 both.1))
write_registers-eq-true codes register (a ∷ b ∷ vs) (wrote_multiple address count) h =
    let both = and-true (address == register) (count == (suc (suc (length vs)))) (ok_inj h) in
    inr (
      omega arith,
      cc ((==_iff address register).0 both.0, (==_iff count (suc (suc (length vs)))).0 both.1),
    )

named-eq-ok : (o : Option Register) (reg : Register) → named o ≡ ok reg → o ≡ some reg
unfolding named
named-eq-ok none reg h = absurd (cc h)
named-eq-ok (some r) reg h = cc

module _ (fl : Floats) (P : Payload) where
  words-eq-ok :
      (name : String) (content : Content fl.Float) (w : Register × List ℕ)
      → words fl P name content ≡ ok w
      → (bytes : Bytes) × (find name registers ≡ some w.0)
        × (w.0.is_writeable ≡ true)
        × (encode_register fl P w.0 content ≡ ok bytes)
        × (w.1 ≡ P.to_registers bytes)
        × (length w.1 ≡ w.0.length)
  unfolding words
  words-eq-ok name content w h =
      let (reg, found, h1) = >>=-eq-ok (named (find name registers)) _ h in
      let (_, can, h2) = >>=-eq-ok (guard reg.is_writeable (write_exception none)) _ h1 in
      let (bytes, encoded, h3) = >>=-eq-ok (encode_register fl P reg content) _ h2 in
      let (_, fits, h4) =
        >>=-eq-ok (guard (length (P.to_registers bytes) == reg.length) (write_exception none)) _
          h3 in
      let same : (reg, P.to_registers bytes) ≡ w = ok_inj h4 in
      rw (← same) (
        bytes,
        named-eq-ok _ reg found,
        guard-ok _ _ can,
        encoded,
        refl,
        (==_iff _ _).0 (guard-ok _ _ fits),
      )

  -- `set` returns True only for a writeable register of the table whose encoded data has the
  -- register's length, and only when one of three attempts was answered with the register's address
  -- and the value written, or with its address and the number of the values written.
  pub set-eq-true :
      (codes : ModbusExceptions) (on_exception : OnException Bool)
      → IsOnException on_exception
      → (name : String) (content : Content fl.Float) (replies : ℕ → WriteReply)
      → set fl P codes on_exception name content replies ≡ ok true
      → (reg : Register) × (bytes : Bytes) × (i : ℕ) × (find name registers ≡ some reg)
        × (reg.is_writeable ≡ true)
        × (encode_register fl P reg content ≡ ok bytes)
        × (length (P.to_registers bytes) ≡ reg.length)
        × (i ≤ 2)
        × Confirms reg.register (P.to_registers bytes) (replies i)
  unfolding set
  set-eq-true codes on_exception laws name content replies h =
      let ((reg, ws), is_words, h') = >>=-eq-ok (words fl P name content) _ h in
      let (bytes, found, can, encoded, split, long) = words-eq-ok name content (reg, ws) is_words in
      let (i, few, sent) =
        on_exception-eq-ok on_exception laws retried_on_set 2 (read_exception none) _ true h' in
      (
        reg,
        bytes,
        i,
        found,
        can,
        encoded,
        ap length (sym split) ∙ long,
        few,
        rw (← split) (write_registers-eq-true codes reg.register ws (replies i) sent),
      )

abbrev price_register : Register
price_register = writeable (definition luna2000_registers 47028 41)

price_entry :
    find "storage_huawei_luna2000_time_of_use_price_periods" registers ≡ some price_register
unfolding find registers
price_entry = refl

module _ (fl : Floats) (P : Payload) (laws : IsPayload P) where
  -- Where the class of a writeable register encodes as many words as the register has, whatever it
  -- encodes is sent: the check of the number of registers to write refuses nothing.
  pub set-sends :
      (codes : ModbusExceptions) (on_exception : OnException Bool) (name : String)
      (content : Content fl.Float) (replies : ℕ → WriteReply) (reg : Register) (bytes : Bytes)
      → find name registers ≡ some reg
      → reg.is_writeable ≡ true
      → encoded_length reg.kind reg.length ≡ true
      → encode_register fl P reg content ≡ ok bytes
      → set fl P codes on_exception name content replies
        ≡ on_exception retried_on_set max_set_tries
            (read_exception none)
            (λ i. write_registers codes reg.register (P.to_registers bytes) (replies i))
  unfolding set words named
  set-sends codes on_exception name content replies reg bytes found can fits encoded =
      let long : length (P.to_registers bytes) ≡ reg.length =
        laws.length-to_registers reg.length bytes
          (length-encode_register fl P laws reg content bytes fits encoded) in
      rw (found, can, encoded, (==_iff _ _).1 long) refl

  -- The register of the LUNA2000's price periods can not be written: whatever is passed for it, and
  -- whatever the device would answer, `set` raises.
  pub set-price_periods :
      (codes : ModbusExceptions) (on_exception : OnException Bool) (content : Content fl.Float)
      (replies : ℕ → WriteReply) (b : Bool)
      → set fl P codes on_exception "storage_huawei_luna2000_time_of_use_price_periods" content
          replies
        ≢ ok b
  unfolding set encode_register
  set-price_periods codes on_exception content replies b h =
      let name : String = "storage_huawei_luna2000_time_of_use_price_periods" in
      let (w, is_words, _) = >>=-eq-ok (words fl P name content) _ h in
      let (bytes, found, _, encoded, split, long) = words-eq-ok fl P name content w is_words in
      let same : price_register ≡ w.0 = some_inj (sym price_entry ∙ found) in
      let encoded' : encode_register fl P price_register content ≡ ok bytes =
        ap (λ r. encode_register fl P r content) same ∙ encoded in
      let two : length bytes ≡ 2 * 43 =
        length-encode_kind fl P laws luna2000_registers 43 content bytes refl encoded' in
      absurd (
        omega (
          arith,
          laws.length-to_registers 43 bytes two,
          ap length (sym split) ∙ long ∙ ap (λ (r : Register). r.length) (sym same),
        ))
