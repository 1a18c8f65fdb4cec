-- ===== src/Registers/Codec/Laws.antt =====
-- How far a register's `decode` moves the decoder.
use huawei_solar_lib.Base.{ℕ, ◌+◌, ◌*◌, ◌≡◌, refl, true, arith}
use huawei_solar_lib.Base.Int.{pos_part}
use huawei_solar_lib.Base.Floats.{Floats}
use huawei_solar_lib.Exceptions.{ok}
use huawei_solar_lib.Payload.{Payload, IsPayload, uint16, size}
use huawei_solar_lib.Payload.Emit.{Reader, ◌>>=◌, lift, pure}
use huawei_solar_lib.Payload.Takes.{
  Takes, Takes-pure, Takes-lift, Takes-count, Takes-bind, Takes-read_many, Takes-read,
}
use huawei_solar_lib.Registers.Definition.{
  Register, Kind, NumberRegister, string_register, number_register, absolute_value_register,
  timestamp_register, lg_resu_registers, luna2000_registers, charge_discharge_registers,
  peak_setting_registers,
}
use huawei_solar_lib.Registers.Number
use huawei_solar_lib.Registers.Utf8.{decode_utf8}
use huawei_solar_lib.Registers.LgResu
use huawei_solar_lib.Registers.Luna2000
use huawei_solar_lib.Registers.ChargeDischarge
use huawei_solar_lib.Payload.Slots.{read_slots}
use huawei_solar_lib.Registers.Codec.{
  characters, text_or_error, read_string, decode_kind, decode_register, fits_kind, fits_length,
}

module _ (fl : Floats) (P : Payload) (laws : IsPayload P) where
  Takes-number : (r : NumberRegister) → Takes (Number.decode fl r P) (size r.decode_function)
  unfolding Number.decode
  Takes-number r =
      Takes-count _ _ _ (omega arith)
        (Takes-bind _ _ _ 0 (Takes-read P laws r.decode_function) (λ z. Takes-lift _))

  Takes-string : (n : ℕ) → Takes (read_string fl P n) n
  unfolding Takes read_string
  Takes-string n own long = (ok own, λ rest. rw (laws.decode_string_append n own rest long) refl)

  Takes-lg_period : Takes (LgResu.read_period fl P) 8
  unfolding LgResu.read_period
  Takes-lg_period = Takes-bind _ _ 2 6 (Takes-read P laws uint16) (λ a.
      Takes-bind _ _ 2 4 (Takes-read P laws uint16)
        (λ b. Takes-bind _ _ 4 0 (Takes-read P laws _) (λ c. Takes-pure _)))

  Takes-luna_period : Takes (Luna2000.read_period P) 6
  unfolding Luna2000.read_period
  Takes-luna_period = Takes-bind _ _ 2 4 (Takes-read P laws uint16) (λ a.
      Takes-bind _ _ 2 2 (Takes-read P laws uint16) (λ b.
        Takes-bind _ _ 1 1 (Takes-read P laws _) (λ c.
          Takes-bind _ _ 0 1 (Takes-lift _)
            (λ d. Takes-bind _ _ 1 0 (Takes-read P laws _) (λ e. Takes-pure _)))))

  Takes-charge_period : Takes (ChargeDischarge.read_period P) 8
  unfolding ChargeDischarge.read_period
  Takes-charge_period = Takes-bind _ _ 2 6 (Takes-read P laws uint16) (λ a.
      Takes-bind _ _ 2 4 (Takes-read P laws uint16)
        (λ b. Takes-bind _ _ 4 0 (Takes-read P laws _) (λ c. Takes-pure _)))

  Takes-read_slots :
      {A : Type 0} (r : Reader A) (size slots count : ℕ)
      → Takes r size
      → Takes (read_slots slots count r) (slots * size)
  Takes-read_slots r size slots count h =
      Takes-count _ (slots * size + 0) (slots * size) (omega arith)
        (Takes-bind _ _ (slots * size) 0 (Takes-read_many r size h slots) (λ found. Takes-pure _))

  Takes-lg : Takes (LgResu.decode fl P) (2 * 41)
  unfolding LgResu.decode
  Takes-lg = Takes-bind _ _ 2 80 (Takes-read P laws uint16) (λ n.
      Takes-bind _ _ 0 80 (Takes-lift _)
        (λ _. Takes-read_slots _ 8 10 (pos_part n) Takes-lg_period))

  Takes-luna : Takes (Luna2000.decode P) (2 * 43)
  unfolding Luna2000.decode
  Takes-luna = Takes-bind _ _ 2 84 (Takes-read P laws uint16) (λ n.
      Takes-bind _ _ 0 84 (Takes-lift _)
        (λ _. Takes-read_slots _ 6 14 (pos_part n) Takes-luna_period))

  Takes-charge : Takes (ChargeDischarge.decode P) (2 * 41)
  unfolding ChargeDischarge.decode
  Takes-charge = Takes-bind _ _ 2 80 (Takes-read P laws uint16) (λ n.
      Takes-bind _ _ 0 80 (Takes-lift _)
        (λ _. Takes-read_slots _ 8 10 (pos_part n) Takes-charge_period))

  -- A conversion behind a reader moves nothing.
  Takes-then :
      {A B : Type 0} (r : Reader A) (k : A → Reader B) (n : ℕ)
      → Takes r n
      → ((a : A) → Takes (k a) 0)
      → Takes (r >>= k) n
  Takes-then r k n h hk = Takes-count (r >>= k) (n + 0) n (omega arith) (Takes-bind r k n 0 h hk)

  Takes-kind :
      (k : Kind) (length : ℕ)
      → fits_kind k length ≡ true
      → Takes (decode_kind fl P k length) (2 * length)
  unfolding decode_kind Number.decode_absolute
  Takes-kind string_register length h = Takes-count _ (length * 2) (2 * length) (omega arith) (
      Takes-then (read_string fl P (length * 2))
        (λ s. lift (text_or_error (decode_utf8 s)) >>= λ t. pure (characters t)) (length * 2)
        (Takes-string (length * 2))
        (λ s.
          Takes-then (lift (text_or_error (decode_utf8 s))) (λ t. pure (characters t)) 0
            (Takes-lift _) (λ t. Takes-pure _)))
  Takes-kind (number_register r) length h =
      Takes-count _ (size r.decode_function) (2 * length) (ground arith)
        (Takes-then _ _ _ (Takes-number r) (λ v. Takes-pure _))
  Takes-kind (absolute_value_register r) length h =
      Takes-count _ (size r.decode_function) (2 * length) (ground arith) (
        Takes-then _ _ _ (Takes-then _ _ _ (Takes-number r) (λ v. Takes-lift _))
          (λ v. Takes-pure _))
  Takes-kind (timestamp_register r) length h =
      Takes-count _ (size r.decode_function) (2 * length) (ground arith)
        (Takes-then _ _ _ (Takes-number r) (λ v. Takes-lift _))
  Takes-kind lg_resu_registers length h =
      Takes-count _ (2 * 41) (2 * length) (ground arith)
        (Takes-then _ _ _ Takes-lg (λ ps. Takes-pure _))
  Takes-kind luna2000_registers length h =
      Takes-count _ (2 * 43) (2 * length) (ground arith)
        (Takes-then _ _ _ Takes-luna (λ ps. Takes-pure _))
  Takes-kind charge_discharge_registers length h =
      Takes-count _ (2 * 41) (2 * length) (ground arith)
        (Takes-then _ _ _ Takes-charge (λ ps. Takes-pure _))
  Takes-kind peak_setting_registers length h = absurd (cc h)

  -- A register whose length fits its class is decoded from exactly its own bytes: they alone
  -- determine the value that is returned or the error that is raised, and where a value is returned,
  -- the bytes that follow are left, whatever they are.
  pub Takes-register :
      (r : Register) → fits_length r ≡ true → Takes (decode_register fl P r) (2 * r.length)
  unfolding decode_register
  Takes-register r h = Takes-kind r.kind r.length h
