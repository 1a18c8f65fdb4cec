-- ===== src/Bridge/Batches.antt =====
-- How `batch_update` of src/huawei_solar/bridge.py groups the registers that it is asked for.
pub mod Laws
use Prim.Native.String.{String}
use huawei_solar_lib.Base.{
  ℕ, zero, suc, ◌+◌, ◌-◌, Bool, ◌&&◌, Option, none, some, List, [], ◌∷◌, if◌then◌else◌,
}
use huawei_solar_lib.Base.Int.{pos, sub_ℕ, leb_ℤ, ltb_ℤ}
use huawei_solar_lib.Base.Sort.{sort_by}
use huawei_solar_lib.Exceptions.{Result, ok, err, key_error, ◌>>=◌}
use huawei_solar_lib.Registers.Definition.{Register}
use huawei_solar_lib.Registers.Table.{find, registers}

abbrev pub max_batched_registers_count : ℕ
max_batched_registers_count = 64

abbrev pub max_batched_registers_gap : ℕ
max_batched_registers_gap = 16

-- `_Register`
pub record Named : Type 0 where
  pub name : String
  pub register_start : ℕ
  pub register_end : ℕ

abbrev pub named : String → Register → Named
named n reg = record {
  name = n;
  register_start = reg.register;
  register_end = reg.register + reg.length - 1;
}

unfoldable pub look_up : String → Option Register → Result Named
look_up name none = err key_error
look_up name (some reg) = ok (named name reg)

-- `[_Register(rn) for rn in register_names]`
unfoldable pub named_all : List String → Result (List Named)
unfolding look_up find registers
named_all [] = ok []
named_all (name ∷ names) =
    look_up name (find name registers) >>= λ r. named_all names >>= λ rs. ok (r ∷ rs)

unfoldable pub sorted : List Named → List Named
unfolding sort_by
sorted rs = sort_by (λ (r : Named). pos r.register_start) rs

-- the condition of the inner loop: the next register still belongs to the batch
unfoldable pub fits_batch : Named → Named → Named → Bool
fits_batch first last next =
    leb_ℤ (sub_ℕ next.register_end first.register_start) (pos max_batched_registers_count)
    && ltb_ℤ (sub_ℕ next.register_start last.register_end) (pos max_batched_registers_gap)

-- the inner loop: the registers that follow the first one in its batch, and those behind the batch
unfoldable pub extend : Named → Named → List Named → List Named × List Named
unfolding fits_batch
extend first last [] = ([], [])
extend first last (next ∷ rest) =
    let more = extend first next rest in
    if fits_batch first last next then (next ∷ more.0, more.1) else ([], next ∷ rest)

-- the outer loop; each round takes at least one register, so their number is enough fuel
unfoldable pub batches : ℕ → List Named → List (List Named)
unfolding extend
batches zero rs = []
batches (suc fuel) [] = []
batches (suc fuel) (first ∷ rest) =
    let split = extend first first rest in (first ∷ split.0) ∷ batches fuel split.1
