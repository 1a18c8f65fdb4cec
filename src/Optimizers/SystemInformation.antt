-- ===== src/Optimizers/SystemInformation.antt =====
-- OptimizerSystemInformationDataFile of src/huawei_solar/files.py.
use huawei_solar_lib.Base.{
  ℕ, Option, none, some, List, [], ◌∷◌, ◌==◌, ltb, ◌&&◌, if◌then◌else◌, Bool, true, false,
}
use huawei_solar_lib.Base.Int.{ℤ}
use huawei_solar_lib.Exceptions.{Result, ok, err, ◌>>=◌, value_error, huawei_solar_exception}
use huawei_solar_lib.Payload.{Bytes}
use huawei_solar_lib.Registers.Utf8.{Text, rstrip_nul}
use huawei_solar_lib.Struct.{
  big, Code, uint, int, chars, pad, truth, Values, calcsize, nonzero, unpack_from,
}
use huawei_solar_lib.Optimizers.Entries.{read_entries}

pub data OptimizerOnlineStatus : Type 0 where
  offline online disconnected : OptimizerOnlineStatus

-- `OptimizerOnlineStatus(n)`
unfoldable pub online_status : ℕ → Result OptimizerOnlineStatus
online_status n =
    if n == 0
    then ok offline
    else if n == 1
    then ok online
    else if n == 2
    then ok disconnected
    else err value_error

pub record OptimizerSystemInformation : Type 0 where
  pub optimizer_address : ℕ
  pub status : OptimizerOnlineStatus
  pub string_number : ℤ
  pub position_in_current_string : Option ℕ
  pub sn : Text
  pub software_version : Text
  pub alias : Text
  pub model : Text
  pub rated_power : Option ℕ
  pub one_to_more : Option Bool
  pub cpu_type : Option ℕ

abbrev pub invalid_optimizer_position : ℕ
invalid_optimizer_position = 0xffff

abbrev pub position : ℕ → Option ℕ
position n = if n == invalid_optimizer_position then none else some n

abbrev pub is_ascii : Bytes → Bool
is_ascii [] = true
is_ascii (b ∷ bs) = ltb b 128 && is_ascii bs

-- `_to_string`
unfoldable pub to_string : Bytes → Text
unfolding rstrip_nul
to_string bs = if is_ascii bs then rstrip_nul bs else []

-- `>4sHH?3xH`, and the entries of the versions V102 and V103
abbrev pub header : List Code
header = chars 4 ∷ uint 2 ∷ uint 2 ∷ truth ∷ pad 3 ∷ uint 2 ∷ []

abbrev pub v102_optimizer_feature_data : List Code
v102_optimizer_feature_data =
    uint 2 ∷ uint 2 ∷ pad 1 ∷ int 1 ∷ uint 2 ∷ chars 20 ∷ chars 30 ∷ chars 20 ∷ chars 30 ∷ []

abbrev pub v103_optimizer_feature_data : List Code
v103_optimizer_feature_data =
    uint 2
    ∷ uint 2
    ∷ pad 1
    ∷ int 1
    ∷ uint 2
    ∷ chars 20
    ∷ chars 30
    ∷ chars 20
    ∷ chars 30
    ∷ chars 2
    ∷ uint 2
    ∷ uint 2
    ∷ uint 2
    ∷ []

unfoldable pub v102_information :
    Values v102_optimizer_feature_data → Result OptimizerSystemInformation
unfolding online_status to_string
v102_information
      (address, (status, (string_number, (place, (sn, (software_version, (alias, (model, _)))))))) =
    online_status status >>= λ member. ok record {
      optimizer_address = address;
      status = member;
      string_number = string_number;
      position_in_current_string = position place;
      sn = to_string sn;
      software_version = to_string software_version;
      alias = to_string alias;
      model = to_string model;
      rated_power = none;
      one_to_more = none;
      cpu_type = none;
    }

unfoldable pub v103_information :
    Values v103_optimizer_feature_data → Result OptimizerSystemInformation
unfolding online_status to_string
v103_information
      (
        address,
        (
          status,
          (
            string_number,
            (
              place,
              (
                sn,
                (
                  software_version,
                  (alias, (model, (machine_id, (one_to_more, (rated_power, (cpu_type, _)))))),
                ),
              ),
            ),
          ),
        ),
      ) =
    online_status status >>= λ member. ok record {
      optimizer_address = address;
      status = member;
      string_number = string_number;
      position_in_current_string = position place;
      sn = to_string sn;
      software_version = to_string software_version;
      alias = to_string alias;
      model = to_string model;
      rated_power = some rated_power;
      one_to_more = some (nonzero one_to_more);
      cpu_type = some cpu_type;
    }

abbrev pub eq_bytes : Bytes → Bytes → Bool
eq_bytes [] [] = true
eq_bytes (x ∷ xs) (y ∷ ys) = x == y && eq_bytes xs ys
eq_bytes _ _ = false

-- b"V102" and b"V103"
abbrev pub v102 : Bytes
v102 = 86 ∷ 49 ∷ 48 ∷ 50 ∷ []

abbrev pub v103 : Bytes
v103 = 86 ∷ 49 ∷ 48 ∷ 51 ∷ []

abbrev pub entries_of : {A : Type 0} → List A × ℕ → Result (List A)
entries_of (entries, _) = ok entries

unfoldable pub read_version : Bytes → Values header → Result (List OptimizerSystemInformation)
unfolding read_entries v102_information v103_information
read_version file_data (version, (_, (_, (_, (number_of_optimizers, _))))) =
    if eq_bytes version v102
    then read_entries big v102_optimizer_feature_data v102_information number_of_optimizers
        file_data (calcsize header)
      >>= entries_of
    else if eq_bytes version v103
    then read_entries big v103_optimizer_feature_data v103_information number_of_optimizers
        file_data (calcsize header)
      >>= entries_of
    else err huawei_solar_exception

-- `OptimizerSystemInformationDataFile(file_data).optimizers`
unfoldable pub optimizers : Bytes → Result (List OptimizerSystemInformation)
unfolding unpack_from read_version
optimizers file_data = unpack_from big header file_data 0 >>= read_version file_data
