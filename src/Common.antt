-- ===== src/Common.antt =====
-- common/common.h: environment variables, codes and constants.
pub mod Logger
use file_server.Prelude.{
  ℕ, ◌^◌, ◌<◌, ◌≤◌, ◌≡◌, refl, ap, ◌∙◌, Option, none, some, List, [], ◌∷◌, arith,
}
use file_server.Prelude.Int.{ℤ, pos, negsuc, pos_part, neg_part}
use file_server.Prelude.Text.{Bytes}
use file_server.Prelude.Decimal.{to_string, stoi, stoi-to_string}
use file_server.Json.{utf8}

-- `getenv` of a process: `none` for a name that is not set.
abbrev pub Env : Type 0
Env = Bytes → Option Bytes

-- A value that is set and not empty.
unfoldable pub non_empty : Option Bytes → Option Bytes
non_empty none = none
non_empty (some []) = none
non_empty (some (c ∷ cs)) = some (c ∷ cs)

unfoldable pub value_or : {A : Type 0} → A → Option A → A
value_or otherwise none = otherwise
value_or otherwise (some a) = a

-- `GetEnv`
unfoldable pub get_env : Env → Bytes → Bytes → Bytes
unfolding non_empty value_or
get_env env name default_value = value_or default_value (non_empty (env name))

unfoldable pub int_of : ℤ → Option Bytes → ℤ
unfolding value_or
int_of default_value none = default_value
int_of default_value (some value) = value_or default_value (stoi value)

-- `GetEnvInt`: every exception of `std::stoi` is caught.
unfoldable pub get_env_int : Env → Bytes → ℤ → ℤ
unfolding non_empty int_of
get_env_int env name default_value = int_of default_value (non_empty (env name))

pub data ErrorCode : Type 0 where
  k_ok k_unknown k_param_error k_auth_failed k_not_found k_io_error k_db_error k_rpc_error :
      ErrorCode
  k_timeout k_file_exists k_disk_full : ErrorCode

unfoldable pub error_code : ErrorCode → ℤ
error_code k_ok = pos 0
error_code k_unknown = negsuc 0
error_code k_param_error = negsuc 1
error_code k_auth_failed = negsuc 2
error_code k_not_found = negsuc 3
error_code k_io_error = negsuc 4
error_code k_db_error = negsuc 5
error_code k_rpc_error = negsuc 6
error_code k_timeout = negsuc 7
error_code k_file_exists = negsuc 8
error_code k_disk_full = negsuc 9

pub data FileStatus : Type 0 where
  k_uploading k_completed k_deleted : FileStatus

unfoldable pub file_status : FileStatus → ℤ
file_status k_uploading = pos 0
file_status k_completed = pos 1
file_status k_deleted = pos 2

-- A setting in decimal form is read as it was written, if it is an `int`; with no value, an empty one or
-- one without a number, the default is taken.
pub get_env_int_lem :
    (env : Env) (name : Bytes) (n otherwise : ℤ)
    → pos_part n < 2 ^ 31
    → neg_part n ≤ 2 ^ 31
    → (non_empty (env name) ≡ some (to_string n) → get_env_int env name otherwise ≡ n)
      × (non_empty (env name) ≡ none → get_env_int env name otherwise ≡ otherwise)
      × ((value : Bytes)
          → non_empty (env name) ≡ some value
          → stoi value ≡ none
          → get_env_int env name otherwise ≡ otherwise)
unfolding get_env_int int_of value_or
get_env_int_lem env name n otherwise high low = (
  λ e. ap (int_of otherwise) e ∙ ap (value_or otherwise) (stoi-to_string n high low),
  λ e. ap (int_of otherwise) e,
  λ value e bad. ap (int_of otherwise) e ∙ ap (value_or otherwise) bad,
)
