-- ===== src/Errors.antt =====
-- include/contextsnap/core/result.hpp and src/core/result.cpp: error codes, errors and their
-- rendering, and the result of a fallible call.
pub mod Codes
pub mod Chain
mod Tests
use contextsnap.Base.{zero, suc, Bytes, Bool, true, false, ◌++◌, [], codes, is_empty, if◌then◌else◌}
use contextsnap.Base.Int.{ℤ, pos, negsuc}
use contextsnap.Base.Decimal.{int_string}

pub data ErrorCode : Type 0 where
  ok not_found already_exists invalid_argument permission_denied unsupported : ErrorCode
  io_error database_error serialization_error protocol_error timeout cancelled : ErrorCode
  conflict partial_failure internal : ErrorCode

unfoldable pub code_string : ErrorCode → Bytes
code_string ok = codes "ok"
code_string not_found = codes "not_found"
code_string already_exists = codes "already_exists"
code_string invalid_argument = codes "invalid_argument"
code_string permission_denied = codes "permission_denied"
code_string unsupported = codes "unsupported"
code_string io_error = codes "io_error"
code_string database_error = codes "database_error"
code_string serialization_error = codes "serialization_error"
code_string protocol_error = codes "protocol_error"
code_string timeout = codes "timeout"
code_string cancelled = codes "cancelled"
code_string conflict = codes "conflict"
code_string partial_failure = codes "partial_failure"
code_string internal = codes "internal"

-- `native_code` is an `int`, modelled as an integer.
pub record Error : Type 0 where
  pub code : ErrorCode
  pub message : Bytes
  pub context : Bytes
  pub native_code : ℤ

abbrev is_zero : ℤ → Bool
is_zero (pos zero) = true
is_zero (pos (suc n)) = false
is_zero (negsuc n) = false

-- `Error::to_string`.
unfoldable pub error_string : Error → Bytes
unfolding code_string int_string
error_string e =
    codes "["
    ++ code_string e.code
    ++ codes "] "
    ++ (if is_empty e.message then codes "unspecified error" else e.message)
    ++ (if is_empty e.context then [] else codes " (" ++ e.context ++ codes ")")
    ++ (if is_zero e.native_code
        then []
        else codes " [native=" ++ int_string e.native_code ++ codes "]")

-- The factories of namespace `err`; their default native code is 0.
abbrev pub make_error : ErrorCode → Bytes → Bytes → Error
make_error c what ctx = record { code = c; message = what; context = ctx; native_code = pos 0 }

abbrev pub invalid : Bytes → Bytes → Error
invalid = make_error invalid_argument

abbrev pub protocol : Bytes → Bytes → Error
protocol = make_error protocol_error

abbrev pub missing : Bytes → Bytes → Error
missing = make_error not_found

pub data Result {ℓ} (A : Type ℓ) : Type ℓ where
  value : A → Result A
  error : Error → Result A

-- `Result::map` and `Result::and_then`, and the early return of an error from a caller.
unfoldable pub map_result {ℓ κ} : {A : Type ℓ} {B : Type κ} → (A → B) → Result A → Result B
map_result f (value a) = value (f a)
map_result f (error e) = error e

infixl 5 ◌>>=◌
abbrev pub ◌>>=◌ {ℓ κ} : {A : Type ℓ} {B : Type κ} → Result A → (A → Result B) → Result B
value a >>= f = f a
error e >>= f = error e

-- `Result::value_or`.
unfoldable pub value_or {ℓ} : {A : Type ℓ} → Result A → A → A
value_or (value a) fallback = a
value_or (error e) fallback = fallback
