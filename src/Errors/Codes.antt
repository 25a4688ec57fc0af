-- ===== src/Errors/Codes.antt =====
-- The names of error codes and the number behind each, as `Response::from_json` reads them back.
use contextsnap.Base.{Bytes, List, [], ◌∷◌, ◌≡◌, refl, bytes_eq, if◌then◌else◌}
use contextsnap.Errors.{
  ErrorCode, ok, not_found, already_exists, invalid_argument, permission_denied, unsupported,
  io_error, database_error, serialization_error, protocol_error, timeout, cancelled, conflict,
  partial_failure, internal, code_string,
}

-- The enumerators, in the order of their values 0 to 14.
abbrev pub all_codes : List ErrorCode
all_codes =
    ok ∷ not_found ∷ already_exists ∷ invalid_argument ∷ permission_denied ∷ unsupported ∷ io_error
    ∷ database_error ∷ serialization_error ∷ protocol_error ∷ timeout ∷ cancelled ∷ conflict
    ∷ partial_failure ∷ internal ∷ []

-- The search loop: the first code of that name, `ok` (the default of the field) where none has it.
unfoldable pub code_from : List ErrorCode → Bytes → ErrorCode
unfolding code_string
code_from [] text = ok
code_from (c ∷ cs) text = if bytes_eq (code_string c) text then c else code_from cs text

-- Every error code survives the trip through its name: no two codes share one.
pub code_from-code_string : (c : ErrorCode) → code_from all_codes (code_string c) ≡ c
unfolding code_from code_string
code_from-code_string ok = refl
code_from-code_string _ = refl
