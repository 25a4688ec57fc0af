-- ===== src/Errors/Tests.antt =====
-- Error rendering at concrete inputs.
use contextsnap.Base.{◌≡◌, refl, codes, []}
use contextsnap.Base.Int.{pos, negsuc}
use contextsnap.Errors.{Error, not_found, internal, error_string}
use contextsnap.Errors.Codes.{all_codes, code_from, code_from-code_string}
use contextsnap.Errors.{code_string}

abbrev no_snapshot : Error
no_snapshot = record {
  code = not_found;
  message = codes "no such snapshot";
  context = codes "repo.load";
  native_code = pos 1;
}

error_string_test :
    error_string no_snapshot ≡ codes "[not_found] no such snapshot (repo.load) [native=1]"
unfolding error_string
error_string_test = refl

negative_native :
    error_string (record no_snapshot { message = []; context = []; native_code = negsuc 11 })
    ≡ codes "[not_found] unspecified error [native=-12]"
unfolding error_string
negative_native = refl

code_from-code_string_example : code_from all_codes (code_string internal) ≡ internal
code_from-code_string_example = code_from-code_string internal
