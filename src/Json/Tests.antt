-- ===== src/Json/Tests.antt =====
-- JSON at concrete inputs.
use contextsnap.Base.{[], codes, false, length, refl, some, true, ◌++◌, ◌∷◌, ◌≡◌, arith, ◌≢◌}
use contextsnap.Base.Int.{negsuc, pos}
use contextsnap.Base.Double.{bits}
use contextsnap.Errors.{error, invalid, value}
use contextsnap.Json.{
  DoubleText, Value, array, at_path, bool, double, int, item, member, no_items, no_members, null,
  object, string,
}
use contextsnap.Json.Printer.{serialize, serialize_into}
use contextsnap.Json.RoundTrip.{parse-serialize}
use contextsnap.Json.RoundTrip.Shape.{IsPlain, nest}
use contextsnap.Json.Total.{parse_all_total}
use contextsnap.Json.Parser.{parse, parse_all, parse_value, without_bom}
use contextsnap.Json.Outcome.{out_of_fuel}

-- A C library whose doubles are whole numbers.
abbrev whole_doubles : DoubleText
whole_doubles = record {
  is_special = λ d. false;
  print = λ p d. codes "1.5";
  strtod = λ s. bits 0;
  stod = λ s. some (bits (length s));
  eq = λ a b. true;
  to_int64 = λ d. pos 0;
  of_int = λ z. bits 0;
}

-- {"id": -7, "tags": ["a\n", [], true], "none": null}
abbrev sample : Value
sample = object (
    member (codes "id") (int (negsuc 6)) (
      member (codes "tags")
        (array (
          item (string (97 ∷ 10 ∷ 1 ∷ 233 ∷ []))
            (item (array no_items) (item (bool true) no_items))))
        (member (codes "none") null no_members)))

compact_test :
    serialize whole_doubles (negsuc 0) sample
    ≡ codes "{\"id\":-7,\"tags\":[\"a\\n\\u0001" ++ 233 ∷ codes "\",[],true],\"none\":null}"
unfolding serialize serialize_into
compact_test = refl

parse_test : parse whole_doubles (serialize whole_doubles (pos 2) sample) ≡ value sample
unfolding parse parse_all parse_value without_bom serialize serialize_into
parse_test = refl

surrogate_test :
    parse whole_doubles (codes " \"\\ud83d\\ude00\" ") ≡ value (string (240 ∷ 159 ∷ 152 ∷ 128 ∷ []))
unfolding parse parse_all parse_value without_bom
surrogate_test = refl

two_points : parse whole_doubles (codes "1.2.3") ≡ value (double (bits 5))
unfolding parse parse_all parse_value without_bom
two_points = refl

trailing_comma :
    parse whole_doubles (codes "[1,]")
    ≡ error (invalid (codes "invalid number at offset 3") (codes "json.parse"))
unfolding parse parse_all parse_value without_bom
trailing_comma = refl

path_test : at_path sample (codes "tags.2") ≡ some (bool true)
unfolding at_path
path_test = refl

parse-serialize_example :
    parse whole_doubles (serialize whole_doubles (pos 4) sample) ≡ value sample
parse-serialize_example =
    parse-serialize whole_doubles (pos 4) sample (unfold IsPlain in omega arith)
      (unfold nest in omega arith)

-- The text breaks off inside an escape.
parse_all_total_example : parse_all whole_doubles (codes "[{\"a\":\"\\u00") ≢ out_of_fuel
parse_all_total_example = parse_all_total whole_doubles (codes "[{\"a\":\"\\u00")
