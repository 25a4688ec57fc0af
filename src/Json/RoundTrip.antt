-- ===== src/Json/RoundTrip.antt =====
-- A printed value is read back (src/core/json.cpp, `serialize` and `parse`).
pub mod Doubles
pub mod Shape
pub mod Reread
pub mod Loops
pub mod Values
use contextsnap.Base.{
  Bytes, [], ap, append-nil, arith, false, is_empty, length, refl, ℕ, ◌==◌, ◌∙◌, ◌∷◌, ◌≡◌, ◌≤◌,
}
use contextsnap.Base.Int.{ℤ}
use contextsnap.Json.{DoubleText, Value}
use contextsnap.Json.Printer.{serialize, serialize_into}
use contextsnap.Json.Outcome.{parsed}
use contextsnap.Json.Parser.{max_depth, parse, parse_all, skip_whitespace, without_bom}
use contextsnap.Errors.{value}
use contextsnap.Json.RoundTrip.Shape.{IsPlain, IsPrintable, nest, serialize_into_head}
use contextsnap.Json.RoundTrip.Reread.{IsPrintable-of_plain, map_doubles-plain, reread}
use contextsnap.Json.RoundTrip.Doubles.{number_value}
use contextsnap.Json.RoundTrip.Values.{skip-text, value-Reads}

without_bom_other : (c : ℕ) (s : Bytes) → (c == 0xEF) ≡ false → without_bom (c ∷ s) ≡ c ∷ s
unfolding without_bom
without_bom_other c [] h = refl
without_bom_other c (b ∷ []) h = refl
without_bom_other c (b ∷ a ∷ s) h = rw h refl

no_bom :
    (fp : DoubleText) (indent : ℤ) (v : Value)
    → IsPrintable fp v
    → (is_empty (serialize fp indent v) ≡ false)
      × (without_bom (serialize fp indent v) ≡ serialize fp indent v)
unfolding serialize
no_bom fp indent v h =
    let (c, t, e, starts) = serialize_into_head fp indent 0 v h in
    rw e (refl, without_bom_other c t (ground arith))

parse_all-serialize :
    (fp : DoubleText) (indent : ℤ) (v : Value)
    → IsPrintable fp v
    → nest v ≤ max_depth
    → parse_all fp (serialize fp indent v) ≡ parsed (reread fp v) []
unfolding parse_all serialize
parse_all-serialize fp indent v h deep =
    let s = serialize_into fp indent 0 v in
    let skipped = rw append-nil at ((skip-text fp (length s) indent 0 v [] h).0) in
    let read =
      rw append-nil at
        (value-Reads fp (length s) indent v 130 0 [] (omega arith) (omega arith) h refl) in
    rw (skipped, read) (unfold skip_whitespace in refl)

-- A value whose integers fit an `int64_t` and whose doubles the C library reads back, nested at most
-- 128 deep, is read back from its text, compact or indented by any number of blanks, with each double
-- replaced by what its own text is read as.
pub parse-serialize_doubles :
    (fp : DoubleText) (indent : ℤ) (v : Value)
    → IsPrintable fp v
    → nest v ≤ max_depth
    → parse fp (serialize fp indent v) ≡ value (reread fp v)
unfolding parse
parse-serialize_doubles fp indent v h deep =
    let (full, plain) = no_bom fp indent v h in
    rw (full, plain, parse_all-serialize fp indent v h deep) refl

-- A value without doubles whose integers fit an `int64_t`, nested at most 128 deep, is read back
-- as it was from its text, whether that is compact or indented by any number of blanks.
pub parse-serialize :
    (fp : DoubleText) (indent : ℤ) (v : Value)
    → IsPlain v
    → nest v ≤ max_depth
    → parse fp (serialize fp indent v) ≡ value v
parse-serialize fp indent v h deep =
    parse-serialize_doubles fp indent v (IsPrintable-of_plain fp v h) deep
    ∙ ap (λ w. value w) (map_doubles-plain (number_value fp) v h)
