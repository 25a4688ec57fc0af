-- ===== src/Json/Printer.antt =====
-- src/core/json.cpp: `format_double`, `write_indent`, `serialize_into` and `serialize`. What the
-- code appends to `out` is the result.
use contextsnap.Base.{
  Bool, Bytes, [], codes, false, if◌then◌else◌, is_empty, not, suc, true, zero, ℕ, ◌&&◌, ◌*◌, ◌++◌,
  ◌+◌, ◌∷◌,
}
use contextsnap.Base.Int.{negsuc, pos, ℤ}
use contextsnap.Base.Double.{Double}
use contextsnap.Base.Decimal.{int_string}
use contextsnap.Json.{
  DoubleText, Items, Members, Value, array, bool, double, int, item, member, no_items, no_members,
  null, object, string,
}
use contextsnap.Json.Escape.{escape}

-- The loop over the precisions that are left, from `precision` on; `text` where none reads back.
unfoldable pub shortest : DoubleText → ℕ → ℕ → Double → Bytes → Bytes
shortest fp zero precision d text = text
shortest fp (suc left) precision d text =
    let candidate = fp.print precision d in
    let longer = shortest fp left (precision + 1) d text in
    if not (is_empty candidate) && fp.eq (fp.strtod candidate) d then candidate else longer

unfoldable pub format_double : DoubleText → Double → Bytes
unfolding shortest
format_double fp d =
    if fp.is_special d
    then codes "null"
    else let text = fp.print 17 d in if is_empty text then codes "0" else shortest fp 16 1 d text

unfoldable pub spaces : ℕ → Bytes
spaces zero = []
spaces (suc n) = b' ' ∷ spaces n

unfoldable pub write_indent : ℤ → ℕ → Bytes
unfolding spaces
write_indent (pos n) depth = b'\n' ∷ spaces (n * depth)
write_indent (negsuc n) depth = []

-- The comma before every element but the first.
abbrev pub comma : Bool → Bytes
comma first = if first then [] else b',' ∷ []

abbrev pub colon : ℤ → Bytes
colon (pos n) = b'"' ∷ b':' ∷ b' ' ∷ []
colon (negsuc n) = b'"' ∷ b':' ∷ []

module _ (fp : DoubleText) (indent : ℤ) where
  unfoldable mutual
    unfolding format_double write_indent escape int_string

    pub serialize_into : ℕ → Value → Bytes
    serialize_into depth null = codes "null"
    serialize_into depth (bool b) = if b then codes "true" else codes "false"
    serialize_into depth (int z) = int_string z
    serialize_into depth (double d) = format_double fp d
    serialize_into depth (string s) = b'"' ∷ (escape s ++ b'"' ∷ [])
    serialize_into depth (array no_items) = codes "[]"
    serialize_into depth (array (item v xs)) =
        b'[' ∷ (serialize_items true depth (item v xs) ++ (write_indent indent depth ++ b']' ∷ []))
    serialize_into depth (object no_members) = codes "{}"
    serialize_into depth (object (member k v ms)) =
        b'{'
        ∷ (serialize_members true depth (member k v ms) ++ (write_indent indent depth ++ b'}' ∷ []))

    pub serialize_items : Bool → ℕ → Items → Bytes
    serialize_items first depth no_items = []
    serialize_items first depth (item v xs) =
        comma first
        ++ (write_indent indent (suc depth)
            ++ (serialize_into (suc depth) v ++ serialize_items false depth xs))

    pub serialize_members : Bool → ℕ → Members → Bytes
    serialize_members first depth no_members = []
    serialize_members first depth (member k v ms) =
        comma first
        ++ (write_indent indent (suc depth)
            ++ b'"'
              ∷ (escape k
                  ++ (colon indent
                      ++ (serialize_into (suc depth) v ++ serialize_members false depth ms))))

  unfoldable pub serialize : Value → Bytes
  serialize v = serialize_into 0 v
