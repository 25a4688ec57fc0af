-- ===== src/Json/RoundTrip/Shape.antt =====
-- The values that can be read back, and what their texts look like from outside.
use contextsnap.Base.{
  Bool, Bytes, [], arith, codes, false, length, length-append, ltb, max, not, refl, suc, true, zero,
  ℕ, ◌&&◌, ◌*◌, ◌++◌, ◌==◌, ◌||◌, ◌∷◌, ◌≡◌, ◌≤◌,
}
use contextsnap.Base.Int.{negsuc, pos, ℤ}
use contextsnap.Base.Cuts.{begins}
use contextsnap.Json.{
  DoubleText, Items, Members, Value, array, bool, count_items, count_members, double, int, item,
  member, no_items, no_members, null, object, string,
}
use contextsnap.Json.Escape.{escape}
use contextsnap.Json.Printer.{
  colon, serialize_into, serialize_items, serialize_members, spaces, write_indent,
}
use contextsnap.Json.Parser.{is_blank, max_depth, parse_value, skip_whitespace, parse_key}
use contextsnap.Json.Quoted.{parse_string-escape}
use contextsnap.Json.Digits.{IsInt64, ends_number, int_string_head}
use contextsnap.Json.Outcome.{parsed}
use contextsnap.Json.RoundTrip.Doubles.{IsReadable, format_double_head}

-- How deep containers are nested.
unfoldable mutual
  pub nest : Value → ℕ
  nest (array xs) = suc (nest_items xs)
  nest (object ms) = suc (nest_members ms)
  nest _ = 0

  pub nest_items : Items → ℕ
  nest_items no_items = 0
  nest_items (item v xs) = max (nest v) (nest_items xs)

  pub nest_members : Members → ℕ
  nest_members no_members = 0
  nest_members (member k v ms) = max (nest v) (nest_members ms)

-- A value without doubles, all of whose integers fit an `int64_t`.
unfoldable mutual
  pub IsPlain : Value → Type 0
  IsPlain (int z) = IsInt64 z
  IsPlain (double d) = ⊥
  IsPlain (array xs) = AllPlain xs
  IsPlain (object ms) = MembersPlain ms
  IsPlain _ = Unit

  pub AllPlain : Items → Type 0
  AllPlain no_items = Unit
  AllPlain (item v xs) = IsPlain v × AllPlain xs

  pub MembersPlain : Members → Type 0
  MembersPlain no_members = Unit
  MembersPlain (member k v ms) = IsPlain v × MembersPlain ms

-- A value whose integers fit an `int64_t` and whose doubles the C library reads back.
module _ (fp : DoubleText) where
  unfoldable mutual
    pub IsPrintable : Value → Type 0
    IsPrintable (int z) = IsInt64 z
    IsPrintable (double d) = IsReadable fp d
    IsPrintable (array xs) = AllPrintable xs
    IsPrintable (object ms) = MembersPrintable ms
    IsPrintable _ = Unit

    pub AllPrintable : Items → Type 0
    AllPrintable no_items = Unit
    AllPrintable (item v xs) = IsPrintable v × AllPrintable xs

    pub MembersPrintable : Members → Type 0
    MembersPrintable no_members = Unit
    MembersPrintable (member k v ms) = IsPrintable v × MembersPrintable ms

skip-spaces : (n : ℕ) (s : Bytes) → skip_whitespace (spaces n ++ s) ≡ skip_whitespace s
unfolding skip_whitespace spaces
skip-spaces zero s = refl
skip-spaces (suc n) s = skip-spaces n s

pub skip-write_indent :
    (indent : ℤ) (d : ℕ) (s : Bytes)
    → skip_whitespace (write_indent indent d ++ s) ≡ skip_whitespace s
unfolding write_indent skip_whitespace
skip-write_indent (pos n) d s = skip-spaces (n * d) s
skip-write_indent (negsuc n) d s = refl

pub begins-write_indent :
    (indent : ℤ) (d c : ℕ) (s : Bytes)
    → ends_number c ≡ true
    → begins ends_number (write_indent indent d ++ c ∷ s) ≡ true
unfolding write_indent
begins-write_indent (pos n) d c s h = refl
begins-write_indent (negsuc n) d c s h = h

-- A character that a printed value can begin with.
abbrev pub starts_value : ℕ → Bool
starts_value c = not (is_blank c) && not (c == b']' || c == b',' || c == 0xEF)

StartsValue : Bytes → Type 0
StartsValue s = (c : ℕ) × (t : Bytes) × (s ≡ c ∷ t) × (starts_value c ≡ true)

pub serialize_into_head :
    (fp : DoubleText) (indent : ℤ) (d : ℕ) (v : Value)
    → IsPrintable fp v
    → (c : ℕ) × (t : Bytes) × (serialize_into fp indent d v ≡ c ∷ t) × (starts_value c ≡ true)
unfolding serialize_into IsPrintable
serialize_into_head fp indent d null h = (b'n', codes "ull", refl, refl)
serialize_into_head fp indent d (bool true) h = (b't', codes "rue", refl, refl)
serialize_into_head fp indent d (bool false) h = (b'f', codes "alse", refl, refl)
serialize_into_head fp indent d (int z) h =
    let (c, t, e, number) = int_string_head z in (c, t, e, ground arith)
serialize_into_head fp indent d (double x) h =
    let (c, t, e, number) = format_double_head fp x h in (c, t, e, ground arith)
serialize_into_head fp indent d (string s) h = (b'"', escape s ++ b'"' ∷ [], refl, refl)
serialize_into_head fp indent d (array no_items) h = (b'[', codes "]", refl, refl)
serialize_into_head fp indent d (array (item v xs)) h = (
  b'[',
  serialize_items fp indent true d (item v xs) ++ (write_indent indent d ++ b']' ∷ []),
  refl,
  refl,
)
serialize_into_head fp indent d (object no_members) h = (b'{', codes "}", refl, refl)
serialize_into_head fp indent d (object (member k v ms)) h = (
  b'{',
  serialize_members fp indent true d (member k v ms) ++ (write_indent indent d ++ b'}' ∷ []),
  refl,
  refl,
)

pub skip_value : (c : ℕ) (s : Bytes) → starts_value c ≡ true → skip_whitespace (c ∷ s) ≡ c ∷ s
unfolding skip_whitespace
skip_value c s h = let solid : is_blank c ≡ false = ground arith in rw solid refl

-- The parser of a value looks at the text behind the white space.
pub parse_value-skip :
    (fp : DoubleText) (total f d : ℕ) (s t : Bytes)
    → d ≤ max_depth
    → skip_whitespace s ≡ skip_whitespace t
    → parse_value fp total f d s ≡ parse_value fp total f d t
unfolding parse_value
parse_value-skip fp total zero d s t h e = refl
parse_value-skip fp total (suc f) d s t h e =
    let shallow : ltb max_depth d ≡ false = ground arith in rw (shallow, e) refl

pub serialize_items_ends :
    (fp : DoubleText) (indent : ℤ) (d : ℕ) (xs : Items) (rest : Bytes)
    → begins ends_number rest ≡ true
    → begins ends_number (serialize_items fp indent false d xs ++ rest) ≡ true
unfolding serialize_into
serialize_items_ends fp indent d no_items rest h = h
serialize_items_ends fp indent d (item v xs) rest h = refl

pub serialize_members_ends :
    (fp : DoubleText) (indent : ℤ) (d : ℕ) (ms : Members) (rest : Bytes)
    → begins ends_number rest ≡ true
    → begins ends_number (serialize_members fp indent false d ms ++ rest) ≡ true
unfolding serialize_into
serialize_members_ends fp indent d no_members rest h = h
serialize_members_ends fp indent d (member k v ms) rest h = refl

pub count-le-items :
    (fp : DoubleText) (indent : ℤ) (d : ℕ) (xs : Items)
    → count_items xs ≤ length (serialize_items fp indent false d xs)
unfolding serialize_into count_items
count-le-items fp indent d no_items = omega arith
count-le-items fp indent d (item v xs) =
    let more = count-le-items fp indent d xs in
    let after = serialize_into fp indent (suc d) v ++ serialize_items fp indent false d xs in
    omega (
      arith,
      more,
      length-append (write_indent indent (suc d)) after,
      length-append (serialize_into fp indent (suc d) v) (serialize_items fp indent false d xs),
    )

pub count-le-members :
    (fp : DoubleText) (indent : ℤ) (d : ℕ) (ms : Members)
    → count_members ms ≤ length (serialize_members fp indent false d ms)
unfolding serialize_into count_members
count-le-members fp indent d no_members = omega arith
count-le-members fp indent d (member k v ms) =
    let more = count-le-members fp indent d ms in
    let after = serialize_into fp indent (suc d) v ++ serialize_members fp indent false d ms in
    omega (
      arith,
      more,
      length-append (write_indent indent (suc d)) (b'"' ∷ (escape k ++ (colon indent ++ after))),
      length-append (escape k) (colon indent ++ after),
      length-append (colon indent) after,
      length-append (serialize_into fp indent (suc d) v) (serialize_members fp indent false d ms),
    )

-- The blank behind the colon of an indented text.
abbrev pub gap : ℤ → Bytes
gap (pos n) = b' ' ∷ []
gap (negsuc n) = []

pub parse_value-gap :
    (fp : DoubleText) (total : ℕ) (indent : ℤ) (f d : ℕ) (s : Bytes)
    → d ≤ max_depth
    → parse_value fp total f d (gap indent ++ s) ≡ parse_value fp total f d s
unfolding skip_whitespace
parse_value-gap fp total (pos n) f d s h = parse_value-skip fp total f d (b' ' ∷ s) s h refl
parse_value-gap fp total (negsuc n) f d s h = refl

-- A printed key and its colon.
pub parse_key-key :
    (total : ℕ) (indent : ℤ) (k s : Bytes)
    → parse_key total (b'"' ∷ (escape k ++ (colon indent ++ s))) ≡ parsed k (gap indent ++ s)
unfolding parse_key skip_whitespace
parse_key-key total (pos n) k s = rw (parse_string-escape total k (b':' ∷ b' ' ∷ s)) refl
parse_key-key total (negsuc n) k s = rw (parse_string-escape total k (b':' ∷ s)) refl

pub skip_quote : (s : Bytes) → skip_whitespace (b'"' ∷ s) ≡ b'"' ∷ s
unfolding skip_whitespace
skip_quote s = refl
