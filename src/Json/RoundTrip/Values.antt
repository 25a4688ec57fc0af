-- ===== src/Json/RoundTrip/Values.antt =====
-- Values of each kind are read back from their texts (src/core/json.cpp, `parse_value`).
use contextsnap.Base.{
  Bool, Bytes, [], ap, append_assoc, arith, drop, false, length, length-append, ltb, none, refl,
  suc, true, zero, ℕ, ◌++◌, ◌+◌, ◌==◌, ◌∙◌, ◌∷◌, ◌≡◌, ◌≤◌,
}
use contextsnap.Base.Int.{ℤ}
use contextsnap.Base.Double.{Double}
use contextsnap.Base.Decimal.{int_string}
use contextsnap.Json.{
  DoubleText, Items, Members, Value, array, bool, count_items, count_members, double, int, item,
  member, no_items, no_members, null, object, string,
}
use contextsnap.Json.Printer.{
  colon, format_double, serialize_into, serialize_items, serialize_members, write_indent,
}
use contextsnap.Json.Outcome.{Outcome, parsed}
use contextsnap.Json.Parser.{
  consume, items_loop, max_depth, members_loop, parse_array, parse_object, parse_value,
  skip_whitespace, value_at,
}
use contextsnap.Json.Digits.{begins_number, int_string_head, parse_number-int_string}
use contextsnap.Json.RoundTrip.Loops.{
  Reads, ReadsItems, ReadsMembers, closing, items_last, items_next, members_last, members_next,
  regroup_items, regroup_members, serialize_no_items, serialize_no_members, text,
}
use contextsnap.Json.RoundTrip.Shape.{
  IsPrintable, count-le-items, count-le-members, nest, serialize_into_head, skip-write_indent,
  skip_quote, skip_value, starts_value,
}
use contextsnap.Json.RoundTrip.Reread.{map_doubles, reread, reread_items, reread_members}
use contextsnap.Json.RoundTrip.Doubles.{
  format_double_head, number_value, parse_number-format_double,
}
use contextsnap.Json.Escape.{escape}
use contextsnap.Json.Number.{parse_number}
use contextsnap.Json.Quoted.{parse_string-escape}

module _ (fp : DoubleText) (total : ℕ) (indent : ℤ) where
  abbrev member_text : ℕ → Bytes → Value → Members → Bytes → Bytes
  member_text d k v ms rest =
      b'"'
      ∷ (escape k
          ++ (colon indent
              ++ (text fp total indent (suc d) v
                  ++ (serialize_members fp indent false d ms
                      ++ closing fp total indent d b'}' rest))))

  abbrev item_text : ℕ → Value → Items → Bytes → Bytes
  item_text d v xs rest =
      text fp total indent (suc d) v
      ++ (serialize_items fp indent false d xs ++ closing fp total indent d b']' rest)

  flat : Value → Bool
  flat (int z) = false
  flat (double d) = false
  flat (string s) = false
  flat (array (item v xs)) = false
  flat (object (member k v ms)) = false
  flat _ = true

  shallow : (f d n : ℕ) → d + n ≤ max_depth → ltb max_depth d ≡ false
  shallow f d n h = ground arith

  flat-Reads : (v : Value) → flat v ≡ true → Reads fp total indent v
  unfolding flat parse_value serialize_into nest map_doubles
  flat-Reads v e zero d rest hf hd hp hr = absurd (omega arith)
  flat-Reads null e (suc f) d rest hf hd hp hr = rw (shallow f d 0 hd) refl
  flat-Reads (bool true) e (suc f) d rest hf hd hp hr = rw (shallow f d 0 hd) refl
  flat-Reads (bool false) e (suc f) d rest hf hd hp hr = rw (shallow f d 0 hd) refl
  flat-Reads (int z) e (suc f) d rest hf hd hp hr = cc
  flat-Reads (double x) e (suc f) d rest hf hd hp hr = cc
  flat-Reads (string s) e (suc f) d rest hf hd hp hr = cc
  flat-Reads (array no_items) e (suc f) d rest hf hd hp hr = rw (shallow f d 1 hd) refl
  flat-Reads (array (item v xs)) e (suc f) d rest hf hd hp hr = cc
  flat-Reads (object no_members) e (suc f) d rest hf hd hp hr = rw (shallow f d 1 hd) refl
  flat-Reads (object (member k v ms)) e (suc f) d rest hf hd hp hr = cc

  enter :
      (f d n c : ℕ) (s : Bytes)
      → d + n ≤ max_depth
      → starts_value c ≡ true
      → parse_value fp total (suc f) d (c ∷ s)
        ≡ value_at fp total (parse_value fp total f (suc d)) (c ∷ s)
  unfolding parse_value
  enter f d n c s hd hc =
      let next : d + 1 ≡ suc d = omega arith in rw (shallow f d n hd, skip_value c s hc, next) refl

  string-Reads : (s : Bytes) → Reads fp total indent (string s)
  unfolding serialize_into value_at nest map_doubles
  string-Reads s zero d rest hf hd hp hr = absurd (omega arith)
  string-Reads s (suc f) d rest hf hd hp hr =
      enter f d 0 b'"' ((escape s ++ b'"' ∷ []) ++ rest) hd refl
      ∙ rw (append_assoc (escape s) (b'"' ∷ []) rest, parse_string-escape total s rest) refl

  value_at-number :
      (nested : Bytes → Outcome Value) (c : ℕ) (s : Bytes)
      → begins_number c ≡ true
      → value_at fp total nested (c ∷ s) ≡ parse_number fp total (c ∷ s)
  unfolding value_at
  value_at-number nested c s h =
      let n0 : (c == b'{') ≡ false = ground arith in
      let n1 : (c == b'[') ≡ false = ground arith in
      let n2 : (c == b'"') ≡ false = ground arith in
      let n3 : (c == b't') ≡ false = ground arith in
      let n4 : (c == b'f') ≡ false = ground arith in
      let n5 : (c == b'n') ≡ false = ground arith in rw (n0, n1, n2, n3, n4, n5) refl

  -- A number's text is read by `parse_number`.
  number-Reads :
      (v : Value) (s rest : Bytes) (f d : ℕ)
      → d ≤ max_depth
      → (c : ℕ) × (t : Bytes) × (s ≡ c ∷ t) × (begins_number c ≡ true)
      → parse_number fp total (s ++ rest) ≡ parsed v rest
      → parse_value fp total (suc f) d (s ++ rest) ≡ parsed v rest
  number-Reads v s rest f d hd (c, t, e, number) read =
      let starts : starts_value c ≡ true = ground arith in
      rw e (
        enter f d 0 c (t ++ rest) (omega arith) starts
        ∙ value_at-number (parse_value fp total f (suc d)) c (t ++ rest) number
        ∙ (rw e at read))

  int-Reads : (z : ℤ) → Reads fp total indent (int z)
  unfolding serialize_into nest IsPrintable map_doubles
  int-Reads z zero d rest hf hd hp hr = absurd (omega arith)
  int-Reads z (suc f) d rest hf hd hp hr =
      number-Reads (int z) (int_string z) rest f d (omega arith) (int_string_head z)
        (parse_number-int_string fp total z rest hp hr)

  double-Reads : (x : Double) → Reads fp total indent (double x)
  unfolding serialize_into nest IsPrintable map_doubles
  double-Reads x zero d rest hf hd hp hr = absurd (omega arith)
  double-Reads x (suc f) d rest hf hd hp hr =
      number-Reads (number_value fp x) (format_double fp x) rest f d (omega arith)
        (format_double_head fp x hp) (parse_number-format_double fp total x rest hp hr)

  array_text :
      (d : ℕ) (v : Value) (xs : Items) (rest : Bytes)
      → (serialize_items fp indent true d (item v xs) ++ (write_indent indent d ++ b']' ∷ []))
          ++ rest
        ≡ write_indent indent (suc d) ++ item_text d v xs rest
  unfolding serialize_into
  array_text d v xs rest = simp (append_assoc)

  object_text :
      (d : ℕ) (k : Bytes) (v : Value) (ms : Members) (rest : Bytes)
      → (serialize_members fp indent true d (member k v ms) ++ (write_indent indent d ++ b'}' ∷ []))
          ++ rest
        ≡ write_indent indent (suc d) ++ member_text d k v ms rest
  unfolding serialize_into
  object_text d k v ms rest = simp (append_assoc)

  count-item_text :
      (d : ℕ) (v : Value) (xs : Items) (rest : Bytes)
      → count_items xs ≤ length (item_text d v xs rest)
  count-item_text d v xs rest =
      let more = serialize_items fp indent false d xs in
      let end = closing fp total indent d b']' rest in
      omega (
        arith,
        count-le-items fp indent d xs,
        length-append more end,
        length-append (text fp total indent (suc d) v) (more ++ end),
      )

  count-member_text :
      (d : ℕ) (k : Bytes) (v : Value) (ms : Members) (rest : Bytes)
      → count_members ms ≤ length (member_text d k v ms rest)
  count-member_text d k v ms rest =
      let more = serialize_members fp indent false d ms in
      let end = closing fp total indent d b'}' rest in
      let after = text fp total indent (suc d) v ++ (more ++ end) in
      omega (
        arith,
        count-le-members fp indent d ms,
        length-append more end,
        length-append (text fp total indent (suc d) v) (more ++ end),
        length-append (colon indent) after,
        length-append (escape k) (colon indent ++ after),
      )

  pub skip-text :
      (d : ℕ) (v : Value) (s : Bytes)
      → IsPrintable fp v
      → (skip_whitespace (text fp total indent d v ++ s) ≡ text fp total indent d v ++ s)
        × (consume b']' (text fp total indent d v ++ s) ≡ none)
  skip-text d v s h =
      let (c, t, e, starts) = serialize_into_head fp indent d v h in
      let other : (c == b']') ≡ false = ground arith in
      rw e (skip_value c (t ++ s) starts, rw other refl)

  parse_array_items :
      (nested : Bytes → Outcome Value) (s t : Bytes) (xs : Items) (rest : Bytes)
      → skip_whitespace s ≡ t
      → consume b']' t ≡ none
      → items_loop total nested (suc (length t)) t ≡ parsed xs rest
      → parse_array total nested s ≡ parsed (array xs) rest
  unfolding parse_array
  parse_array_items nested s t xs rest h k l = rw (parse_array, rw (← h) at k, rw (← h) at l) refl

  parse_object_members :
      (nested : Bytes → Outcome Value) (s t : Bytes) (ms : Members) (rest : Bytes)
      → skip_whitespace s ≡ t
      → consume b'}' t ≡ none
      → members_loop total nested (suc (length t)) t ≡ parsed ms rest
      → parse_object total nested s ≡ parsed (object ms) rest
  unfolding parse_object
  parse_object_members nested s t ms rest h k l =
      rw (parse_object, rw (← h) at k, rw (← h) at l) refl

  array-Reads :
      (v : Value) (xs : Items)
      → Reads fp total indent v
      → ReadsItems fp total indent xs
      → Reads fp total indent (array (item v xs))
  unfolding nest IsPrintable map_doubles value_at parse_array serialize_into
  array-Reads v xs reads more zero d rest hf hd hp hr = absurd (omega arith)
  array-Reads v xs reads more (suc f) d rest hf hd hp hr =
      let inner = item_text d v xs rest in
      let after = serialize_items fp indent false d xs ++ closing fp total indent d b']' rest in
      let (skipped, unclosed) = skip-text (suc d) v after hp.0 in
      let body =
        (serialize_items fp indent true d (item v xs) ++ (write_indent indent d ++ b']' ∷ []))
        ++ rest in
      enter f d (nest (array (item v xs))) b'[' body hd refl
      ∙ parse_array_items (parse_value fp total f (suc d)) body inner
          (item (reread fp v) (reread_items fp xs)) rest
          (ap skip_whitespace (array_text d v xs rest)
            ∙ skip-write_indent indent (suc d) inner
            ∙ skipped)
          unclosed
          (more v reads f (length inner) d rest (omega arith) (omega arith) hp.0 hp.1
            (count-item_text d v xs rest))

  object-Reads :
      (k : Bytes) (v : Value) (ms : Members)
      → Reads fp total indent v
      → ReadsMembers fp total indent ms
      → Reads fp total indent (object (member k v ms))
  unfolding nest IsPrintable map_doubles value_at parse_object serialize_into
  object-Reads k v ms reads more zero d rest hf hd hp hr = absurd (omega arith)
  object-Reads k v ms reads more (suc f) d rest hf hd hp hr =
      let inner = member_text d k v ms rest in
      let body =
        (serialize_members fp indent true d (member k v ms) ++ (write_indent indent d ++ b'}' ∷ []))
        ++ rest in
      enter f d (nest (object (member k v ms))) b'{' body hd refl
      ∙ parse_object_members (parse_value fp total f (suc d)) body inner
          (member k (reread fp v) (reread_members fp ms)) rest
          (ap skip_whitespace (object_text d k v ms rest)
            ∙ skip-write_indent indent (suc d) inner
            ∙ skip_quote (drop 1 inner))
          refl
          (more k v reads f (length inner) d rest (omega arith) (omega arith) hp.0 hp.1
            (count-member_text d k v ms rest))

  mutual
    unfolding nest IsPrintable map_doubles count_items count_members flat

    pub value-Reads : (v : Value) → Reads fp total indent v
    value-Reads (array (item v xs)) = array-Reads v xs (value-Reads v) (items-Reads xs)
    value-Reads (object (member k v ms)) = object-Reads k v ms (value-Reads v) (members-Reads ms)
    value-Reads (int z) = int-Reads z
    value-Reads (string s) = string-Reads s
    value-Reads null = flat-Reads null refl
    value-Reads (bool b) = flat-Reads (bool b) refl
    value-Reads (double x) = double-Reads x
    value-Reads (array no_items) = flat-Reads (array no_items) refl
    value-Reads (object no_members) = flat-Reads (object no_members) refl

    items-Reads : (xs : Items) → ReadsItems fp total indent xs
    items-Reads no_items v reads f g d rest hf hd hv hs hg =
        rw (serialize_no_items fp total indent d)
          (items_last fp total indent v reads f g d rest (omega arith) (omega arith) hv)
    items-Reads (item w ys) v reads f zero d rest hf hd hv hs hg = absurd (omega arith)
    items-Reads (item w ys) v reads f (suc g) d rest hf hd hv hs hg =
        rw (regroup_items fp total indent d w ys (closing fp total indent d b']' rest)) (
          items_next fp total indent v reads f g d
            (text fp total indent (suc d) w
              ++ (serialize_items fp indent false d ys ++ closing fp total indent d b']' rest))
            (item (reread fp w) (reread_items fp ys)) rest (omega arith) (omega arith) hv
            (items-Reads ys w (value-Reads w) f g d rest (omega arith) (omega arith) hs.0 hs.1
              (omega arith)))

    members-Reads : (ms : Members) → ReadsMembers fp total indent ms
    members-Reads no_members k v reads f g d rest hf hd hv hs hg =
        rw (serialize_no_members fp total indent d)
          (members_last fp total indent k v reads f g d rest (omega arith) (omega arith) hv)
    members-Reads (member j w ns) k v reads f zero d rest hf hd hv hs hg = absurd (omega arith)
    members-Reads (member j w ns) k v reads f (suc g) d rest hf hd hv hs hg =
        rw (regroup_members fp total indent false d j w ns (closing fp total indent d b'}' rest)) (
          members_next fp total indent k v reads f g d (member_text d j w ns rest)
            (member j (reread fp w) (reread_members fp ns)) rest (omega arith) (omega arith) hv
            (members-Reads ns j w (value-Reads w) f g d rest (omega arith) (omega arith) hs.0 hs.1
              (omega arith)))
