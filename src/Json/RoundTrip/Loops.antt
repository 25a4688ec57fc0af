-- ===== src/Json/RoundTrip/Loops.antt =====
-- The loops over printed elements (src/core/json.cpp, `parse_array` and `parse_object`).
use contextsnap.Base.{
  Bytes, false, suc, true, ℕ, ◌++◌, ◌+◌, ◌<◌, ◌∷◌, ◌≡◌, ◌≤◌, ==_refl, arith, codes, max, refl, ◌==◌,
  ◌∙◌, Bool, [], ap, append_assoc, none, some,
}
use contextsnap.Base.Int.{ℤ}
use contextsnap.Base.Cuts.{begins}
use contextsnap.Json.{
  DoubleText, Items, Value, count_items, item, no_items, Members, count_members, member, no_members,
}
use contextsnap.Json.Printer.{
  serialize_into, serialize_items, write_indent, colon, serialize_members, comma,
}
use contextsnap.Json.Outcome.{parsed, Outcome, bind}
use contextsnap.Json.Parser.{
  items_loop, max_depth, parse_value, follow, is_blank, members_loop, skip_whitespace, consume,
}
use contextsnap.Json.Digits.{ends_number}
use contextsnap.Json.RoundTrip.Shape.{
  nest, nest_items, begins-write_indent, nest_members, parse_value-skip, skip-write_indent,
  parse_key-key, parse_value-gap, AllPrintable, IsPrintable, MembersPrintable,
}
use contextsnap.Json.Escape.{escape}
use contextsnap.Json.RoundTrip.Reread.{reread, reread_items, reread_members}

module _ (fp : DoubleText) (total : ℕ) (indent : ℤ) where
  abbrev pub text : ℕ → Value → Bytes
  text d v = serialize_into fp indent d v

  abbrev pub Reads : Value → Type 0
  Reads v =
      (f d : ℕ) (rest : Bytes)
      → nest v < f
      → d + nest v ≤ max_depth
      → IsPrintable fp v
      → begins ends_number rest ≡ true
      → parse_value fp total f d (text d v ++ rest) ≡ parsed (reread fp v) rest

  -- What stands behind the elements of a container at depth `d`.
  abbrev pub closing : ℕ → ℕ → Bytes → Bytes
  closing d close rest = write_indent indent d ++ close ∷ rest

  -- With `v` in front, the loop reads the elements `xs` and the bracket.
  abbrev pub ReadsItems : Items → Type 0
  ReadsItems xs =
      (v : Value)
      → Reads v
      → (f g d : ℕ) (rest : Bytes) → max (nest v) (nest_items xs) < f
      → suc d + max (nest v) (nest_items xs) ≤ max_depth
      → IsPrintable fp v
      → AllPrintable fp xs
      → count_items xs ≤ g
      → items_loop total (parse_value fp total f (suc d)) (suc g)
          (text (suc d) v ++ (serialize_items fp indent false d xs ++ closing d b']' rest))
        ≡ parsed (item (reread fp v) (reread_items fp xs)) rest

  abbrev pub ReadsMembers : Members → Type 0
  ReadsMembers ms =
      (k : Bytes) (v : Value)
      → Reads v
      → (f g d : ℕ) (rest : Bytes) → max (nest v) (nest_members ms) < f
      → suc d + max (nest v) (nest_members ms) ≤ max_depth
      → IsPrintable fp v
      → MembersPrintable fp ms
      → count_members ms ≤ g
      → members_loop total (parse_value fp total f (suc d)) (suc g) (
          b'"'
          ∷ (escape k
              ++ (colon indent
                  ++ (text (suc d) v
                      ++ (serialize_members fp indent false d ms ++ closing d b'}' rest)))))
        ≡ parsed (member k (reread fp v) (reread_members fp ms)) rest

  closing_ends :
      (d close : ℕ) (rest : Bytes)
      → ends_number close ≡ true
      → begins ends_number (closing d close rest) ≡ true
  closing_ends d close rest h = begins-write_indent indent d close rest h

  skip-closing :
      (d close : ℕ) (rest : Bytes)
      → is_blank close ≡ false
      → skip_whitespace (closing d close rest) ≡ close ∷ rest
  skip-closing d close rest h =
      skip-write_indent indent d (close ∷ rest) ∙ unfold skip_whitespace in rw h refl

  module _ {ℓ} {A : Type ℓ} (close : ℕ) (message : Bytes) (last : A) (more : A → A)
      (again : Bytes → Outcome A) where
    follow_end :
        (s rest : Bytes)
        → consume b',' s ≡ none
        → consume close s ≡ some rest
        → follow total close message last more again s ≡ parsed last rest
    follow_end s rest h k = rw (h, follow, k) refl

    follow-closing :
        (d : ℕ) (rest : Bytes)
        → is_blank close ≡ false
        → (close == b',') ≡ false
        → follow total close message last more again (skip_whitespace (closing d close rest))
          ≡ parsed last rest
    follow-closing d rest h k =
        rw (skip-closing d close rest h)
          (follow_end (close ∷ rest) rest (rw k refl) (rw (==_refl close) refl))

    follow-comma :
        (s : Bytes)
        → follow total close message last more again (skip_whitespace (b',' ∷ s))
          ≡ bind (again s) (λ a rest. parsed (more a) rest)
    unfolding skip_whitespace
    follow-comma s = refl

  -- The loops skip the white space in front of an element.
  items_loop-indent :
      (f g d e : ℕ) (s : Bytes)
      → d ≤ max_depth
      → items_loop total (parse_value fp total f d) (suc g) (write_indent indent e ++ s)
        ≡ items_loop total (parse_value fp total f d) (suc g) s
  unfolding items_loop
  items_loop-indent f g d e s h =
      rw
        (parse_value-skip fp total f d (write_indent indent e ++ s) s h
          (skip-write_indent indent e s))
        refl

  members_loop-indent :
      (f g d e : ℕ) (s : Bytes)
      → members_loop total (parse_value fp total f d) (suc g) (write_indent indent e ++ s)
        ≡ members_loop total (parse_value fp total f d) (suc g) s
  unfolding members_loop
  members_loop-indent f g d e s = rw (skip-write_indent indent e s) refl

  pub regroup_items :
      (d : ℕ) (w : Value) (ys : Items) (rest : Bytes)
      → serialize_items fp indent false d (item w ys) ++ rest
        ≡ b','
          ∷ (write_indent indent (suc d)
              ++ (text (suc d) w ++ (serialize_items fp indent false d ys ++ rest)))
  unfolding serialize_into
  regroup_items d w ys rest = simp (append_assoc)

  pub regroup_members :
      (first : Bool) (d : ℕ) (k : Bytes) (w : Value) (ms : Members) (rest : Bytes)
      → serialize_members fp indent first d (member k w ms) ++ rest
        ≡ comma first
          ++ (write_indent indent (suc d)
              ++ b'"'
                ∷ (escape k
                    ++ (colon indent
                        ++ (text (suc d) w ++ (serialize_members fp indent false d ms ++ rest)))))
  unfolding serialize_into
  regroup_members first d k w ms rest = simp (append_assoc)

  pub serialize_no_items : (d : ℕ) → serialize_items fp indent false d no_items ≡ []
  unfolding serialize_into
  serialize_no_items d = refl

  pub serialize_no_members : (d : ℕ) → serialize_members fp indent false d no_members ≡ []
  unfolding serialize_into
  serialize_no_members d = refl

  pub items_last :
      (v : Value)
      → Reads v
      → (f g d : ℕ) (rest : Bytes) → nest v < f
      → suc d + nest v ≤ max_depth
      → IsPrintable fp v
      → items_loop total
          (parse_value fp total f (suc d))
          (suc g)
          (text (suc d) v ++ closing d b']' rest)
        ≡ parsed (item (reread fp v) no_items) rest
  unfolding items_loop
  items_last v reads f g d rest hf hd hv =
      rw (reads f (suc d) (closing d b']' rest) hf hd hv (closing_ends d b']' rest refl)) (
        follow-closing b']' (codes "expected ',' or ']' in array") (item (reread fp v) no_items)
          (item (reread fp v)) (items_loop total (parse_value fp total f (suc d)) g) d rest refl
          refl)

  pub items_next :
      (v : Value)
      → Reads v
      → (f g d : ℕ) (s : Bytes) (xs : Items) (rest : Bytes) → nest v < f
      → suc d + nest v ≤ max_depth
      → IsPrintable fp v
      → items_loop total (parse_value fp total f (suc d)) (suc g) s ≡ parsed xs rest
      → items_loop total
          (parse_value fp total f (suc d))
          (suc (suc g))
          (text (suc d) v ++ b',' ∷ (write_indent indent (suc d) ++ s))
        ≡ parsed (item (reread fp v) xs) rest
  items_next v reads f g d s xs rest hf hd hv h =
      let nested = parse_value fp total f (suc d) in
      let t = write_indent indent (suc d) ++ s in
      unfold items_loop in
      rw (reads f (suc d) (b',' ∷ t) hf hd hv refl) (
        follow-comma b']' (codes "expected ',' or ']' in array") (item (reread fp v) no_items)
          (item (reread fp v)) (items_loop total nested (suc g)) t
        ∙ ap (λ o. bind o (λ a u. parsed (item (reread fp v) a) u))
            (items_loop-indent f g (suc d) (suc d) s (omega arith) ∙ h))

  pub members_last :
      (k : Bytes) (v : Value)
      → Reads v
      → (f g d : ℕ) (rest : Bytes) → nest v < f
      → suc d + nest v ≤ max_depth
      → IsPrintable fp v
      → members_loop total
          (parse_value fp total f (suc d))
          (suc g)
          (b'"' ∷ (escape k ++ (colon indent ++ (text (suc d) v ++ closing d b'}' rest))))
        ≡ parsed (member k (reread fp v) no_members) rest
  unfolding members_loop skip_whitespace
  members_last k v reads f g d rest hf hd hv =
      let t = text (suc d) v ++ closing d b'}' rest in
      let value_read =
        reads f (suc d) (closing d b'}' rest) hf hd hv (closing_ends d b'}' rest refl) in
      rw
        (
          parse_key-key total indent k t,
          parse_value-gap fp total indent f (suc d) t (omega arith),
          value_read,
        )
        (follow-closing b'}' (codes "expected ',' or '}' in object")
          (member k (reread fp v) no_members) (member k (reread fp v))
          (members_loop total (parse_value fp total f (suc d)) g) d rest refl refl)

  pub members_next :
      (k : Bytes) (v : Value)
      → Reads v
      → (f g d : ℕ) (s : Bytes) (ms : Members) (rest : Bytes) → nest v < f
      → suc d + nest v ≤ max_depth
      → IsPrintable fp v
      → members_loop total (parse_value fp total f (suc d)) (suc g) s ≡ parsed ms rest
      → members_loop total (parse_value fp total f (suc d)) (suc (suc g)) (
          b'"'
          ∷ (escape k
              ++ (colon indent ++ (text (suc d) v ++ b',' ∷ (write_indent indent (suc d) ++ s)))))
        ≡ parsed (member k (reread fp v) ms) rest
  members_next k v reads f g d s ms rest hf hd hv h =
      let nested = parse_value fp total f (suc d) in
      let t = write_indent indent (suc d) ++ s in
      let u = text (suc d) v ++ b',' ∷ t in
      let value_read = reads f (suc d) (b',' ∷ t) hf hd hv refl in
      unfold members_loop in
      rw
        (
          parse_key-key total indent k u,
          parse_value-gap fp total indent f (suc d) u (omega arith),
          value_read,
        )
        (follow-comma b'}' (codes "expected ',' or '}' in object")
            (member k (reread fp v) no_members) (member k (reread fp v))
            (members_loop total nested (suc g)) t
          ∙ ap (λ o. bind o (λ a w. parsed (member k (reread fp v) a) w))
              (members_loop-indent f g (suc d) (suc d) s ∙ h))
