-- ===== src/Matching/Text/Normal.antt =====
-- The normal form of an application id is its own normal form.
use contextsnap.Base.{
  ==_iff, Bool, Bytes, List, [], all, and_parts, any, ap, arith, bytes_eq, codes, cut_last, drop,
  false, if◌then◌else◌, leb, length, lower, none, not, refl, some, suc, sym, take, to_lower,
  to_lower_idem, true, ℕ, ◌&&◌, ◌-◌, ◌==◌, ◌||◌, ◌∙◌, ◌∷◌, ◌≡◌,
}
use contextsnap.Base.Cuts.{cut_last-eq-none, none_of}
use contextsnap.Matching.Text.{
  after_last, before_part, collapse_from, collapse_spaces, count_if, ends_with, is_dot,
  is_reverse_dns, is_separator, is_slash, last_component, normalize_app_id, spaced, stem, suffixes,
  without_suffix,
}
use contextsnap.Matching.Text.Collapse.{collapse_spaces_idem, is_space}
use contextsnap.Matching.Text.Pieces.{all-drop, all-stem}

-- A string in small letters.
abbrev is_small : Bytes → Bool
is_small = all (λ c. to_lower c == c)

-- A character of a normal form: a small letter, or a space but no other separator.
abbrev is_normal_char : ℕ → Bool
is_normal_char c = (to_lower c == c) && (not (is_separator c) || is_space c)

is_small-lower : (s : Bytes) → is_small (lower s) ≡ true
unfolding lower
is_small-lower [] = refl
is_small-lower (c ∷ s) =
    rw ((==_iff (to_lower (to_lower c)) (to_lower c)).1 (to_lower_idem c)) (is_small-lower s)

space_normal : is_normal_char b' ' ≡ true
unfolding to_lower is_separator
space_normal = refl

all-spaced : (s : Bytes) → is_small s ≡ true → all is_normal_char (spaced s) ≡ true
unfolding spaced
all-spaced [] h = refl
all-spaced (c ∷ s) h =
    let (at, rest) = and_parts (to_lower c == c) (is_small s) h in
    rw (go (is_separator c) refl at) (all-spaced s rest)
  where
    go :
        (b : Bool)
        → is_separator c ≡ b
        → (to_lower c == c) ≡ true
        → is_normal_char (if b then b' ' else c) ≡ true
    go true e at = space_normal
    go false e at = rw (at, e) refl

all-collapse_from :
    (started pending : Bool) (s : Bytes)
    → all is_normal_char s ≡ true
    → all is_normal_char (collapse_from started pending s) ≡ true
unfolding collapse_from
all-collapse_from started pending [] h = refl
all-collapse_from started pending (c ∷ s) h =
    let (at, rest) = and_parts (is_normal_char c) (all is_normal_char s) h in
    go (is_space c) pending at (all-collapse_from started started s rest)
      (all-collapse_from true false s rest)
  where
    go :
        (b pending : Bool)
        → is_normal_char c ≡ true
        → all is_normal_char (collapse_from started started s) ≡ true
        → all is_normal_char (collapse_from true false s) ≡ true
        → all is_normal_char (
            if b
            then collapse_from started started s
            else if pending
            then b' ' ∷ c ∷ collapse_from true false s
            else c ∷ collapse_from true false s)
          ≡ true
    go true q at k m = k
    go false true at k m = rw (space_normal, at) m
    go false false at k m = rw at m

normal_parts :
    (c : ℕ) → is_normal_char c ≡ true → (to_lower c ≡ c) × (is_slash c ≡ false) × (is_dot c ≡ false)
unfolding is_separator
normal_parts c h = (
  (==_iff (to_lower c) c).0 (and_parts (to_lower c == c) (not (is_separator c) || is_space c) h).0,
  no_slash c (and_parts (to_lower c == c) (not (is_separator c) || is_space c) h).1,
  no_dot c (and_parts (to_lower c == c) (not (is_separator c) || is_space c) h).1,
)
  where
    no_slash : (c : ℕ) → (not (is_separator c) || is_space c) ≡ true → is_slash c ≡ false
    no_slash c k = ground arith

    no_dot : (c : ℕ) → (not (is_separator c) || is_space c) ≡ true → is_dot c ≡ false
    no_dot c k = ground arith

normal_spaced : (c : ℕ) → is_normal_char c ≡ true → (if is_separator c then b' ' else c) ≡ c
normal_spaced c h =
    go (is_separator c) (and_parts (to_lower c == c) (not (is_separator c) || is_space c) h).1
  where
    go : (b : Bool) → (not b || is_space c) ≡ true → (if b then b' ' else c) ≡ c
    go true k = sym ((==_iff c b' ').0 k)
    go false k = refl

lower-normal : (v : Bytes) → all is_normal_char v ≡ true → lower v ≡ v
unfolding lower
lower-normal [] h = refl
lower-normal (c ∷ s) h =
    let (at, rest) = and_parts (is_normal_char c) (all is_normal_char s) h in
    cc ((normal_parts c at).0, lower-normal s rest)

spaced-normal : (v : Bytes) → all is_normal_char v ≡ true → spaced v ≡ v
unfolding spaced
spaced-normal [] h = refl
spaced-normal (c ∷ s) h =
    let (at, rest) = and_parts (is_normal_char c) (all is_normal_char s) h in
    cc (normal_spaced c at, spaced-normal s rest)

none_of-normal :
    (q : ℕ → Bool)
    → ((c : ℕ) → is_normal_char c ≡ true → q c ≡ false)
    → (v : Bytes) → all is_normal_char v ≡ true
    → none_of q v ≡ true
none_of-normal q f [] h = refl
none_of-normal q f (c ∷ s) h =
    let (at, rest) = and_parts (is_normal_char c) (all is_normal_char s) h in
    rw (f c at) (none_of-normal q f s rest)

count_if-none : (q : ℕ → Bool) (v : Bytes) → none_of q v ≡ true → count_if q v ≡ 0
unfolding count_if
count_if-none q [] h = refl
count_if-none q (c ∷ s) h = go (q c) h (count_if-none q s)
  where
    go :
        (b : Bool)
        → (not b && none_of q s) ≡ true
        → (none_of q s ≡ true → count_if q s ≡ 0)
        → (if b then suc (count_if q s) else count_if q s) ≡ 0
    go true k f = cc
    go false k f = f k

-- No suffix that begins with a dot ends a normal form.
ends_with-normal :
    (v ending : Bytes) → all is_normal_char v ≡ true → ends_with v (b'.' ∷ ending) ≡ false
unfolding ends_with
ends_with-normal v ending h = no_match (leb (length (b'.' ∷ ending)) (length v)) (
    no_dot_first (drop (length v - length (b'.' ∷ ending)) v)
      (all-drop is_normal_char (length v - length (b'.' ∷ ending)) v h))
  where
    no_dot_first : (t : Bytes) → all is_normal_char t ≡ true → bytes_eq t (b'.' ∷ ending) ≡ false
    no_dot_first [] k = refl
    no_dot_first (c ∷ t) k =
        ap (λ b. b && bytes_eq t ending)
          (normal_parts c (and_parts (is_normal_char c) (all is_normal_char t) k).0).2

    no_match : (a : Bool) {b : Bool} → b ≡ false → (a && b) ≡ false
    no_match true e = e
    no_match false e = refl

slash_free : (v : Bytes) → all is_normal_char v ≡ true → none_of is_slash v ≡ true
slash_free v h = none_of-normal is_slash (λ c k. (normal_parts c k).1) v h

is_reverse_dns-normal : (v : Bytes) → all is_normal_char v ≡ true → is_reverse_dns v ≡ false
unfolding is_reverse_dns
is_reverse_dns-normal v h =
    ap (λ n. not (any is_slash v) && leb 2 n && not (ends_with v (codes ".exe")))
      (count_if-none is_dot v (none_of-normal is_dot (λ c k. (normal_parts c k).2) v h))
    ∙ no_dots (not (any is_slash v)) (not (ends_with v (codes ".exe")))
  where
    no_dots : (a b : Bool) → (a && false && b) ≡ false
    no_dots true b = refl
    no_dots false b = refl

last_component-normal : (v : Bytes) → all is_normal_char v ≡ true → last_component v ≡ v
unfolding last_component
last_component-normal v h =
    ap
      (λ o. elim o [
        | none ↦ v
        | some (before, after) ↦ elim (before_part (codes ".app/") v) [
          | none ↦ after
          | some front ↦ after_last is_slash front
        ]
      ])
      (cut_last-eq-none is_slash v (slash_free v h))

without_suffix-step :
    (e : Bytes) (ends : List Bytes) (v : Bytes)
    → ends_with v e ≡ false
    → without_suffix (e ∷ ends) v ≡ without_suffix ends v
unfolding without_suffix
without_suffix-step e ends v h =
    ap (λ b. if b then take (length v - length e) v else without_suffix ends v) h

without_suffix-normal : (v : Bytes) → all is_normal_char v ≡ true → without_suffix suffixes v ≡ v
without_suffix-normal v h =
    without_suffix-step (codes ".exe") (codes ".app" ∷ codes ".desktop" ∷ codes ".bin" ∷ []) v
      (ends_with-normal v (codes "exe") h)
    ∙ without_suffix-step (codes ".app") (codes ".desktop" ∷ codes ".bin" ∷ []) v
        (ends_with-normal v (codes "app") h)
    ∙ without_suffix-step (codes ".desktop") (codes ".bin" ∷ []) v
        (ends_with-normal v (codes "desktop") h)
    ∙ without_suffix-step (codes ".bin") [] v (ends_with-normal v (codes "bin") h)
    ∙ without_suffix-nil v
  where
    without_suffix-nil : (v : Bytes) → without_suffix [] v ≡ v
    without_suffix-nil v = unfold without_suffix in refl

stem-normal : (v : Bytes) → all is_normal_char v ≡ true → stem v ≡ v
unfolding stem
stem-normal v h =
    ap (λ b. if b then after_last is_dot v else without_suffix suffixes (last_component v))
      (is_reverse_dns-normal v h)
    ∙ ap (without_suffix suffixes) (last_component-normal v h)
    ∙ without_suffix-normal v h

-- What the normal form is, also for the empty string.
abbrev form : Bytes → Bytes
form s = collapse_spaces (spaced (stem (lower s)))

normalize_app_id-form : (s : Bytes) → normalize_app_id s ≡ form s
unfolding normalize_app_id lower stem is_reverse_dns count_if last_component cut_last without_suffix
normalize_app_id-form [] = refl
normalize_app_id-form (c ∷ s) = refl

form-normal : (s : Bytes) → all is_normal_char (form s) ≡ true
unfolding collapse_spaces
form-normal s =
    all-collapse_from false false (spaced (stem (lower s)))
      (all-spaced (stem (lower s)) (all-stem (λ c. to_lower c == c) (lower s) (is_small-lower s)))

form_idem : (s : Bytes) → form (form s) ≡ form s
form_idem s =
    let h = form-normal s in
    ap (λ v. collapse_spaces (spaced (stem v))) (lower-normal (form s) h)
    ∙ ap (λ v. collapse_spaces (spaced v)) (stem-normal (form s) h)
    ∙ ap collapse_spaces (spaced-normal (form s) h)
    ∙ collapse_spaces_idem (spaced (stem (lower s)))

-- The normal form of an application id is its own normal form: to normalize an id twice, as
-- `build_launch_command` does before it looks for a browser, changes nothing.
pub normalize_app_id_idem : (s : Bytes) → normalize_app_id (normalize_app_id s) ≡ normalize_app_id s
normalize_app_id_idem s =
    ap normalize_app_id (normalize_app_id-form s)
    ∙ normalize_app_id-form (form s)
    ∙ form_idem s
    ∙ sym (normalize_app_id-form s)
