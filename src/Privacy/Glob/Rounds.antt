-- ===== src/Privacy/Glob/Rounds.antt =====
-- The rounds of the matcher's loop, and its invariant between a return point and the place it is at.
use contextsnap.Base.{
  Bool, Bytes, Option, [], all, ap, append_assoc, arith, drop, false, length, length-append,
  length-drop, none, not, refl, some, subst, suc, sym, to_lower, true, zero, ℕ, ◌++◌, ◌+◌, ◌==◌,
  ◌||◌, ◌∙◌, ◌∷◌, ◌≡◌, ◌≤◌,
}
use contextsnap.Privacy.Glob.{glob_loop, one_char, tail}
use contextsnap.Privacy.Glob.Spec.{
  matches, matches-append, matches-star, some_suffix, some_suffix_elim, some_suffix_intro,
}

abbrev pub no_star : Bytes → Bool
no_star s = all (λ a. not (a == b'*')) s

-- What is still to be said of the return point: the pattern there, at some later place.
abbrev pub later : Option (Bytes × Bytes) → Bool
later none = false
later (some (q, m)) = some_suffix (matches q) (tail m)

-- The loop's invariant: between the return point and here the pattern holds no star, and it took a
-- character for each of its own.
pub record Reached (p t q m u : Bytes) : Type 0 where
  pub plain : no_star u ≡ true
  pub pattern_at : q ≡ u ++ p
  pub text_at : t ≡ drop (length u) m

drop-drop : (i j : ℕ) (s : Bytes) → drop i (drop j s) ≡ drop (j + i) s
drop-drop i zero s = ap (λ n. drop n s) (omega arith)
drop-drop i (suc j) [] = drop_nil i ∙ sym (drop_nil (suc j + i))
  where
    drop_nil : (n : ℕ) → drop {A = ℕ} n [] ≡ []
    drop_nil zero = refl
    drop_nil (suc n) = refl
drop-drop i (suc j) (c ∷ s) = drop-drop i j s ∙ shift j i
  where
    shift : (j i : ℕ) → drop (j + i) s ≡ drop (suc j + i) (c ∷ s)
    shift j i = ap (λ n. drop n (c ∷ s)) (plus j i)
      where
        plus : (j i : ℕ) → suc (j + i) ≡ suc j + i
        plus j i = omega arith

-- If the pattern fits at a later place, what is left of it here fits what is left of the text.
later_here :
    (p t q m u : Bytes)
    → Reached p t q m u
    → some_suffix (matches q) (tail m) ≡ true
    → (i : ℕ) × (matches p (drop i t) ≡ true)
later_here p t q m u r h =
    let (i, found) = some_suffix_elim (matches q) (tail m) h in
    (
      suc i,
      subst (λ s. matches p s ≡ true) (place i)
          (matches-append u p (drop i (tail m)) r.plain
            (subst (λ k. matches k (drop i (tail m)) ≡ true) r.pattern_at found)),
    )
  where
    drop_tail : (i : ℕ) (s : Bytes) → drop i (tail s) ≡ drop (suc i) s
    drop_tail zero [] = refl
    drop_tail (suc i) [] = refl
    drop_tail i (c ∷ s) = refl

    place : (i : ℕ) → drop (length u) (drop i (tail m)) ≡ drop (suc i) t
    place i =
        ap (drop (length u)) (drop_tail i m)
        ∙ drop-drop (length u) (suc i) m
        ∙ ap (λ n. drop n m) (add_swap (suc i) (length u))
        ∙ sym (drop-drop (suc i) (length u) m)
        ∙ ap (drop (suc i)) (sym r.text_at)
      where
        add_swap : (a b : ℕ) → a + b ≡ b + a
        add_swap a b = omega arith

or_absorb : (a b : Bool) → (b ≡ true → a ≡ true) → a ≡ (a || b)
or_absorb true b h = refl
or_absorb false true h = h refl
or_absorb false false h = refl

-- The end of the text: the later places add nothing.
pub end_later :
    (p q m u : Bytes)
    → Reached p [] q m u
    → matches p [] ≡ (matches p [] || some_suffix (matches q) (tail m))
end_later p q m u r = or_absorb (matches p []) (some_suffix (matches q) (tail m)) λ h.
    let (i, found) = later_here p [] q m u r h in subst (λ s. matches p s ≡ true) (drop_nil i) found
  where
    drop_nil : (n : ℕ) → drop {A = ℕ} n [] ≡ []
    drop_nil zero = refl
    drop_nil (suc n) = refl

-- A star: the old return point adds nothing to the new one.
pub star_later :
    (p t q m u : Bytes)
    → Reached (b'*' ∷ p) t q m u
    → some_suffix (matches p) t ≡ (some_suffix (matches p) t || some_suffix (matches q) (tail m))
star_later p t q m u r =
    or_absorb (some_suffix (matches p) t) (some_suffix (matches q) (tail m)) λ h.
      let (i, found) = later_here (b'*' ∷ p) t q m u r h in
      let (j, deeper) =
        some_suffix_elim (matches p) (drop i t)
          (subst (λ b. b ≡ true) (matches-star p (drop i t)) found) in
      some_suffix_intro (matches p) (i + j) t
        (subst (λ s. matches p s ≡ true) (drop-drop j i t) deeper)

-- The rounds of the loop.
module _ (f a c : ℕ) (p t : Bytes) where
  pub step_hit :
      (star : Option (Bytes × Bytes))
      → one_char a c ≡ true
      → glob_loop (suc f) (a ∷ p) (c ∷ t) star ≡ glob_loop f p t star
  unfolding glob_loop
  step_hit star h = ground arith

  pub step_star :
      (star : Option (Bytes × Bytes))
      → one_char a c ≡ false
      → (a == b'*') ≡ true
      → glob_loop (suc f) (a ∷ p) (c ∷ t) star ≡ glob_loop f p (c ∷ t) (some (p, c ∷ t))
  unfolding glob_loop
  step_star star h k = ground arith

  pub step_retry :
      (q m : Bytes)
      → one_char a c ≡ false
      → (a == b'*') ≡ false
      → glob_loop (suc f) (a ∷ p) (c ∷ t) (some (q, m)) ≡ glob_loop f q (tail m) (some (q, tail m))
  unfolding glob_loop
  step_retry q m h k = ground arith

  pub step_fail :
      one_char a c ≡ false
      → (a == b'*') ≡ false
      → glob_loop (suc f) (a ∷ p) (c ∷ t) none ≡ some false
  unfolding glob_loop
  step_fail h k = ground arith

-- What the meaning says at a pattern and a text that both go on.
module _ (a c : ℕ) (p t : Bytes) where
  pub matches_hit :
      one_char a c ≡ true → (a == b'*') ≡ false → matches (a ∷ p) (c ∷ t) ≡ matches p t
  unfolding matches
  matches_hit h k = ground arith

  pub matches_miss : one_char a c ≡ false → (a == b'*') ≡ false → matches (a ∷ p) (c ∷ t) ≡ false
  unfolding matches
  matches_miss h k = ground arith

  pub matches_at_star :
      (a == b'*') ≡ true → matches (a ∷ p) (c ∷ t) ≡ some_suffix (matches p) (c ∷ t)
  unfolding matches
  matches_at_star h = ground arith

-- In a text without a star, only a star of the pattern meets the test for one.
pub hit_plain : (a c : ℕ) → one_char a c ≡ true → not (c == b'*') ≡ true → (a == b'*') ≡ false
unfolding to_lower
hit_plain a c h k = ground arith

pub no_star_parts :
    (c : ℕ) (t : Bytes) → no_star (c ∷ t) ≡ true → (not (c == b'*') ≡ true) × (no_star t ≡ true)
no_star_parts c t h = ground arith

pub no_star-tail : (m : Bytes) → no_star m ≡ true → no_star (tail m) ≡ true
no_star-tail [] h = refl
no_star-tail (c ∷ m) h = (no_star_parts c m h).1

no_star-snoc :
    (u : Bytes) (a : ℕ) → no_star u ≡ true → (a == b'*') ≡ false → no_star (u ++ a ∷ []) ≡ true
no_star-snoc [] a h k = ground arith
no_star-snoc (b ∷ u) a h k = ground (arith, no_star-snoc u a)

pub advance :
    (a c : ℕ) (p t q m u : Bytes)
    → (a == b'*') ≡ false
    → Reached (a ∷ p) (c ∷ t) q m u
    → Reached p t q m (u ++ a ∷ [])
advance a c p t q m u plain r = record {
  plain = no_star-snoc u a r.plain plain;
  pattern_at = r.pattern_at ∙ sym (append_assoc u (a ∷ []) p);
  text_at =
      ap (drop 1) r.text_at
      ∙ drop-drop 1 (length u) m
      ∙ ap (λ n. drop n m) (sym (length-append u (a ∷ [])));
}

-- Just behind a return point.
pub at_point : (p t : Bytes) → Reached p t p t []
at_point p t = record { plain = refl; pattern_at = refl; text_at = refl }

pub rest_longer :
    (p t q m u : Bytes) → Reached p t q m u → (length p ≤ length q) × (length t ≤ length m)
rest_longer p t q m u r = omega (
  arith,
  ap length r.pattern_at,
  length-append u p,
  ap length r.text_at,
  length-drop (length u) m,
)
