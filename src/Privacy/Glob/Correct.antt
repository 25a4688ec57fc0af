-- ===== src/Privacy/Glob/Correct.antt =====
-- The iterative matcher with one point to return to computes the meaning of the pattern.
use contextsnap.Base.{
  ==_iff, Bool, Bool-cases, Bytes, [], all, ap, arith, drop, false, inl, inr, length, none, not,
  refl, some, subst, suc, sym, to_lower, true, zero, ℕ, ◌*◌, ◌++◌, ◌+◌, ◌<◌, ◌==◌, ◌||◌, ◌∙◌, ◌∷◌,
  ◌≡◌, ◌≤◌, any, ◌⊎◌,
}
use contextsnap.Privacy.Glob.{glob_fuel, glob_loop, glob_match, one_char, or_false, tail}
use contextsnap.Privacy.Glob.Ends.{mul_mono, retry_room, step_retry_end, glob_loop-eq-some}
use contextsnap.Privacy.Glob.Spec.{
  matches, matches-star, only_stars-eq-matches, some_suffix, some_suffix_intro,
}
use contextsnap.Privacy.Glob.Rounds.{
  Reached, advance, at_point, end_later, hit_plain, matches_at_star, matches_hit, matches_miss,
  no_star, no_star-tail, no_star_parts, rest_longer, star_later, step_fail, step_hit, step_retry,
  step_star,
}

suffix_tail :
    (q m : Bytes)
    → (matches q (tail m) || some_suffix (matches q) (tail (tail m)))
      ≡ some_suffix (matches q) (tail m)
suffix_tail q m = go (tail m)
  where
    or_self : (b : Bool) → (b || b) ≡ b
    or_self true = refl
    or_self false = refl

    go : (s : Bytes) → (matches q s || some_suffix (matches q) (tail s)) ≡ some_suffix (matches q) s
    go [] = unfold some_suffix in or_self (matches q [])
    go (c ∷ s) = unfold some_suffix in refl

matches_end : (c : ℕ) (t : Bytes) → matches [] (c ∷ t) ≡ false
unfolding matches
matches_end c t = refl

star_absorbed :
    (a c : ℕ) (p t q m u : Bytes)
    → (a == b'*') ≡ true
    → Reached (a ∷ p) (c ∷ t) q m u
    → (matches p (c ∷ t) || some_suffix (matches p) t)
      ≡ (matches (a ∷ p) (c ∷ t) || some_suffix (matches q) (tail m))
unfolding some_suffix
star_absorbed a c p t q m u star r =
    star_later p (c ∷ t) q m u
      (subst (λ b. Reached (b ∷ p) (c ∷ t) q m u) ((==_iff a b'*').0 star) r)
    ∙ ap (λ b. b || some_suffix (matches q) (tail m)) (sym (matches_at_star a c p t star))

-- With enough rounds the loop returns what the pattern means, here or at a later place.
glob_loop-eq :
    (f K : ℕ) (p t q m u : Bytes)
    → no_star t ≡ true
    → no_star m ≡ true
    → length q + length m < K
    → length m * K + length t + length p < f
    → Reached p t q m u
    → glob_loop f p t (some (q, m)) ≡ some (matches p t || some_suffix (matches q) (tail m))
glob_loop-eq zero K p t q m u nt nm k h r = absurd (omega arith)
glob_loop-eq (suc f) K p [] q m u nt nm k h r =
    unfold glob_loop in ap some (only_stars-eq-matches p ∙ end_later p q m u r)
glob_loop-eq (suc f) K [] (c ∷ t) q m u nt nm k h r =
    step_retry_end f c t q m
    ∙ glob_loop-eq f K q (tail m) q (tail m) [] (no_star-tail m nm) (no_star-tail m nm)
        (retry_room K f t m q 0 (rest_longer [] (c ∷ t) q m u r).1 k h).0
        (retry_room K f t m q 0 (rest_longer [] (c ∷ t) q m u r).1 k h).1 (at_point q (tail m))
    ∙ ap some (suffix_tail q m)
    ∙ ap (λ b. some (b || some_suffix (matches q) (tail m))) (sym (matches_end c t))
glob_loop-eq (suc f) K (a ∷ p) (c ∷ t) q m u nt nm k h r = elim (Bool-cases (one_char a c)) [
  | inl hit ↦
      let (c_plain, nt') = no_star_parts c t nt in
      let plain = hit_plain a c hit c_plain in
      step_hit f a c p t (some (q, m)) hit
      ∙ glob_loop-eq f K p t q m (u ++ a ∷ []) nt' nm k (omega arith)
          (advance a c p t q m u plain r)
      ∙ ap (λ b. some (b || some_suffix (matches q) (tail m))) (sym (matches_hit a c p t hit plain))
  | inr miss ↦ elim (Bool-cases (a == b'*')) [
    | inl star ↦
        let (short, near) = rest_longer (a ∷ p) (c ∷ t) q m u r in
        step_star f a c p t (some (q, m)) miss star
        ∙ glob_loop-eq f K p (c ∷ t) p (c ∷ t) [] nt nt (omega arith)
            (omega (arith, mul_mono (suc (length t)) (length m) K near)) (at_point p (c ∷ t))
        ∙ ap some (star_absorbed a c p t q m u star r)
    | inr plain ↦
        step_retry f a c p t q m miss plain
        ∙ glob_loop-eq f K q (tail m) q (tail m) [] (no_star-tail m nm) (no_star-tail m nm)
            (retry_room K f t m q (suc (length p)) (rest_longer (a ∷ p) (c ∷ t) q m u r).1 k h).0
            (retry_room K f t m q (suc (length p)) (rest_longer (a ∷ p) (c ∷ t) q m u r).1 k h).1
            (at_point q (tail m))
        ∙ ap some (suffix_tail q m)
        ∙ ap (λ b. some (b || some_suffix (matches q) (tail m)))
            (sym (matches_miss a c p t miss plain))
  ]
]

star_met :
    (a c : ℕ) (p t : Bytes)
    → (a == b'*') ≡ true
    → (matches p (c ∷ t) || some_suffix (matches p) t) ≡ matches (a ∷ p) (c ∷ t)
unfolding some_suffix
star_met a c p t star = sym (matches_at_star a c p t star)

-- Before the first star, and on to it.
first_star-eq :
    (f K : ℕ) (p t : Bytes)
    → no_star t ≡ true
    → length p + length t < K
    → length t * K + length t + length p < f
    → glob_loop f p t none ≡ some (matches p t)
first_star-eq zero K p t nt k h = absurd (omega arith)
first_star-eq (suc f) K p [] nt k h = unfold glob_loop in ap some (only_stars-eq-matches p)
first_star-eq (suc f) K [] (c ∷ t) nt k h = unfold glob_loop matches in refl
first_star-eq (suc f) K (a ∷ p) (c ∷ t) nt k h = elim (Bool-cases (one_char a c)) [
  | inl hit ↦
      let (c_plain, nt') = no_star_parts c t nt in
      step_hit f a c p t none hit
      ∙ first_star-eq f K p t nt' (omega arith) (omega arith)
      ∙ ap some (sym (matches_hit a c p t hit (hit_plain a c hit c_plain)))
  | inr miss ↦ elim (Bool-cases (a == b'*')) [
    | inl star ↦
        step_star f a c p t none miss star
        ∙ glob_loop-eq f K p (c ∷ t) p (c ∷ t) [] nt nt (omega arith) (omega arith)
            (at_point p (c ∷ t))
        ∙ ap some (star_met a c p t star)
    | inr plain ↦ step_fail f a c p t miss plain ∙ ap some (sym (matches_miss a c p t miss plain))
  ]
]

no_star_of_any :
    (text : Bytes) → any (λ a. a == b'*') text ≡ false → all (λ a. not (a == b'*')) text ≡ true
no_star_of_any [] h = refl
no_star_of_any (c ∷ t) h = ground (arith, no_star_of_any t)

-- On every pattern and text the matcher's loop ends with the matcher's result, and unless there is a
-- `*` in the text the result says whether the pattern matches: one return point is enough.
pub glob_match-eq-matches :
    (pattern text : Bytes)
    → (glob_loop (glob_fuel (length pattern) (length text)) pattern text none
        ≡ some (glob_match pattern text))
      × ((any (λ a. a == b'*') text ≡ true) ⊎ (glob_match pattern text ≡ matches pattern text))
unfolding glob_match
glob_match-eq-matches pattern text = (
  glob_loop-eq-some pattern text,
  elim (Bool-cases (any (λ a. a == b'*') text)) [
    | inl star ↦ inl star
    | inr plain ↦ inr (
        ap or_false (
          first_star-eq (glob_fuel (length pattern) (length text))
            (length pattern + length text + 1) pattern text (no_star_of_any text plain)
            (omega arith) (omega arith)))
  ],
)

matches_empty-drop : (s : Bytes) → matches [] (drop (length s) s) ≡ true
unfolding matches
matches_empty-drop [] = refl
matches_empty-drop (c ∷ s) = matches_empty-drop s

two_rounds :
    (f c : ℕ) (t : Bytes) → 2 ≤ f → glob_loop f (b'*' ∷ []) (b'*' ∷ c ∷ t) none ≡ some false
unfolding glob_loop to_lower
two_rounds zero c t h = absurd (omega arith)
two_rounds (suc zero) c t h = absurd (omega arith)
two_rounds (suc (suc f)) c t h = refl

-- The restriction to a text without a `*` is needed: the pattern `*` stands for any text, but it
-- is refused on every text that begins with a `*` and goes on.
pub glob_match_star_text :
    (c : ℕ) (t : Bytes)
    → (glob_match (b'*' ∷ []) (b'*' ∷ c ∷ t) ≡ false) × (matches (b'*' ∷ []) (b'*' ∷ c ∷ t) ≡ true)
unfolding glob_match
glob_match_star_text c t = (
  ap or_false (two_rounds (glob_fuel 1 (length (b'*' ∷ c ∷ t))) c t (omega arith)),
  matches-star [] (b'*' ∷ c ∷ t)
      ∙ some_suffix_intro (matches []) (length (b'*' ∷ c ∷ t)) (b'*' ∷ c ∷ t)
          (matches_empty-drop (b'*' ∷ c ∷ t)),
)
