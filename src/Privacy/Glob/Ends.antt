-- ===== src/Privacy/Glob/Ends.antt =====
-- The loop of `glob_match` (src/privacy/sanitizer.cpp) ends on every pattern and text.
use contextsnap.Privacy.Glob.{
  glob_match, glob_fuel, glob_loop, one_char, only_stars, or_false, tail,
}
use contextsnap.Privacy.Glob.Rounds.{step_fail, step_hit, step_retry, step_star}
use contextsnap.Base.{
  ℕ, Option, Bool, Bool-cases, Bytes, [], ap, arith, false, inl, inr, length, none, refl, some, suc,
  sym, zero, ◌*◌, ◌+◌, ◌<◌, ◌==◌, ◌∙◌, ◌∷◌, ◌≡◌, ◌≤◌,
}

pub retry_room :
    (K f : ℕ) (t m q : Bytes) (n : ℕ)
    → suc (length t) ≤ length m
    → length q + length m < K
    → length m * K + suc (length t) + n < suc f
    → (length q + length (tail m) < K) × (length (tail m) * K + length (tail m) + length q < f)
retry_room K f t [] q n near k h = absurd (omega arith)
retry_room K f t (x ∷ m) q n near k h = omega arith

pub mul_mono : (a b k : ℕ) → a ≤ b → a * k ≤ b * k
mul_mono a b k h = grind arith

-- The pattern is used up before the text.
pub step_retry_end :
    (f c : ℕ) (t q m : Bytes)
    → glob_loop (suc f) [] (c ∷ t) (some (q, m)) ≡ glob_loop f q (tail m) (some (q, tail m))
unfolding glob_loop
step_retry_end f c t q m = refl

abbrev IsEnded : Option Bool → Type 0
IsEnded o = (b : Bool) × (o ≡ some b)

-- Behind a star: each return to it gives up a byte of the text.
after_star_ends :
    (f K : ℕ) (p t q m : Bytes)
    → length q + length m < K
    → length t ≤ length m
    → length p ≤ length q
    → length m * K + length t + length p < f
    → IsEnded (glob_loop f p t (some (q, m)))
after_star_ends zero K p t q m k near short h = absurd (omega arith)
after_star_ends (suc f) K p [] q m k near short h = unfold glob_loop in (only_stars p, refl)
after_star_ends (suc f) K [] (c ∷ t) q m k near short h =
    let (k', h') = retry_room K f t m q 0 near k (omega arith) in
    let (b, e) = after_star_ends f K q (tail m) q (tail m) k' (omega arith) (omega arith) h' in
    (b, step_retry_end f c t q m ∙ e)
after_star_ends (suc f) K (a ∷ p) (c ∷ t) q m k near short h = elim (Bool-cases (one_char a c)) [
  | inl hit ↦
      let (b, e) = after_star_ends f K p t q m k (omega arith) (omega arith) (omega arith) in
      (b, step_hit f a c p t (some (q, m)) hit ∙ e)
  | inr miss ↦ elim (Bool-cases (a == b'*')) [
    | inl star ↦
        let (b, e) =
          after_star_ends f K p (c ∷ t) p (c ∷ t) (omega arith) (omega arith) (omega arith)
            (omega (arith, mul_mono (suc (length t)) (length m) K near)) in
        (b, step_star f a c p t (some (q, m)) miss star ∙ e)
    | inr plain ↦
        let (k', h') = retry_room K f t m q (suc (length p)) near k h in
        let (b, e) = after_star_ends f K q (tail m) q (tail m) k' (omega arith) (omega arith) h' in
        (b, step_retry f a c p t q m miss plain ∙ e)
  ]
]

before_star_ends :
    (f K : ℕ) (p t : Bytes)
    → length p + length t < K
    → length t * K + length t + length p < f
    → IsEnded (glob_loop f p t none)
before_star_ends zero K p t k h = absurd (omega arith)
before_star_ends (suc f) K p [] k h = unfold glob_loop in (only_stars p, refl)
before_star_ends (suc f) K [] (c ∷ t) k h = unfold glob_loop in (false, refl)
before_star_ends (suc f) K (a ∷ p) (c ∷ t) k h = elim (Bool-cases (one_char a c)) [
  | inl hit ↦
      let (b, e) = before_star_ends f K p t (omega arith) (omega arith) in
      (b, step_hit f a c p t none hit ∙ e)
  | inr miss ↦ elim (Bool-cases (a == b'*')) [
    | inl star ↦
        let (b, e) =
          after_star_ends f K p (c ∷ t) p (c ∷ t) (omega arith) (omega arith) (omega arith)
            (omega arith) in
        (b, step_star f a c p t none miss star ∙ e)
    | inr plain ↦ (false, step_fail f a c p t miss plain)
  ]
]

-- On every pattern and text the loop ends, and its result is that of the matcher.
pub glob_loop-eq-some :
    (pattern text : Bytes)
    → glob_loop (glob_fuel (length pattern) (length text)) pattern text none
      ≡ some (glob_match pattern text)
unfolding glob_match
glob_loop-eq-some pattern text =
    let (b, e) =
      before_star_ends (glob_fuel (length pattern) (length text)) (length pattern + length text + 1)
        pattern text (omega arith) (omega arith) in
    e ∙ ap (λ o. some (or_false o)) (sym e)
