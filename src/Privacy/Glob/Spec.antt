-- ===== src/Privacy/Glob/Spec.antt =====
-- What a pattern means, by recursion on the pattern: `*` stands for any characters, `?` for one,
-- and every other character for itself, in either case.
use contextsnap.Base.{
  Bool, Bool-cases, Bytes, [], all, arith, drop, false, if◌then◌else◌, inl, inr, length, not, refl,
  subst, suc, true, zero, ℕ, ◌&&◌, ◌++◌, ◌==◌, ◌||◌, ◌∷◌, ◌≡◌,
}
use contextsnap.Privacy.Glob.{one_char, only_stars}

-- Some end of the text passes the test.
unfoldable pub some_suffix : (Bytes → Bool) → Bytes → Bool
some_suffix k [] = k []
some_suffix k (c ∷ t) = k (c ∷ t) || some_suffix k t

unfoldable pub matches : Bytes → Bytes → Bool
unfolding some_suffix
matches [] [] = true
matches [] (c ∷ t) = false
matches (a ∷ p) [] = if a == b'*' then some_suffix (matches p) [] else false
matches (a ∷ p) (c ∷ t) =
    if a == b'*' then some_suffix (matches p) (c ∷ t) else one_char a c && matches p t

pub some_suffix_intro :
    (k : Bytes → Bool) (i : ℕ) (t : Bytes) → k (drop i t) ≡ true → some_suffix k t ≡ true
unfolding some_suffix
some_suffix_intro k zero [] h = h
some_suffix_intro k (suc i) [] h = h
some_suffix_intro k zero (c ∷ t) h = rw h
some_suffix_intro k (suc i) (c ∷ t) h = or_true _ (some_suffix_intro k i t h)
  where
    or_true : (b : Bool) {c : Bool} → c ≡ true → (b || c) ≡ true
    or_true true h = refl
    or_true false h = h

pub some_suffix_elim :
    (k : Bytes → Bool) (t : Bytes) → some_suffix k t ≡ true → (i : ℕ) × (k (drop i t) ≡ true)
unfolding some_suffix
some_suffix_elim k [] h = (0, h)
some_suffix_elim k (c ∷ t) h = elim (Bool-cases (k (c ∷ t))) [
  | inl hit ↦ (0, hit)
  | inr miss ↦
      let (i, found) = some_suffix_elim k t (subst (λ b. (b || some_suffix k t) ≡ true) miss h) in
      (suc i, found)
]

pub matches-star : (p t : Bytes) → matches (b'*' ∷ p) t ≡ some_suffix (matches p) t
unfolding matches
matches-star p [] = refl
matches-star p (c ∷ t) = refl

-- A part of a pattern with no star takes as many characters as it has.
pub matches-append :
    (u p s : Bytes)
    → all (λ a. not (a == b'*')) u ≡ true
    → matches (u ++ p) s ≡ true
    → matches p (drop (length u) s) ≡ true
unfolding matches
matches-append [] p s h k = k
matches-append (a ∷ u) p [] h k = absurd (ground arith)
matches-append (a ∷ u) p (c ∷ s) h k = matches-append u p s (ground arith) (ground arith)

pub only_stars-eq-matches : (p : Bytes) → only_stars p ≡ matches p []
unfolding only_stars matches
only_stars-eq-matches [] = refl
only_stars-eq-matches (a ∷ p) = ground (arith, only_stars-eq-matches p)
