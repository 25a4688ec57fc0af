-- ===== src/Matching/Text/Pieces.antt =====
-- What holds of all characters of a string holds of the pieces that are cut from it.
use contextsnap.Base.{
  Bool, Bytes, List, Option, [], all, and_parts, codes, cut_last, drop, false, if◌then◌else◌,
  length, none, refl, some, starts_with, suc, take, true, zero, ℕ, ◌-◌, ◌∷◌, ◌≡◌,
}
use contextsnap.Matching.Text.{
  after_last, before_part, ends_with, is_dot, is_reverse_dns, is_slash, last_component, stem,
  suffixes, without_suffix,
}

-- The characters of a part and of a changed text.
module _ (p : ℕ → Bool) where
  pub all-take : (n : ℕ) (s : Bytes) → all p s ≡ true → all p (take n s) ≡ true
  all-take zero s h = refl
  all-take (suc n) [] h = refl
  all-take (suc n) (c ∷ s) h =
      let (at, rest) = and_parts (p c) (all p s) h in rw at (all-take n s rest)

  pub all-drop : (n : ℕ) (s : Bytes) → all p s ≡ true → all p (drop n s) ≡ true
  all-drop zero s h = h
  all-drop (suc n) [] h = refl
  all-drop (suc n) (c ∷ s) h = all-drop n s (and_parts (p c) (all p s) h).1

  abbrev Parts : Option (Bytes × Bytes) → Type 0
  Parts none = Unit
  Parts (some (before, after)) = (all p before ≡ true) × (all p after ≡ true)

  cut_last-Parts : (q : ℕ → Bool) (s : Bytes) → all p s ≡ true → Parts (cut_last q s)
  unfolding cut_last
  cut_last-Parts q [] h = tt
  cut_last-Parts q (c ∷ s) h =
      let (at, rest) = and_parts (p c) (all p s) h in
      go (cut_last q s) at rest (cut_last-Parts q s rest)
    where
      single : (b : Bool) → all p s ≡ true → Parts (if b then some ([], s) else none)
      single true k = (refl, k)
      single false k = tt

      go :
          (o : Option (Bytes × Bytes))
          → p c ≡ true
          → all p s ≡ true
          → Parts o
          → Parts (elim o [
            | none ↦ if q c then some ([], s) else none
            | some (before, after) ↦ some (c ∷ before, after)
          ])
      go none at rest k = single (q c) rest
      go (some (before, after)) at rest k = (rw at k.0, k.1)

  pub all-after_last : (q : ℕ → Bool) (s : Bytes) → all p s ≡ true → all p (after_last q s) ≡ true
  unfolding after_last
  all-after_last q s h = go (cut_last q s) (cut_last-Parts q s h)
    where
      go :
          (o : Option (Bytes × Bytes))
          → Parts o
          → all p (elim o [ none ↦ s | some (before, after) ↦ after ]) ≡ true
      go none k = h
      go (some (before, after)) k = k.1

  abbrev Front : Option Bytes → Type 0
  Front none = Unit
  Front (some before) = all p before ≡ true

  before_part-Front : (part s : Bytes) → all p s ≡ true → Front (before_part part s)
  unfolding before_part
  before_part-Front part [] h = tt
  before_part-Front part (c ∷ s) h =
      let (at, rest) = and_parts (p c) (all p s) h in
      go (starts_with (c ∷ s) part) (before_part part s) at (before_part-Front part s rest)
    where
      go :
          (b : Bool) (o : Option Bytes)
          → p c ≡ true
          → Front o
          → Front (if b then some [] else elim o [ none ↦ none | some before ↦ some (c ∷ before) ])
      go true o at k = refl
      go false none at k = tt
      go false (some before) at k = rw at k

  pub all-last_component : (v : Bytes) → all p v ≡ true → all p (last_component v) ≡ true
  unfolding last_component
  all-last_component v h =
      go (cut_last is_slash v) (before_part (codes ".app/") v) (cut_last-Parts is_slash v h)
        (before_part-Front (codes ".app/") v h)
    where
      go :
          (o : Option (Bytes × Bytes)) (f : Option Bytes)
          → Parts o
          → Front f
          → all p (elim o [
            | none ↦ v
            | some (before, after) ↦ elim f [
              | none ↦ after
              | some front ↦ after_last is_slash front
            ]
          ])
            ≡ true
      go none f k m = h
      go (some (before, after)) none k m = k.1
      go (some (before, after)) (some front) k m = all-after_last is_slash front m

  pub all-without_suffix :
      (ends : List Bytes) (v : Bytes) → all p v ≡ true → all p (without_suffix ends v) ≡ true
  unfolding without_suffix
  all-without_suffix [] v h = h
  all-without_suffix (e ∷ ends) v h =
      go (ends_with v e) (all-take (length v - length e) v h) (all-without_suffix ends v h)
    where
      go :
          (b : Bool)
          → all p (take (length v - length e) v) ≡ true
          → all p (without_suffix ends v) ≡ true
          → all p (if b then take (length v - length e) v else without_suffix ends v) ≡ true
      go true k m = k
      go false k m = m

  pub all-stem : (v : Bytes) → all p v ≡ true → all p (stem v) ≡ true
  unfolding stem
  all-stem v h =
      go (is_reverse_dns v) (all-after_last is_dot v h)
        (all-without_suffix suffixes (last_component v) (all-last_component v h))
    where
      go :
          (b : Bool)
          → all p (after_last is_dot v) ≡ true
          → all p (without_suffix suffixes (last_component v)) ≡ true
          → all p (if b then after_last is_dot v else without_suffix suffixes (last_component v))
            ≡ true
      go true k m = k
      go false k m = m
