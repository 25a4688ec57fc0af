-- ===== src/Matching/Assign/Complete.antt =====
-- The result of `match_windows`: matched and unmatched windows, and no pair that was overlooked.
use contextsnap.Base.{
  All, Bool, List, Member, [], ap, arith, false, get_elem?, get_or, length, not, refl, some, subst,
  suc, sym, true, zero, ℕ, ◌+◌, ◌<◌, ◌==◌, ◌||◌, ◌∷◌, ◌≡◌, ◌≤◌,
}
use contextsnap.Matching.Text.{count_if}
use contextsnap.Matching.Assign.{
  Assigned, Match, all_candidates, assigned, match_windows, none_taken, sort, untaken,
}
use contextsnap.Matching.Assign.Pairs.{
  InRange, IsCounted, assign-All, assign-IsCounted, on_live, on_snapshot, one_if,
}
use contextsnap.Base.Double.{Double, Fpu}
use contextsnap.Types.{WindowInfo}
use contextsnap.Matching.Similarity.{Weights, score}
use contextsnap.Matching.Assign.Sorted.{
  IsPair, all_candidates-IsPair, all_candidates-Member, pair_at,
}
use contextsnap.Matching.Assign.Settled.{assign-Settled, untaken-count}
use contextsnap.Matching.Assign.Kept.{All-map, All-sort, Member-sort}

length-none_taken {ℓ} : {A : Type ℓ} (xs : List A) → length (none_taken xs) ≡ length xs
unfolding none_taken
length-none_taken [] = refl
length-none_taken (x ∷ xs) = omega (arith, length-none_taken xs)

none_taken-free {ℓ} : {A : Type ℓ} (xs : List A) (i : ℕ) → get_or (none_taken xs) i false ≡ false
unfolding none_taken
none_taken-free [] i = refl
none_taken-free (x ∷ xs) zero = refl
none_taken-free (x ∷ xs) (suc i) = none_taken-free xs i

get_elem?-lt {ℓ} :
    {A : Type ℓ} (xs : List A) (i : ℕ) {x : A} → get_elem? xs i ≡ some x → i < length xs
get_elem?-lt [] i h = cc
get_elem?-lt (y ∷ xs) zero h = omega arith
get_elem?-lt (y ∷ xs) (suc i) h = omega (arith, get_elem?-lt xs i h)

module _ (fpu : Fpu) (targets lives : List WindowInfo) (threshold : Double) (w : Weights) where
  abbrev before : Assigned
  before = record {
    matches = [];
    snapshot_taken = none_taken targets;
    live_taken = none_taken lives;
  }

  abbrev candidates : List Match
  candidates = sort fpu (all_candidates fpu threshold w 0 targets lives)

  before-IsCounted : IsCounted (length targets) (length lives) before
  unfolding count_if
  before-IsCounted = record {
    snapshot_size = length-none_taken targets;
    live_size = length-none_taken lives;
    snapshot_counts = λ i. ap one_if (sym (none_taken-free targets i));
    live_counts = λ j. ap one_if (sym (none_taken-free lives j));
  }

  candidates-IsPair : All (IsPair fpu threshold w targets lives 0 0) candidates
  candidates-IsPair =
      All-sort fpu (IsPair fpu threshold w targets lives 0 0)
        (all_candidates fpu threshold w 0 targets lives)
        (all_candidates-IsPair fpu threshold w 0 targets lives)

  candidates-InRange : All (InRange (length targets) (length lives)) candidates
  candidates-InRange =
      All-map
        (λ c p. (
          subst (λ z. z < length targets) (sym p.at_i)
              (zero_plus p.i (length targets) (get_elem?-lt targets p.i p.has_target)),
          subst (λ z. z < length lives) (sym p.at_j)
              (zero_plus p.j (length lives) (get_elem?-lt lives p.j p.has_live)),
        ))
        candidates candidates-IsPair
    where
      zero_plus : (a b : ℕ) → a < b → 0 + a < b
      zero_plus a b h = omega arith

  assigned-IsCounted :
      IsCounted (length targets) (length lives) (assigned fpu targets lives threshold w)
  unfolding assigned
  assigned-IsCounted =
      assign-IsCounted (length targets) (length lives) candidates before candidates-InRange
        before-IsCounted

  one_of : (a b : ℕ) (t : Bool) → a ≡ one_if t → b ≡ one_if (not t) → a + b ≡ 1
  one_of a b true h k = omega arith
  one_of a b false h k = omega arith

  -- Each saved window is either in exactly one match or listed exactly once as unmatched, and so
  -- is each live window.
  pub match_windows-partition :
      ((i : ℕ)
        → i < length targets
        → count_if (on_snapshot i) (match_windows fpu targets lives threshold w).matches
            + count_if
                (λ n. n == i)
                (match_windows fpu targets lives threshold w).unmatched_snapshot
          ≡ 1)
      × ((j : ℕ)
          → j < length lives
          → count_if (on_live j) (match_windows fpu targets lives threshold w).matches
              + count_if (λ n. n == j) (match_windows fpu targets lives threshold w).unmatched_live
            ≡ 1)
  unfolding match_windows
  match_windows-partition =
      let s = assigned fpu targets lives threshold w in
      let h = assigned-IsCounted in
      (
        λ i k.
            one_of (count_if (on_snapshot i) s.matches)
              (count_if (λ n. n == i) (untaken 0 s.snapshot_taken))
              (get_or s.snapshot_taken i false) (h.snapshot_counts i)
              (untaken-count 0 i i s.snapshot_taken (omega arith)
                (subst (λ z. i < z) (sym h.snapshot_size) k)),
        λ j k.
            one_of (count_if (on_live j) s.matches)
              (count_if (λ n. n == j) (untaken 0 s.live_taken)) (get_or s.live_taken j false)
              (h.live_counts j)
              (untaken-count 0 j j s.live_taken (omega arith)
                (subst (λ z. j < z) (sym h.live_size) k)),
      )

  -- Each match names a saved and a live window that are there, with their score, and the score
  -- reaches the threshold.
  pub match_windows-IsPair :
      All
        (IsPair fpu threshold w targets lives 0 0)
        (match_windows fpu targets lives threshold w).matches
  unfolding match_windows assigned
  match_windows-IsPair =
      assign-All (IsPair fpu threshold w targets lives 0 0) candidates before candidates-IsPair tt

  -- No pair is overlooked: of a saved and a live window whose score reaches the threshold, at least
  -- one is matched.
  pub match_windows_complete :
      (i j : ℕ) (x l : WindowInfo)
      → get_elem? targets i ≡ some x
      → get_elem? lives j ≡ some l
      → fpu.le threshold (score fpu x l w) ≡ true
      → 1
        ≤ count_if (on_snapshot i) (match_windows fpu targets lives threshold w).matches
          + count_if (on_live j) (match_windows fpu targets lives threshold w).matches
  unfolding match_windows assigned
  match_windows_complete i j x l h k e =
      let s = assigned fpu targets lives threshold w in
      let counted = assigned-IsCounted in
      let settled =
        (assign-Settled (length targets) (length lives) candidates before candidates-InRange
            before-IsCounted).1
          (pair_at fpu threshold w i j x l)
          (Member-sort fpu (all_candidates fpu threshold w 0 targets lives) (
            subst
              (λ n.
                Member (pair_at fpu threshold w n j x l)
                  (all_candidates fpu threshold w 0 targets lives))
              (zero_plus i)
              (all_candidates-Member fpu threshold w 0 i x targets j l lives h k e))) in
      some_taken (count_if (on_snapshot i) s.matches) (count_if (on_live j) s.matches)
        (get_or s.snapshot_taken i false) (get_or s.live_taken j false) (counted.snapshot_counts i)
        (counted.live_counts j) settled
    where
      zero_plus : (n : ℕ) → 0 + n ≡ n
      zero_plus n = omega arith

      some_taken :
          (a b : ℕ) (p q : Bool) → a ≡ one_if p → b ≡ one_if q → (p || q) ≡ true → 1 ≤ a + b
      some_taken a b true q f g z = omega arith
      some_taken a b false true f g z = omega arith
      some_taken a b false false f g z = cc
