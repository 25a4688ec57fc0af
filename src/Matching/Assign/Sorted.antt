-- ===== src/Matching/Assign/Sorted.antt =====
-- The candidates: each of them is in range and above the threshold, and none that is is missing.
use contextsnap.Base.{
  All, Bool, List, Member, [], ap, arith, false, get_elem?, here, if◌then◌else◌, refl, some,
  some_eq, subst, suc, sym, there, true, zero, ℕ, ◌+◌, ◌∙◌, ◌∷◌, ◌≡◌,
}
use contextsnap.Base.Double.{Double, Fpu}
use contextsnap.Matching.Assign.{Match, all_candidates, row_candidates}
use contextsnap.Types.{WindowInfo}
use contextsnap.Matching.Similarity.{Weights, score}
use contextsnap.Matching.Assign.Kept.{All-append, All-map, Member-append_left, Member-append_right}

-- What the code asks of a candidate: both windows are there, and their score reaches the threshold.
module _ (fpu : Fpu) (threshold : Double) (w : Weights) where
  pub record IsPair (targets lives : List WindowInfo) (i0 j0 : ℕ) (c : Match) : Type 0 where
    pub i : ℕ
    pub j : ℕ
    pub target : WindowInfo
    pub live : WindowInfo
    pub at_i : c.snapshot_index ≡ i0 + i
    pub at_j : c.live_index ≡ j0 + j
    pub has_target : get_elem? targets i ≡ some target
    pub has_live : get_elem? lives j ≡ some live
    pub scored : c.score ≡ score fpu target live w
    pub reached : fpu.le threshold c.score ≡ true

  later_live :
      {targets lives : List WindowInfo} {x : WindowInfo} {i0 j0 : ℕ} (c : Match)
      → IsPair targets lives i0 (j0 + 1) c
      → IsPair targets (x ∷ lives) i0 j0 c
  later_live {j0 = j0} c p = record {
    i = p.i;
    j = suc p.j;
    target = p.target;
    live = p.live;
    at_i = p.at_i;
    at_j = p.at_j ∙ shift j0 p.j;
    has_target = p.has_target;
    has_live = p.has_live;
    scored = p.scored;
    reached = p.reached;
  }
    where
      shift : (a b : ℕ) → a + 1 + b ≡ a + suc b
      shift a b = omega arith

  later_target :
      {targets lives : List WindowInfo} {x : WindowInfo} {i0 j0 : ℕ} (c : Match)
      → IsPair targets lives (i0 + 1) j0 c
      → IsPair (x ∷ targets) lives i0 j0 c
  later_target {i0 = i0} c p = record {
    i = suc p.i;
    j = p.j;
    target = p.target;
    live = p.live;
    at_i = p.at_i ∙ shift i0 p.i;
    at_j = p.at_j;
    has_target = p.has_target;
    has_live = p.has_live;
    scored = p.scored;
    reached = p.reached;
  }
    where
      shift : (a b : ℕ) → a + 1 + b ≡ a + suc b
      shift a b = omega arith

  row_candidates-IsPair :
      (i0 : ℕ) (x : WindowInfo) (targets : List WindowInfo) (j0 : ℕ) (lives : List WindowInfo)
      → All (IsPair (x ∷ targets) lives i0 j0) (row_candidates fpu threshold w i0 x j0 lives)
  unfolding row_candidates
  row_candidates-IsPair i0 x targets j0 [] = tt
  row_candidates-IsPair i0 x targets j0 (l ∷ lives) = go (fpu.le threshold (score fpu x l w)) refl (
      All-map (λ c p. later_live c p) (row_candidates fpu threshold w i0 x (j0 + 1) lives)
        (row_candidates-IsPair i0 x targets (j0 + 1) lives))
    where
      plus_zero : (n : ℕ) → n ≡ n + 0
      plus_zero n = omega arith

      go :
          (b : Bool)
          → fpu.le threshold (score fpu x l w) ≡ b
          → All
              (IsPair (x ∷ targets) (l ∷ lives) i0 j0)
              (row_candidates fpu threshold w i0 x (j0 + 1) lives)
          → All (IsPair (x ∷ targets) (l ∷ lives) i0 j0) (
              if b
              then record { snapshot_index = i0; live_index = j0; score = score fpu x l w }
                ∷ row_candidates fpu threshold w i0 x (j0 + 1) lives
              else row_candidates fpu threshold w i0 x (j0 + 1) lives)
      go false e more = more
      go true e more = (
        record {
          i = 0;
          j = 0;
          target = x;
          live = l;
          at_i = plus_zero i0;
          at_j = plus_zero j0;
          has_target = refl;
          has_live = refl;
          scored = refl;
          reached = e;
        },
        more,
      )

  pub all_candidates-IsPair :
      (i0 : ℕ) (targets lives : List WindowInfo)
      → All (IsPair targets lives i0 0) (all_candidates fpu threshold w i0 targets lives)
  unfolding all_candidates
  all_candidates-IsPair i0 [] lives = tt
  all_candidates-IsPair i0 (x ∷ targets) lives =
      All-append (IsPair (x ∷ targets) lives i0 0) (row_candidates fpu threshold w i0 x 0 lives)
        (all_candidates fpu threshold w (i0 + 1) targets lives)
        (row_candidates-IsPair i0 x targets 0 lives)
        (All-map (λ c p. later_target c p) (all_candidates fpu threshold w (i0 + 1) targets lives)
          (all_candidates-IsPair (i0 + 1) targets lives))

  abbrev pub pair_at : ℕ → ℕ → WindowInfo → WindowInfo → Match
  pair_at i j x l = record { snapshot_index = i; live_index = j; score = score fpu x l w }

  row_candidates-Member :
      (i0 : ℕ) (x : WindowInfo) (j0 j : ℕ) (l : WindowInfo) (lives : List WindowInfo)
      → get_elem? lives j ≡ some l
      → fpu.le threshold (score fpu x l w) ≡ true
      → Member (pair_at i0 (j0 + j) x l) (row_candidates fpu threshold w i0 x j0 lives)
  unfolding row_candidates
  row_candidates-Member i0 x j0 j l [] h k = cc
  row_candidates-Member i0 x j0 zero l (y ∷ lives) h k =
      subst
        (λ z.
          fpu.le threshold (score fpu x z w) ≡ true
          → Member (pair_at i0 (j0 + 0) x z) (
              if fpu.le threshold (score fpu x y w)
              then pair_at i0 j0 x y ∷ row_candidates fpu threshold w i0 x (j0 + 1) lives
              else row_candidates fpu threshold w i0 x (j0 + 1) lives))
        (some_eq h) (λ e. go (fpu.le threshold (score fpu x y w)) e) k
    where
      plus_zero : (n : ℕ) → n + 0 ≡ n
      plus_zero n = omega arith

      go :
          (b : Bool)
          → b ≡ true
          → Member (pair_at i0 (j0 + 0) x y) (
              if b
              then pair_at i0 j0 x y ∷ row_candidates fpu threshold w i0 x (j0 + 1) lives
              else row_candidates fpu threshold w i0 x (j0 + 1) lives)
      go true e = here (ap (λ n. pair_at i0 n x y) (plus_zero j0))
      go false e = cc
  row_candidates-Member i0 x j0 (suc j) l (y ∷ lives) h k =
      subst
        (λ n. Member (pair_at i0 n x l) (
          if fpu.le threshold (score fpu x y w)
          then pair_at i0 j0 x y ∷ row_candidates fpu threshold w i0 x (j0 + 1) lives
          else row_candidates fpu threshold w i0 x (j0 + 1) lives))
        (shift j0 j)
        (go (fpu.le threshold (score fpu x y w))
          (row_candidates-Member i0 x (j0 + 1) j l lives h k))
    where
      shift : (a b : ℕ) → a + 1 + b ≡ a + suc b
      shift a b = omega arith

      go :
          {c : Match} (b : Bool)
          → Member c (row_candidates fpu threshold w i0 x (j0 + 1) lives)
          → Member c (
              if b
              then pair_at i0 j0 x y ∷ row_candidates fpu threshold w i0 x (j0 + 1) lives
              else row_candidates fpu threshold w i0 x (j0 + 1) lives)
      go true m = there m
      go false m = m

  pub all_candidates-Member :
      (i0 i : ℕ) (x : WindowInfo) (targets : List WindowInfo) (j : ℕ) (l : WindowInfo)
      (lives : List WindowInfo)
      → get_elem? targets i ≡ some x
      → get_elem? lives j ≡ some l
      → fpu.le threshold (score fpu x l w) ≡ true
      → Member (pair_at (i0 + i) j x l) (all_candidates fpu threshold w i0 targets lives)
  unfolding all_candidates
  all_candidates-Member i0 i x [] j l lives h e k = cc
  all_candidates-Member i0 zero x (y ∷ targets) j l lives h e k =
      Member-append_left (all_candidates fpu threshold w (i0 + 1) targets lives) (
        subst (λ z. Member (pair_at (i0 + 0) j x l) (row_candidates fpu threshold w i0 z 0 lives))
          (sym (some_eq h))
          (subst (λ n. Member (pair_at n j x l) (row_candidates fpu threshold w i0 x 0 lives))
            (plus_zero i0)
            (subst (λ n. Member (pair_at i0 n x l) (row_candidates fpu threshold w i0 x 0 lives))
              (zero_plus j) (row_candidates-Member i0 x 0 j l lives e k))))
    where
      plus_zero : (n : ℕ) → n ≡ n + 0
      plus_zero n = omega arith

      zero_plus : (n : ℕ) → 0 + n ≡ n
      zero_plus n = omega arith
  all_candidates-Member i0 (suc i) x (y ∷ targets) j l lives h e k =
      Member-append_right (row_candidates fpu threshold w i0 y 0 lives) (
        subst
          (λ n. Member (pair_at n j x l) (all_candidates fpu threshold w (i0 + 1) targets lives))
          (shift i0 i) (all_candidates-Member (i0 + 1) i x targets j l lives h e k))
    where
      shift : (a b : ℕ) → a + 1 + b ≡ a + suc b
      shift a b = omega arith
