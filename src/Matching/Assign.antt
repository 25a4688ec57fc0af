-- ===== src/Matching/Assign.antt =====
-- `match_windows` of src/core/matching.cpp: pairs above the threshold are taken in the order of
-- their scores, each window once. `std::sort` by the code's order is an insertion sort by it.
pub mod Kept
pub mod Sorted
pub mod Pairs
pub mod Settled
pub mod Complete
-- `Match`, and the local struct `Candidate`, which has the same fields.
use contextsnap.Base.{
  Bool, List, [], false, get_or, if◌then◌else◌, ltb, not, suc, true, zero, ℕ, ◌++◌, ◌+◌, ◌==◌, ◌||◌,
  ◌∷◌,
}
use contextsnap.Base.Double.{Double, Fpu}
use contextsnap.Types.{WindowInfo}
use contextsnap.Matching.Similarity.{Weights, score}

pub record Match : Type 0 where
  pub snapshot_index : ℕ
  pub live_index : ℕ
  pub score : Double

pub record MatchResult : Type 0 where
  pub matches : List Match
  pub unmatched_snapshot : List ℕ
  pub unmatched_live : List ℕ

-- Writing to a `std::vector<bool>`.
unfoldable pub set_at : List Bool → ℕ → List Bool
set_at [] i = []
set_at (b ∷ bs) zero = true ∷ bs
set_at (b ∷ bs) (suc i) = b ∷ set_at bs i

unfoldable pub none_taken {ℓ} : {A : Type ℓ} → List A → List Bool
none_taken [] = []
none_taken (x ∷ xs) = false ∷ none_taken xs

-- The state of the greedy loop.
pub record Assigned : Type 0 where
  pub matches : List Match
  pub snapshot_taken : List Bool
  pub live_taken : List Bool

unfoldable pub assign_step : Match → Assigned → Assigned
unfolding set_at
assign_step c s =
    if get_or s.snapshot_taken c.snapshot_index false || get_or s.live_taken c.live_index false
    then s
    else record {
      matches = s.matches ++ c ∷ [];
      snapshot_taken = set_at s.snapshot_taken c.snapshot_index;
      live_taken = set_at s.live_taken c.live_index;
    }

unfoldable pub assign : List Match → Assigned → Assigned
unfolding assign_step
assign [] s = s
assign (c ∷ cs) s = assign cs (assign_step c s)

-- The indices that are not taken, from `i` on.
unfoldable pub untaken : ℕ → List Bool → List ℕ
untaken i [] = []
untaken i (b ∷ bs) = let rest = untaken (i + 1) bs in if b then rest else i ∷ rest

module _ (fpu : Fpu) where
  -- The order of the sort.
  unfoldable pub comes_before : Match → Match → Bool
  comes_before a b =
      if not (fpu.eq a.score b.score)
      then fpu.lt b.score a.score
      else if not (a.snapshot_index == b.snapshot_index)
      then ltb a.snapshot_index b.snapshot_index
      else ltb a.live_index b.live_index

  unfoldable pub insert : Match → List Match → List Match
  unfolding comes_before
  insert c [] = c ∷ []
  insert c (d ∷ ds) = let rest = insert c ds in if comes_before c d then c ∷ d ∷ ds else d ∷ rest

  unfoldable pub sort : List Match → List Match
  unfolding insert
  sort [] = []
  sort (c ∷ cs) = insert c (sort cs)

  -- The two loops over the windows: the candidates of a saved window, and of all.
  unfoldable pub row_candidates :
      Double → Weights → ℕ → WindowInfo → ℕ → List WindowInfo → List Match
  unfolding score
  row_candidates threshold w i target j [] = []
  row_candidates threshold w i target j (live ∷ lives) =
      let rest = row_candidates threshold w i target (j + 1) lives in
      let v = score fpu target live w in
      if fpu.le threshold v
      then record { snapshot_index = i; live_index = j; score = v } ∷ rest
      else rest

  unfoldable pub all_candidates :
      Double → Weights → ℕ → List WindowInfo → List WindowInfo → List Match
  unfolding row_candidates
  all_candidates threshold w i [] lives = []
  all_candidates threshold w i (target ∷ targets) lives =
      row_candidates threshold w i target 0 lives
      ++ all_candidates threshold w (i + 1) targets lives

  unfoldable pub assigned : List WindowInfo → List WindowInfo → Double → Weights → Assigned
  unfolding all_candidates sort assign none_taken
  assigned snapshot_windows live_windows threshold w =
      assign (sort (all_candidates threshold w 0 snapshot_windows live_windows)) (record {
        matches = [];
        snapshot_taken = none_taken snapshot_windows;
        live_taken = none_taken live_windows;
      })

  unfoldable pub match_windows : List WindowInfo → List WindowInfo → Double → Weights → MatchResult
  unfolding assigned untaken
  match_windows snapshot_windows live_windows threshold w =
      let s = assigned snapshot_windows live_windows threshold w in
      record {
        matches = s.matches;
        unmatched_snapshot = untaken 0 s.snapshot_taken;
        unmatched_live = untaken 0 s.live_taken;
      }
