-- ===== src/Matching/Similarity.antt =====
-- The scores of src/core/matching.cpp, in doubles.
use contextsnap.Base.{
  Bool, Bytes, List, Option, [], any, bytes_eq, get_or, if◌then◌else◌, is_empty, length, ltb, max,
  min, none, not, some, suc, zero, ℕ, ◌&&◌, ◌++◌, ◌+◌, ◌-◌, ◌==◌, ◌||◌, ◌∷◌,
}
use contextsnap.Base.Int.{pos, ℤ, ◌*ℤ◌, ◌+ℤ◌}
use contextsnap.Base.Double.{Double, Fpu, dclamp, dmax}
use contextsnap.Types.{ProcessInfo, Rect, WindowInfo}
use contextsnap.Geometry.{area, empty, intersection_area}
use contextsnap.Matching.Text.{count_if, normalize_app_id, normalize_title, tokenize}

pub record Weights : Type 0 where
  pub app_id : Double
  pub executable_path : Double
  pub window_class : Double
  pub title_similarity : Double
  pub geometry_proximity : Double
  pub workspace : Double

-- The cells of a row of the alignment table, on the row above and the one above that.
abbrev pub cell : Bytes → Bytes → ℕ → ℕ → List ℕ → List ℕ → List ℕ → ℕ
cell a b i j before_previous previous current =
    let cost = if get_or a (i - 1) 0 == get_or b (j - 1) 0 then 0 else 1 in
    let v =
      min (min (get_or current (j - 1) 0 + 1) (get_or previous j 0 + 1))
        (get_or previous (j - 1) 0 + cost) in
    if ltb 1 i
      && ltb 1 j
      && get_or a (i - 1) 0 == get_or b (j - 2) 0
      && get_or a (i - 2) 0 == get_or b (j - 1) 0
    then min v (get_or before_previous (j - 2) 0 + 1)
    else v

-- The inner loop: `k` cells are still to be computed, that of column `j` next.
unfoldable pub row_loop : Bytes → Bytes → ℕ → ℕ → ℕ → List ℕ → List ℕ → List ℕ → List ℕ
row_loop a b i zero j before_previous previous current = current
row_loop a b i (suc k) j before_previous previous current =
    row_loop a b i k (j + 1) before_previous previous
      (current ++ cell a b i j before_previous previous current ∷ [])

-- The outer loop.
unfoldable pub rows_loop : Bytes → Bytes → ℕ → ℕ → List ℕ → List ℕ → List ℕ
unfolding row_loop
rows_loop a b zero i before_previous previous = previous
rows_loop a b (suc k) i before_previous previous =
    rows_loop a b k (i + 1) previous (row_loop a b i (length b) 1 before_previous previous (i ∷ []))

unfoldable pub count_up : ℕ → ℕ → List ℕ
count_up zero i = []
count_up (suc k) i = i ∷ count_up k (i + 1)

unfoldable pub alignment_distance : Bytes → Bytes → ℕ
unfolding rows_loop count_up
alignment_distance a b =
    get_or (rows_loop a b (length a) 1 [] (count_up (length b + 1) 0)) (length b) 0

abbrev pub is_token : List Bytes → Bytes → Bool
is_token tokens token = any (bytes_eq token) tokens

-- The `std::set` of the tokens: each is kept once.
unfoldable pub token_set : List Bytes → List Bytes
token_set [] = []
token_set (t ∷ ts) = let rest = token_set ts in if is_token ts t then rest else t ∷ rest

abbrev pub text_or_empty : Option Bytes → Bytes
text_or_empty none = []
text_or_empty (some s) = s

module _ (fpu : Fpu) where
  abbrev real : ℕ → Double
  real n = fpu.of_int (pos n)

  abbrev one : Double
  one = fpu.decimal 1 0

  abbrev nought : Double
  nought = fpu.decimal 0 0

  unfoldable pub string_similarity : Bytes → Bytes → Double
  unfolding alignment_distance
  string_similarity a b =
      if bytes_eq a b
      then one
      else if is_empty a || is_empty b
      then nought
      else fpu.sub one (fpu.div (real (alignment_distance a b)) (real (max (length a) (length b))))

  unfoldable pub title_similarity : Bytes → Bytes → Double
  unfolding normalize_title tokenize token_set count_if string_similarity
  title_similarity a b =
      let words_a = tokenize (normalize_title a) in
      let words_b = tokenize (normalize_title b) in
      let set_a = token_set words_a in
      let set_b = token_set words_b in
      let shared = count_if (is_token set_b) set_a in
      let jaccard = fpu.div (real shared) (real (length set_a + length set_b - shared)) in
      if is_empty words_a && is_empty words_b
      then one
      else if is_empty words_a || is_empty words_b
      then nought
      else fpu.add (fpu.mul (fpu.decimal 75 2) jaccard)
          (fpu.mul (fpu.decimal 25 2) (string_similarity (normalize_title a) (normalize_title b)))

  abbrev middle : ℤ → ℤ → Double
  middle at len = fpu.add (fpu.of_int at) (fpu.div (fpu.of_int len) (fpu.decimal 20 1))

  unfoldable pub closeness : Rect → Rect → Double
  unfolding dmax
  closeness a b =
      let dx = fpu.sub (middle a.x a.width) (middle b.x b.width) in
      let dy = fpu.sub (middle a.y a.height) (middle b.y b.height) in
      let distance = fpu.sqrt (fpu.add (fpu.mul dx dx) (fpu.mul dy dy)) in
      let diagonal = fpu.sqrt (fpu.of_int (a.width *ℤ a.width +ℤ a.height *ℤ a.height)) in
      if fpu.lt nought diagonal
      then dmax fpu nought (fpu.sub one (fpu.div distance diagonal))
      else nought

  unfoldable pub geometry_proximity : Rect → Rect → Double
  unfolding empty intersection_area area closeness
  geometry_proximity a b =
      let overlap = fpu.of_int (intersection_area a b) in
      let union_area = fpu.sub (fpu.of_int (area a +ℤ area b)) overlap in
      if empty a || empty b
      then nought
      else if fpu.le union_area nought
      then nought
      else fpu.add (fpu.mul (fpu.decimal 6 1) (fpu.div overlap union_area))
          (fpu.mul (fpu.decimal 4 1) (closeness a b))

  -- The name that an application goes by.
  unfoldable pub app_of : ProcessInfo → Bytes
  unfolding normalize_app_id
  app_of p = normalize_app_id (if is_empty p.app_id then p.executable_path else p.app_id)

  -- The sum of the six signals, in the code's order.
  unfoldable pub total_score : Bool → WindowInfo → WindowInfo → Weights → Double
  unfolding app_of string_similarity normalize_app_id title_similarity geometry_proximity
  total_score same_app target candidate w =
      let app =
        if same_app
        then one
        else string_similarity (app_of target.process) (app_of candidate.process) in
      let path =
        if bytes_eq target.process.executable_path candidate.process.executable_path
        then one
        else string_similarity (normalize_app_id target.process.executable_path)
            (normalize_app_id candidate.process.executable_path) in
      let class =
        if bytes_eq target.window_class candidate.window_class
        then one
        else string_similarity target.window_class candidate.window_class in
      let place =
        if bytes_eq (text_or_empty target.workspace_id) (text_or_empty candidate.workspace_id)
        then one
        else nought in
      let t1 = fpu.add nought (fpu.mul w.app_id app) in
      let t2 = fpu.add t1 (fpu.mul w.executable_path path) in
      let t3 = fpu.add t2 (fpu.mul w.window_class class) in
      let t4 =
        fpu.add t3 (fpu.mul w.title_similarity (title_similarity target.title candidate.title)) in
      let t5 =
        fpu.add t4
          (fpu.mul w.geometry_proximity (geometry_proximity target.frame candidate.frame)) in
      fpu.add t5 (fpu.mul w.workspace place)

  unfoldable pub score : WindowInfo → WindowInfo → Weights → Double
  unfolding app_of string_similarity total_score dmax dclamp
  score target candidate w =
      let target_app = app_of target.process in
      let candidate_app = app_of candidate.process in
      let same_app = not (is_empty target_app) && bytes_eq target_app candidate_app in
      let total = total_score same_app target candidate w in
      if not same_app
        && not (is_empty target_app)
        && not (is_empty candidate_app)
        && fpu.lt (string_similarity target_app candidate_app) (fpu.decimal 8 1)
      then nought
      else if same_app && bytes_eq target.title candidate.title && not (is_empty target.title)
      then one
      else dclamp fpu (if same_app then dmax fpu total (fpu.decimal 60 2) else total) nought one
