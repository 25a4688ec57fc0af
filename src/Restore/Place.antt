-- ===== src/Restore/Place.antt =====
-- `clamp_to_monitors` and `best_live_match` of src/core/restore_engine.cpp.
use contextsnap.Base.{
  Bool, List, Member, [], false, here, if◌then◌else◌, refl, there, true, ◌∷◌, Option, and_parts,
  any, bytes_eq, eq_of_bytes_eq, is_empty, none, not, some, some_eq, subst, sym, ℕ, ◌&&◌, ◌==◌, ◌≡◌,
}
use contextsnap.Base.Int.{ltb_ℤ, negsuc, pos, ℤ, ◌*ℤ◌, ◌+ℤ◌, ◌-ℤ◌, ◌≤ℤ◌, int_laws}
use contextsnap.Types.{MonitorInfo, Rect, WindowInfo}
use contextsnap.Geometry.{bottom, int_max, int_min, right}
use contextsnap.Base.Double.{Double, Fpu}
use contextsnap.Geometry.Rects.{IsInside, max_lem, min_lem}
use contextsnap.Matching.Text.{normalize_app_id}
use contextsnap.Matching.Similarity.{geometry_proximity, title_similarity}

-- The overlap with a work area, from the four edges.
unfoldable pub reachable_area : Rect → Rect → ℤ
unfolding int_max int_min right bottom
reachable_area frame work =
    int_max (pos 0) (int_min (right frame) (right work) -ℤ int_max frame.x work.x)
    *ℤ int_max (pos 0) (int_min (bottom frame) (bottom work) -ℤ int_max frame.y work.y)

-- The loop, with `target` and `best_overlap`.
unfoldable pub target_loop : Rect → MonitorInfo → ℤ → List MonitorInfo → MonitorInfo
unfolding reachable_area
target_loop frame target best [] = target
target_loop frame target best (m ∷ ms) =
    let overlap = reachable_area frame m.work_area in
    let taken = target_loop frame m overlap ms in
    let kept = target_loop frame target best ms in if ltb_ℤ best overlap then taken else kept

unfoldable pub move_into : Rect → Rect → Rect
unfolding int_max int_min right bottom
move_into frame work =
    let w = int_min frame.width work.width in
    let h = int_min frame.height work.height in
    record {
      x = int_min (int_max frame.x work.x) (right work -ℤ w);
      y = int_min (int_max frame.y work.y) (bottom work -ℤ h);
      width = w;
      height = h;
    }

unfoldable pub clamp_to_monitors : Rect → List MonitorInfo → Rect
unfolding target_loop move_into
clamp_to_monitors frame [] = frame
clamp_to_monitors frame (m ∷ ms) =
    move_into frame (target_loop frame m (negsuc 0) (m ∷ ms)).work_area

target_loop-Member :
    (frame : Rect) (target : MonitorInfo) (best : ℤ) (ms : List MonitorInfo)
    → Member (target_loop frame target best ms) (target ∷ ms)
unfolding target_loop
target_loop-Member frame target best [] = here refl
target_loop-Member frame target best (m ∷ ms) =
    go (ltb_ℤ best (reachable_area frame m.work_area))
      (target_loop-Member frame m (reachable_area frame m.work_area) ms)
      (target_loop-Member frame target best ms)
  where
    behind : {a : MonitorInfo} → Member a (target ∷ ms) → Member a (target ∷ m ∷ ms)
    behind (here e) = here e
    behind (there k) = there (there k)

    go :
        (b : Bool)
        → Member (target_loop frame m (reachable_area frame m.work_area) ms) (m ∷ ms)
        → Member (target_loop frame target best ms) (target ∷ ms)
        → Member
            (if b
              then target_loop frame m (reachable_area frame m.work_area) ms
              else target_loop frame target best ms)
            (target ∷ m ∷ ms)
    go true k n = there k
    go false k n = behind n

-- One axis: the length is cut to the work area's, so there is room for it.
moved_axis :
    (at len start whole : ℤ)
    → (start ≤ℤ int_min (int_max at start) (start +ℤ whole -ℤ int_min len whole))
      × (int_min (int_max at start) (start +ℤ whole -ℤ int_min len whole) +ℤ int_min len whole
          ≤ℤ start +ℤ whole)
moved_axis at len start whole =
    let w = int_min len whole in
    let room : start ≤ℤ start +ℤ whole -ℤ w = omega (int_laws, min_lem len whole) in
    (
      omega (int_laws, room, max_lem at start, min_lem (int_max at start) (start +ℤ whole -ℤ w)),
      omega (int_laws, min_lem (int_max at start) (start +ℤ whole -ℤ w)),
    )

move_into-IsInside : (frame work : Rect) → IsInside (move_into frame work) work
unfolding move_into right bottom
move_into-IsInside frame work =
    let (l, r) = moved_axis frame.x frame.width work.x work.width in
    let (t, b) = moved_axis frame.y frame.height work.y work.height in
    record { left_edge = l; top_edge = t; right_edge = r; bottom_edge = b }

-- Where there is a monitor, the frame that a window is restored to lies inside the work area of one
-- of the monitors, and is no larger than the frame that was saved.
pub clamp_to_monitors-IsInside :
    (frame : Rect) (monitors : List MonitorInfo)
    → is_empty monitors ≡ false
    → (m : MonitorInfo) × (Member m monitors)
      × (IsInside (clamp_to_monitors frame monitors) m.work_area)
      × ((clamp_to_monitors frame monitors).width ≤ℤ frame.width)
      × ((clamp_to_monitors frame monitors).height ≤ℤ frame.height)
unfolding clamp_to_monitors move_into
clamp_to_monitors-IsInside frame [] h = cc
clamp_to_monitors-IsInside frame (m ∷ ms) h =
    let target = target_loop frame m (negsuc 0) (m ∷ ms) in
    (
      target,
      first_twice (target_loop-Member frame m (negsuc 0) (m ∷ ms)),
      move_into-IsInside frame target.work_area,
      (min_lem frame.width target.work_area.width).0,
      (min_lem frame.height target.work_area.height).0,
    )
  where
    first_twice : {a : MonitorInfo} → Member a (m ∷ m ∷ ms) → Member a (m ∷ ms)
    first_twice (here e) = here e
    first_twice (there k) = k

module _ (fpu : Fpu) where
  pub record Choice : Type 0 where
    pub best : Option WindowInfo
    pub best_score : Double

  unfoldable pub live_score : WindowInfo → WindowInfo → Double
  unfolding title_similarity geometry_proximity
  live_score saved candidate =
      fpu.add (fpu.mul (fpu.decimal 7 1) (title_similarity fpu saved.title candidate.title))
        (fpu.mul (fpu.decimal 3 1) (geometry_proximity fpu saved.frame candidate.frame))

  -- The two tests that `continue`.
  unfoldable pub is_candidate : WindowInfo → List ℕ → WindowInfo → Bool
  unfolding normalize_app_id
  is_candidate saved already_used candidate =
      not (any (λ h. h == candidate.native_handle) already_used)
      && bytes_eq (normalize_app_id candidate.process.app_id)
          (normalize_app_id saved.process.app_id)

  unfoldable pub live_step : WindowInfo → List ℕ → WindowInfo → Choice → Choice
  unfolding is_candidate live_score
  live_step saved already_used candidate s =
      if is_candidate saved already_used candidate
        && fpu.lt s.best_score (live_score saved candidate)
      then record { best = some candidate; best_score = live_score saved candidate }
      else s

  unfoldable pub live_loop : WindowInfo → List ℕ → List WindowInfo → Choice → Choice
  unfolding live_step
  live_loop saved already_used [] s = s
  live_loop saved already_used (w ∷ ws) s =
      live_loop saved already_used ws (live_step saved already_used w s)

  unfoldable pub best_live_match : WindowInfo → List WindowInfo → List ℕ → Option WindowInfo
  unfolding live_loop
  best_live_match saved live already_used =
      let found =
        live_loop saved already_used live (record { best = none; best_score = fpu.decimal 0 0 }) in
      if fpu.le (fpu.decimal 35 2) found.best_score then found.best else none

  abbrev Fits : WindowInfo → List ℕ → Choice → Type 0
  Fits saved already_used s =
      (c : WindowInfo) → s.best ≡ some c → is_candidate saved already_used c ≡ true

  live_step-Fits :
      (saved : WindowInfo) (already_used : List ℕ) (w : WindowInfo) (s : Choice)
      → Fits saved already_used s
      → Fits saved already_used (live_step saved already_used w s)
  unfolding live_step
  live_step-Fits saved already_used w s h =
      go (is_candidate saved already_used w) refl (fpu.lt s.best_score (live_score saved w))
    where
      go :
          (a : Bool)
          → is_candidate saved already_used w ≡ a
          → (b : Bool)
          → Fits saved already_used
              (if a && b then record { best = some w; best_score = live_score saved w } else s)
      go true e true = λ c k. subst (λ x. is_candidate saved already_used x ≡ true) (some_eq k) e
      go true e false = h
      go false e b = h

  live_loop-Fits :
      (saved : WindowInfo) (already_used : List ℕ) (ws : List WindowInfo) (s : Choice)
      → Fits saved already_used s
      → Fits saved already_used (live_loop saved already_used ws s)
  unfolding live_loop
  live_loop-Fits saved already_used [] s h = h
  live_loop-Fits saved already_used (w ∷ ws) s h =
      live_loop-Fits saved already_used ws (live_step saved already_used w s)
        (live_step-Fits saved already_used w s h)

  -- The live window that a saved one is correlated with is of the same application, and none that
  -- is used already.
  pub best_live_match-eq-some :
      (saved : WindowInfo) (live : List WindowInfo) (already_used : List ℕ) (c : WindowInfo)
      → best_live_match saved live already_used ≡ some c
      → (any (λ h. h == c.native_handle) already_used ≡ false)
        × (normalize_app_id c.process.app_id ≡ normalize_app_id saved.process.app_id)
  unfolding best_live_match is_candidate
  best_live_match-eq-some saved live already_used c h =
      let found =
        live_loop saved already_used live (record { best = none; best_score = fpu.decimal 0 0 }) in
      let fits =
        live_loop-Fits saved already_used live
          (record { best = none; best_score = fpu.decimal 0 0 }) (λ x k. cc) in
      let (free, same) =
        and_parts (not (any (λ h. h == c.native_handle) already_used))
          (bytes_eq (normalize_app_id c.process.app_id) (normalize_app_id saved.process.app_id))
          (fits c (found_some (fpu.le (fpu.decimal 35 2) found.best_score) found.best h)) in
      (
        is_false (any (λ h. h == c.native_handle) already_used) free,
        eq_of_bytes_eq (normalize_app_id c.process.app_id) (normalize_app_id saved.process.app_id)
            same,
      )
    where
      found_some :
          (b : Bool) (o : Option WindowInfo) → (if b then o else none) ≡ some c → o ≡ some c
      found_some true o k = k
      found_some false o k = cc

      is_false : (b : Bool) → not b ≡ true → b ≡ false
      is_false true k = sym k
      is_false false k = refl
