-- ===== src/Geometry/Monitors/Remap.antt =====
-- Where `remap_frame` of src/core/geometry.cpp puts a captured frame.
use contextsnap.Base.{
  ==_refl, All, All-Member, Bool, Bool-cases, Bytes, List, Member, Option, [], all, arith, bytes_eq,
  bytes_eq_refl, eq_of_bytes_eq, false, here, inl, inr, length, none, refl, some, subst, sym, there,
  true, ◌&&◌, ◌==◌, ◌∷◌, ◌≡◌, ◌≢◌, ◌⊎◌, ap, ◌∙◌,
}
use contextsnap.Base.Int.{ℤ}
use contextsnap.Types.{MonitorInfo, Rect}
use contextsnap.Geometry.{empty, int_eq, rect_eq, area, clamp_into}
use contextsnap.Geometry.Monitors.{
  RemapResult, best_match, find_monitor_if, layouts_equivalent, matches_layout, primary_monitor,
  remap_between, remap_frame, remap_to_primary, same_geometry, unchanged_at, usable_area,
  with_source, or_else, owning_monitor,
}
use contextsnap.Base.Double.{Double, Fpu}
use contextsnap.Geometry.Rects.{IsInside, clamp_into-IsInside}
use contextsnap.Geometry.Monitors.Choice.{
  best_match-Member, best_match-ne-none, primary_monitor-Member, primary_monitor-ne-none,
}

-- The display on which the frame was captured is there as it was: id, size, work area and dpi.
abbrev pub is_same_display : Fpu → Option MonitorInfo → MonitorInfo → Bool
is_same_display fpu none t = false
is_same_display fpu (some s) t = bytes_eq t.id s.id && (same_geometry fpu s t && (s.dpi == t.dpi))

-- The display on which the frame was captured, and the one to which it goes.
unfoldable pub source_of : Fpu → Double → Rect → Bytes → List MonitorInfo → Option MonitorInfo
source_of fpu double_max frame id captured =
    or_else (find_monitor_if (λ m. bytes_eq m.id id) captured)
      (owning_monitor fpu double_max frame captured)

abbrev pub target_of : Option MonitorInfo → List MonitorInfo → Option MonitorInfo
target_of none current = primary_monitor current
target_of (some s) current = best_match s current

-- Where a frame that was captured on `source` ends up: unchanged on a display that is as it was, and
-- inside the usable area of its new display in all other cases, if that area is not empty.
abbrev pub IsPlaced : Fpu → Rect → Option MonitorInfo → List MonitorInfo → RemapResult → Type 0
IsPlaced fpu frame source current r =
    (t : MonitorInfo) × (target_of source current ≡ some t)
    × Member t current
    × (r.monitor_id ≡ t.id)
    × (((is_same_display fpu source t ≡ true) × (r ≡ unchanged_at frame t.id))
        ⊎ ((is_same_display fpu source t ≡ false)
            × ((empty (usable_area t) ≡ true) ⊎ IsInside r.frame (usable_area t))))

clamped_or_empty : (frame area : Rect) → (empty area ≡ true) ⊎ IsInside (clamp_into frame area) area
clamped_or_empty frame area = elim (Bool-cases (empty area)) [
  | inl none_left ↦ inl none_left
  | inr usable ↦ inr (clamp_into-IsInside frame area usable).0
]

module _ (fpu : Fpu) (frame : Rect) (current : List MonitorInfo) where
  between-IsPlaced :
      (source target : MonitorInfo)
      → best_match source current ≡ some target
      → Member target current
      → IsPlaced fpu frame (some source) current (remap_between fpu frame source target)
  unfolding remap_between
  between-IsPlaced source target e mem =
      go (bytes_eq target.id source.id) refl
        (same_geometry fpu source target && (source.dpi == target.dpi)) refl
    where
      go :
          (same : Bool)
          → bytes_eq target.id source.id ≡ same
          → (as_was : Bool)
          → (same_geometry fpu source target && (source.dpi == target.dpi)) ≡ as_was
          → IsPlaced fpu frame (some source) current (remap_between fpu frame source target)
      go true k true l =
          let identical =
            ap (λ b. b && (same_geometry fpu source target && (source.dpi == target.dpi))) k ∙ l in
          rw (k, l) (target, e, mem, refl, inl (identical, refl))
      go true k false l =
          let different =
            ap (λ b. b && (same_geometry fpu source target && (source.dpi == target.dpi))) k ∙ l in
          rw (k, l) (target, e, mem, refl, inr (different, clamped_or_empty _ (usable_area target)))
      go false k as_was l =
          let different =
            ap (λ b. b && (same_geometry fpu source target && (source.dpi == target.dpi))) k in
          rw k (target, e, mem, refl, inr (different, clamped_or_empty _ (usable_area target)))

  primary-IsPlaced :
      (primary : MonitorInfo)
      → primary_monitor current ≡ some primary
      → Member primary current
      → IsPlaced fpu frame none current (remap_to_primary fpu frame primary)
  unfolding remap_to_primary
  primary-IsPlaced primary e mem =
      (primary, e, mem, refl, inr (refl, clamped_or_empty frame (usable_area primary)))

  with_source-IsPlaced :
      (n : MonitorInfo) (rest : List MonitorInfo) (id : Bytes) (o : Option MonitorInfo)
      → current ≡ n ∷ rest
      → IsPlaced fpu frame o current (with_source fpu frame id current o)
  with_source-IsPlaced n rest id none e = go (primary_monitor current) refl
    where
      go :
          (o : Option MonitorInfo)
          → primary_monitor current ≡ o
          → IsPlaced fpu frame none current
              (elim o [ none ↦ unchanged_at frame id | some p ↦ remap_to_primary fpu frame p ])
      go none h =
          absurd (subst (λ c. primary_monitor c ≢ none) (sym e) (primary_monitor-ne-none n rest) h)
      go (some p) h = primary-IsPlaced p h (primary_monitor-Member current p h)
  with_source-IsPlaced n rest id (some source) e = go (best_match source current) refl
    where
      go :
          (o : Option MonitorInfo)
          → best_match source current ≡ o
          → IsPlaced fpu frame
              (some source)
              current
              (elim o [ none ↦ unchanged_at frame id | some t ↦ remap_between fpu frame source t ])
      go none h =
          absurd
            (subst (λ c. best_match source c ≢ none) (sym e) (best_match-ne-none source n rest) h)
      go (some t) h = between-IsPlaced source t h (best_match-Member source t current h)

-- Where there is a monitor, a remapped frame goes to the monitor of the current layout that matches
-- the one on which it was captured best, or to the primary one if there was none. If that is the
-- display of the capture with its size, work area and dpi, the frame is unchanged and no flag is
-- set; in every other case the frame lies inside the usable area of that monitor, unless that area
-- is empty.
pub remap_frame-IsPlaced :
    (fpu : Fpu) (double_max : Double) (frame : Rect) (id : Bytes)
    (captured current : List MonitorInfo)
    → current ≢ []
    → IsPlaced fpu frame
        (source_of fpu double_max frame id captured)
        current
        (remap_frame fpu double_max frame id captured current)
unfolding remap_frame source_of
remap_frame-IsPlaced fpu double_max frame id captured [] some_there = absurd (some_there refl)
remap_frame-IsPlaced fpu double_max frame id captured (n ∷ rest) some_there =
    with_source-IsPlaced fpu frame (n ∷ rest) n rest id _ refl

-- No two monitors of the layout have one id.
abbrev pub DistinctIds : List MonitorInfo → Type 0
DistinctIds [] = Unit
DistinctIds (m ∷ ms) = All (λ n. n.id ≢ m.id) ms × DistinctIds ms

find_by_id :
    (ms : List MonitorInfo) (m : MonitorInfo)
    → DistinctIds ms
    → Member m ms
    → find_monitor_if (λ n. bytes_eq n.id m.id) ms ≡ some m
unfolding find_monitor_if
find_by_id [] m d h = elim h [ ]
find_by_id (n ∷ ms) m d (here e) = rw e (rw (bytes_eq_refl n.id))
find_by_id (n ∷ ms) m (far, d) (there h) = elim (Bool-cases (bytes_eq n.id m.id)) [
  | inl same ↦ absurd (All-Member (λ k. k.id ≢ n.id) far h (sym (eq_of_bytes_eq n.id m.id same)))
  | inr apart ↦ rw apart (find_by_id ms m d h)
]

int_eq_refl : (a : ℤ) → int_eq a a ≡ true
int_eq_refl a = ground arith

rect_eq_refl : (r : Rect) → rect_eq r r ≡ true
unfolding rect_eq
rect_eq_refl r =
    rw (int_eq_refl r.x) (rw (int_eq_refl r.y) (rw (int_eq_refl r.width) (int_eq_refl r.height)))

matches_self : (m : MonitorInfo) → matches_layout m (some m) ≡ true
matches_self m = rw (rect_eq_refl m.bounds) (rw (rect_eq_refl m.work_area) (==_refl m.dpi))

-- A layout whose monitors have ids of their own is equivalent to itself, so an unchanged display
-- setup is recognised as such.
pub layouts_equivalent_refl :
    (ms : List MonitorInfo) → DistinctIds ms → layouts_equivalent ms ms ≡ true
unfolding layouts_equivalent best_match
layouts_equivalent_refl ms d = rw (==_refl (length ms)) (each ms (λ m h. h))
  where
    each :
        (some_of : List MonitorInfo)
        → ((m : MonitorInfo) → Member m some_of → Member m ms)
        → all (λ m. matches_layout m (best_match m ms)) some_of ≡ true
    each [] inside = refl
    each (m ∷ rest) inside =
        rw (find_by_id ms m d (inside m (here refl)))
          (rw (matches_self m) (each rest (λ n h. inside n (there h))))
