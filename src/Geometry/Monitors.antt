-- ===== src/Geometry/Monitors.antt =====
-- src/core/geometry.cpp: which monitor owns a window, which monitor stands for a captured one, and
-- where a captured frame goes on the current layout.
pub mod Owner
pub mod Choice
pub mod Remap
use contextsnap.Base.{
  Bool, Bytes, List, Option, [], all, bytes_eq, false, if◌then◌else◌, is_empty, length, none, not,
  some, true, ℕ, ◌&&◌, ◌==◌, ◌||◌, ◌∷◌,
}
use contextsnap.Base.Int.{to_int32, ltb_ℤ, pos, ℤ, ◌+ℤ◌, ◌-ℤ◌}
use contextsnap.Base.Double.{Double, Fpu, dclamp}
use contextsnap.Types.{MonitorInfo, Rect}
use contextsnap.Geometry.{area, clamp_into, empty, int_eq, int_max, intersection_area, rect_eq}

unfoldable pub usable_area : MonitorInfo → Rect
unfolding empty
usable_area m = if empty m.work_area then m.bounds else m.work_area

unfoldable pub find_monitor_if : (MonitorInfo → Bool) → List MonitorInfo → Option MonitorInfo
find_monitor_if test [] = none
find_monitor_if test (m ∷ ms) = if test m then some m else find_monitor_if test ms

abbrev pub head_of : List MonitorInfo → Option MonitorInfo
head_of [] = none
head_of (m ∷ ms) = some m

abbrev pub or_else : Option MonitorInfo → Option MonitorInfo → Option MonitorInfo
or_else none b = b
or_else (some m) b = some m

unfoldable pub primary_monitor : List MonitorInfo → Option MonitorInfo
unfolding find_monitor_if
primary_monitor monitors = or_else (find_monitor_if (λ m. m.primary) monitors) (head_of monitors)

-- `std::max_element` by area: the first of the largest.
unfoldable pub largest_from : MonitorInfo → List MonitorInfo → MonitorInfo
largest_from best [] = best
largest_from best (m ∷ ms) =
    largest_from (if ltb_ℤ (area best.bounds) (area m.bounds) then m else best) ms

abbrev pub largest : List MonitorInfo → Option MonitorInfo
largest [] = none
largest (m ∷ ms) = some (largest_from m ms)

-- `a.edid_hash == b.edid_hash`, where the second is known to hold a value.
abbrev pub same_hash : Option Bytes → Option Bytes → Bool
same_hash (some h) (some k) = bytes_eq h k
same_hash none (some k) = false
same_hash (some h) none = false
same_hash none none = true

abbrev pub same_size : MonitorInfo → MonitorInfo → Bool
same_size m source =
    int_eq m.bounds.width source.bounds.width && int_eq m.bounds.height source.bounds.height

abbrev pub same_flag : Bool → Bool → Bool
same_flag true b = b
same_flag false b = not b

abbrev pub by_hash : MonitorInfo → List MonitorInfo → Option MonitorInfo
by_hash source target = elim source.edid_hash [
  | none ↦ none
  | some h ↦ find_monitor_if (λ m. same_hash m.edid_hash (some h)) target
]

-- The five rules in turn. The last two are one here: the primary, or else the largest.
unfoldable pub best_match : MonitorInfo → List MonitorInfo → Option MonitorInfo
unfolding find_monitor_if primary_monitor largest_from area
best_match source target = or_else (find_monitor_if (λ m. bytes_eq m.id source.id) target) (
    or_else (by_hash source target) (
      or_else
        (find_monitor_if (λ m. same_size m source && same_flag m.primary source.primary) target)
        (or_else (find_monitor_if (λ m. same_size m source) target)
          (or_else (primary_monitor target) (largest target)))))

abbrev pub matches_layout : MonitorInfo → Option MonitorInfo → Bool
matches_layout m none = false
matches_layout m (some match) =
    rect_eq match.bounds m.bounds && (rect_eq match.work_area m.work_area && (match.dpi == m.dpi))

unfoldable pub layouts_equivalent : List MonitorInfo → List MonitorInfo → Bool
unfolding best_match rect_eq
layouts_equivalent a b =
    if length a == length b then all (λ m. matches_layout m (best_match m b)) a else false

pub record RelativeRect : Type 0 where
  pub x : Double
  pub y : Double
  pub width : Double
  pub height : Double

pub record RemapResult : Type 0 where
  pub frame : Rect
  pub monitor_id : Bytes
  pub monitor_changed : Bool
  pub clamped : Bool
  pub rescaled : Bool

abbrev pub unchanged_at : Rect → Bytes → RemapResult
unchanged_at frame id = record {
  frame = frame;
  monitor_id = id;
  monitor_changed = false;
  clamped = false;
  rescaled = false;
}

module _ (fpu : Fpu) where
  -- The coordinate of a centre: x + width / 2.0.
  abbrev centre : ℤ → ℤ → Double
  centre at len = fpu.add (fpu.of_int at) (fpu.div (fpu.of_int len) (fpu.decimal 2 0))

  unfoldable pub centre_distance : Rect → Rect → Double
  centre_distance a b =
      let dx = fpu.sub (centre a.x a.width) (centre b.x b.width) in
      let dy = fpu.sub (centre a.y a.height) (centre b.y b.height) in
      fpu.sqrt (fpu.add (fpu.mul dx dx) (fpu.mul dy dy))

  -- The variables of the loop of `owning_monitor`.
  pub record Owning : Type 0 where
    pub best : Option MonitorInfo
    pub best_area : ℤ
    pub best_distance : Double

  unfoldable pub owning_step : Rect → MonitorInfo → Owning → Owning
  owning_step frame m s =
      let shared = intersection_area frame m.bounds in
      let distance = centre_distance frame m.bounds in
      if ltb_ℤ s.best_area shared
      then record { best = some m; best_area = shared; best_distance = distance }
      else if int_eq s.best_area (pos 0) && fpu.lt distance s.best_distance
      then record { best = some m; best_area = s.best_area; best_distance = distance }
      else s

  unfoldable pub owning_loop : Rect → List MonitorInfo → Owning → Owning
  owning_loop frame [] s = s
  owning_loop frame (m ∷ ms) s = owning_loop frame ms (owning_step frame m s)

  -- `double_max` is `std::numeric_limits<double>::max()`.
  unfoldable pub owning_monitor : Double → Rect → List MonitorInfo → Option MonitorInfo
  unfolding owning_loop owning_step
  owning_monitor double_max frame monitors =
      (owning_loop frame monitors
        (record { best = none; best_area = pos 0; best_distance = double_max })).best

  abbrev fraction : ℤ → ℤ → Double
  fraction n d = fpu.div (fpu.of_int n) (fpu.of_int d)

  abbrev one : Double
  one = fpu.decimal 1 0

  abbrev zero_d : Double
  zero_d = fpu.decimal 0 0

  -- kRelativeSlack is 0.5; its negation is written 0 - 0.5.
  abbrev slack : Double
  slack = fpu.decimal 5 1

  unfoldable pub to_relative : Rect → MonitorInfo → RelativeRect
  unfolding usable_area dclamp
  to_relative frame m =
      let at = usable_area m in
      if empty at then record { x = zero_d; y = zero_d; width = one; height = one } else record {
        x =
            dclamp fpu (fraction (frame.x -ℤ at.x) at.width) (fpu.sub zero_d slack)
              (fpu.add one slack);
        y =
            dclamp fpu (fraction (frame.y -ℤ at.y) at.height) (fpu.sub zero_d slack)
              (fpu.add one slack);
        width = dclamp fpu (fraction frame.width at.width) (fpu.decimal 1 2) (fpu.add one slack);
        height = dclamp fpu (fraction frame.height at.height) (fpu.decimal 1 2) (fpu.add one slack);
      }

  abbrev scaled : Double → ℤ → ℤ
  scaled d len = to_int32 (fpu.lround (fpu.mul d (fpu.of_int len)))

  unfoldable pub from_relative : RelativeRect → MonitorInfo → Rect
  unfolding usable_area int_max
  from_relative r m =
      let at = usable_area m in
      record {
        x = at.x +ℤ scaled r.x at.width;
        y = at.y +ℤ scaled r.y at.height;
        width = int_max (pos 1) (scaled r.width at.width);
        height = int_max (pos 1) (scaled r.height at.height);
      }

  abbrev by_factor : ℤ → Double → ℤ
  by_factor n factor = to_int32 (fpu.lround (fpu.mul (fpu.of_int n) factor))

  unfoldable pub scale_for_dpi : Rect → ℕ → ℕ → Rect
  unfolding int_max
  scale_for_dpi frame from_dpi to_dpi =
      if from_dpi == 0 || (to_dpi == 0 || from_dpi == to_dpi)
      then frame
      else let factor = fraction (pos to_dpi) (pos from_dpi) in
        record {
          x = by_factor frame.x factor;
          y = by_factor frame.y factor;
          width = int_max (pos 1) (by_factor frame.width factor);
          height = int_max (pos 1) (by_factor frame.height factor);
        }

  abbrev pub same_geometry : MonitorInfo → MonitorInfo → Bool
  same_geometry source target = same_size source target && rect_eq source.work_area target.work_area

  -- `remap_frame` from the point where `source` and `target` are known.
  unfoldable pub remap_between : Rect → MonitorInfo → MonitorInfo → RemapResult
  unfolding to_relative from_relative scale_for_dpi clamp_into usable_area
  remap_between frame source target =
      let changed = not (bytes_eq target.id source.id) in
      let rescaling = not (source.dpi == target.dpi) && same_size source target in
      let remapped =
        if rescaling
        then scale_for_dpi frame source.dpi target.dpi
        else from_relative (to_relative frame source) target in
      let inside = clamp_into remapped (usable_area target) in
      if not changed && (same_geometry source target && source.dpi == target.dpi)
      then record {
        frame = frame;
        monitor_id = target.id;
        monitor_changed = changed;
        clamped = false;
        rescaled = false;
      }
      else record {
        frame = inside;
        monitor_id = target.id;
        monitor_changed = changed;
        clamped = not (rect_eq inside remapped);
        rescaled = rescaling;
      }

  -- No captured layout at all: clamp into the primary monitor.
  unfoldable pub remap_to_primary : Rect → MonitorInfo → RemapResult
  unfolding clamp_into usable_area
  remap_to_primary frame primary =
      let inside = clamp_into frame (usable_area primary) in
      record {
        frame = inside;
        monitor_id = primary.id;
        monitor_changed = true;
        clamped = not (rect_eq inside frame);
        rescaled = false;
      }

  abbrev pub with_source : Rect → Bytes → List MonitorInfo → Option MonitorInfo → RemapResult
  with_source frame id current none = elim (primary_monitor current) [
    | none ↦ unchanged_at frame id
    | some primary ↦ remap_to_primary frame primary
  ]
  with_source frame id current (some source) = elim (best_match source current) [
    | none ↦ unchanged_at frame id
    | some target ↦ remap_between frame source target
  ]

  unfoldable pub remap_frame :
      Double → Rect → Bytes → List MonitorInfo → List MonitorInfo → RemapResult
  unfolding owning_monitor best_match primary_monitor remap_between remap_to_primary find_monitor_if
  remap_frame double_max frame captured_id captured current =
      if is_empty current
      then unchanged_at frame captured_id
      else with_source frame captured_id current (
          or_else (find_monitor_if (λ m. bytes_eq m.id captured_id) captured)
            (owning_monitor double_max frame captured))
